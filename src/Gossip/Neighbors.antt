-- ===== src/Gossip/Neighbors.antt =====
-- gdiroh/src/gossip.rs: what a topic's owner learns of its neighbours, and of its end.
use gdiroh.Prelude.{
  ℕ, ◌≡◌, refl, ◌||◌, ◌&&◌, none, some, Bool-cases, inl, inr, List, [], ◌∷◌, ◌++◌, Bool, true,
  false, if◌then◌else◌, ◌==◌, nat_eq, contains, contains-set_insert, contains-set_remove, arith,
  goes_on, ends_once, goes_on-append, ends_once-append,
}
use gdiroh.Gossip.{
  Event, neighbor_up, neighbor_down, message, lagged, closed, SwarmEvent, came, went, received,
  fell_behind, Task, send, report, Input, commanded, dropping, unheld, reported, failing, ending,
  runtime_stopped, Subscribed, joined, stopped_meanwhile, refused, turn, loop, starting, run,
  subscribe,
}

abbrev pub is_last : Event → Bool
is_last (neighbor_up p) = false
is_last (neighbor_down p) = false
is_last (message content sender direct) = false
is_last lagged = true
is_last (closed reason) = true

-- One event's word on whether `p` is a neighbour, given what was known before.
abbrev pub updated : ℕ → Bool → Event → Bool
updated p known (neighbor_up q) = if q == p then true else known
updated p known (neighbor_down q) = if q == p then false else known
updated p known (message content sender direct) = known
updated p known lagged = known
updated p known (closed reason) = known

-- Whether `p` is a neighbour to one who only follows the events.
abbrev pub linked : ℕ → Bool → List Event → Bool
linked p known [] = known
linked p known (e ∷ es) = linked p (updated p known e) es

linked-append :
    (p : ℕ) (known : Bool) (es : List Event) (e : Event)
    → linked p known (es ++ e ∷ []) ≡ updated p (linked p known es) e
linked-append p known [] e = refl
linked-append p known (d ∷ es) e = linked-append p (updated p known d) es e

-- While the handle exists, the neighbours are those that its events tell of, and the events go on
-- as long as the task runs, or until it was dropped, and end once when it stops by itself.
abbrev pub Told : ℕ → Task → Type 0
Told p t =
    if t.held
    then (contains p t.neighbors ≡ linked p false t.sent)
      × ((if t.running || t.dropped then goes_on is_last t.sent else ends_once is_last t.sent)
          ≡ true)
      × ((t.running && t.dropped) ≡ false)
    else Unit

module _ (p : ℕ) where
  Told-report :
      (event : SwarmEvent) (t : Task) → t.running ≡ true → Told p t → Told p (report event t)
  unfolding report send
  Told-report (came q) t r h = ground (
    arith,
    contains-set_insert q p t.neighbors,
    linked-append p false t.sent (neighbor_up q),
    goes_on-append is_last t.sent (neighbor_up q),
  )
  Told-report (went q) t r h = ground (
    arith,
    contains-set_remove q p t.neighbors,
    linked-append p false t.sent (neighbor_down q),
    goes_on-append is_last t.sent (neighbor_down q),
  )
  Told-report (received content sender direct) t r h = ground (
    arith,
    linked-append p false t.sent (message content sender direct),
    goes_on-append is_last t.sent (message content sender direct),
  )
  Told-report fell_behind t r h =
      ground (arith, linked-append p false t.sent lagged, ends_once-append is_last t.sent lagged)

  Told-turn : (i : Input) (t : Task) → t.running ≡ true → Told p t → Told p (turn i t)
  unfolding turn send
  Told-turn (commanded c none) t r h = h
  Told-turn (commanded c (some reason)) t r h = ground (
    arith,
    linked-append p false t.sent (closed reason),
    ends_once-append is_last t.sent (closed reason),
  )
  Told-turn dropping t r h = tt
  Told-turn unheld t r h = ground arith
  Told-turn (reported event) t r h = Told-report event t r h
  Told-turn (failing reason) t r h = ground (
    arith,
    linked-append p false t.sent (closed reason),
    ends_once-append is_last t.sent (closed reason),
  )
  Told-turn ending t r h = ground (
    arith,
    linked-append p false t.sent (closed "topic closed"),
    ends_once-append is_last t.sent (closed "topic closed"),
  )
  Told-turn runtime_stopped t r h = ground (arith, r, h)

  Told-loop : (is : List Input) (t : Task) → Told p t → Told p (loop is t)
  unfolding loop
  Told-loop [] t h = h
  Told-loop (i ∷ is) t h = elim (Bool-cases t.running) [
    | inl e ↦ ground (arith, e, Told-loop is (turn i t) (Told-turn i t e h))
    | inr e ↦ ground (arith, e, h)
  ]

  -- Whatever the swarm does, while the topic's handle exists the neighbours it can list are exactly
  -- those that the events sent so far tell of, and there is one `lagged` or `closed` among the events,
  -- and nothing after it, just if the task has stopped by itself: none while it runs, and none if it
  -- was dropped with the runtime.
  pub subscribe-linked :
      (detached : Bool) (subscribed : Subscribed) (is : List Input)
      → Told p (subscribe detached subscribed is)
  unfolding subscribe run send contains
  subscribe-linked false subscribed is = (refl, refl, refl)
  subscribe-linked true joined is = Told-loop is starting (refl, refl, refl)
  subscribe-linked true stopped_meanwhile is = (refl, refl, refl)
  subscribe-linked true (refused reason) is = (refl, refl, refl)
