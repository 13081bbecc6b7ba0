-- ===== src/Session/Membership.antt =====
-- gdiroh/src/session.rs: what the main thread is told of who is connected, over a session's whole
-- life.
use gdiroh.Prelude.{
  ℕ, ◌≡◌, refl, inl, inr, List, [], ◌∷◌, ◌++◌, Option, none, some, ◌>>=◌, Bool, true, false, arith,
  ◌==◌, nat_eq, nat_beq_iff, if◌then◌else◌, contains, contains-set_insert, contains-set_remove,
  Option-cases, keys, has, Assoc, both_branches,
}
use gdiroh.Wire.{Bytes, Buf, Control, peer_joined, peer_left}
use gdiroh.Session.{
  Event, ready, peer_connected, peer_disconnected, warning, closed, Mode, reliable, unreliable,
  unreliable_ordered, Oversize, control, lost, send, disconnect, close, Link, State, emit, announce,
  forget, append_frame, write_reliable, add_link, drop_link, host_id,
}
use gdiroh.Session.Send.{Limits, warn, send_framed, write_datagram, send_one, send_except, send_to}
use gdiroh.Session.Members
use gdiroh.Session.Members.{control_to, tell_all, welcome, report_lost, announce_all, apply}
use gdiroh.Session.Run.{
  Loop, Input, command, message, connection, no_more_commands, no_more_messages,
  no_more_connections, close_all, finish, step, Start, hosting, connected, refused, start, state_of,
  run, run_induction, Any, All-Any,
}

-- Whether peer `p` is present after one more event: an arrival needs an absent peer and a departure
-- a present one, or the report is wrong.
abbrev pub hear : ℕ → Bool → Event → Option Bool
hear p here (peer_connected q) = if q == p then (if here then none else some true) else some here
hear p here (peer_disconnected q) =
    if q == p then (if here then some false else none) else some here
hear p here _ = some here

-- The same after a list of events.
pub replay : ℕ → Bool → List Event → Option Bool
replay p here [] = some here
replay p here (e ∷ es) = elim (hear p here e) [ none ↦ none | some now ↦ replay p now es ]

replay-append :
    (p : ℕ) (here : Bool) (es fs : List Event)
    → replay p here (es ++ fs) ≡ (replay p here es >>= λ now. replay p now fs)
unfolding replay
replay-append p here [] fs = refl
replay-append p here (e ∷ es) fs = elim (Option-cases (hear p here e)) [
  | inl bad ↦ rw (bad, replay)
  | inr (now, e) ↦ rw (e, replay) (replay-append p now es fs)
]

module _ (p : ℕ) where
  -- The events so far tell exactly whether `p` is announced.
  abbrev pub Told : State → Type 0
  Told s = replay p false s.events ≡ some (contains p s.announced)

  Told-announce : (q : ℕ) (s : State) → Told s → Told (announce q s)
  unfolding announce replay
  Told-announce q s h = ground (
    arith,
    replay-append p false s.events (peer_connected q ∷ []),
    contains-set_insert q p s.announced,
    nat_beq_iff q p,
  )

  Told-forget : (q : ℕ) (s : State) → Told s → Told (forget q s)
  unfolding forget replay
  Told-forget q s h = ground (
    arith,
    replay-append p false s.events (peer_disconnected q ∷ []),
    contains-set_remove q p s.announced,
    nat_beq_iff q p,
  )

  Told-emit :
      (e : Event) (s : State)
      → hear p (contains p s.announced) e ≡ some (contains p s.announced)
      → Told s
      → Told (emit e s)
  unfolding emit replay
  Told-emit e s q h = ground (arith, replay-append p false s.events (e ∷ []))

  Told-announce_all : (qs : List ℕ) (s : State) → Told s → Told (announce_all qs s)
  unfolding announce_all
  Told-announce_all [] s h = h
  Told-announce_all (q ∷ qs) s h = Told-announce_all qs (announce q s) (Told-announce q s h)

  Told-write_reliable :
      (q channel : ℕ) (payload : Bytes) (s : State)
      → Told s
      → Told (write_reliable q channel payload s)
  unfolding write_reliable append_frame
  Told-write_reliable q channel payload s h = ground arith

  Told-warn : (q : ℕ) (l : Link) (w : Oversize) (s : State) → Told s → Told (warn q l w s)
  unfolding warn replay
  Told-warn q l w s h = ground (arith, replay-append p false s.events (warning w ∷ []))

  Told-close_all : (ls : Assoc ℕ Link) (s : State) → Told s → Told (close_all ls s)
  unfolding close_all
  Told-close_all [] s h = h
  Told-close_all ((q, l) ∷ ls) s h = Told-close_all ls _ h

  module _ ⦃b : Buf⦄ where
    Told-write_datagram :
        (limits : Limits) (q channel : ℕ) (mode : Mode) (payload : Bytes) (s : State)
        → Told s
        → Told (write_datagram limits q channel mode payload s)
    unfolding write_datagram send_framed
    Told-write_datagram limits q channel mode payload s h =
        grind (arith, Told-warn, Told-write_reliable)

    Told-send_one :
        (limits : Limits) (q channel : ℕ) (mode : Mode) (payload : Bytes) (s : State)
        → Told s
        → Told (send_one limits q channel mode payload s)
    unfolding send_one
    Told-send_one limits q channel reliable payload s h = Told-write_reliable q channel payload s h
    Told-send_one limits q channel unreliable payload s h =
        Told-write_datagram limits q channel unreliable payload s h
    Told-send_one limits q channel unreliable_ordered payload s h =
        Told-write_datagram limits q channel unreliable_ordered payload s h

    Told-send_except :
        (limits : Limits) (x channel : ℕ) (mode : Mode) (payload : Bytes) (qs : List ℕ) (s : State)
        → Told s
        → Told (send_except limits x channel mode payload qs s)
    unfolding send_except
    Told-send_except limits x channel mode payload [] s h = h
    Told-send_except limits x channel mode payload (q ∷ qs) s h =
        Told-send_except limits x channel mode payload qs _
          (ground (arith, Told-send_one limits q channel mode payload s h))

    Told-send_to :
        (limits : Limits) (target channel : ℕ) (mode : Mode) (payload : Bytes) (s : State)
        → Told s
        → Told (send_to limits target channel mode payload s)
    unfolding send_to
    Told-send_to limits target channel mode payload s h =
        grind (arith, Told-send_except, Told-send_one)

    Told-tell_all : (qs : List ℕ) (c : Control) (s : State) → Told s → Told (tell_all qs c s)
    unfolding tell_all control_to
    Told-tell_all [] c s h = h
    Told-tell_all (q ∷ qs) c s h = Told-tell_all qs c _ (Told-write_reliable q _ _ s h)

    Told-welcome : (q conn : ℕ) (s : State) → Told s → Told (welcome q conn s)
    unfolding welcome control_to add_link
    Told-welcome q conn s h =
        Told-announce q _ (Told-tell_all (keys s.links) _ _ (Told-write_reliable q _ _ _ h))

    Told-report_lost : (q : ℕ) (s : State) → Told s → Told (report_lost q s)
    unfolding report_lost
    Told-report_lost q s h =
        both_branches Told s.is_host _ _ (Told-tell_all (keys s.links) (peer_left q) s h) (
          both_branches Told (q == host_id) _ _ (Told-emit (closed "host disconnected") s refl h) h)

    Told-lost : (q : ℕ) (s : State) → Told s → Told (Members.lost q s)
    unfolding Members.lost
    Told-lost q s h =
        both_branches Told (has q s.links) _ _ (Told-report_lost q _ (Told-forget q _ h)) h

    Told-apply : (c : Control) (s : State) → Told s → Told (apply c s)
    unfolding apply
    Told-apply (Control.welcome id peers) s h =
        Told-announce_all peers _ (Told-announce host_id _ (Told-emit (ready id) s refl h))
    Told-apply (peer_joined id) s h = Told-announce id s h
    Told-apply (peer_left id) s h = Told-forget id s h

    Told-finish : (l : Loop) → Told l.state → Told (state_of (finish l))
    unfolding finish
    Told-finish l h =
        let drained = record l.state { links = [] } in
        Told-emit (closed "session closed") (close_all l.state.links drained) refl
          (Told-close_all l.state.links drained h)

    Told-step : (l : Loop) (i : Input) → Told l.state → Told (state_of (step l i))
    unfolding step
    Told-step l (command (send target channel mode payload) limits) h =
        Told-send_to limits target channel mode payload l.state h
    Told-step l (command (disconnect q) limits) h = unfold drop_link in ground arith
    Told-step l (command close limits) h = Told-finish l h
    Told-step l (message (control c)) h = Told-apply c l.state h
    Told-step l (message (lost q)) h = Told-lost q l.state h
    Told-step l (connection conn) h =
        both_branches (λ flow. Told (state_of flow)) l.inbound _ _
          (Told-welcome l.next_id conn l.state h) h
    Told-step l no_more_commands h = Told-finish l h
    Told-step l no_more_messages h = Told-finish l h
    Told-step l no_more_connections h = h

    Told-start : (how : Start) → Told (state_of (start how))
    unfolding start replay add_link contains
    Told-start hosting = refl
    Told-start (connected conn) = refl
    Told-start (refused reason) = refl

    -- Whatever a session meets, host or client, the events tell of each peer an arrival and a
    -- departure in turn, arrival first, and end with it present exactly if it is announced.
    pub run-Told : (how : Start) (is : List Input) → Told (state_of (run how is))
    run-Told how is =
        run_induction (λ flow. Told (state_of flow)) Any (λ l i _. Told-step l i) how is
          (All-Any is) (Told-start how)
