-- ===== src/Docs/Endings.antt =====
-- gdiroh/src/docs.rs: how a document opens and how it ends.
use gdiroh.Prelude.{
  ℕ, ◌≡◌, refl, Option, none, some, Option-cases, Bool-cases, inl, inr, List, [], ◌∷◌, ◌++◌, Bool,
  true, false, not, ◌&&◌, ◌||◌, String, if◌then◌else◌, Result, good, bad, is_empty, arith, goes_on,
  ends_once, goes_on-append, ends_once-append,
}
use gdiroh.Docs.{
  Event, opened, closed, Command, Source, Doc, apply, LiveEvent, insert_local, insert_remote,
  live_content_ready, live_neighbor_up, live_neighbor_down, live_sync_finished,
  pending_content_ready, translated, Task, send, stop, report, applied, Input, commanded, dropping,
  unheld, reported, failing, ending, runtime_stopped, turn, loop, Opening, Awaited, open_doc,
  starting, begin, serve, run, spawn,
}

abbrev pub is_last : Event → Bool
is_last (closed reason) = true
is_last _ = false

abbrev pub is_opened : Event → Bool
is_opened (opened id) = true
is_opened _ = false

-- Opened first and never again, or closed at once.
abbrev pub opens_first : List Event → Bool
opens_first [] = false
opens_first (e ∷ es) = if is_opened e then goes_on is_opened es else is_last e && is_empty es

-- Neither.
abbrev pub is_news : Event → Bool
is_news e = not (is_last e) && not (is_opened e)

abbrev news : Result (Option Event) → Bool
news (good none) = true
news (good (some e)) = is_news e
news (bad reason) = true

news-apply : (c : Command) (d : Doc) → news (apply c d) ≡ true
unfolding apply
news-apply (Command.set key v) d = ground arith
news-apply (Command.delete prefix) d = ground arith
news-apply (Command.read key) d = ground arith
news-apply (Command.list_keys prefix) d = ground arith
news-apply Command.ask_status d = ground arith
news-apply (Command.share writable) d = ground arith
news-apply (Command.join peers) d = ground arith
news-apply Command.leave d = ground arith

news-translated : (event : LiveEvent) → news (good (translated event)) ≡ true
unfolding translated
news-translated (insert_local info) = refl
news-translated (insert_remote info peer) = refl
news-translated (live_content_ready hash) = refl
news-translated (live_neighbor_up peer) = refl
news-translated (live_neighbor_down peer) = refl
news-translated (live_sync_finished peer) = refl
news-translated pending_content_ready = refl

opens_first-append :
    (es : List Event) (e : Event)
    → opens_first es ≡ true
    → goes_on is_last es ≡ true
    → is_opened e ≡ false
    → opens_first (es ++ e ∷ []) ≡ true
opens_first-append [] e o g n = ground arith
opens_first-append (d ∷ es) e o g n = ground (arith, goes_on-append is_opened es e)

-- While the handle exists: the task has told of its opening, and of its end just if it is over by
-- itself.
abbrev Told : Task → Type 0
Told t =
    if t.held
    then (opens_first t.sent ≡ true)
      × ((if t.running || t.dropped then goes_on is_last t.sent else ends_once is_last t.sent)
          ≡ true)
      × ((t.running && t.dropped) ≡ false)
    else Unit

-- The same, of a task that may have been dropped before it told anything.
abbrev pub Whole : Task → Type 0
Whole t =
    if t.held
    then ((opens_first t.sent || (t.dropped && is_empty t.sent)) ≡ true)
      × ((if t.running || t.dropped then goes_on is_last t.sent else ends_once is_last t.sent)
          ≡ true)
      × ((t.running && t.dropped) ≡ false)
    else Unit

Whole-Told : (t : Task) → Told t → Whole t
Whole-Told t h = ground arith

Told-send : (e : Event) (t : Task) → is_news e ≡ true → t.running ≡ true → Told t → Told (send e t)
unfolding send
Told-send e t n r h = ground (arith, opens_first-append t.sent e, goes_on-append is_last t.sent e)

Told-stop : (reason : String) (t : Task) → t.running ≡ true → Told t → Told (stop (closed reason) t)
unfolding send
Told-stop reason t r h = ground (
  arith,
  opens_first-append t.sent (closed reason),
  ends_once-append is_last t.sent (closed reason),
)

Told-record :
    (e : Event) (t : Task)
    → is_news e ≡ true
    → t.running ≡ true
    → Told t
    → Told (record (send e t) { running = t.held })
unfolding send
Told-record e t n r h = ground (arith, Told-send e t n r h)

Told-report : (event : LiveEvent) (t : Task) → t.running ≡ true → Told t → Told (report event t)
unfolding report
Told-report event t r h = elim (Option-cases (translated event)) [
  | inl n ↦ ground (arith, n)
  | inr (e, s) ↦ ground (arith, s, Told-record e t, news-translated event)
]

Told-applied :
    (r : Result (Option Event)) (t : Task)
    → news r ≡ true
    → t.running ≡ true
    → Told t
    → Told (applied r t)
unfolding applied
Told-applied (good none) t n r h = h
Told-applied (good (some e)) t n r h = Told-send e t n r h
Told-applied (bad reason) t n r h = Told-stop reason t r h

Told-turn : (i : Input) (t : Task) → t.running ≡ true → Told t → Told (turn i t)
unfolding turn
Told-turn (commanded c d) t r h = Told-applied (apply c d) t (news-apply c d) r h
Told-turn dropping t r h = tt
Told-turn unheld t r h = ground arith
Told-turn (reported event) t r h = Told-report event t r h
Told-turn (failing reason) t r h = Told-stop reason t r h
Told-turn ending t r h = Told-stop "document closed" t r h
Told-turn runtime_stopped t r h = ground (arith, r, h)

Told-loop : (is : List Input) (t : Task) → Told t → Told (loop is t)
unfolding loop
Told-loop [] t h = h
Told-loop (i ∷ is) t h = elim (Bool-cases t.running) [
  | inl e ↦ ground (arith, e, Told-loop is (turn i t) (Told-turn i t e h))
  | inr e ↦ ground (arith, e, h)
]

Whole-serve :
    (begun : Awaited ℕ) (store : Awaited {0} Unit) (is : List Input) → Whole (serve begun store is)
unfolding send
Whole-serve none store is = (refl, refl, refl)
Whole-serve (some (bad reason)) store is = (refl, refl, refl)
Whole-serve (some (good id)) none is = (refl, refl, refl)
Whole-serve (some (good id)) (some (bad reason)) is = (refl, refl, refl)
Whole-serve (some (good id)) (some (good u)) is =
    let t = send (opened id) starting in Whole-Told (loop is t) (Told-loop is t (refl, refl, refl))

-- However opening goes and whatever happens then, while the document's handle exists its events
-- begin with the only `opened`, or are one `closed`, unless the task was dropped with the runtime before
-- it sent any; as long as the task runs there is no `closed`, once it stopped by itself there is one,
-- which is last, and if it was dropped with the runtime there is none.
pub spawn-opens_first :
    (detached : Bool) (source : Source) (o : Opening) (is : List Input)
    → Whole (spawn detached source o is)
unfolding spawn run send
spawn-opens_first false source o is = (refl, refl, refl)
spawn-opens_first true source o is =
    Whole-serve (begin o.docs (open_doc source o) o.author o.updates) o.store is
