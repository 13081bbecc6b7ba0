-- ===== src/Document/Frames.antt =====
-- gdiroh/src/document.rs, with gdiroh/src/docs.rs: what a game hears of a document, over frames.
use gdiroh.Prelude.{
  ◌≡◌, refl, ap, none, some, List, map, map-append, [], ◌∷◌, ◌++◌, append-nil, append_assoc, Bool,
  true, false, ◌||◌, if◌then◌else◌, arith, String, concat, goes_on, ends_once, goes_on-split,
  ends_once-split, is_empty_iff, Bool-cases, inl, inr,
}
use gdiroh.Wire.{Bytes}
use gdiroh.Docs.{
  Event, opened, entry, content_ready, keys, status, value, shared, sync_finished, neighbor_up,
  neighbor_down, closed, Input, Source, Opening, spawn,
}
use gdiroh.Docs.Endings.{is_last, spawn-opens_first}
use gdiroh.Document.{
  Signal, said, got_entry, got_keys, got_value, row, Document, IrohDocument, wrap, is_open, handle,
  handle_each, drain, arrive,
}

module _ (text : Bytes → String) where
  -- A frame: what the task sent since the last one is there, and it is drained if the document is
  -- subscribed to the frame signal.
  unfoldable pub frame : IrohDocument → List Event → IrohDocument
  frame t es = let there = arrive es t in if there.ticking then drain text there else there

  unfoldable pub frames : IrohDocument → List (List Event) → IrohDocument
  frames t [] = t
  frames t (es ∷ ess) = frames (frame t es) ess

  -- Nobody polls a document that was left, and nothing reaches it.
  frames-left :
      (t : IrohDocument) (ess : List (List Event))
      → t.document ≡ none
      → t.ticking ≡ false
      → frames t ess ≡ t
  unfolding frames frame arrive
  frames-left t [] left idle = refl
  frames-left t (es ∷ ess) left idle = ground (arith, frames-left t ess left idle)

  -- The signal of an event.
  abbrev pub signal : Event → Signal
  signal (entry info sender) = got_entry (row text info) sender
  signal (keys prefix entries) = got_keys (text prefix) (map (row text) entries)
  signal (value key none) = got_value (text key) [] false
  signal (value key (some bytes)) = got_value (text key) bytes true
  signal e = said e

  -- Handling events: each is a signal, and an ending lets go of the document.
  abbrev Handled : IrohDocument → List Event → IrohDocument → Type 0
  Handled t es u =
      (u.signals ≡ t.signals ++ map signal es)
      × (u.document ≡ (if goes_on is_last es then t.document else none))
      × (u.ticking ≡ (if goes_on is_last es then t.ticking else false))

  Handled-handle : (e : Event) (t : IrohDocument) → Handled t (e ∷ []) (handle text e t)
  unfolding handle
  Handled-handle (opened id) t = (refl, refl, refl)
  Handled-handle (entry info sender) t = (refl, refl, refl)
  Handled-handle (content_ready hash) t = (refl, refl, refl)
  Handled-handle (keys prefix entries) t = (refl, refl, refl)
  Handled-handle (status syncing subscribers handles) t = (refl, refl, refl)
  Handled-handle (value key none) t = (refl, refl, refl)
  Handled-handle (value key (some bytes)) t = (refl, refl, refl)
  Handled-handle (shared ticket) t = (refl, refl, refl)
  Handled-handle (sync_finished peer) t = (refl, refl, refl)
  Handled-handle (neighbor_up peer) t = (refl, refl, refl)
  Handled-handle (neighbor_down peer) t = (refl, refl, refl)
  Handled-handle (closed reason) t = (refl, refl, refl)

  Handled-handle_each : (es : List Event) (t : IrohDocument) → Handled t es (handle_each text es t)
  unfolding handle_each
  Handled-handle_each [] t = ground (arith, append-nil t.signals)
  Handled-handle_each (e ∷ es) t = ground (
    arith,
    Handled-handle e t,
    Handled-handle_each es (handle text e t),
    append_assoc t.signals (signal e ∷ []) (map signal es),
  )

  -- Held, polled and with nothing waiting.
  abbrev Polled : Document → IrohDocument → Type 0
  Polled document t = (t.document ≡ some (record document { events = [] })) × (t.ticking ≡ true)

  drained :
      (document : Document) (t : IrohDocument) (es : List Event)
      → Polled document t
      → frame t es ≡ handle_each text es t
  unfolding frame arrive drain
  drained document t es h = ground arith

  -- At the end: polled on if nothing ended, else left.
  abbrev Heard : Document → IrohDocument → List Event → IrohDocument → Type 0
  Heard document t es u =
      (u.signals ≡ t.signals ++ map signal es)
      × (u.ticking ≡ goes_on is_last es)
      × (u.document ≡ (if goes_on is_last es then some (record document { events = [] }) else none))

  module _ (document : Document) where
    frames-Heard :
        (t : IrohDocument) (ess : List (List Event))
        → Polled document t
        → (goes_on is_last (concat ess) || ends_once is_last (concat ess)) ≡ true
        → Heard document t (concat ess) (frames t ess)
    unfolding frames
    frames-Heard t [] p g = ground (arith, append-nil t.signals)
    frames-Heard t (es ∷ ess) p g =
        let u = handle_each text es t in
        elim (Bool-cases (goes_on is_last es)) [
          | inl e ↦ ground (
            arith,
            e,
            drained document t es p,
            goes_on-split is_last es (concat ess),
            ends_once-split is_last es (concat ess),
            Handled-handle_each es t,
            frames-Heard u ess,
            append_assoc t.signals (map signal es) (map signal (concat ess)),
            map-append signal es (concat ess),
          )
          | inr e ↦ ground (
            arith,
            e,
            drained document t es p,
            goes_on-split is_last es (concat ess),
            ends_once-split is_last es (concat ess),
            Handled-handle_each es t,
            append-nil es,
            is_empty_iff (concat ess),
            frames-left u ess,
          )
        ]

-- An ending is where it does not go on.
goes_on_iff : (es : List Event) → ends_once is_last es ≡ true → goes_on is_last es ≡ false
goes_on_iff [] h = ground arith
goes_on_iff (e ∷ es) h = ground (arith, goes_on_iff es)

-- A document whose handle is never dropped, with a scene tree to poll on: however the events of its
-- task are spread over the frames, the game gets each as its signal, once and in order, and the document
-- stays open and polled until the task ends by itself; if the task is dropped with the runtime, it stays
-- so.
pub wrap-heard_whole :
    (text : Bytes → String) (document : Document) (detached : Bool) (source : Source) (o : Opening)
    (is : List Input) (ess : List (List Event))
    → document.events ≡ []
    → (spawn detached source o is).held ≡ true
    → concat ess ≡ (spawn detached source o is).sent
    → let task = spawn detached source o is in
      let t = frames text (wrap true document) ess in
      (t.signals ≡ map (signal text) task.sent)
      × (is_open t ≡ (task.running || task.dropped))
      × (t.ticking ≡ (task.running || task.dropped))
unfolding wrap
wrap-heard_whole text document detached source o is ess fresh held h = ground (
  arith,
  spawn-opens_first detached source o is,
  goes_on_iff (spawn detached source o is).sent,
  frames-Heard text document (wrap true document) ess (ap some (eta fresh), refl),
)
  where
    eta : document.events ≡ [] → document ≡ record document { events = [] }
    eta e = ground arith
