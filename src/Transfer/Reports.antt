-- ===== src/Transfer/Reports.antt =====
-- gdiroh/src/transfer.rs, with gdiroh/src/blobs.rs: what a game hears of an operation, over frames.
use gdiroh.Prelude.{
  ℕ, ◌≡◌, refl, Option, none, some, is_some, ◌||◌, inl, inr, List, [], ◌∷◌, ◌++◌, append-nil,
  append_assoc, Bool, true, false, Result, if◌then◌else◌, arith, concat, goes_on, ends_once,
  goes_on-split, ends_once-split, is_empty_iff, Bool-cases,
}
use gdiroh.Blobs.{Event, size, progress, completed, gave_up}
use gdiroh.Blobs.Endings.{is_last, Work, sent, ends_once-sent}
use gdiroh.Transfer.{
  Signal, progressed, finished_with, failed, IrohTransfer, wrap, handle, handle_each, drain, arrive,
}

-- A frame of the game: what the operation reported since the last one is there, and it is polled if
-- the transfer is subscribed to the frame signal.
unfoldable pub frame : IrohTransfer → List Event → IrohTransfer
frame t es = let there = arrive es t in if there.ticking then drain there else there

unfoldable pub frames : IrohTransfer → List (List Event) → IrohTransfer
frames t [] = t
frames t (es ∷ ess) = frames (frame t es) ess

-- What the game hears of each event, given the two counters before it.
unfoldable pub heard : (done total : ℕ) → List Event → List Signal
heard done total [] = []
heard done total (size n ∷ es) = progressed done n ∷ heard done n es
heard done total (progress n ∷ es) = progressed n total ∷ heard n total es
heard done total (completed hash bytes ∷ es) = finished_with hash bytes ∷ []
heard done total (gave_up reason ∷ es) = failed reason ∷ []

-- Nobody polls a transfer that is over, and nothing reaches it.
frames-over :
    (t : IrohTransfer) (ess : List (List Event))
    → t.transfer ≡ none
    → t.ticking ≡ false
    → frames t ess ≡ t
unfolding frames frame arrive
frames-over t [] over idle = refl
frames-over t (es ∷ ess) over idle = ground (arith, frames-over t ess over idle)

-- Events of which none is the last keep the transfer going.
abbrev Going : IrohTransfer → List Event → List Event → Type 0
Going t es rest =
    let u = handle_each es t in
    (u.transfer ≡ t.transfer)
    × (u.ticking ≡ t.ticking)
    × (u.signals ++ heard u.done u.total rest ≡ t.signals ++ heard t.done t.total (es ++ rest))

Going-handle_each :
    (es rest : List Event) (t : IrohTransfer) → goes_on is_last es ≡ true → Going t es rest
unfolding handle_each handle heard
Going-handle_each [] rest t g = (refl, refl, refl)
Going-handle_each (size n ∷ es) rest t g =
    let u = handle (size n) t in
    ground (
      arith,
      Going-handle_each es rest u g,
      append_assoc t.signals (progressed t.done n ∷ []) (heard t.done n (es ++ rest)),
    )
Going-handle_each (progress n ∷ es) rest t g =
    let u = handle (progress n) t in
    ground (
      arith,
      Going-handle_each es rest u g,
      append_assoc t.signals (progressed n t.total ∷ []) (heard n t.total (es ++ rest)),
    )
Going-handle_each (completed hash bytes ∷ es) rest t g = ground arith
Going-handle_each (gave_up reason ∷ es) rest t g = ground arith

abbrev Over : IrohTransfer → List Event → IrohTransfer → Type 0
Over t es u =
    (u.signals ≡ t.signals ++ heard t.done t.total es) × (u.transfer ≡ none) × (u.ticking ≡ false)

Over-handle_each :
    (es : List Event) (t : IrohTransfer)
    → ends_once is_last es ≡ true
    → Over t es (handle_each es t)
unfolding handle_each handle heard
Over-handle_each [] t g = ground arith
Over-handle_each (size n ∷ es) t g = ground (
  arith,
  Over-handle_each es (handle (size n) t) g,
  append_assoc t.signals (progressed t.done n ∷ []) (heard t.done n es),
)
Over-handle_each (progress n ∷ es) t g = ground (
  arith,
  Over-handle_each es (handle (progress n) t) g,
  append_assoc t.signals (progressed n t.total ∷ []) (heard n t.total es),
)
Over-handle_each (completed hash bytes ∷ []) t g = (refl, refl, refl)
Over-handle_each (completed hash bytes ∷ e ∷ es) t g = ground arith
Over-handle_each (gave_up reason ∷ []) t g = (refl, refl, refl)
Over-handle_each (gave_up reason ∷ e ∷ es) t g = ground arith

abbrev Polled : IrohTransfer → Type 0
Polled t = (t.transfer ≡ some []) × (t.ticking ≡ true)

drained : (t : IrohTransfer) (es : List Event) → Polled t → frame t es ≡ handle_each es t
unfolding frame arrive drain
drained t es h = ground arith

-- At the end: polled on, with nothing waiting, if nothing ended, else over.
abbrev Heard : IrohTransfer → List Event → IrohTransfer → Type 0
Heard t es u =
    (u.signals ≡ t.signals ++ heard t.done t.total es)
    × (u.transfer ≡ (if goes_on is_last es then some [] else none))
    × (u.ticking ≡ goes_on is_last es)

frames-Heard :
    (t : IrohTransfer) (ess : List (List Event))
    → Polled t
    → (goes_on is_last (concat ess) || ends_once is_last (concat ess)) ≡ true
    → Heard t (concat ess) (frames t ess)
unfolding frames heard
frames-Heard t [] p g = ground (arith, append-nil t.signals)
frames-Heard t (es ∷ ess) p g =
    let u = handle_each es t in
    elim (Bool-cases (goes_on is_last es)) [
      | inl e ↦ ground (
        arith,
        e,
        drained t es p,
        goes_on-split is_last es (concat ess),
        ends_once-split is_last es (concat ess),
        Going-handle_each es (concat ess) t e,
        frames-Heard u ess,
      )
      | inr e ↦ ground (
        arith,
        e,
        drained t es p,
        goes_on-split is_last es (concat ess),
        ends_once-split is_last es (concat ess),
        Over-handle_each es t,
        append-nil es,
        is_empty_iff (concat ess),
        frames-over u ess,
      )
    ]

-- A blob operation with a scene tree to poll on: however what it reports is spread over the frames,
-- the game hears all of it in order, each progress with the other counter as it stood, up to one
-- completion or failure, with which the transfer is over and no longer polled; only if the runtime stops
-- before that was sent, the transfer is not over and polled on.
pub wrap-heard :
    (detached : Bool) (stops : Option ℕ) (ready : Result {0} Unit) (work : Work)
    (ess : List (List Event))
    → concat ess ≡ sent detached stops ready work
    → let es = sent detached stops ready work in
      let t = frames (wrap true []) ess in
      (t.signals ≡ heard 0 0 es)
      × (is_some t.transfer ≡ goes_on is_last es)
      × (t.ticking ≡ goes_on is_last es)
      × ((if goes_on is_last es then is_some stops else true) ≡ true)
unfolding wrap
wrap-heard detached stops ready work ess h = ground (
  arith,
  h,
  ends_once-sent detached stops ready work,
  frames-Heard (wrap true []) ess (refl, refl),
)
