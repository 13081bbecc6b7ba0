-- ===== src/Topic/Frames.antt =====
-- gdiroh/src/topic.rs, with gdiroh/src/gossip.rs: what a game hears of a topic, over frames.
use gdiroh.Prelude.{
  ◌≡◌, refl, ap, none, some, List, [], ◌∷◌, ◌++◌, append-nil, append_assoc, Bool, true, false, ◌||◌,
  if◌then◌else◌, is_some, arith, concat, goes_on, ends_once, goes_on-split, ends_once-split,
  is_empty_iff, Bool-cases, inl, inr,
}
use gdiroh.Gossip.{
  Event, neighbor_up, neighbor_down, message, lagged, closed, Input, Subscribed, subscribe,
}
use gdiroh.Gossip.Neighbors.{is_last, subscribe-linked}
use gdiroh.Topic.{Topic, IrohTopic, wrap, handle, handle_each, drain, arrive}

-- A frame: what the task sent since the last one is there, and it is drained if the topic is
-- subscribed to the frame signal.
unfoldable pub frame : IrohTopic → List Event → IrohTopic
frame t es = let there = arrive es t in if there.ticking then drain there else there

unfoldable pub frames : IrohTopic → List (List Event) → IrohTopic
frames t [] = t
frames t (es ∷ ess) = frames (frame t es) ess

-- Nobody polls a topic that was left, and nothing reaches it.
frames-left :
    (t : IrohTopic) (ess : List (List Event))
    → t.topic ≡ none
    → t.ticking ≡ false
    → frames t ess ≡ t
unfolding frames frame arrive
frames-left t [] left idle = refl
frames-left t (es ∷ ess) left idle = ground (arith, frames-left t ess left idle)

-- Handling events: each is a signal, and an ending lets go of the topic.
abbrev Handled : IrohTopic → List Event → IrohTopic → Type 0
Handled t es u =
    (u.signals ≡ t.signals ++ es)
    × (u.topic ≡ (if goes_on is_last es then t.topic else none))
    × (u.ticking ≡ (if goes_on is_last es then t.ticking else false))

Handled-handle : (e : Event) (t : IrohTopic) → Handled t (e ∷ []) (handle e t)
unfolding handle
Handled-handle (neighbor_up p) t = (refl, refl, refl)
Handled-handle (neighbor_down p) t = (refl, refl, refl)
Handled-handle (message content sender direct) t = (refl, refl, refl)
Handled-handle lagged t = (refl, refl, refl)
Handled-handle (closed reason) t = (refl, refl, refl)

Handled-handle_each : (es : List Event) (t : IrohTopic) → Handled t es (handle_each es t)
unfolding handle_each
Handled-handle_each [] t = ground (arith, append-nil t.signals)
Handled-handle_each (e ∷ es) t = ground (
  arith,
  Handled-handle e t,
  Handled-handle_each es (handle e t),
  append_assoc t.signals (e ∷ []) es,
)

-- Held, polled and with nothing waiting.
abbrev Polled : Topic → IrohTopic → Type 0
Polled topic t = (t.topic ≡ some (record topic { events = [] })) × (t.ticking ≡ true)

drained :
    (topic : Topic) (t : IrohTopic) (es : List Event)
    → Polled topic t
    → frame t es ≡ handle_each es t
unfolding frame arrive drain
drained topic t es h = ground arith

-- At the end: polled on if nothing ended, else left.
abbrev Heard : Topic → IrohTopic → List Event → IrohTopic → Type 0
Heard topic t es u =
    (u.signals ≡ t.signals ++ es)
    × (u.ticking ≡ goes_on is_last es)
    × (u.topic ≡ (if goes_on is_last es then some (record topic { events = [] }) else none))

module _ (topic : Topic) where
  frames-Heard :
      (t : IrohTopic) (ess : List (List Event))
      → Polled topic t
      → (goes_on is_last (concat ess) || ends_once is_last (concat ess)) ≡ true
      → Heard topic t (concat ess) (frames t ess)
  unfolding frames
  frames-Heard t [] p g = ground (arith, append-nil t.signals)
  frames-Heard t (es ∷ ess) p g =
      let u = handle_each es t in
      elim (Bool-cases (goes_on is_last es)) [
        | inl e ↦ ground (
          arith,
          e,
          drained topic t es p,
          goes_on-split is_last es (concat ess),
          ends_once-split is_last es (concat ess),
          Handled-handle_each es t,
          frames-Heard u ess,
          append_assoc t.signals es (concat ess),
        )
        | inr e ↦ ground (
          arith,
          e,
          drained topic t es p,
          goes_on-split is_last es (concat ess),
          ends_once-split is_last es (concat ess),
          Handled-handle_each es t,
          append-nil es,
          is_empty_iff (concat ess),
          frames-left u ess,
        )
      ]

-- An ending is where it does not go on.
goes_on_iff : (es : List Event) → ends_once is_last es ≡ true → goes_on is_last es ≡ false
goes_on_iff [] h = ground arith
goes_on_iff (e ∷ es) h = ground (arith, goes_on_iff es)

-- A topic whose handle is never dropped, with a scene tree to poll on: however the events of its task
-- are spread over the frames, the game gets each as a signal, once and in order, and the topic stays
-- held and polled until the task ends by itself; if the task is dropped with the runtime, it stays so.
pub wrap-Heard :
    (topic : Topic) (detached : Bool) (subscribed : Subscribed) (is : List Input)
    (ess : List (List Event))
    → topic.events ≡ []
    → (subscribe detached subscribed is).held ≡ true
    → concat ess ≡ (subscribe detached subscribed is).sent
    → let task = subscribe detached subscribed is in
      let t = frames (wrap true topic) ess in
      (t.signals ≡ task.sent)
      × (is_some t.topic ≡ (task.running || task.dropped))
      × (t.ticking ≡ (task.running || task.dropped))
unfolding wrap
wrap-Heard topic detached subscribed is ess fresh held h = ground (
  arith,
  subscribe-linked 0 detached subscribed is,
  goes_on_iff (subscribe detached subscribed is).sent,
  frames-Heard topic (wrap true topic) ess (ap some (eta fresh), refl),
)
  where
    eta : topic.events ≡ [] → topic ≡ record topic { events = [] }
    eta e = ground arith
