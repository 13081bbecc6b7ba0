-- ===== src/Dispatch/Tests.antt =====
-- gdiroh/src/dispatch.rs: the dispatcher, at concrete claims and connections.
use gdiroh.Prelude.{
  ◌≡◌, refl, none, some, List, [], ◌∷◌, ◌++◌, true, false, if◌then◌else◌, has, bytes_eq, bytes_beq,
  lookup, contains, insert,
}
use gdiroh.Dispatch.{
  Alpn, Dispatcher, Incoming, start, claim, publish_alpns, collect_alpns, set_alpns, dispatch,
  accept_turn, route, deliver, offers_wanted_alpn, wanted,
}
use gdiroh.Dispatch.Claims.{
  Operation, registering, dropping, dropping_receiver, polling, refusing, dispatching, opening,
  performed, Consistent, performed-Consistent, publish_race,
}
use gdiroh.Dispatch.Routing.{destination, reaches, waiting-dispatch, early_refusal_sound}

abbrev game : Alpn
game = 103 ∷ []

abbrev chat : Alpn
chat = 99 ∷ []

-- A peer that offers and settles on `chat`.
abbrev visitor : Incoming
visitor = record {
  offered = some (some chat ∷ none ∷ []);
  accepted = true;
  negotiated = some chat;
  connection = some 40;
}

abbrev both : Dispatcher
both = claim chat (claim game (start []))

abbrev history : List Operation
history =
    registering game
    ∷ registering chat
    ∷ dispatching visitor
    ∷ registering chat
    ∷ polling 1
    ∷ dropping game
    ∷ refusing 1 true
    ∷ dropping_receiver 0
    ∷ []

-- The second claim's queue has the connection, and the first one's has not.
queued_once :
    (((dispatch visitor both).queues 1).waiting ≡ 40 ∷ [])
    × (((dispatch visitor both).queues 0).waiting ≡ [])
unfolding dispatch route deliver claim insert lookup bytes_beq
queued_once = (refl, refl)

performed-Consistent_example : Consistent chat (performed opening history)
performed-Consistent_example = performed-Consistent chat history

waiting-dispatch_example : ((dispatch visitor both).queues 1).waiting ≡ (
    if reaches 1 (destination visitor.negotiated visitor.connection both) both
    then (both.queues 1).waiting ++ (40 ∷ [])
    else (both.queues 1).waiting)
waiting-dispatch_example = waiting-dispatch 1 visitor 40 both refl refl

-- Only `game` is claimed.
early_refusal_sound_example :
    ((dispatch visitor (claim game (start []))).queues 0).waiting
    ≡ ((claim game (start [])).queues 0).waiting
early_refusal_sound_example =
    early_refusal_sound 0 40 visitor chat (some chat ∷ none ∷ []) (claim game (start [])) refl refl
      refl refl (unfold bytes_beq in refl)
      (unfold accept_turn offers_wanted_alpn wanted claim insert lookup bytes_beq in refl)

publish_race_example :
    let first = claim game (start []) in
    let after = set_alpns (collect_alpns first) (publish_alpns (claim chat first)) in
    (has chat after.protocols ≡ true) × (contains chat after.published ≡ false)
publish_race_example =
    publish_race game chat (start []) (unfold bytes_beq in refl) (unfold lookup in refl)
