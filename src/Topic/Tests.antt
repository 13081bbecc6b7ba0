-- ===== src/Topic/Tests.antt =====
-- gdiroh/src/topic.rs: a topic over three frames.
use gdiroh.Prelude.{◌≡◌, refl, List, [], ◌∷◌, true, is_some, ◌||◌}
use gdiroh.Gossip.{
  Event, neighbor_up, message, lagged, Input, reported, came, received, fell_behind, subscribe, run,
  loop, turn, report, send, joined,
}
use gdiroh.Topic.{Topic, wrap}
use gdiroh.Topic.Frames.{frames, wrap-Heard}

abbrev chat : List Input
chat = reported (came 6) ∷ reported (received (9 ∷ []) 6 true) ∷ reported fell_behind ∷ []

abbrev fresh_topic : Topic
fresh_topic = record { events = []; commands = []; neighbors = []; served = true }

abbrev by_frame : List (List Event)
by_frame = (neighbor_up 6 ∷ message (9 ∷ []) 6 true ∷ []) ∷ [] ∷ (lagged ∷ []) ∷ []

wrap-Heard_example :
    let task = subscribe true joined chat in
    let t = frames (wrap true fresh_topic) by_frame in
    (t.signals ≡ task.sent)
    × (is_some t.topic ≡ (task.running || task.dropped))
    × (t.ticking ≡ (task.running || task.dropped))
wrap-Heard_example =
    wrap-Heard fresh_topic true joined chat by_frame refl
      (unfold subscribe run loop turn report send in refl)
      (unfold subscribe run loop turn report send in refl)
