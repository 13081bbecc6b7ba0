-- ===== src/Topic.antt =====
-- gdiroh/src/topic.rs: `IrohTopic`, a topic of a swarm for the game, with gdiroh/src/gossip.rs's
-- `Topic`: its two queues, the neighbours it shares with its task, and whether the task still runs.
use gdiroh.Prelude.{
  ℕ, ◌+◌, Option, none, some, List, [], ◌∷◌, ◌++◌, Bool, true, false, not, String, if◌then◌else◌,
  is_some, is_empty, parse_each,
}
use gdiroh.Wire.{Bytes}
use gdiroh.Gossip.{Event, neighbor_up, neighbor_down, message, lagged, closed, Command}
pub mod Frames
mod Tests

pub record Topic : Type 0 where
  pub events : List Event
  pub commands : List Command
  pub neighbors : List ℕ
  pub served : Bool

pub record IrohTopic : Type 0 where
  pub topic : Option Topic
  pub ticking : Bool
  -- A signal is called as its event.
  pub signals : List Event

abbrev start_ticking : Bool → IrohTopic → IrohTopic
start_ticking scene t = if t.ticking then t else record t { ticking = scene }

abbrev stop_ticking : IrohTopic → IrohTopic
stop_ticking t = record t { ticking = false }

unfoldable pub wrap : Bool → Topic → IrohTopic
wrap scene topic =
    start_ticking scene (record { topic = some topic; ticking = false; signals = [] })

abbrev pub emit_later : Event → IrohTopic → IrohTopic
emit_later e t = record t { signals = t.signals ++ e ∷ [] }

abbrev finished : IrohTopic → IrohTopic
finished t = stop_ticking (record t { topic = none })

unfoldable pub handle : Event → IrohTopic → IrohTopic
handle (neighbor_up p) t = emit_later (neighbor_up p) t
handle (neighbor_down p) t = emit_later (neighbor_down p) t
handle (message content sender direct) t = emit_later (message content sender direct) t
handle lagged t = emit_later lagged (finished t)
handle (closed reason) t = emit_later (closed reason) (finished t)

unfoldable pub handle_each : List Event → IrohTopic → IrohTopic
handle_each [] t = t
handle_each (e ∷ es) t = handle_each es (handle e t)

-- _drain: all that waits is taken before any of it is handled.
unfoldable pub drain : IrohTopic → IrohTopic
drain t = elim t.topic [
  | none ↦ t
  | some topic ↦ handle_each topic.events (record t { topic = some (record topic { events = [] }) })
]

-- commands.send(…).is_ok()
abbrev order : Command → IrohTopic → Bool × IrohTopic
order c t = elim t.topic [
  | none ↦ (false, t)
  | some topic ↦ (
    topic.served,
    if topic.served
        then record t { topic = some (record topic { commands = topic.commands ++ c ∷ [] }) }
        else t,
  )
]

unfoldable pub broadcast : Bytes → IrohTopic → Bool × IrohTopic
broadcast bytes t = order (Command.broadcast bytes) t

unfoldable pub broadcast_neighbors : Bytes → IrohTopic → Bool × IrohTopic
broadcast_neighbors bytes t = order (Command.broadcast_neighbors bytes) t

-- `peers` are parsed, with `none` for what is no endpoint id.
unfoldable pub join_peers : List (Option ℕ) → IrohTopic → Bool × IrohTopic
join_peers peers t = elim (parse_each peers) [
  | none ↦ (false, t)
  | some ids ↦ order (Command.join ids) t
]

unfoldable pub neighbors : IrohTopic → List ℕ
neighbors t = elim t.topic [ none ↦ [] | some topic ↦ topic.neighbors ]

unfoldable pub is_joined : IrohTopic → Bool
is_joined t = elim t.topic [ none ↦ false | some topic ↦ not (is_empty topic.neighbors) ]

unfoldable pub leave : IrohTopic → IrohTopic
leave t = finished t

-- The task's end of the event queue: lost when the topic was left.
unfoldable pub arrive : List Event → IrohTopic → IrohTopic
arrive es t = elim t.topic [
  | none ↦ t
  | some topic ↦ record t { topic = some (record topic { events = topic.events ++ es }) }
]
