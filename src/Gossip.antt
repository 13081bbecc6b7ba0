-- ===== src/Gossip.antt =====
-- gdiroh/src/gossip.rs: one topic of a swarm. A peer is a number; what iroh-gossip reports, and how it
-- answers a command, are inputs.
use gdiroh.Prelude.{
  ℕ, Option, none, some, List, [], ◌∷◌, ◌++◌, Bool, true, false, String, if◌then◌else◌, nat_eq,
  set_insert, set_remove,
}
use gdiroh.Wire.{Bytes}
pub mod Neighbors
mod Tests

pub data Event : Type 0 where
  neighbor_up neighbor_down : ℕ → Event
  message : (content : Bytes) → (sender : ℕ) → (direct : Bool) → Event
  lagged : Event
  closed : String → Event

pub data Command : Type 0 where
  broadcast broadcast_neighbors : Bytes → Command
  join : List ℕ → Command

-- What the swarm reports: iroh_gossip's Event.
pub data SwarmEvent : Type 0 where
  came went : ℕ → SwarmEvent
  received : (content : Bytes) → (sender : ℕ) → (direct : Bool) → SwarmEvent
  fell_behind : SwarmEvent

-- The task of a topic: the events it sent, its neighbours, the commands it gave to the swarm, whether
-- its handle, a `Topic`, still exists, and whether it was dropped with the runtime.
pub record Task : Type 0 where
  pub sent : List Event
  pub neighbors : List ℕ
  pub given : List Command
  pub held : Bool
  pub running : Bool
  pub dropped : Bool

-- events.send, which fails once the handle is gone.
unfoldable pub send : Event → Task → Task
send e t = if t.held then record t { sent = t.sent ++ e ∷ [] } else t

-- `events.send(translated).is_ok()`: the loop goes on while somebody listens.
abbrev pub tell : Event → Task → Task
tell e t = record (send e t) { running = t.held }

-- An ending, and the loop is left.
abbrev pub stop : Event → Task → Task
stop e t = record (send e t) { running = false }

-- The runtime stops (gdiroh/src/runtime.rs) and drops the task where it waits: it sends nothing more.
abbrev pub cut_off : Task → Task
cut_off t = record t { running = false; dropped = true }

unfoldable pub report : SwarmEvent → Task → Task
report (came p) t = tell (neighbor_up p) (record t { neighbors = set_insert p t.neighbors })
report (went p) t = tell (neighbor_down p) (record t { neighbors = set_remove p t.neighbors })
report (received content sender direct) t = tell (message content sender direct) t
report fell_behind t = stop lagged t

-- What `select!` picks, with how the swarm answers a command. The handle's end is dropped by the
-- main thread, and the task learns of it when it next looks at its commands. The runtime may stop at
-- any time, also while the swarm is answering.
pub data Input : Type 0 where
  commanded : Command → Option String → Input
  dropping unheld : Input
  reported : SwarmEvent → Input
  failing : String → Input
  ending runtime_stopped : Input

-- One turn of the loop of `run`.
unfoldable pub turn : Input → Task → Task
turn (commanded c none) t = record t { given = t.given ++ c ∷ [] }
turn (commanded c (some reason)) t = stop (closed reason) (record t { given = t.given ++ c ∷ [] })
turn dropping t = record t { held = false }
turn unheld t = if t.held then t else record t { running = false }
turn (reported event) t = report event t
turn (failing reason) t = stop (closed reason) t
turn ending t = stop (closed "topic closed") t
turn runtime_stopped t = cut_off t

unfoldable pub loop : List Input → Task → Task
loop [] t = t
loop (i ∷ is) t = let next = loop is (turn i t) in if t.running then next else t

abbrev pub starting : Task
starting = record {
  sent = [];
  neighbors = [];
  given = [];
  held = true;
  running = true;
  dropped = false;
}

-- How the subscription goes: the runtime may stop while it is awaited.
pub data Subscribed : Type 0 where
  joined stopped_meanwhile : Subscribed
  refused : String → Subscribed

unfoldable pub run : Subscribed → List Input → Task
run joined is = loop is starting
run stopped_meanwhile is = cut_off starting
run (refused reason) is = stop (closed reason) starting

-- Swarm::subscribe, where `detached` is whether the task could be started.
unfoldable pub subscribe : Bool → Subscribed → List Input → Task
subscribe false subscribed is = stop (closed "the network runtime is not running") starting
subscribe true subscribed is = run subscribed is
