-- ===== src/Connection.antt =====
-- gdiroh/src/connection.rs: `IrohConnection`, a raw connection as a Godot object. What it emits later
-- is a list of signals, and whether it polls each frame is a flag.
use gdiroh.Prelude.{
  ℕ, Option, none, some, List, [], ◌∷◌, ◌++◌, Bool, true, false, String, if◌then◌else◌, is_some,
  length, min, sign_bit, ◌-◌,
}
use gdiroh.Wire.{Bytes}
use gdiroh.Raw
use gdiroh.Stream
use gdiroh.Raw.Connection.{Event, opened, stream_opened, datagram, closed, Dial}
use gdiroh.Raw.Connection
pub mod Datagrams
pub mod Diagnostics
mod Tests

-- The main thread's end of the queue: what has arrived, and what will before every sender is gone.
pub record Events : Type 0 where
  pub arrived : List Event
  pub coming : List Event

pub data Signal : Type 0 where
  opened_signal : Signal
  failed_signal : String → Signal
  stream_signal : Raw.Stream → Signal
  datagram_signal : Bytes → Signal
  closed_signal : String → Signal

pub record IrohConnection : Type 0 where
  pub events : Option Events
  pub connection : Option ℕ
  pub datagrams : List Bytes
  pub ticking : Bool
  pub signals : List Signal

-- IrohConnection::wrap, with whether there is a scene tree to poll on.
abbrev pub wrap : Bool → Events → Option ℕ → IrohConnection
wrap tree events connection = record {
  events = some events;
  connection = connection;
  datagrams = [];
  ticking = tree;
  signals = [];
}

abbrev pub emit_later : Signal → IrohConnection → IrohConnection
emit_later signal c = record c { signals = c.signals ++ signal ∷ [] }

unfoldable pub handle : Event → IrohConnection → IrohConnection
handle (opened connection) c = emit_later opened_signal (record c { connection = some connection })
handle (stream_opened st) c = emit_later (stream_signal st) c
handle (datagram bytes) c =
    emit_later (datagram_signal bytes) (record c { datagrams = c.datagrams ++ bytes ∷ [] })
handle (closed reason) c =
    emit_later (if is_some c.connection then closed_signal reason else failed_signal reason)
      (record c { connection = none; events = none; ticking = false })

unfoldable pub handle_all : List Event → IrohConnection → IrohConnection
handle_all [] c = c
handle_all (event ∷ pending) c = handle_all pending (handle event c)

-- Every event that has arrived is taken before the first is handled.
unfoldable pub drain_pending : IrohConnection → IrohConnection
drain_pending c = elim c.events [
  | none ↦ c
  | some events ↦
      handle_all events.arrived (record c { events = some (record events { arrived = [] }) })
]

unfoldable pub get_available_datagram_count : IrohConnection → ℕ × IrohConnection
get_available_datagram_count c =
    let drained = drain_pending c in (min (length drained.datagrams) (sign_bit - 1), drained)

-- The loop of `get_datagram` over what is still coming: it waits for each.
unfoldable pub wait_coming : List Event → IrohConnection → Bytes × IrohConnection
wait_coming [] c = ([], record c { events = some (record { arrived = []; coming = [] }) })
wait_coming (datagram bytes ∷ rest) c =
    (bytes, record c { events = some (record { arrived = []; coming = rest }) })
wait_coming (closed reason ∷ rest) c = ([], handle (closed reason) c)
wait_coming (opened connection ∷ rest) c = wait_coming rest (handle (opened connection) c)
wait_coming (stream_opened st ∷ rest) c = wait_coming rest (handle (stream_opened st) c)

-- The same loop while something has arrived.
unfoldable pub wait_arrived : List Event → List Event → IrohConnection → Bytes × IrohConnection
wait_arrived [] coming c = wait_coming coming c
wait_arrived (datagram bytes ∷ rest) coming c =
    (bytes, record c { events = some (record { arrived = rest; coming = coming }) })
wait_arrived (closed reason ∷ rest) coming c = ([], handle (closed reason) c)
wait_arrived (opened connection ∷ rest) coming c =
    wait_arrived rest coming (handle (opened connection) c)
wait_arrived (stream_opened st ∷ rest) coming c =
    wait_arrived rest coming (handle (stream_opened st) c)

unfoldable pub get_datagram : IrohConnection → Bytes × IrohConnection
get_datagram c = elim c.datagrams [
  | bytes ∷ rest ↦ (bytes, record c { datagrams = rest })
  | [] ↦ elim c.events [
    | none ↦ ([], c)
    | some events ↦ wait_arrived events.arrived events.coming c
  ]
]

-- Whether it was sent, where `sends` is what iroh answers.
unfoldable pub send_datagram : Bool → IrohConnection → Bool
send_datagram sends c = if is_some c.connection then sends else false

unfoldable pub is_open : IrohConnection → Bool
is_open c = is_some c.connection

-- close, and the connection that was closed.
unfoldable pub close : IrohConnection → Option ℕ × IrohConnection
close c = (c.connection, record c { connection = none; events = none; ticking = false })

-- open_stream, with what the raw stream's `open` meets.
unfoldable pub open_stream :
    Bool → Option String → List Raw.Turn → IrohConnection → Option Stream.State
open_stream detached refused turns c =
    if is_some c.connection
    then some (Stream.wrap (Raw.open_stream detached refused turns))
    else none
