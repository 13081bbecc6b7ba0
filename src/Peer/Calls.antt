-- ===== src/Peer/Calls.antt =====
-- gdiroh/src/peer.rs: what Godot calls on a peer, packet by packet and frame by frame.
use gdiroh.Prelude.{
  ℕ, Option, none, some, List, [], ◌∷◌, ◌++◌, Bool, true, false, length, leb, if◌then◌else◌, ◌==◌,
  nat_eq, sign_bit,
}
use gdiroh.Wire.{Bytes}
use gdiroh.Dispatch.{Dispatcher}
use gdiroh.Session.{
  Event, ready, peer_connected, peer_disconnected, warning, closed, Command, host_id,
}
use gdiroh.Session.Handle
use gdiroh.Session.Handle.{command, set_refuse_new_connections}
use gdiroh.Peer.{
  TransferMode, transfer_reliable, ConnectionStatus, disconnected, connecting, connected, Error, ok,
  unavailable, unconfigured, invalid_parameter, connected_signal, disconnected_signal,
  warning_signal, IrohPeer, to_session_mode, from_session_mode,
}

unfoldable pub get_available_packet_count : IrohPeer → ℕ
get_available_packet_count p = length p.incoming

-- The three getters that peek at the next packet.
unfoldable pub get_packet_channel : IrohPeer → ℕ
get_packet_channel p = elim p.incoming [ [] ↦ 0 | packet ∷ rest ↦ packet.channel ]

unfoldable pub get_packet_mode : IrohPeer → TransferMode
get_packet_mode p = elim p.incoming [ [] ↦ transfer_reliable | packet ∷ rest ↦ packet.mode ]

unfoldable pub get_packet_peer : IrohPeer → ℕ
get_packet_peer p = elim p.incoming [ [] ↦ 0 | packet ∷ rest ↦ packet.peer ]

-- get_packet_rawptr: the error and the bytes that the out-pointers are set to, which `current` keeps.
unfoldable pub get_packet : IrohPeer → Error × (Bytes × IrohPeer)
get_packet p = elim p.incoming [
  | [] ↦ (unavailable, ([], p))
  | packet ∷ rest ↦ (ok, (packet.payload, record p { incoming = rest; current = some packet }))
]

-- get_packet_script
unfoldable pub get_packet_script : IrohPeer → Bytes × IrohPeer
get_packet_script p = elim p.incoming [
  | [] ↦ ([], p)
  | packet ∷ rest ↦ (packet.payload, record p { incoming = rest; current = some packet })
]

abbrev is_connected : ConnectionStatus → Bool
is_connected disconnected = false
is_connected connecting = false
is_connected connected = true

unfoldable pub send : Bytes → IrohPeer → Error × IrohPeer
send bytes p =
    if is_connected p.status
    then elim p.session [
      | none ↦ (unconfigured, p)
      | some s ↦ (
        ok,
        record p {
          session = some (
              command
                (Command.send p.target_peer p.transfer_channel (to_session_mode p.transfer_mode)
                  bytes)
                s);
        },
      )
    ]
    else (unconfigured, p)

-- put_packet_rawptr, with the size that Godot gives for `bytes`; put_packet_script is `send`.
unfoldable pub put_packet : ℕ → Bytes → IrohPeer → Error × IrohPeer
put_packet size bytes p = if leb sign_bit size then (invalid_parameter, p) else send bytes p

unfoldable pub handle : Event → IrohPeer → IrohPeer
handle (ready id) p = record p { unique_id = id; status = connected }
handle (peer_connected id) p = record p { signals = p.signals ++ (connected_signal id ∷ []) }
handle (peer_disconnected id) p = record p { signals = p.signals ++ (disconnected_signal id ∷ []) }
handle (Event.packet packet) p = record p {
  incoming =
      p.incoming
      ++ (record {
        peer = packet.peer;
        channel = packet.channel;
        mode = from_session_mode packet.mode;
        payload = packet.payload;
      }
          ∷ []);
}
handle (warning oversize) p = record p { signals = p.signals ++ (warning_signal oversize ∷ []) }
handle (closed reason) p = record p {
  session = none;
  endpoint = none;
  unique_id = 0;
  status = disconnected;
}

unfoldable pub handle_all : List Event → IrohPeer → IrohPeer
handle_all [] p = p
handle_all (event ∷ events) p = handle_all events (handle event p)

-- poll: the session is drained before any of its events is handled.
unfoldable pub poll : IrohPeer → IrohPeer
poll p = elim p.session [
  | none ↦ p
  | some s ↦ handle_all s.events (record p { session = some (record s { events = [] }) })
]

-- close, and the session whose last command it gave.
unfoldable pub close : IrohPeer → Option Handle.Session × IrohPeer
close p = (
  elim p.session [ none ↦ none | some s ↦ some (command Command.close s) ],
  record p {
    session = none;
    endpoint = none;
    incoming = [];
    current = none;
    unique_id = 0;
    status = disconnected;
  },
)

unfoldable pub disconnect_peer : ℕ → IrohPeer → IrohPeer
disconnect_peer peer p = elim p.session [
  | none ↦ p
  | some s ↦ record p { session = some (command (Command.disconnect peer) s) }
]

unfoldable pub set_refuse_new : Bool → IrohPeer → Dispatcher → IrohPeer × Dispatcher
set_refuse_new enable p d = (
  record p { refuse_new_connections = enable },
  elim p.session [ none ↦ d | some s ↦ set_refuse_new_connections enable s d ],
)

abbrev pub set_transfer_channel : ℕ → IrohPeer → IrohPeer
set_transfer_channel channel p = record p { transfer_channel = channel }

abbrev pub set_transfer_mode : TransferMode → IrohPeer → IrohPeer
set_transfer_mode mode p = record p { transfer_mode = mode }

abbrev pub set_target_peer : ℕ → IrohPeer → IrohPeer
set_target_peer peer p = record p { target_peer = peer }

abbrev pub is_server : IrohPeer → Bool
is_server p = p.unique_id == host_id
