-- ===== src/Peer.antt =====
-- gdiroh/src/peer.rs: `IrohPeer`, a session as a Godot `MultiplayerPeer`. The endpoint is its
-- dispatcher, with the number of its id; what a call emits is a list of signals.
use gdiroh.Prelude.{
  ℕ, ◌+◌, ◌-◌, Option, none, some, ◌>>=◌, List, [], ◌∷◌, ◌++◌, Bool, true, false, not, ◌&&◌, String,
  length, leb, if◌then◌else◌, ◌==◌, nat_eq, sign_bit,
}
use gdiroh.Wire.{Bytes}
use gdiroh.Raw.{NetPath, PathInfo}
use gdiroh.Dispatch.{Dispatcher}
use gdiroh.Session
use gdiroh.Session.{
  Mode, reliable, unreliable, unreliable_ordered, Event, ready, peer_connected, peer_disconnected,
  warning, closed, Oversize, Command, host_id,
}
use gdiroh.Session.Handle
use gdiroh.Session.Handle.{try_recv, command, set_refuse_new_connections, peer_path}
pub mod Calls
pub mod Diagnostics
pub mod Readouts
pub mod Stance
pub mod Standing
pub mod Late
pub mod Expected
pub mod Whole
pub mod Modes
pub mod Polling
pub mod Puts
mod Tests

-- Godot's transfer modes, connection states and the errors that the peer answers with.
pub data TransferMode : Type 0 where
  transfer_unreliable transfer_unreliable_ordered transfer_reliable : TransferMode

pub data ConnectionStatus : Type 0 where
  disconnected connecting connected : ConnectionStatus

pub data Error : Type 0 where
  ok unavailable unconfigured invalid_parameter : Error

-- A packet as Godot sees it.
pub record Packet : Type 0 where
  pub peer : ℕ
  pub channel : ℕ
  pub mode : TransferMode
  pub payload : Bytes

pub data Signal : Type 0 where
  connected_signal disconnected_signal : ℕ → Signal
  warning_signal : Oversize → Signal

pub record IrohPeer : Type 0 where
  pub session : Option Handle.Session
  pub endpoint : Option ℕ
  pub unique_id : ℕ
  pub target_peer : ℕ
  pub transfer_channel : ℕ
  pub transfer_mode : TransferMode
  pub refuse_new_connections : Bool
  pub status : ConnectionStatus
  pub incoming : List Packet
  pub current : Option Packet
  pub signals : List Signal

-- init
abbrev pub init : IrohPeer
init = record {
  session = none;
  endpoint = none;
  unique_id = 0;
  target_peer = 0;
  transfer_channel = 0;
  transfer_mode = transfer_reliable;
  refuse_new_connections = false;
  status = disconnected;
  incoming = [];
  current = none;
  signals = [];
}

unfoldable pub to_session_mode : TransferMode → Mode
to_session_mode transfer_unreliable = unreliable
to_session_mode transfer_unreliable_ordered = unreliable_ordered
to_session_mode transfer_reliable = reliable

unfoldable pub from_session_mode : Mode → TransferMode
from_session_mode unreliable = transfer_unreliable
from_session_mode unreliable_ordered = transfer_unreliable_ordered
from_session_mode reliable = transfer_reliable

-- host, on the endpoint with this number and dispatcher, `none` when it is not bound; `detached` is
-- whether the session's task could be started.
unfoldable pub host :
    ℕ → Option Dispatcher → Bool → IrohPeer → Bool × (Option Dispatcher × IrohPeer)
host endpoint none detached p = (false, (none, p))
host endpoint (some d) detached p =
    let started = Handle.start true detached d in
    (
      true,
      (
        some (set_refuse_new_connections p.refuse_new_connections started.0 started.1),
        record p {
          session = some started.0;
          endpoint = some endpoint;
          unique_id = host_id;
          status = connecting;
        },
      ),
    )

-- start_join, to the endpoint with the number `host`.
unfoldable pub start_join :
    ℕ → Option Dispatcher → ℕ → Bool → IrohPeer → Bool × (Option Dispatcher × IrohPeer)
start_join endpoint none host detached p = (false, (none, p))
start_join endpoint (some d) host detached p =
    let started = Handle.start false detached d in
    if host == endpoint then (false, (some d, p)) else (
      true,
      (
        some started.1,
        record p { session = some started.0; endpoint = some endpoint; status = connecting },
      ),
    )

-- join and join_ticket: what the text parsed to, if it did.
unfoldable pub join :
    ℕ → Option Dispatcher → Option ℕ → Bool → IrohPeer → Bool × (Option Dispatcher × IrohPeer)
join endpoint d none detached p = (false, (d, p))
join endpoint d (some host) detached p = start_join endpoint d host detached p
