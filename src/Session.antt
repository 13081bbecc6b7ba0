-- ===== src/Session.antt =====
-- gdiroh/src/session.rs: what a session's task owns and its handlers, the `impl State` block.
-- An `i32` or `u32` is its 32-bit pattern and a connection is a number. The queue to the main
-- thread is the list of the events sent so far, oldest first; what is asked of a connection is a
-- list of actions. A reliable channel's writer is the list of the frames queued on it.
pub mod Send
pub mod Members
pub mod Run
pub mod Reader
pub mod Datagrams
pub mod Handle
pub mod Ids
pub mod Quiet
pub mod SameLinks
pub mod Distinct
pub mod Links
pub mod Hosting
pub mod Queues
pub mod Membership
pub mod Routing
pub mod Telling
pub mod Oversized
pub mod Undisturbed
pub mod Agreement
pub mod Countable
pub mod Kept
pub mod Synced
pub mod Emitting
pub mod Role
pub mod Traffic
pub mod Apart
pub mod Carried
pub mod Outgoing
mod Tests
use gdiroh.Prelude.{
  ℕ, ◌-◌, ◌≡◌, Option, none, some, List, [], ◌∷◌, ◌++◌, Bool, true, false, not, String, length, ltb,
  ◌==◌, nat_eq, if◌then◌else◌, Assoc, lookup, insert, remove, has, keys, contains, set_insert,
  set_remove, not_positive, neg, wrapping_inc, unsigned_max,
}
use gdiroh.Wire.{Bytes, Buf, Control, welcome, peer_joined, peer_left, encode}
use gdiroh.Frames.{control_channel}

-- Peer id Godot reserves for the host.
abbrev pub host_id : ℕ
host_id = 1

-- First id hosts hand out.
abbrev pub first_client_id : ℕ
first_client_id = 2

-- Stream header plus frame header, in bytes.
abbrev pub datagram_header : ℕ
datagram_header = 8

pub data Mode : Type 0 where
  reliable unreliable unreliable_ordered : Mode

pub record Packet : Type 0 where
  pub peer : ℕ
  pub channel : ℕ
  pub mode : Mode
  pub payload : Bytes

-- The numbers of the warning about a packet that no datagram can carry.
pub record Oversize : Type 0 where
  pub bytes : ℕ
  pub limit : ℕ
  pub channel : ℕ

pub data Event : Type 0 where
  ready peer_connected peer_disconnected : ℕ → Event
  packet : Packet → Event
  warning : Oversize → Event
  closed : String → Event

-- Work handed to the session task.
pub data Command : Type 0 where
  send : ℕ → ℕ → Mode → Bytes → Command
  disconnect : ℕ → Command
  close : Command

-- Reported by a connection's reader tasks back to the session task.
pub data Internal : Type 0 where
  control : Control → Internal
  lost : ℕ → Internal

-- What the task asks of a connection: its readers, a channel's writer, a datagram, the end.
pub data Action : Type 0 where
  spawn_readers : ℕ → ℕ → Action
  spawn_stream_writer : ℕ → ℕ → Action
  send_datagram : ℕ → Bytes → Action
  close_connection : ℕ → String → Action

-- One connected peer.
pub record Link : Type 0 where
  pub connection : ℕ
  pub reliable_queues : Assoc ℕ (List Bytes)
  pub sequences : Assoc ℕ ℕ
  pub warned : List ℕ

-- The task's state. `events` is what the task itself sends to the game; the readers that it starts for
-- each connection send the packets they read into the same queue, so these come anywhere between.
pub record State : Type 0 where
  pub events : List Event
  pub is_host : Bool
  pub links : Assoc ℕ Link
  pub announced : List ℕ
  pub connections : Assoc ℕ ℕ
  pub actions : List Action

unfoldable pub emit : Event → State → State
emit e s = record s { events = s.events ++ e ∷ [] }

unfoldable pub act : Action → State → State
act a s = record s { actions = s.actions ++ a ∷ [] }

unfoldable pub put_link : ℕ → Link → State → State
put_link peer link s = record s { links = insert peer link s.links }

abbrev pub new_link : ℕ → Link
new_link connection = record {
  connection = connection;
  reliable_queues = [];
  sequences = [];
  warned = [];
}

unfoldable pub add_link : ℕ → ℕ → State → State
unfolding put_link act
add_link peer connection s = put_link peer (new_link connection) (
    act (spawn_readers peer connection)
      (record s { connections = insert peer connection s.connections }))

-- Reports a peer as connected, once.
unfoldable pub announce : ℕ → State → State
unfolding emit
announce peer s =
    if contains peer s.announced
    then s
    else emit (peer_connected peer) (record s { announced = set_insert peer s.announced })

-- Reports a peer as gone, but only if it was ever announced.
unfoldable pub forget : ℕ → State → State
unfolding emit
forget peer s =
    if contains peer s.announced
    then emit (peer_disconnected peer) (record s { announced = set_remove peer s.announced })
    else s

-- Appends to the link's stream for this channel, opening one on first use.
unfoldable pub append_frame : ℕ → Link → ℕ → Bytes → State → State
unfolding put_link act
append_frame peer link channel payload s = elim (lookup channel link.reliable_queues) [
  | none ↦
      put_link peer
        (record link { reliable_queues = insert channel (payload ∷ []) link.reliable_queues })
        (act (spawn_stream_writer link.connection channel) s)
  | some queue ↦
      put_link peer
        (record link {
          reliable_queues = insert channel (queue ++ payload ∷ []) link.reliable_queues;
        })
        s
]

unfoldable pub write_reliable : ℕ → ℕ → Bytes → State → State
write_reliable peer channel payload s = elim (lookup peer s.links) [
  | none ↦ s
  | some link ↦ append_frame peer link channel payload s
]

-- Closes a peer's connection; the rest follows when the connection's watcher reports it.
pub drop_link : ℕ → State → State
unfolding act
drop_link peer s = elim (lookup peer s.links) [
  | none ↦ s
  | some link ↦ act (close_connection link.connection "disconnected") s
]
