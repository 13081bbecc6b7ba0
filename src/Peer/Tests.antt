-- ===== src/Peer/Tests.antt =====
-- gdiroh/src/peer.rs: the Godot peer, at concrete events.
use gdiroh.Prelude.{ℕ, ◌≡◌, refl, none, some, List, [], ◌∷◌, ◌++◌, true, false, String, concat}
use gdiroh.Wire.{Control}
use gdiroh.Wire.BigEndian.{big_endian}
use gdiroh.Raw.{NetPath}
use gdiroh.Stats.{Traffic}
use gdiroh.Session.{
  Event, ready, peer_connected, peer_disconnected, closed, Packet, reliable, unreliable_ordered,
  host_id, control, lost, add_link,
}
use gdiroh.Session.Handle
use gdiroh.Session.Run.{Loop, Input, message, connection, running, run, hosting, state_of, fresh}
use gdiroh.Session.Run
use gdiroh.Peer.{IrohPeer, init, connecting, connected, unconfigured}
use gdiroh.Peer.Calls.{poll, send}
use gdiroh.Peer.Stance.{stance, gone}
use gdiroh.Peer.Standing.{frames}
use gdiroh.Peer.Whole.{peer_stands}
use gdiroh.Peer.Late.{late_ready_revives}

abbrev session_with : List Event → Handle.Session
session_with events = record { events = events; commands = []; refuse = none; connections = [] }

abbrev joining : IrohPeer
joining = record init { session = some (session_with []); endpoint = some 4; status = connecting }

-- A client that is welcomed, told of another, and loses its host.
abbrev stay : List Input
stay =
    message (control (Control.welcome 2 []))
    ∷ message (control (Control.peer_joined 3))
    ∷ message (lost host_id)
    ∷ []

abbrev greeting : Packet
greeting = record { peer = 1; channel = 0; mode = reliable; payload = 7 ∷ [] }

-- Polled once before the welcome, once after it, with a packet of the host, and at the end.
abbrev stay_frames : List (List Event)
stay_frames =
    []
    ∷ (ready 2 ∷ peer_connected 1 ∷ Event.packet greeting ∷ [])
    ∷ (peer_connected 3 ∷ peer_disconnected 1 ∷ closed "host disconnected" ∷ [])
    ∷ []

peer_stands_example : stance (frames stay_frames joining) ≡ gone
peer_stands_example =
    peer_stands (Run.connected 9) stay stay_frames joining (session_with []) refl refl
      (tt, (λ _ _. tt))
      (unfold run Run.rounds Run.step Run.start gdiroh.Session.Members.lost
          gdiroh.Session.Members.apply gdiroh.Session.Members.report_lost gdiroh.Session.announce
          gdiroh.Session.forget gdiroh.Session.add_link gdiroh.Prelude.lookup gdiroh.Prelude.insert
          gdiroh.Prelude.contains gdiroh.Prelude.set_insert gdiroh.Prelude.set_remove in
        refl)

-- A welcome that arrives behind the end.
abbrev late : Handle.Session
late = session_with (closed "host disconnected" ∷ ready 2 ∷ peer_connected 1 ∷ [])

abbrev late_peer : IrohPeer
late_peer = record init { session = some late; status = connecting }

late_ready_revives_example :
    ((poll late_peer).status ≡ connected)
    × ((poll late_peer).unique_id ≡ 2)
    × ((poll late_peer).session ≡ none)
    × (send (7 ∷ []) (poll late_peer) ≡ (unconfigured, poll late_peer))
    × (poll (poll late_peer) ≡ poll late_peer)
late_ready_revives_example =
    late_ready_revives late_peer late [] [] (peer_connected 1 ∷ []) "host disconnected" 2 (7 ∷ [])
      refl refl (refl, tt)

abbrev traffic : Traffic
traffic = record {
  tx_datagrams = 10;
  tx_bytes = 1200;
  rx_datagrams = 8;
  rx_bytes = 900;
  lost_packets = 1;
  lost_bytes = 100;
}

abbrev direct_path : NetPath
direct_path = record { selected = true; relay = false; rtt = 30 }

-- A client linked to its host by connection 9, read in milliseconds that stand for themselves, with 0
-- for unknown.
abbrev linked_peer : IrohPeer
linked_peer = record init {
  session = some (record (session_with []) { connections = (host_id, 9) ∷ [] });
}

abbrev client_loop : Loop
client_loop = record { state = add_link host_id 9 (fresh false); next_id = 2; inbound = false }
