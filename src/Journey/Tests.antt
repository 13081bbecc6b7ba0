-- ===== src/Journey/Tests.antt =====
-- gdiroh/src/peer.rs and gdiroh/src/session.rs: packets between two games.
use gdiroh.Prelude.{◌≡◌, refl, none, some, List, [], ◌∷◌, true, false, arith, ℕ, map, sym, ap, ◌∙◌}
use gdiroh.Wire.{Bytes, Control, encode, put_words}
use gdiroh.Frames.{control_channel}
use gdiroh.Frames.Delivery.{deliver_controls}
use gdiroh.Session.Reader.{to_task}
use gdiroh.Wire.BigEndian.{big_endian}
use gdiroh.Frames.{Write, written, failed, stream_writer}
use gdiroh.Frames.Parse.{StartOf}
use gdiroh.Session.{
  peer_connected, spawn_readers, spawn_stream_writer, new_link, Link, Event, ready, host_id, send,
  reliable, unreliable, control, Command,
}
use gdiroh.Session.Handle
use gdiroh.Session.Send.{Limits}
use gdiroh.Session.Membership.{replay}
use gdiroh.Journey.Members.{members_agree}
use gdiroh.Session.Run.{
  Loop, Input, command, message, connection, rounds, step, run, hosting, state_of, fresh, start,
  running,
}
use gdiroh.Session.Run
use gdiroh.Session.Queues.{queued}
use gdiroh.Peer.{IrohPeer, init, connected, transfer_unreliable, transfer_reliable}
use gdiroh.Peer.Puts.{Call, to_target, on_channel, with_mode, put, put_for, perform_all}
use gdiroh.Journey.{received, events_of, whole_stream}
use gdiroh.Journey.Reliable.{client_to_host, host_to_client, client_to_host_cut}

abbrev limits : Limits
limits conn = some 1200

abbrev session_with : List Event → Handle.Session
session_with events = record { events = events; commands = []; refuse = none; connections = [] }

abbrev peer_with : List Event → IrohPeer
peer_with events = record init { session = some (session_with events); status = connected }

-- A game that puts one packet for everyone on channel 5, one on channel 6 without reliability, and
-- another on channel 5.
abbrev calls : List Call
calls =
    on_channel 5
    ∷ put 2 (1 ∷ 2 ∷ [])
    ∷ with_mode transfer_unreliable
    ∷ on_channel 6
    ∷ put 1 (9 ∷ [])
    ∷ with_mode transfer_reliable
    ∷ on_channel 5
    ∷ put 1 (3 ∷ [])
    ∷ []

abbrev puts : List Bytes
puts = (1 ∷ 2 ∷ []) ∷ (3 ∷ []) ∷ []

-- Its task meets the commands, and a welcome between them.
abbrev inputs : List Input
inputs =
    command (send 0 5 reliable (1 ∷ 2 ∷ [])) limits
    ∷ message (control (Control.welcome 2 []))
    ∷ command (send 0 6 unreliable (9 ∷ [])) limits
    ∷ command (send 0 5 reliable (3 ∷ [])) limits
    ∷ []

abbrev at_host : List Event
at_host =
    events_of 64 2 (whole_stream 5 (queued host_id 5 (state_of (run (Run.connected 9) inputs))))

client_to_host_example : received 2 5 (peer_with at_host) ≡ puts
client_to_host_example =
    client_to_host 2 5 64 (omega arith) (λ e. omega arith) 9 calls (peer_with []) (session_with [])
      inputs (peer_with at_host) (session_with at_host) refl refl refl
      (unfold perform_all gdiroh.Peer.Puts.perform gdiroh.Peer.Calls.put_packet
          gdiroh.Peer.Calls.send gdiroh.Peer.to_session_mode in
        refl)
      (tt, (tt, ((λ e. omega arith), (tt, tt)))) (omega arith, (omega arith, tt)) refl refl

-- A host that has sent a packet to everyone before anybody came.
abbrev early : List Input
early = command (send 0 5 reliable (8 ∷ [])) limits ∷ []

abbrev empty_host : Loop
empty_host = record {
  state = record (fresh true) { events = ready host_id ∷ [] };
  next_id = 2;
  inbound = true;
}

-- What it meets once a client has come: its game's commands, and another client.
abbrev later : List Input
later =
    command (send 0 5 reliable (1 ∷ 2 ∷ [])) limits
    ∷ connection 8
    ∷ command (send 0 6 unreliable (9 ∷ [])) limits
    ∷ command (send 0 5 reliable (3 ∷ [])) limits
    ∷ []

abbrev at_client : List Event
at_client =
    events_of 64 1
      (whole_stream 5 (queued 2 5 (state_of (rounds (step empty_host (connection 7)) later))))

host_to_client_example : received 1 5 (peer_with at_client) ≡ puts
host_to_client_example =
    host_to_client 1 5 64 (omega arith) (λ e. omega arith) 7 early empty_host calls (peer_with [])
      (session_with []) later (peer_with at_client) (session_with at_client)
      (unfold run start rounds step gdiroh.Session.Send.send_to gdiroh.Session.Send.send_except in
        refl)
      refl (omega arith) refl refl refl
      (unfold perform_all gdiroh.Peer.Puts.perform gdiroh.Peer.Calls.put_packet
          gdiroh.Peer.Calls.send gdiroh.Peer.to_session_mode in
        refl)
      (tt, (tt, ((λ e. omega arith), (tt, tt)))) (omega arith, (omega arith, tt)) refl refl

-- A transport that fails within the second packet.
abbrev broken : List Write
broken = written ∷ written ∷ written ∷ written ∷ failed 0 ∷ []

abbrev cut_at_host : List Event
cut_at_host =
    events_of 64 2
      (stream_writer true broken 5 (queued host_id 5 (state_of (run (Run.connected 9) inputs))))

client_to_host_cut_example :
    (ds : List Bytes) × StartOf ds puts × (received 2 5 (peer_with cut_at_host) ≡ ds)
client_to_host_cut_example =
    client_to_host_cut 2 5 64 (omega arith) (λ e. omega arith) 9 true broken calls (peer_with [])
      (session_with []) inputs (peer_with cut_at_host) (session_with cut_at_host) refl refl refl
      (unfold perform_all gdiroh.Peer.Puts.perform gdiroh.Peer.Calls.put_packet
          gdiroh.Peer.Calls.send gdiroh.Peer.to_session_mode in
        refl)
      (tt, (tt, ((λ e. omega arith), (tt, tt)))) (omega arith, (omega arith, tt)) refl refl

-- Two clients come, and the first hears of the second.
abbrev two_arrivals : List Input
two_arrivals = connection 7 ∷ connection 8 ∷ []

abbrev news : List Control
news = Control.welcome 2 [] ∷ Control.peer_joined 3 ∷ []

abbrev link_with : ℕ → List Control → Link
link_with conn cs = record (new_link conn) {
  reliable_queues = (control_channel, map encode cs) ∷ [];
}

abbrev two_linked : Loop
two_linked = record {
  state = record {
    events = ready host_id ∷ peer_connected 2 ∷ peer_connected 3 ∷ [];
    is_host = true;
    links = (2, link_with 7 news) ∷ (3, link_with 8 (Control.welcome 3 (2 ∷ []) ∷ [])) ∷ [];
    announced = 3 ∷ 2 ∷ [];
    connections = (2, 7) ∷ (3, 8) ∷ [];
    actions =
        spawn_readers 2 7
        ∷ spawn_stream_writer 7 control_channel
        ∷ spawn_readers 3 8
        ∷ spawn_stream_writer 8 control_channel
        ∷ [];
  };
  next_id = 4;
  inbound = true;
}

abbrev told_first : List Input
told_first =
    message (control (Control.welcome 2 []))
    ∷ command (send 0 5 reliable (1 ∷ [])) limits
    ∷ message (control (Control.peer_joined 3))
    ∷ []

members_agree_example :
    replay 3 false (state_of (run (Run.connected 9) told_first)).events ≡ some true
unfolding gdiroh.Prelude.lookup
members_agree_example =
    members_agree 64 2 3 (omega arith) (λ e. omega arith) two_arrivals told_first two_linked 9
      (tt, (tt, tt)) (omega arith)
      (unfold run rounds step start gdiroh.Session.Run.following_id gdiroh.Session.Members.welcome
          gdiroh.Session.Members.tell_all gdiroh.Session.Members.control_to gdiroh.Session.announce
          gdiroh.Session.add_link gdiroh.Session.write_reliable gdiroh.Session.append_frame
          gdiroh.Prelude.insert gdiroh.Prelude.contains gdiroh.Prelude.set_insert in
        refl)
      refl (tt, (tt, (tt, tt)))
      (sym (
        ap to_task (
          deliver_controls 64 news ((omega arith, omega arith, omega arith, tt), (omega arith, tt))
            (unfold encode put_words gdiroh.Wire.BigEndian.big_endian
                gdiroh.Wire.BigEndian.to_be_bytes in
              (omega arith, (omega arith, tt))))
        ∙ (unfold to_task in refl)))
