-- ===== src/Session/Tests.antt =====
-- gdiroh/src/session.rs: sessions, at concrete inputs.
use gdiroh.Prelude.{
  ltb, length, map, ◌≤◌, ◌<◌, ◌^◌, ◌&&◌, not, nat_beq, ℕ, ◌-◌, ◌≡◌, ◌≢◌, refl, some, List, [], ◌∷◌,
  ◌++◌, true, false, arith, if◌then◌else◌, nat_eq, has, lookup, contains, word_size, insert,
}
use gdiroh.Wire.{Bytes, welcome, peer_left, encode}
use gdiroh.Wire.BigEndian.{big_endian}
use gdiroh.Frames.{control_channel}
use gdiroh.Session.{
  State, reliable, unreliable_ordered, send, close, control, lost, new_link, first_client_id,
  host_id, add_link,
}
use gdiroh.Session.Oversized.{datagrams, write_datagram_lem}
use gdiroh.Session.Send.{
  next_sequence, limit_of, write_datagram, Limits, send_to, next_count, frame_datagram, count_of,
}
use gdiroh.Session.Members
use gdiroh.Session.Reader.{read_datagrams}
use gdiroh.Session.Run.{
  Loop, Flow, Input, command, message, connection, no_more_connections, running, finished, hosting,
  connected, start, state_of, rounds, step, run,
}
use gdiroh.Session.Hosting.{PeerLeft_breaks_Agrees}
use gdiroh.Session.Membership.{Told, run-Told}
use gdiroh.Session.Queues.{queued}
use gdiroh.Session.Routing.{queued-send_to}
use gdiroh.Session.Telling.{queued-welcome}
use gdiroh.Session.Distinct.{Distinct}
use gdiroh.Session.Ids.{linked_ids_bounded}
use gdiroh.Session.Datagrams.{arrivals, newest, read_datagrams-newest}

abbrev limits : Limits
limits conn = some 1200

-- Two clients come, a packet goes to everyone, one client leaves, and the host closes.
abbrev evening : List Input
evening =
    connection 7
    ∷ connection 8
    ∷ command (send 0 5 reliable (1 ∷ 2 ∷ [])) limits
    ∷ message (lost 2)
    ∷ no_more_connections
    ∷ []

-- A client that is welcomed, told of a peer and told that it left.
abbrev visit : List Input
visit =
    message (control (welcome 3 (2 ∷ [])))
    ∷ message (control (peer_left 2))
    ∷ message (lost 1)
    ∷ command close limits
    ∷ []

abbrev two_clients : State
two_clients = record {
  events = [];
  is_host = true;
  links = (2, new_link 7) ∷ (3, new_link 8) ∷ [];
  announced = 2 ∷ 3 ∷ [];
  connections = (2, 7) ∷ (3, 8) ∷ [];
  actions = [];
}

two_clients-Distinct : Distinct two_clients
unfolding contains
two_clients-Distinct = (refl, (refl, tt))

run-Told_example : Told 2 (state_of (run (connected 9) visit))
run-Told_example = run-Told 2 (connected 9) visit

queued-send_to_example :
    queued 3 5 (send_to limits 0 5 reliable (1 ∷ 2 ∷ []) two_clients)
    ≡ queued 3 5 two_clients ++ (1 ∷ 2 ∷ []) ∷ []
unfolding lookup
queued-send_to_example = queued-send_to limits 3 5 5 (1 ∷ 2 ∷ []) 0 two_clients two_clients-Distinct

queued-welcome_example :
    queued 4 control_channel (Members.welcome 4 9 two_clients)
    ≡ encode (welcome 4 (2 ∷ 3 ∷ [])) ∷ []
queued-welcome_example =
    queued-welcome 4 control_channel 4 9 two_clients two_clients-Distinct (unfold lookup in refl)

abbrev loop_of : Flow → Loop
loop_of (running l) = l
loop_of (finished s) = record { state = s; next_id = first_client_id; inbound = false }

linked_ids_bounded_example :
    let l = loop_of (run hosting evening) in
    (first_client_id ≤ 3) × (3 < l.next_id) × (l.next_id < 2 ^ 31)
linked_ids_bounded_example =
    linked_ids_bounded 3 evening (loop_of (run hosting evening)) (omega arith)
      (unfold run rounds step start in refl)
      (unfold run rounds step start lookup Members.lost send_to gdiroh.Session.Send.send_except
          Members.welcome gdiroh.Session.announce contains Members.tell_all Members.control_to
          gdiroh.Session.write_reliable insert gdiroh.Session.append_frame gdiroh.Prelude.set_insert
          gdiroh.Session.Send.send_one Members.report_lost gdiroh.Session.forget
          gdiroh.Prelude.remove in
        refl)

-- The second of three comes last.
abbrev reordered : List (ℕ × Bytes)
reordered = (1, 9 ∷ []) ∷ (3, 8 ∷ []) ∷ (2, 7 ∷ []) ∷ []

read_datagrams-newest_example :
    read_datagrams 2 [] (arrivals 5 reordered) ≡ newest 2 5 (count_of 5 []) reordered
read_datagrams-newest_example =
    read_datagrams-newest 2 5 [] reordered (omega arith) (unfold lookup in omega arith)
      ((omega arith, omega arith), ((omega arith, omega arith), ((omega arith, omega arith), tt)))

-- A connection that carries no datagram of ten bytes.
abbrev narrow : Limits
narrow conn = some 9

write_datagram_lem_example :
    let framed =
      frame_datagram 5 (next_sequence unreliable_ordered 5 (new_link 7)).0 (1 ∷ 2 ∷ []) in
    let big = ltb (limit_of narrow 7) (length framed) in
    let t = write_datagram narrow 2 5 unreliable_ordered (1 ∷ 2 ∷ []) two_clients in
    (queued 2 5 t
      ≡ (if big then queued 2 5 two_clients ++ (1 ∷ 2 ∷ []) ∷ [] else queued 2 5 two_clients))
    × (datagrams t.actions ≡ (
        if big
        then datagrams two_clients.actions
        else datagrams two_clients.actions ++ (7, framed) ∷ []))
write_datagram_lem_example =
    write_datagram_lem narrow 2 5 unreliable_ordered (1 ∷ 2 ∷ []) (new_link 7) two_clients
      (unfold lookup in refl)

abbrev hosting_two : Loop
hosting_two = record { state = two_clients; next_id = 4; inbound = true }

PeerLeft_breaks_Agrees_example :
    let t = state_of (step hosting_two (message (control (peer_left 2)))) in
    (has 2 t.links ≡ true) × (contains 2 t.announced ≡ false)
PeerLeft_breaks_Agrees_example = PeerLeft_breaks_Agrees hosting_two 2 (unfold lookup in refl)
