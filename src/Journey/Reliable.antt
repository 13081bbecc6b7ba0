-- ===== src/Journey/Reliable.antt =====
-- gdiroh/src/peer.rs and gdiroh/src/session.rs: reliable packets between a client and its host.
use gdiroh.Prelude.{
  ℕ, ◌+◌, ◌<◌, ◌^◌, ◌≡◌, ◌≢◌, ap, sym, subst, ◌∙◌, some, List, [], ◌++◌, Bool, true, false, nat_eq,
  All, length, word_size,
}
use gdiroh.Wire.{Bytes, Buf}
use gdiroh.Frames.{Write, control_channel, stream_writer}
use gdiroh.Frames.Parse.{StartOf, IsShort}
use gdiroh.Frames.Delivery.{deliver_prefix, deliver_whole}
use gdiroh.Session.{host_id}
use gdiroh.Session.Handle
use gdiroh.Session.Run.{Loop, Input, connection, running, step, rounds, run, hosting, state_of}
use gdiroh.Session.Run
use gdiroh.Session.Queues.{queued}
use gdiroh.Session.Traffic.{taken, meant, Steady}
use gdiroh.Session.Outgoing.{queued-joined, queued-hosted}
use gdiroh.Peer.{IrohPeer, connected}
use gdiroh.Peer.Polling.{packets}
use gdiroh.Peer.Puts.{Call, perform_all, put_for, commands_of, meant-perform_all}
use gdiroh.Journey.{payloads_from, received, events_of, whole_stream, received_lem}

module _ ⦃b : Buf⦄ (me ch w : ℕ) (fits : ch < word_size) (app : ch ≢ control_channel) where
  -- The sending end: what a session's task has queued is what the game put.
  puts-queued :
      (is_host : Bool) (q : ℕ) (calls : List Call) (p : IrohPeer) (s : Handle.Session)
      (is : List Input)
      → p.status ≡ connected
      → p.session ≡ some s
      → s.commands ≡ []
      → taken is ≡ commands_of (perform_all calls p)
      → meant is_host q ch (taken is)
        ≡ put_for is_host q ch calls p.target_peer p.transfer_channel p.transfer_mode
  puts-queued is_host q calls p s is up there fresh all =
      ap (meant is_host q ch) all
      ∙ meant-perform_all is_host q ch calls p s up there
      ∙ ap
          (λ cs.
            meant is_host q ch cs
            ++ put_for is_host q ch calls p.target_peer p.transfer_channel p.transfer_mode)
          fresh

  -- The reliable packets that a connected client puts on a channel of the game for its host, with no
  -- command waiting before them, reach the host's game, whole, in order and each once, behind what
  -- waited there before, if its session's task has met all its commands, between whatever other
  -- inputs, while it runs and the connection lasts, with no unreliable packet put on the channel,
  -- the transport took all the frames, each packet is shorter than 2 ^ 32 bytes, and the host's
  -- reader has read them.
  pub client_to_host :
      (conn : ℕ) (calls : List Call) (client : IrohPeer) (s : Handle.Session) (is : List Input)
      (host : IrohPeer) (r : Handle.Session)
      → client.status ≡ connected
      → client.session ≡ some s
      → s.commands ≡ []
      → taken is ≡ commands_of (perform_all calls client)
      → All (Steady host_id ch) is
      → All IsShort (
          put_for false host_id ch calls client.target_peer client.transfer_channel
            client.transfer_mode)
      → host.session ≡ some r
      → payloads_from me ch (packets r.events)
        ≡ payloads_from me ch (
            packets (
              events_of w me
                (whole_stream ch (queued host_id ch (state_of (run (Run.connected conn) is))))))
      → received me ch host
        ≡ payloads_from me ch host.incoming
          ++ put_for false host_id ch calls client.target_peer client.transfer_channel
              client.transfer_mode
  client_to_host conn calls client s is host r up there fresh all steady short hosted arrived =
      let frames = queued host_id ch (state_of (run (Run.connected conn) is)) in
      let same =
        queued-joined ch conn is app steady
        ∙ puts-queued false host_id calls client s is up there fresh all in
      received_lem me ch w host r (whole_stream ch frames) frames hosted arrived
        (deliver_whole w ch fits app frames (subst (All IsShort) (sym same) short))
      ∙ ap (λ fs. payloads_from me ch host.incoming ++ fs) same

  -- The reliable packets that a connected host puts on a channel of the game with a target that
  -- includes a client, from the client's arrival on and with no command waiting before them, reach
  -- the client's game, whole, in order and each once, behind what waited there before, and no other
  -- reliable packet of the host on that channel does, if the host's task has met all its commands,
  -- between whatever other inputs, fewer than 2 ^ 31 - 3 in all, while it runs and the connection
  -- lasts, with no unreliable packet put on the channel, the transport took all the frames, each
  -- packet is shorter than 2 ^ 32 bytes, and the client's reader has read them.
  pub host_to_client :
      (conn : ℕ) (before : List Input) (l : Loop) (calls : List Call) (host : IrohPeer)
      (s : Handle.Session) (is : List Input) (client : IrohPeer) (r : Handle.Session)
      → run hosting before ≡ running l
      → l.inbound ≡ true
      → length before + length is + 3 < 2 ^ 31
      → host.status ≡ connected
      → host.session ≡ some s
      → s.commands ≡ []
      → taken is ≡ commands_of (perform_all calls host)
      → All (Steady l.next_id ch) is
      → All IsShort (
          put_for true l.next_id ch calls host.target_peer host.transfer_channel host.transfer_mode)
      → client.session ≡ some r
      → payloads_from me ch (packets r.events)
        ≡ payloads_from me ch (
            packets (
              events_of w me (
                whole_stream ch
                  (queued l.next_id ch (state_of (rounds (step l (connection conn)) is))))))
      → received me ch client
        ≡ payloads_from me ch client.incoming
          ++ put_for true l.next_id ch calls host.target_peer host.transfer_channel
              host.transfer_mode
  host_to_client conn before l calls host s is client r e held room up there fresh all steady short
        joined arrived =
      let frames = queued l.next_id ch (state_of (rounds (step l (connection conn)) is)) in
      let same =
        queued-hosted ch conn before is l app room e held steady
        ∙ puts-queued true l.next_id calls host s is up there fresh all in
      received_lem me ch w client r (whole_stream ch frames) frames joined arrived
        (deliver_whole w ch fits app frames (subst (All IsShort) (sym same) short))
      ∙ ap (λ fs. payloads_from me ch client.incoming ++ fs) same

  -- Whatever the transport does to the writes of a channel of the game, the reliable packets on it
  -- that reach the host's game from a connected client are the first of those that the client put
  -- for its host, whole, in order and each once, behind what waited there before, if its session's
  -- task has met all its commands, between whatever other inputs, while it runs and the connection
  -- lasts, with no unreliable packet put on the channel, each packet is shorter than 2 ^ 32 bytes,
  -- and the host's reader has read what came.
  pub client_to_host_cut :
      (conn : ℕ) (opened : Bool) (ws : List Write) (calls : List Call) (client : IrohPeer)
      (s : Handle.Session) (is : List Input) (host : IrohPeer) (r : Handle.Session)
      → client.status ≡ connected
      → client.session ≡ some s
      → s.commands ≡ []
      → taken is ≡ commands_of (perform_all calls client)
      → All (Steady host_id ch) is
      → All IsShort (
          put_for false host_id ch calls client.target_peer client.transfer_channel
            client.transfer_mode)
      → host.session ≡ some r
      → payloads_from me ch (packets r.events)
        ≡ payloads_from me ch (
            packets (
              events_of w me (
                stream_writer opened ws ch
                  (queued host_id ch (state_of (run (Run.connected conn) is))))))
      → (ds : List Bytes) × StartOf ds (
          put_for false host_id ch calls client.target_peer client.transfer_channel
            client.transfer_mode)
        × (received me ch host ≡ payloads_from me ch host.incoming ++ ds)
  client_to_host_cut conn opened ws calls client s is host r up there fresh all steady short hosted
        arrived =
      let frames = queued host_id ch (state_of (run (Run.connected conn) is)) in
      let same =
        queued-joined ch conn is app steady
        ∙ puts-queued false host_id calls client s is up there fresh all in
      let (ds, first, read) =
        deliver_prefix w ch fits app opened ws frames (subst (All IsShort) (sym same) short) in
      (
        ds,
        subst (StartOf ds) same first,
        received_lem me ch w host r (stream_writer opened ws ch frames) ds hosted arrived read,
      )
