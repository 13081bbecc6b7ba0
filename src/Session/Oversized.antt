-- ===== src/Session/Oversized.antt =====
-- gdiroh/src/session.rs: what becomes of an unreliable packet.
use gdiroh.Prelude.{
  ℕ, ◌≡◌, refl, inl, inr, List, [], ◌∷◌, ◌++◌, some, true, arith, nat_eq, beq_refl, if◌then◌else◌,
  lookup, lookup-insert, has, Option-cases, set_insert, ◌-◌, ltb, length, append-nil,
}
use gdiroh.Wire.{Bytes, Buf}
use gdiroh.Session.{
  Mode, reliable, unreliable, unreliable_ordered, Oversize, Action, spawn_readers,
  spawn_stream_writer, send_datagram, close_connection, Link, State, emit, act, put_link,
  append_frame, write_reliable, datagram_header,
}
use gdiroh.Session.Send.{
  Limits, limit_of, warn, next_sequence, frame_datagram, send_framed, write_datagram,
}
use gdiroh.Session.Queues.{queued, link_frames, queued-write_reliable}

-- The datagrams among what was asked of connections.
abbrev pub datagrams : List Action → List (ℕ × Bytes)
datagrams [] = []
datagrams (send_datagram c framed ∷ actions) = (c, framed) ∷ datagrams actions
datagrams (spawn_readers p c ∷ actions) = datagrams actions
datagrams (spawn_stream_writer c channel ∷ actions) = datagrams actions
datagrams (close_connection c reason ∷ actions) = datagrams actions

datagrams-append : (xs ys : List Action) → datagrams (xs ++ ys) ≡ datagrams xs ++ datagrams ys
datagrams-append [] ys = refl
datagrams-append (send_datagram c framed ∷ xs) ys = rw (datagrams-append xs ys)
datagrams-append (spawn_readers p c ∷ xs) ys = datagrams-append xs ys
datagrams-append (spawn_stream_writer c channel ∷ xs) ys = datagrams-append xs ys
datagrams-append (close_connection c reason ∷ xs) ys = datagrams-append xs ys

datagrams-write_reliable :
    (p channel : ℕ) (payload : Bytes) (s : State)
    → datagrams (write_reliable p channel payload s).actions ≡ datagrams s.actions
unfolding write_reliable append_frame act put_link
datagrams-write_reliable p channel payload s = elim (Option-cases (lookup p s.links)) [
  | inl gone ↦ ground (arith, gone)
  | inr (link, there) ↦ elim (Option-cases (lookup channel link.reliable_queues)) [
    | inl new ↦ ground (
      arith,
      there,
      new,
      datagrams-append s.actions (spawn_stream_writer link.connection channel ∷ []),
      append-nil (datagrams s.actions),
    )
    | inr (queue, old) ↦ ground (arith, there, old)
  ]
]

-- Counting touches no queue and no connection.
next_sequence_lem :
    (mode : Mode) (channel : ℕ) (link : Link)
    → ((next_sequence mode channel link).1.connection ≡ link.connection)
      × ((next_sequence mode channel link).1.reliable_queues ≡ link.reliable_queues)
unfolding next_sequence
next_sequence_lem reliable channel link = (refl, refl)
next_sequence_lem unreliable channel link = (refl, refl)
next_sequence_lem unreliable_ordered channel link = (refl, refl)

warn_lem :
    (p channel : ℕ) (link : Link) (w : Oversize) (s : State)
    → ((warn p link w s).actions ≡ s.actions)
      × (has p (warn p link w s).links ≡ true)
      × (queued p channel (warn p link w s) ≡ link_frames channel (some link))
unfolding warn put_link emit
warn_lem p channel link w s = ground (
  arith,
  lookup-insert p p link s.links,
  lookup-insert p p (record link { warned = set_insert w.channel link.warned }) s.links,
  beq_refl p,
)

module _ ⦃b : Buf⦄ where
  send_framed_lem :
      (limits : Limits) (p channel : ℕ) (payload : Bytes) (sequence : ℕ) (link : Link) (s : State)
      → let framed = frame_datagram channel sequence payload in
        let big = ltb (limit_of limits link.connection) (length framed) in
        let t = send_framed limits p channel payload (sequence, link) s in
        (queued p channel t ≡ (
          if big
          then link_frames channel (some link) ++ payload ∷ []
          else link_frames channel (some link)))
        × (datagrams t.actions ≡ (
            if big
            then datagrams s.actions
            else datagrams s.actions ++ (link.connection, framed) ∷ []))
  unfolding send_framed act put_link
  send_framed_lem limits p channel payload sequence link s =
      let w : Oversize = record {
        bytes = length payload;
        limit = limit_of limits link.connection - datagram_header;
        channel = channel;
      } in
      let warned = warn p link w s in
      ground (
        arith,
        queued-write_reliable p channel p channel payload warned,
        datagrams-write_reliable p channel payload warned,
        warn_lem p channel link w s,
        beq_refl p,
        beq_refl channel,
        lookup-insert p p link s.links,
        datagrams-append s.actions
            (send_datagram link.connection (frame_datagram channel sequence payload) ∷ []),
      )

  -- An unreliable packet to a linked peer is never dropped on the way out: where its framing exceeds
  -- what the connection carries as a datagram it is queued on the peer's reliable channel of the same
  -- number, and otherwise that one datagram is sent and nothing queued.
  pub write_datagram_lem :
      (limits : Limits) (p channel : ℕ) (mode : Mode) (payload : Bytes) (link : Link) (s : State)
      → lookup p s.links ≡ some link
      → let framed = frame_datagram channel (next_sequence mode channel link).0 payload in
        let big = ltb (limit_of limits link.connection) (length framed) in
        let t = write_datagram limits p channel mode payload s in
        (queued p channel t
          ≡ (if big then queued p channel s ++ payload ∷ [] else queued p channel s))
        × (datagrams t.actions ≡ (
            if big
            then datagrams s.actions
            else datagrams s.actions ++ (link.connection, framed) ∷ []))
  unfolding write_datagram
  write_datagram_lem limits p channel mode payload link s there =
      let next = next_sequence mode channel link in
      ground (
        arith,
        there,
        send_framed_lem limits p channel payload next.0 next.1 s,
        next_sequence_lem mode channel link,
      )
