-- ===== src/Session/Send.antt =====
-- gdiroh/src/session.rs: sending, `next_sequence` to `State::send`.
use gdiroh.Prelude.{
  ℕ, ◌-◌, Option, none, some, List, [], ◌∷◌, ◌++◌, length, ltb, ◌==◌, nat_eq, if◌then◌else◌, Assoc,
  lookup, insert, has, keys, contains, set_insert, not_positive, neg, wrapping_inc, unsigned_max,
}
use gdiroh.Wire.{Bytes, Buf}
use gdiroh.Session.{
  Mode, reliable, unreliable, unreliable_ordered, Oversize, warning, send_datagram, Link, State,
  emit, act, put_link, write_reliable, host_id, datagram_header,
}

-- `counter.wrapping_add(1).max(1)`: zero is reserved for "unordered", so it is skipped on wrap.
unfoldable pub next_count : ℕ → ℕ
next_count n = unsigned_max (wrapping_inc n) 1

-- `entry(channel).or_insert(0)`
abbrev pub count_of : ℕ → Assoc ℕ ℕ → ℕ
count_of channel counts = elim (lookup channel counts) [ none ↦ 0 | some n ↦ n ]

-- The sequence number of the next datagram, and the link that has counted it.
unfoldable pub next_sequence : Mode → ℕ → Link → ℕ × Link
next_sequence unreliable_ordered channel link =
    let count = next_count (count_of channel link.sequences) in
    (count, record link { sequences = insert channel count link.sequences })
next_sequence reliable channel link = (0, link)
next_sequence unreliable channel link = (0, link)

-- `max_datagram_size` of each connection, as the transport reports it at the time of a send.
abbrev pub Limits : Type 0
Limits = ℕ → Option ℕ

abbrev pub limit_of : Limits → ℕ → ℕ
limit_of limits connection = elim (limits connection) [ none ↦ 0 | some n ↦ n ]

-- `link.warned.insert(channel)`, and the warning if the channel is new.
unfoldable pub warn : ℕ → Link → Oversize → State → State
unfolding put_link emit
warn peer link w s =
    if contains w.channel link.warned
    then put_link peer link s
    else emit (warning w)
        (put_link peer (record link { warned = set_insert w.channel link.warned }) s)

module _ ⦃b : Buf⦄ where
  -- `[i32 channel][u32 sequence][payload]`
  unfoldable pub frame_datagram : ℕ → ℕ → Bytes → Bytes
  frame_datagram channel sequence payload = b.put_word channel ++ (b.put_word sequence ++ payload)

  unfoldable pub send_framed : Limits → ℕ → ℕ → Bytes → ℕ × Link → State → State
  unfolding put_link act
  send_framed limits peer channel payload (sequence, link) s =
      let framed = frame_datagram channel sequence payload in
      let limit = limit_of limits link.connection in
      if ltb limit (length framed)
      then write_reliable peer channel payload (
          warn peer link
            (record { bytes = length payload; limit = limit - datagram_header; channel = channel })
            s)
      else act (send_datagram link.connection framed) (put_link peer link s)

  unfoldable pub write_datagram : Limits → ℕ → ℕ → Mode → Bytes → State → State
  write_datagram limits peer channel mode payload s = elim (lookup peer s.links) [
    | none ↦ s
    | some link ↦ send_framed limits peer channel payload (next_sequence mode channel link) s
  ]

  unfoldable pub send_one : Limits → ℕ → ℕ → Mode → Bytes → State → State
  send_one limits peer channel reliable payload s = write_reliable peer channel payload s
  send_one limits peer channel unreliable payload s =
      write_datagram limits peer channel unreliable payload s
  send_one limits peer channel unreliable_ordered payload s =
      write_datagram limits peer channel unreliable_ordered payload s

  -- `for peer in peers`, over the keys that are not `excluded`
  unfoldable pub send_except : Limits → ℕ → ℕ → Mode → Bytes → List ℕ → State → State
  send_except limits excluded channel mode payload [] s = s
  send_except limits excluded channel mode payload (peer ∷ peers) s =
      send_except limits excluded channel mode payload peers
        (if peer == excluded then s else send_one limits peer channel mode payload s)

  -- Routes a packet by Godot's convention: `0` is everyone, a negative id everyone but that peer,
  -- a positive id one peer, which a peer that is not linked reaches through the host.
  unfoldable pub send_to : Limits → ℕ → ℕ → Mode → Bytes → State → State
  send_to limits target channel mode payload s =
      if not_positive target
      then send_except limits (neg target) channel mode payload (keys s.links) s
      else send_one limits (if has target s.links then target else host_id) channel mode payload s
