-- ===== src/Session/Reader.antt =====
-- gdiroh/src/session.rs: the datagram reader of `spawn_readers`, and where `read_stream` sends what
-- it reads.
use gdiroh.Prelude.{
  ℕ, ◌-◌, ◌/◌, none, some, List, [], ◌∷◌, Bool, ◌&&◌, length, ltb, ◌==◌, nat_eq, if◌then◌else◌,
  Assoc, insert, wrapping_sub, word_size,
}
use gdiroh.Wire.{Bytes, Buf}
use gdiroh.Frames.{Arrival, control}
use gdiroh.Session.{
  Event, Internal, Packet, reliable, unreliable, unreliable_ordered, datagram_header,
}
use gdiroh.Session.Send.{count_of}

-- `sequence < *seen && seen.wrapping_sub(sequence) < u32::MAX / 2`
unfoldable pub is_stale : ℕ → ℕ → Bool
is_stale seen sequence = ltb sequence seen && ltb (wrapping_sub seen sequence) ((word_size - 1) / 2)

-- What a datagram comes to: a panic of the reader, nothing, or a packet, with the sequence numbers
-- last delivered on each channel.
pub data Reading : Type 0 where
  panicked : Reading
  skipped : Reading
  delivered : Packet → Assoc ℕ ℕ → Reading

unfoldable pub accept_datagram : ℕ → Assoc ℕ ℕ → ℕ → ℕ → Bytes → Reading
unfolding is_stale
accept_datagram peer last channel sequence payload =
    if sequence == 0
    then delivered (record { peer = peer; channel = channel; mode = unreliable; payload = payload })
        last
    else if is_stale (count_of channel last) sequence
    then skipped
    else delivered
        (record { peer = peer; channel = channel; mode = unreliable_ordered; payload = payload })
        (insert channel sequence last)

module _ ⦃b : Buf⦄ where
  unfoldable pub read_datagram : ℕ → Assoc ℕ ℕ → Bytes → Reading
  read_datagram peer last datagram =
      if ltb (length datagram) datagram_header then skipped else elim (b.get_word datagram) [
        | none ↦ panicked
        | some (channel, rest) ↦ elim (b.get_word rest) [
          | none ↦ panicked
          | some (sequence, payload) ↦ accept_datagram peer last channel sequence payload
        ]
      ]

  -- The loop over the datagrams that arrive, each with whether the main thread still listens then.
  unfoldable pub read_datagrams : ℕ → Assoc ℕ ℕ → List (Bytes × Bool) → List Packet
  unfolding read_datagram accept_datagram
  read_datagrams peer last [] = []
  read_datagrams peer last ((datagram, heard) ∷ datagrams) =
      elim (read_datagram peer last datagram) [
        | panicked ↦ []
        | skipped ↦ read_datagrams peer last datagrams
        | delivered p last' ↦ if heard then p ∷ read_datagrams peer last' datagrams else []
      ]

-- Where the stream reader sends what it has read: a packet to the main thread, a membership message to
-- the task.
unfoldable pub forwarded : ℕ → List Arrival → List Event
forwarded peer [] = []
forwarded peer (control c ∷ arrivals) = forwarded peer arrivals
forwarded peer (Arrival.packet channel payload ∷ arrivals) =
    Event.packet (record { peer = peer; channel = channel; mode = reliable; payload = payload })
    ∷ forwarded peer arrivals

unfoldable pub to_task : List Arrival → List Internal
to_task [] = []
to_task (control c ∷ arrivals) = Internal.control c ∷ to_task arrivals
to_task (Arrival.packet channel payload ∷ arrivals) = to_task arrivals
