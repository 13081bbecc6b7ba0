-- ===== src/Session/Datagrams.antt =====
-- gdiroh/src/session.rs: ordered datagrams from the sender's counter to the reader's filter.
use gdiroh.Prelude.{
  ℕ, zero, suc, ◌+◌, ◌-◌, ◌<◌, ◌^◌, ◌≡◌, ◌≢◌, refl, List, [], ◌∷◌, ◌++◌, Bool, true, arith, length,
  length-append, ltb, ◌==◌, nat_eq, if◌then◌else◌, Assoc, insert, lookup-insert, All, word_size,
  dec_lt,
}
use gdiroh.Wire.{Bytes, Buf}
use gdiroh.Session.{Packet, unreliable_ordered, datagram_header}
use gdiroh.Session.Send.{next_count, count_of, frame_datagram}
use gdiroh.Session.Reader.{
  is_stale, panicked, delivered, accept_datagram, read_datagram, read_datagrams,
}

-- The counter stays a `u32` that is not the number of unordered datagrams, and moves by one except
-- from the last `u32` to 1.
pub next_count_bounds :
    (n : ℕ)
    → n < word_size
    → (0 < next_count n)
      × (next_count n < word_size)
      × (next_count n ≡ (if n == word_size - 1 then 1 else n + 1))
unfolding next_count
next_count_bounds n h = ground arith

module _ ⦃b : Buf⦄ where
  not_panicked :
      (peer channel sequence : ℕ) (last : Assoc ℕ ℕ) (payload : Bytes)
      → accept_datagram peer last channel sequence payload ≢ panicked
  unfolding accept_datagram
  not_panicked peer channel sequence last payload e = ground arith

  -- No datagram, however short or malformed, makes the reader panic.
  pub read_datagram_total :
      (peer : ℕ) (last : Assoc ℕ ℕ) (datagram : Bytes) → read_datagram peer last datagram ≢ panicked
  unfolding read_datagram
  read_datagram_total peer last datagram e = elim (dec_lt (length datagram) datagram_header) [
    | yes short ↦ ground arith
    | no long ↦
        let (channel, rest, e₁, len₁, _) = b.get_word_ready datagram (omega arith) in
        let (sequence, payload, e₂, len₂, _) = b.get_word_ready rest (omega arith) in
        ground (arith, not_panicked peer channel sequence last payload)
  ]

  -- A framed datagram is read as what it was framed from.
  pub read_datagram-frame_datagram :
      (peer channel sequence : ℕ) (last : Assoc ℕ ℕ) (payload : Bytes)
      → channel < word_size
      → sequence < word_size
      → read_datagram peer last (frame_datagram channel sequence payload)
        ≡ accept_datagram peer last channel sequence payload
  unfolding read_datagram frame_datagram
  read_datagram-frame_datagram peer channel sequence last payload hc hs = ground (
    arith,
    b.length-put_word channel,
    b.length-put_word sequence,
    length-append (b.put_word channel) (b.put_word sequence ++ payload),
    length-append (b.put_word sequence) payload,
    b.get_word-put_word channel (b.put_word sequence ++ payload) hc,
    b.get_word-put_word sequence payload hs,
  )

  -- What the network carries of one channel: sequence numbers and payloads, in order of arrival.
  abbrev pub arrivals : ℕ → List (ℕ × Bytes) → List (Bytes × Bool)
  arrivals channel [] = []
  arrivals channel ((sequence, payload) ∷ ds) =
      (frame_datagram channel sequence payload, true) ∷ arrivals channel ds

  -- Only what no later datagram has overtaken, for `seen` the greatest number so far.
  abbrev pub newest : ℕ → ℕ → ℕ → List (ℕ × Bytes) → List Packet
  newest peer channel seen [] = []
  newest peer channel seen ((sequence, payload) ∷ ds) =
      if ltb sequence seen
      then newest peer channel seen ds
      else record { peer = peer; channel = channel; mode = unreliable_ordered; payload = payload }
        ∷ newest peer channel sequence ds

  -- Before the counter has run through half of its range, whatever order the network chooses, the
  -- reader delivers exactly the ordered datagrams that none of those delivered before has overtaken.
  pub read_datagrams-newest :
      (peer channel : ℕ) (last : Assoc ℕ ℕ) (ds : List (ℕ × Bytes))
      → channel < word_size
      → count_of channel last < 2 ^ 31
      → All (λ d. (0 < d.0) × (d.0 < 2 ^ 31)) ds
      → read_datagrams peer last (arrivals channel ds)
        ≡ newest peer channel (count_of channel last) ds
  unfolding read_datagrams accept_datagram is_stale
  read_datagrams-newest peer channel last [] hc hl h = refl
  read_datagrams-newest peer channel last ((sequence, payload) ∷ ds) hc hl h = ground (
    arith,
    read_datagram-frame_datagram peer channel sequence last payload hc,
    read_datagrams-newest peer channel last ds hc hl h.1,
    read_datagrams-newest peer channel (insert channel sequence last) ds hc,
    lookup-insert channel channel sequence last,
  )

-- The counter after so many more datagrams.
unfoldable pub later : ℕ → ℕ → ℕ
later zero n = n
later (suc k) n = next_count (later k n)

-- Once the counter has wrapped the filter lets old datagrams through: one that was overtaken by the
-- `k`-th after it, whose number is smaller, is still delivered, and the reader then goes by the old
-- number.
pub wrapped_stale_delivered :
    (peer channel old k : ℕ) (last : Assoc ℕ ℕ) (payload : Bytes)
    → later k old < old
    → count_of channel last ≡ later k old
    → accept_datagram peer last channel old payload
      ≡ delivered
          (record { peer = peer; channel = channel; mode = unreliable_ordered; payload = payload })
          (insert channel old last)
unfolding accept_datagram is_stale
wrapped_stale_delivered peer channel old k last payload h e = ground arith
