-- ===== src/Wire/RoundTrip.antt =====
-- gdiroh/src/session.rs: `Control::encode` and `decode` together.
use native.Mathlib.Nat.{mod-eq_of_lt}
use gdiroh.Prelude.{
  ℕ, ◌*◌, ◌%◌, ◌^◌, ◌<◌, ◌≤◌, ◌≡◌, refl, some, List, [], ◌∷◌, ◌++◌, length, length-append,
  append_assoc, All, word_size, arith,
}
use gdiroh.Wire.{
  Bytes, Buf, Control, welcome, peer_joined, peer_left, put_words, get_words, encode, decode,
  decode_welcome, decode_id,
}

-- What a message's fields hold: patterns of 32 bits, and no more peers than a `u32` counts and a
-- `usize` of `w` bits measures.
abbrev pub InRange : ℕ → Control → Type 0
InRange w (welcome your_id peers) =
    (your_id < word_size)
    × (length peers < word_size)
    × (length peers * 4 < 2 ^ w)
    × All (λ p. p < word_size) peers
InRange w (peer_joined id) = id < word_size
InRange w (peer_left id) = id < word_size

module _ ⦃b : Buf⦄ where
  pub length-put_words : (ns : List ℕ) → length (put_words ns) ≡ length ns * 4
  unfolding put_words
  length-put_words [] = omega arith
  length-put_words (n ∷ ns) =
      omega (
        arith,
        length-append (b.put_word n) (put_words ns),
        b.length-put_word n,
        length-put_words ns,
      )

  pub get_words-put_words :
      (ns : List ℕ) (rest : Bytes)
      → All (λ n. n < word_size) ns
      → get_words (length ns) (put_words ns ++ rest) ≡ some ns
  unfolding put_words get_words
  get_words-put_words [] rest h = refl
  get_words-put_words (n ∷ ns) rest h =
      rw (append_assoc (b.put_word n), b.get_word-put_word n (put_words ns ++ rest) h.0)
        (rw (get_words-put_words ns rest h.1))

  decode_welcome-put :
      (w your_id : ℕ) (peers : List ℕ) (rest : Bytes)
      → InRange w (welcome your_id peers)
      → decode_welcome w (
          b.put_word your_id
          ++ (b.put_word (length peers % word_size) ++ (put_words peers ++ rest)))
        ≡ some (some (welcome your_id peers))
  unfolding decode_welcome
  decode_welcome-put w your_id peers rest (id_fits, count_fits, fits, all) =
      let tail = put_words peers ++ rest in
      ground (
        arith,
        b.length-put_word your_id,
        b.length-put_word (length peers % word_size),
        length-append (b.put_word your_id) (b.put_word (length peers % word_size) ++ tail),
        length-append (b.put_word (length peers % word_size)) tail,
        length-append (put_words peers) rest,
        length-put_words peers,
        b.get_word-put_word your_id (b.put_word (length peers % word_size) ++ tail),
        b.get_word-put_word (length peers % word_size) tail,
        mod-eq_of_lt {n = length peers} {m = word_size},
        mod-eq_of_lt {n = length peers * 4} {m = 2 ^ w},
        get_words-put_words peers rest all,
      )

  decode_id-put :
      (arm : ℕ → Control) (id : ℕ) (rest : Bytes)
      → id < word_size
      → decode_id arm (b.put_word id ++ rest) ≡ some (some (arm id))
  unfolding decode_id
  decode_id-put arm id rest h = rw (b.get_word-put_word id rest h)

  four_bytes : (id : ℕ) (rest : Bytes) → 4 ≤ length (b.put_word id ++ rest)
  four_bytes id rest = omega (arith, length-append (b.put_word id) rest, b.length-put_word id)

  -- Decoding gives back any message in range, whatever bytes follow it in the frame.
  pub decode-encode :
      (w : ℕ) (c : Control) (rest : Bytes)
      → InRange w c
      → decode w (encode c ++ rest) ≡ some (some c)
  unfolding encode decode
  decode-encode w (welcome your_id peers) rest h = rw (append_assoc (b.put_word your_id)) (
      rw (append_assoc (b.put_word (length peers % word_size)))
        (decode_welcome-put w your_id peers rest h))
  decode-encode w (peer_joined id) rest h =
      ground (arith, four_bytes id rest, decode_id-put peer_joined id rest h)
  decode-encode w (peer_left id) rest h =
      ground (arith, four_bytes id rest, decode_id-put peer_left id rest h)
