-- ===== src/Wire/Panics.antt =====
-- gdiroh/src/session.rs: when `Control::decode` reads past the end of a frame, for a `usize` of 64
-- bits and of 32.
use gdiroh.Prelude.{
  ℕ, zero, suc, ◌*◌, ◌%◌, ◌^◌, ◌<◌, ◌≤◌, ◌≡◌, ◌≢◌, refl, none, some, List, [], ◌∷◌, ◌++◌, length,
  length-append, word_size, arith, ltb, if◌then◌else◌, ◌>>=◌, dec_lt,
}
use gdiroh.Wire.{Bytes, Buf, welcome, get_words, decode, decode_welcome, decode_id}

module _ ⦃b : Buf⦄ where
  -- Enough bytes: every word is there.
  pub get_words_ready :
      (count : ℕ) (frame : Bytes)
      → count * 4 ≤ length frame
      → (ns : List ℕ) × (get_words count frame ≡ some ns) × (length ns ≡ count)
  unfolding get_words
  get_words_ready zero frame h = ([], refl, refl)
  get_words_ready (suc count) frame h =
      let (n, rest, e, len, _) = b.get_word_ready frame (omega arith) in
      let (ns, e', len') = get_words_ready count rest (omega arith) in
      (n ∷ ns, rw (e, get_words) (rw e'), omega arith)

  -- Too few bytes: the read panics.
  pub get_words_short :
      (count : ℕ) (frame : Bytes) → length frame < count * 4 → get_words count frame ≡ none
  unfolding get_words
  get_words_short zero frame h = absurd (omega arith)
  get_words_short (suc count) frame h = elim (dec_lt (length frame) 4) [
    | yes short ↦ rw (b.get_word_short frame short, get_words)
    | no long ↦
        let (n, rest, e, len, _) = b.get_word_ready frame (omega arith) in
        rw (e, get_words) (rw (get_words_short count rest (omega arith)))
  ]

  -- The frame of a `Welcome` after its tag: two words, and what follows them.
  decode_welcome_open :
      (w : ℕ) (frame : Bytes)
      → 8 ≤ length frame
      → (id : ℕ) × (count : ℕ) × (rest : Bytes) × (count < word_size)
        × (decode_welcome w frame ≡ (
            if ltb (length rest) (count * 4 % 2 ^ w)
            then some none
            else (get_words count rest >>= λ peers. some (some (welcome id peers)))))
  unfolding decode_welcome
  decode_welcome_open w frame h =
      let (id, frame₁, e₁, len₁, _) = b.get_word_ready frame (omega arith) in
      let (count, rest, e₂, len₂, small) = b.get_word_ready frame₁ (omega arith) in
      (id, count, rest, small, ground arith)

  decode_welcome_64 : (frame : Bytes) → decode_welcome 64 frame ≢ none
  decode_welcome_64 frame e = elim (dec_lt (length frame) 8) [
    | yes short ↦ unfold decode_welcome in ground arith
    | no long ↦
        let (id, count, rest, small, opened) = decode_welcome_open 64 frame (omega arith) in
        elim (dec_lt (length rest) (count * 4)) [
          | yes few ↦ ground (arith, opened)
          | no enough ↦
              let (ns, got, _) = get_words_ready count rest (omega arith) in
              ground (arith, opened, got)
        ]
  ]

  -- On a 64-bit target no frame, however malformed, makes `decode` panic.
  pub decode_64_total : (frame : Bytes) → decode 64 frame ≢ none
  unfolding decode decode_id
  decode_64_total [] e = cc
  decode_64_total (tag ∷ frame) e = elim (dec_lt (length frame) 4) [
    | yes short ↦ ground (arith, decode_welcome_64 frame)
    | no long ↦
        let (n, rest, got, _, _) = b.get_word_ready frame (omega arith) in
        ground (arith, decode_welcome_64 frame, got)
  ]

  -- On a 32-bit target (`armv7-linux-androideabi` is one of the build's) `count * 4` wraps: a
  -- `Welcome` whose count is too large by a multiple of 2 ^ 30 passes the length test and panics.
  pub decode_32_panics :
      (id count : ℕ) (tail : Bytes)
      → id < word_size
      → count < word_size
      → count * 4 % 2 ^ 32 ≤ length tail
      → length tail < count * 4
      → decode 32 (1 ∷ b.put_word id ++ (b.put_word count ++ tail)) ≡ none
  unfolding decode decode_welcome
  decode_32_panics id count tail id_fits count_fits passes short = ground (
    arith,
    b.length-put_word id,
    b.length-put_word count,
    length-append (b.put_word id) (b.put_word count ++ tail),
    length-append (b.put_word count) tail,
    b.get_word-put_word id (b.put_word count ++ tail),
    b.get_word-put_word count tail,
    get_words_short count tail short,
  )
