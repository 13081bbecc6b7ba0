-- ===== src/Frames/Complete.antt =====
-- gdiroh/src/session.rs: that the loop of `read_stream` takes the whole frames of any stream, and no more.
use native.Mathlib.Nat.{mod-eq_of_lt}
use gdiroh.Prelude.{
  ℕ, zero, suc, ◌%◌, ◌/◌, ◌<◌, ◌≤◌, ◌≡◌, refl, ap, ◌∙◌, Option, none, some, List, [], ◌∷◌, ◌++◌,
  length, take, drop, append_assoc, length-take, length-drop, take-append-drop, All, word_size,
  arith, ltb, taken_branch,
}
use gdiroh.Wire.{Bytes}
use gdiroh.Wire.BigEndian.{to_be_bytes, from_be_bytes, from_be_bytes-lt, read_word}
use gdiroh.Frames.{write_frames, read_exact, cut_frames}
use gdiroh.Frames.Parse.{all_written}

-- Bytes as a `u8` has them.
abbrev pub AreBytes : Bytes → Type 0
AreBytes = All (λ b. b < 256)

-- A length that is not whole, or one with less behind it.
abbrev pub Incomplete : Option (ℕ × Bytes) → Type 0
Incomplete none = Unit
Incomplete (some (len, rest)) = length rest < len

-- The stream is just these frames, each behind its length, and then the start of another.
abbrev pub Consists : Bytes → List Bytes → Type 0
Consists bytes frames =
    (rest : Bytes) × (write_frames (all_written frames) frames ++ rest ≡ bytes)
    × Incomplete (read_word rest)

All-drop : (n : ℕ) (bytes : Bytes) → AreBytes bytes → AreBytes (drop n bytes)
All-drop zero bytes h = h
All-drop (suc n) [] h = tt
All-drop (suc n) (x ∷ xs) h = All-drop n xs h.1

to_be_bytes-from_be_bytes :
    (a b c d : ℕ)
    → a < 256
    → b < 256
    → c < 256
    → d < 256
    → to_be_bytes (from_be_bytes a b c d) ≡ a ∷ b ∷ c ∷ d ∷ []
unfolding to_be_bytes from_be_bytes
to_be_bytes-from_be_bytes a b c d ha hb hc hd =
    let first : from_be_bytes a b c d / 0x1000000 % 256 ≡ a = unfold from_be_bytes in omega arith in
    let second : from_be_bytes a b c d / 0x10000 % 256 ≡ b = unfold from_be_bytes in omega arith in
    let third : from_be_bytes a b c d / 0x100 % 256 ≡ c = unfold from_be_bytes in omega arith in
    let fourth : from_be_bytes a b c d % 256 ≡ d = unfold from_be_bytes in omega arith in
    cc (first, second, third, fourth)

-- A frame that was cut, put back in front of what follows it.
Consists-cons :
    (a b c d : ℕ) (rest : Bytes) (frames : List Bytes)
    → AreBytes (a ∷ b ∷ c ∷ d ∷ rest)
    → from_be_bytes a b c d ≤ length rest
    → Consists (drop (from_be_bytes a b c d) rest) frames
    → Consists (a ∷ b ∷ c ∷ d ∷ rest) (take (from_be_bytes a b c d) rest ∷ frames)
unfolding write_frames
Consists-cons a b c d rest frames (ha, (hb, (hc, (hd, _)))) fits (more, e, part) =
    let len = from_be_bytes a b c d in
    let frame = take len rest in
    let back = write_frames (all_written frames) frames in
    let size : length frame ≡ len = omega (arith, length-take len rest) in
    let header : to_be_bytes (length frame % word_size) ≡ a ∷ b ∷ c ∷ d ∷ [] =
      ap (λ n. to_be_bytes (n % word_size)) size
      ∙ ap to_be_bytes (mod-eq_of_lt (from_be_bytes-lt a b c d))
      ∙ to_be_bytes-from_be_bytes a b c d ha hb hc hd in
    let body : (frame ++ back) ++ more ≡ rest =
      append_assoc frame back more ∙ ap (λ bytes. frame ++ bytes) e ∙ take-append-drop len rest in
    (
      more,
      ap (λ bytes. (bytes ++ (frame ++ back)) ++ more) header
          ∙ ap (λ bytes. a ∷ b ∷ c ∷ d ∷ bytes) body,
      part,
    )

-- As many rounds as there are bytes, or more, leave no whole frame.
Consists-cut_frames :
    (fuel : ℕ) (bytes : Bytes)
    → AreBytes bytes
    → length bytes ≤ fuel
    → Consists bytes (cut_frames fuel bytes)
unfolding cut_frames read_word write_frames read_exact
Consists-cut_frames zero [] h enough = ([], refl, tt)
Consists-cut_frames zero (a ∷ bytes) h enough = absurd (omega arith)
Consists-cut_frames (suc fuel) [] h enough = ([], refl, tt)
Consists-cut_frames (suc fuel) (a ∷ []) h enough = (a ∷ [], refl, tt)
Consists-cut_frames (suc fuel) (a ∷ b ∷ []) h enough = (a ∷ b ∷ [], refl, tt)
Consists-cut_frames (suc fuel) (a ∷ b ∷ c ∷ []) h enough = (a ∷ b ∷ c ∷ [], refl, tt)
Consists-cut_frames (suc fuel) (a ∷ b ∷ c ∷ d ∷ rest) h enough =
    let len = from_be_bytes a b c d in
    taken_branch
      (λ (o : Option (Bytes × Bytes)).
        Consists (a ∷ b ∷ c ∷ d ∷ rest)
          (elim o [ none ↦ [] | some (frame, rest') ↦ frame ∷ cut_frames fuel rest' ]))
      (ltb (length rest) len) none (some (take len rest, drop len rest))
      (λ short. (a ∷ b ∷ c ∷ d ∷ rest, refl, ground arith))
      (λ whole. Consists-cons a b c d rest (cut_frames fuel (drop len rest)) h (ground arith) (
        Consists-cut_frames fuel (drop len rest) (All-drop len rest h.1.1.1.1)
          (omega (arith, length-drop len rest))))

-- Whatever bytes come on a stream, they are just the frames that the reader's loop took, as its writer
-- writes them, each behind its length, and behind these only what is no whole frame: less than a length,
-- or a length with fewer bytes behind it.
pub cut_frames_complete :
    (bytes : Bytes) → AreBytes bytes → Consists bytes (cut_frames (length bytes) bytes)
cut_frames_complete bytes h = Consists-cut_frames (length bytes) bytes h (omega arith)
