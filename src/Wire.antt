-- ===== src/Wire.antt =====
-- gdiroh/src/session.rs, `Control` and its wire format, and the datagram header.
-- Words are written and read by the `bytes` crate, which is an interface here: `Buf`. A read past
-- the end panics, which is the outer `none`.
pub mod BigEndian
pub mod RoundTrip
pub mod Panics
mod Tests
use gdiroh.Prelude.{
  ℕ, zero, suc, ◌+◌, ◌*◌, ◌%◌, ◌^◌, ◌<◌, ◌≤◌, ◌≡◌, Option, none, some, ◌>>=◌, List, [], ◌∷◌, ◌++◌,
  Bool, ◌&&◌, length, ltb, leb, ◌==◌, if◌then◌else◌, word_size, nat_eq,
}

abbrev pub Bytes : Type 0
Bytes = List ℕ

-- `put_i32`, `put_u32` and `get_i32`, `get_u32` of the `bytes` crate: four bytes that read back.
pub record Buf : Type 0 where
  pub put_word : ℕ → Bytes
  pub get_word : Bytes → Option (ℕ × Bytes)
  pub length-put_word : (n : ℕ) → length (put_word n) ≡ 4
  pub get_word-put_word :
      (n : ℕ) (rest : Bytes) → n < word_size → get_word (put_word n ++ rest) ≡ some (n, rest)
  pub get_word_ready :
      (bytes : Bytes)
      → 4 ≤ length bytes
      → (n : ℕ) × (rest : Bytes) × (get_word bytes ≡ some (n, rest))
        × (length bytes ≡ length rest + 4)
        × (n < word_size)
  pub get_word_short : (bytes : Bytes) → length bytes < 4 → get_word bytes ≡ none

-- Membership messages exchanged on the control channel.
pub data Control : Type 0 where
  welcome : ℕ → List ℕ → Control
  peer_joined : ℕ → Control
  peer_left : ℕ → Control

module _ ⦃b : Buf⦄ where
  -- `for peer in peers { buffer.put_i32(*peer); }`
  unfoldable pub put_words : List ℕ → Bytes
  put_words [] = []
  put_words (n ∷ ns) = b.put_word n ++ put_words ns

  -- `(0..count).map(|_| frame.get_i32()).collect()`
  pub get_words : ℕ → Bytes → Option (List ℕ)
  get_words zero frame = some []
  get_words (suc count) frame = elim (b.get_word frame) [
    | none ↦ none
    | some (n, rest) ↦ elim (get_words count rest) [ none ↦ none | some ns ↦ some (n ∷ ns) ]
  ]

  unfoldable pub encode : Control → Bytes
  unfolding put_words
  encode (welcome your_id peers) =
      1 ∷ b.put_word your_id ++ (b.put_word (length peers % word_size) ++ put_words peers)
  encode (peer_joined id) = 2 ∷ b.put_word id
  encode (peer_left id) = 3 ∷ b.put_word id

  -- The arm of tag 1; `w` is the width of a `usize`.
  pub decode_welcome : ℕ → Bytes → Option (Option Control)
  unfolding get_words
  decode_welcome w frame = if ltb (length frame) 8 then some none else do
    (your_id, frame₁) ← b.get_word frame
    (count, frame₂) ← b.get_word frame₁
    if ltb (length frame₂) (count * 4 % 2 ^ w)
        then some none
        else do peers ← get_words count frame₂; some (some (welcome your_id peers))

  pub decode_id : (ℕ → Control) → Bytes → Option (Option Control)
  decode_id arm frame = do (id, _) ← b.get_word frame; some (some (arm id))

  -- `some (some c)` is a message, `some none` is no message, `none` is a panic.
  unfoldable pub decode : ℕ → Bytes → Option (Option Control)
  unfolding decode_welcome decode_id
  decode w [] = some none
  decode w (tag ∷ frame) =
      if tag == 1
      then decode_welcome w frame
      else if tag == 2 && leb 4 (length frame)
      then decode_id peer_joined frame
      else if tag == 3 && leb 4 (length frame)
      then decode_id peer_left frame
      else some none
