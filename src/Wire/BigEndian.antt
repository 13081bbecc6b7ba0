-- ===== src/Wire/BigEndian.antt =====
-- gdiroh/src/session.rs: the words of a stream, and a `Buf` of them: big-endian bytes, as
-- `i32::to_be_bytes` and `i32::from_be_bytes` have them.
use gdiroh.Prelude.{
  ℕ, ◌+◌, ◌*◌, ◌/◌, ◌%◌, ◌<◌, ◌≤◌, ◌≡◌, refl, Option, none, some, [], ◌∷◌, ◌++◌, length, word_size,
  arith,
}
use gdiroh.Wire.{Bytes, Buf}

unfoldable pub to_be_bytes : ℕ → Bytes
to_be_bytes n = (n / 0x1000000 % 256) ∷ (n / 0x10000 % 256) ∷ (n / 0x100 % 256) ∷ (n % 256) ∷ []

-- What a byte holds: a model byte is any number, of which a `u8` keeps the low eight bits.
unfoldable pub from_be_bytes : ℕ → ℕ → ℕ → ℕ → ℕ
from_be_bytes a b c d = (a % 256) * 0x1000000 + (b % 256) * 0x10000 + (c % 256) * 0x100 + d % 256

pub from_be_bytes-to_be_bytes :
    (n : ℕ)
    → n < word_size
    → from_be_bytes (n / 0x1000000 % 256) (n / 0x10000 % 256) (n / 0x100 % 256) (n % 256) ≡ n
unfolding from_be_bytes
from_be_bytes-to_be_bytes n h = omega arith

pub from_be_bytes-lt : (a b c d : ℕ) → from_be_bytes a b c d < word_size
unfolding from_be_bytes
from_be_bytes-lt a b c d = omega arith

-- `read_exact` of four bytes, and what is left.
unfoldable pub read_word : Bytes → Option (ℕ × Bytes)
read_word (a ∷ b ∷ c ∷ d ∷ rest) = some (from_be_bytes a b c d, rest)
read_word _ = none

pub read_word-to_be_bytes :
    (n : ℕ) (rest : Bytes) → n < word_size → read_word (to_be_bytes n ++ rest) ≡ some (n, rest)
unfolding read_word to_be_bytes
read_word-to_be_bytes n rest h = ground (arith, from_be_bytes-to_be_bytes n h)

pub read_word_ready :
    (bytes : Bytes)
    → 4 ≤ length bytes
    → (n : ℕ) × (rest : Bytes) × (read_word bytes ≡ some (n, rest))
      × (length bytes ≡ length rest + 4)
      × (n < word_size)
unfolding read_word
read_word_ready [] h = absurd (omega arith)
read_word_ready (a ∷ []) h = absurd (omega arith)
read_word_ready (a ∷ b ∷ []) h = absurd (omega arith)
read_word_ready (a ∷ b ∷ c ∷ []) h = absurd (omega arith)
read_word_ready (a ∷ b ∷ c ∷ d ∷ rest) h =
    (from_be_bytes a b c d, rest, refl, omega arith, from_be_bytes-lt a b c d)

pub read_word_short : (bytes : Bytes) → length bytes < 4 → read_word bytes ≡ none
unfolding read_word
read_word_short [] h = refl
read_word_short (a ∷ []) h = refl
read_word_short (a ∷ b ∷ []) h = refl
read_word_short (a ∷ b ∷ c ∷ []) h = refl
read_word_short (a ∷ b ∷ c ∷ d ∷ rest) h = absurd (omega arith)

length-to_be_bytes : (n : ℕ) → length (to_be_bytes n) ≡ 4
unfolding to_be_bytes
length-to_be_bytes n = refl

instance unfoldable pub big_endian : Buf
unfolding to_be_bytes read_word from_be_bytes length-to_be_bytes
big_endian = record {
  put_word = to_be_bytes;
  get_word = read_word;
  length-put_word = length-to_be_bytes;
  get_word-put_word = read_word-to_be_bytes;
  get_word_ready = read_word_ready;
  get_word_short = read_word_short;
}
