-- ===== src/Wire/Tests.antt =====
-- gdiroh/src/session.rs: membership messages on the wire, at concrete frames.
use gdiroh.Prelude.{◌^◌, ◌≡◌, refl, none, some, [], ◌∷◌, ◌++◌, arith}
use gdiroh.Wire.{Control, welcome, encode, decode, put_words}
use gdiroh.Wire.BigEndian.{big_endian, to_be_bytes}
use gdiroh.Wire.RoundTrip.{decode-encode}
use gdiroh.Wire.Panics.{decode_32_panics}

abbrev greeting : Control
greeting = welcome 7 (2 ∷ 3 ∷ [])

-- What a `Welcome` looks like.
encode-greeting :
    encode greeting ≡ 1 ∷ 0 ∷ 0 ∷ 0 ∷ 7 ∷ 0 ∷ 0 ∷ 0 ∷ 2 ∷ 0 ∷ 0 ∷ 0 ∷ 2 ∷ 0 ∷ 0 ∷ 0 ∷ 3 ∷ []
unfolding encode put_words big_endian to_be_bytes
encode-greeting = refl

-- A frame that is cut short is no message.
decode_cut : decode 64 (3 ∷ 0 ∷ 0 ∷ []) ≡ some none
unfolding decode
decode_cut = refl

decode-encode_example : decode 64 (encode greeting ++ (9 ∷ 9 ∷ [])) ≡ some (some greeting)
decode-encode_example =
    decode-encode 64 greeting (9 ∷ 9 ∷ [])
      (omega arith, omega arith, omega arith, (omega arith, (omega arith, tt)))

-- A count of 2 ^ 30 with no peer behind it.
decode_32_panics_example : decode 32 (1 ∷ to_be_bytes 2 ++ (to_be_bytes (2 ^ 30) ++ [])) ≡ none
unfolding big_endian
decode_32_panics_example =
    decode_32_panics 2 (2 ^ 30) [] (omega arith) (omega arith) (omega arith) (omega arith)
