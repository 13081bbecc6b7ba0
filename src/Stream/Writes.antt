-- ===== src/Stream/Writes.antt =====
-- gdiroh/src/stream.rs: what is put into a stream, up to what the carrying task writes.
use gdiroh.Prelude.{
  ℕ, suc, ◌≤◌, ◌<◌, ◌≡◌, refl, ap, ◌∙◌, none, some, List, [], ◌∷◌, ◌++◌, append-nil, append_assoc,
  Bool, true, length, map, concat, arith, sign_bit, All,
}
use gdiroh.Wire.{Bytes}
use gdiroh.Raw
use gdiroh.Raw.{Chunk, data_chunk, finish_chunk, abort_chunk, carry_writes, finished}
use gdiroh.Raw.Carry.{granted, carry_writes-finish}
use gdiroh.Stream.{State, ok, wrap, put_data, finish}

-- Godot's calls of `put_data`, each with the whole of its bytes.
abbrev pub put_all : List Bytes → State → State
put_all [] s = s
put_all (bytes ∷ rest) s = put_all rest (put_data (length bytes) bytes s).1.1

-- A stream that is not closed, with the given queue in front of its task.
abbrev queued : List Chunk → Raw.Stream → State → State
queued chunks st s = record s { stream = some (record st { outgoing = chunks; carried = true }) }

-- The chunks of those that are not empty.
abbrev nonempty : List Bytes → List Bytes
nonempty [] = []
nonempty ([] ∷ rest) = nonempty rest
nonempty ((x ∷ xs) ∷ rest) = (x ∷ xs) ∷ nonempty rest

concat-nonempty : (parts : List Bytes) → concat (nonempty parts) ≡ concat parts
concat-nonempty [] = refl
concat-nonempty ([] ∷ rest) = concat-nonempty rest
concat-nonempty ((x ∷ xs) ∷ rest) = rw (concat-nonempty rest)

length-nonempty : (parts : List Bytes) → length (nonempty parts) ≤ length parts
length-nonempty [] = omega arith
length-nonempty ([] ∷ rest) = omega (arith, length-nonempty rest)
length-nonempty ((x ∷ xs) ∷ rest) = omega (arith, length-nonempty rest)

put_one :
    (x : ℕ) (xs : Bytes) (chunks : List Chunk) (st : Raw.Stream) (s : State)
    → suc (length xs) < sign_bit
    → put_data (suc (length xs)) (x ∷ xs) (queued chunks st s)
      ≡ (ok, (suc (length xs), queued (chunks ++ (data_chunk (x ∷ xs) ∷ [])) st s))
unfolding put_data Raw.write
put_one x xs chunks st s h = ground arith

put_all_lem :
    (parts : List Bytes) (chunks : List Chunk) (st : Raw.Stream) (s : State)
    → All (λ bytes. length bytes < sign_bit) parts
    → put_all parts (queued chunks st s) ≡ queued (chunks ++ map data_chunk (nonempty parts)) st s
unfolding put_data Raw.write
put_all_lem [] chunks st s h = rw (append-nil chunks)
put_all_lem ([] ∷ rest) chunks st s h = put_all_lem rest chunks st s h.1
put_all_lem ((x ∷ xs) ∷ rest) chunks st s h =
    ap (λ given. put_all rest given.1.1) (put_one x xs chunks st s h.0)
    ∙ put_all_lem rest (chunks ++ (data_chunk (x ∷ xs) ∷ [])) st s h.1
    ∙ ap (λ all. queued all st s)
        (append_assoc chunks (data_chunk (x ∷ xs) ∷ []) (map data_chunk (nonempty rest)))

-- What is queued on a stream that is not closed.
abbrev pub outgoing : State → List Chunk
outgoing s = elim s.stream [ none ↦ [] | some st ↦ st.outgoing ]

-- Everything put into a fresh stream and then finished is what its task writes, in order and
-- without gaps, and the stream ends cleanly, as long as the network takes the writes.
pub put_data-carry_writes :
    (parts : List Bytes) (st : Raw.Stream) (writes : List Bool)
    → All (λ bytes. length bytes < sign_bit) parts
    → st.outgoing ≡ []
    → st.carried ≡ true
    → length parts ≤ granted writes
    → carry_writes writes (outgoing (finish (put_all parts (wrap st)))) ≡ (concat parts, finished)
unfolding finish Raw.finish
put_data-carry_writes parts st writes h empty carried enough =
    let put = put_all_lem parts [] st (wrap st) h in
    let all = carry_writes-finish writes (nonempty parts) [] in
    ground (arith, put, all, concat-nonempty parts, length-nonempty parts)
