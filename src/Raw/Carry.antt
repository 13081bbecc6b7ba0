-- ===== src/Raw/Carry.antt =====
-- gdiroh/src/raw.rs: what a carried stream writes and reports.
use gdiroh.Prelude.{
  ℕ, suc, ◌≤◌, ◌≡◌, refl, none, some, List, [], ◌∷◌, ◌++◌, Bool, true, false, arith, length, concat,
  map,
}
use gdiroh.Wire.{Bytes}
use gdiroh.Raw.{
  Chunk, data_chunk, finish_chunk, abort_chunk, Incoming, arrived_data, ended, finished, reset,
  carry_writes, Turn, abort_message, chunk_read, stream_end, read_error, carry_reads,
}

-- Nothing follows the end of a stream.
abbrev pub EndsLast : List Incoming → Type 0
EndsLast [] = Unit
EndsLast (arrived_data bytes ∷ rest) = EndsLast rest
EndsLast (ended reason ∷ rest) = rest ≡ []

-- Whatever the scheduler picks, the reader reports nothing after the end.
pub carry_reads-EndsLast :
    (abortable : Bool) (turns : List Turn) → EndsLast (carry_reads abortable turns).0
unfolding carry_reads
carry_reads-EndsLast abortable [] = tt
carry_reads-EndsLast true (abort_message (some code) ∷ turns) = tt
carry_reads-EndsLast true (abort_message none ∷ turns) = carry_reads-EndsLast false turns
carry_reads-EndsLast false (abort_message message ∷ turns) = carry_reads-EndsLast false turns
carry_reads-EndsLast true (chunk_read true bytes ∷ turns) = carry_reads-EndsLast true turns
carry_reads-EndsLast false (chunk_read true bytes ∷ turns) = carry_reads-EndsLast false turns
carry_reads-EndsLast true (chunk_read false bytes ∷ turns) = tt
carry_reads-EndsLast false (chunk_read false bytes ∷ turns) = tt
carry_reads-EndsLast true (stream_end ∷ turns) = refl
carry_reads-EndsLast false (stream_end ∷ turns) = refl
carry_reads-EndsLast true (read_error reason ∷ turns) = refl
carry_reads-EndsLast false (read_error reason ∷ turns) = refl

-- How many of the writes go through before one fails.
abbrev pub granted : List Bool → ℕ
granted [] = 0
granted (false ∷ writes) = 0
granted (true ∷ writes) = suc (granted writes)

abbrev pub chunked : List Bytes → List Chunk → List Chunk
chunked parts rest = map data_chunk parts ++ rest

-- What was queued before a finish goes out whole and in order, and the remote sees a clean end,
-- whatever was queued after it, when none of these writes fails.
pub carry_writes-finish :
    (writes : List Bool) (parts : List Bytes) (rest : List Chunk)
    → length parts ≤ granted writes
    → carry_writes writes (chunked parts (finish_chunk ∷ rest)) ≡ (concat parts, finished)
unfolding carry_writes
carry_writes-finish writes [] rest h = refl
carry_writes-finish [] (part ∷ parts) rest h = ground arith
carry_writes-finish (false ∷ writes) (part ∷ parts) rest h = ground arith
carry_writes-finish (true ∷ writes) (part ∷ parts) rest h =
    ground (arith, carry_writes-finish writes parts rest)

-- An abort resets a stream with its code only after everything queued before it was written, in order,
-- when none of these writes fails.
pub carry_writes-abort :
    (writes : List Bool) (parts : List Bytes) (code : ℕ) (rest : List Chunk)
    → length parts ≤ granted writes
    → carry_writes writes (chunked parts (abort_chunk code ∷ rest)) ≡ (concat parts, reset code)
unfolding carry_writes
carry_writes-abort writes [] code rest h = refl
carry_writes-abort [] (part ∷ parts) code rest h = ground arith
carry_writes-abort (false ∷ writes) (part ∷ parts) code rest h = ground arith
carry_writes-abort (true ∷ writes) (part ∷ parts) code rest h =
    ground (arith, carry_writes-abort writes parts code rest)
