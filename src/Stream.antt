-- ===== src/Stream.antt =====
-- gdiroh/src/stream.rs: `IrohStream`, a stream as a Godot `StreamPeer`. An `i32` is its 32-bit
-- pattern, and what a call writes through its out-pointers is part of its result.
use gdiroh.Prelude.{
  ℕ, zero, suc, ◌+◌, ◌-◌, ◌^◌, ◌≡◌, Option, none, some, List, [], ◌∷◌, ◌++◌, Bool, true, false, not,
  ◌&&◌, String, length, take, drop, min, ltb, leb, if◌then◌else◌, is_some, sign_bit, nat_beq,
  word_size,
}
use gdiroh.Wire.{Bytes}
use gdiroh.Raw
use gdiroh.Raw.{Incoming, arrived_data, ended}
pub mod Reads
pub mod Opened
pub mod Writes
mod Tests

-- Godot's error codes that a stream answers with.
pub data Error : Type 0 where
  ok unavailable invalid_parameter file_eof connection_error : Error

pub record State : Type 0 where
  pub stream : Option Raw.Stream
  pub buffered : List Bytes
  pub available : ℕ
  pub ended : Option (Option String)

-- IrohStream::wrap
abbrev pub wrap : Raw.Stream → State
wrap st = record { stream = some st; buffered = []; available = 0; ended = none }

abbrev pub buffer : Bytes → State → State
buffer chunk s = record s {
  available = s.available + length chunk;
  buffered = s.buffered ++ (chunk ∷ []);
}

-- The `while let` of `drain`, over what has arrived on the stream `st`.
unfoldable pub drain_arrived : List Incoming → Raw.Stream → State → State
drain_arrived [] st s = record s { stream = some (record st { arrived = [] }) }
drain_arrived (arrived_data chunk ∷ rest) st s = drain_arrived rest st (buffer chunk s)
drain_arrived (ended reason ∷ rest) st s = record s {
  stream = some (record st { arrived = rest });
  ended = some reason;
}

unfoldable pub drain : State → State
drain s = elim s.stream [ none ↦ s | some st ↦ drain_arrived st.arrived st s ]

-- The condition of the loop of `fill`.
abbrev pub waits : ℕ → State → Bool
waits wanted s = ltb s.available wanted && not (is_some s.ended)

-- The loop of `fill` when it takes from what is still coming: it waits for each, and the end of
-- this list is the end of the task that carries the stream.
unfoldable pub fill_coming : ℕ → List Incoming → Raw.Stream → State → State
fill_coming wanted [] st s =
    let left = record s { stream = some (record st { coming = [] }) } in
    if waits wanted s then record left { ended = some (some "the stream's task ended") } else left
fill_coming wanted (arrived_data chunk ∷ rest) st s =
    let filled = fill_coming wanted rest st (buffer chunk s) in
    if waits wanted s
    then filled
    else record s { stream = some (record st { coming = arrived_data chunk ∷ rest }) }
fill_coming wanted (ended reason ∷ rest) st s =
    if waits wanted s
    then record s { stream = some (record st { coming = rest }); ended = some reason }
    else record s { stream = some (record st { coming = ended reason ∷ rest }) }

-- The same loop while something has arrived.
unfoldable pub fill_arrived : ℕ → List Incoming → Raw.Stream → State → State
fill_arrived wanted [] st s = fill_coming wanted st.coming (record st { arrived = [] }) s
fill_arrived wanted (arrived_data chunk ∷ rest) st s =
    let filled = fill_arrived wanted rest st (buffer chunk s) in
    if waits wanted s
    then filled
    else record s { stream = some (record st { arrived = arrived_data chunk ∷ rest }) }
fill_arrived wanted (ended reason ∷ rest) st s =
    if waits wanted s
    then record s { stream = some (record st { arrived = rest }); ended = some reason }
    else record s { stream = some (record st { arrived = ended reason ∷ rest }) }

unfoldable pub fill : ℕ → State → State
fill wanted s = elim s.stream [ none ↦ s | some st ↦ fill_arrived wanted st.arrived st s ]

-- The loop of `take`: what goes into a buffer of so many bytes, and the chunks that are left. A chunk
-- that is not used up has filled the buffer.
unfoldable pub take_chunks : ℕ → List Bytes → Bytes × List Bytes
take_chunks wanted [] = ([], [])
take_chunks zero (chunk ∷ chunks) = ([], chunk ∷ chunks)
take_chunks (suc n) (chunk ∷ chunks) =
    let rest = take_chunks (suc n - length chunk) chunks in
    if leb (length chunk) (suc n)
    then (chunk ++ rest.0, rest.1)
    else (take (suc n) chunk, drop (suc n) chunk ∷ chunks)

unfoldable pub take_bytes : ℕ → State → Bytes × State
take_bytes wanted s =
    let taken = take_chunks wanted s.buffered in
    (taken.0, record s { buffered = taken.1; available = s.available - length taken.0 })

-- r_bytes.max(0) as usize
abbrev pub at_least_zero : ℕ → ℕ
at_least_zero r = if leb sign_bit r then 0 else r

-- get_data_rawptr: the error, the bytes that were put into the buffer, whose number is `r_received`,
-- and the state.
unfoldable pub get_data : ℕ → State → Error × (Bytes × State)
get_data r_bytes s =
    let wanted = at_least_zero r_bytes in
    let drained = drain s in
    let filled = fill wanted drained in
    if nat_beq wanted 0
    then (ok, ([], drained))
    else if ltb filled.available wanted
    then (unavailable, ([], filled))
    else (ok, take_bytes wanted filled)

-- get_partial_data_rawptr
unfoldable pub get_partial_data : ℕ → State → Error × (Bytes × State)
get_partial_data r_bytes s =
    let drained = drain s in
    let wanted = min (at_least_zero r_bytes) drained.available in
    if nat_beq wanted 0 then (ok, ([], drained)) else (ok, take_bytes wanted drained)

-- put_data_rawptr, with `p_bytes` the length that Godot gives for `bytes`: the error, `r_sent`, and
-- the state.
unfoldable pub put_data : ℕ → Bytes → State → Error × (ℕ × State)
put_data p_bytes bytes s =
    if leb sign_bit p_bytes
    then (invalid_parameter, (0, s))
    else if nat_beq p_bytes 0
    then (ok, (0, s))
    else elim s.stream [
      | none ↦ (file_eof, (0, s))
      | some st ↦
          let sent = Raw.write bytes st in
          if sent.0
          then (ok, (p_bytes, record s { stream = some sent.1 }))
          else (connection_error, (0, s))
    ]

-- put_partial_data_rawptr
unfoldable pub put_partial_data : ℕ → Bytes → State → Error × (ℕ × State)
put_partial_data p_bytes bytes s = put_data p_bytes bytes s

unfoldable pub get_available_bytes : State → ℕ × State
get_available_bytes s = let drained = drain s in (min drained.available (sign_bit - 1), drained)

unfoldable pub is_open : State → Bool × State
is_open s =
    let drained = drain s in (not (is_some drained.ended) && is_some drained.stream, drained)

unfoldable pub get_error : State → String × State
get_error s =
    let drained = drain s in
    (elim drained.ended [ none ↦ "" | some none ↦ "" | some (some reason) ↦ reason ], drained)

unfoldable pub finish : State → State
finish s = elim s.stream [ none ↦ s | some st ↦ record s { stream = some (Raw.finish st).1 } ]

-- code.clamp(0, u32::MAX as i64) as u32, for an `i64` as its 64-bit pattern
abbrev pub clamp_code : ℕ → ℕ
clamp_code code = if leb (2 ^ 63) code then 0 else min code (word_size - 1)

unfoldable pub abort : ℕ → State → Bool × State
abort code s = elim s.stream [
  | none ↦ (false, s)
  | some st ↦
      let sent = Raw.abort (clamp_code code) st in (sent.0, record s { stream = some sent.1 })
]

unfoldable pub close : State → State
close s = record s { stream = none; buffered = []; available = 0 }
