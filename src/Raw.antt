-- ===== src/Raw.antt =====
-- gdiroh/src/raw.rs: raw connections and their bidirectional streams. The two tasks that carry a
-- stream meet the results of the QUIC calls in a given order, and that order is a list.
use gdiroh.Prelude.{
  ℕ, ◌≡◌, Option, none, some, List, [], ◌∷◌, ◌++◌, Bool, true, false, String, if◌then◌else◌,
}
use gdiroh.Wire.{Bytes}
pub mod Carry
pub mod Connection
pub mod Reports
mod Tests

-- One path of a connection, as iroh lists them, and what is kept of the selected one.
pub record NetPath : Type 0 where
  pub selected : Bool
  pub relay : Bool
  pub rtt : ℕ

pub record PathInfo : Type 0 where
  pub relay : Bool
  pub rtt : ℕ

-- path_info
unfoldable pub path_info : List NetPath → Option PathInfo
path_info [] = none
path_info (path ∷ paths) =
    let rest = path_info paths in
    if path.selected then some (record { relay = path.relay; rtt = path.rtt }) else rest

-- Queued for the writer task.
pub data Chunk : Type 0 where
  data_chunk : Bytes → Chunk
  finish_chunk : Chunk
  abort_chunk : ℕ → Chunk

-- Read off a stream: bytes, or its end, with the reason when it failed.
pub data Incoming : Type 0 where
  arrived_data : Bytes → Incoming
  ended : Option String → Incoming

-- One bidirectional stream: what was queued for the writer, and whether that still takes from the
-- queue; what the reader has reported and nobody took, and what it will still report before it goes.
pub record Stream : Type 0 where
  pub outgoing : List Chunk
  pub carried : Bool
  pub arrived : List Incoming
  pub coming : List Incoming

-- A send on the queue fails once the task that carries the stream is gone.
abbrev queue : Chunk → Stream → Bool × Stream
queue chunk st =
    if st.carried then (true, record st { outgoing = st.outgoing ++ (chunk ∷ []) }) else (false, st)

unfoldable pub write : Bytes → Stream → Bool × Stream
write bytes st = queue (data_chunk bytes) st

unfoldable pub finish : Stream → Bool × Stream
finish st = queue finish_chunk st

unfoldable pub abort : ℕ → Stream → Bool × Stream
abort code st = queue (abort_chunk code) st

-- How the writing half of `carry` ends.
pub data Ending : Type 0 where
  finished : Ending
  reset : ℕ → Ending
  write_failed : Ending

-- The writing half of `carry`, over the chunks queued until the stream is dropped: what was written,
-- and the end. `writes` says for each `write_all` whether it went through.
unfoldable pub carry_writes : List Bool → List Chunk → Bytes × Ending
carry_writes writes [] = ([], finished)
carry_writes writes (finish_chunk ∷ chunks) = ([], finished)
carry_writes writes (abort_chunk code ∷ chunks) = ([], reset code)
carry_writes [] (data_chunk bytes ∷ chunks) = ([], write_failed)
carry_writes (false ∷ writes) (data_chunk bytes ∷ chunks) = ([], write_failed)
carry_writes (true ∷ writes) (data_chunk bytes ∷ chunks) =
    let rest = carry_writes writes chunks in (bytes ++ rest.0, rest.1)

-- What `select!` can pick in the reading half: a message on the abort channel, or its end, or what
-- `read_chunk` gave. `listened` is whether a report still finds its receiver.
pub data Turn : Type 0 where
  abort_message : Option ℕ → Turn
  chunk_read : (listened : Bool) → Bytes → Turn
  stream_end : Turn
  read_error : String → Turn

-- The reading half: what it reports, and the code it stops the stream with.
unfoldable pub carry_reads : Bool → List Turn → List Incoming × Option ℕ
carry_reads abortable [] = ([], none)
carry_reads true (abort_message (some code) ∷ turns) = ([], some code)
carry_reads true (abort_message none ∷ turns) = carry_reads false turns
carry_reads false (abort_message message ∷ turns) = carry_reads false turns
carry_reads abortable (chunk_read true bytes ∷ turns) =
    let rest = carry_reads abortable turns in (arrived_data bytes ∷ rest.0, rest.1)
carry_reads abortable (chunk_read false bytes ∷ turns) = ([], none)
carry_reads abortable (stream_end ∷ turns) = (ended none ∷ [], none)
carry_reads abortable (read_error reason ∷ turns) = (ended (some reason) ∷ [], none)

-- Stream::open: whether its task could be started comes first; `refused` is why no stream could be opened, and `turns` what the reading half meets.
unfoldable pub open_stream : Bool → Option String → List Turn → Stream
open_stream false refused turns = record {
  outgoing = [];
  carried = false;
  arrived = ended (some "the network runtime is not running") ∷ [];
  coming = [];
}
open_stream true (some reason) turns = record {
  outgoing = [];
  carried = true;
  arrived = [];
  coming = ended (some reason) ∷ [];
}
open_stream true none turns = record {
  outgoing = [];
  carried = true;
  arrived = [];
  coming = (carry_reads true turns).0;
}

-- Stream::adopt, of a stream that the remote opened.
unfoldable pub adopt : Bool → List Turn → Stream
adopt detached turns = record {
  outgoing = [];
  carried = detached;
  arrived = [];
  coming = if detached then (carry_reads true turns).0 else [];
}
