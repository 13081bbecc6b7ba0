-- ===== src/Raw/Tests.antt =====
-- gdiroh/src/raw.rs: a carried stream, at concrete turns and chunks.
use gdiroh.Prelude.{refl, ◌≡◌, none, List, [], ◌∷◌, true, arith}
use gdiroh.Wire.{Bytes}
use gdiroh.Raw.{abort_chunk, reset, carry_writes, Turn, abort_message, chunk_read, stream_end}
use gdiroh.Raw.Connection
use gdiroh.Raw.Connection.{
  datagram, closed, accept_failed, datagram_read, read_failed, connection_closed, connected, dial,
  adopt, pump, turn,
}
use gdiroh.Raw.Carry.{chunked, carry_writes-abort}

abbrev turns : List Turn
turns =
    chunk_read true (1 ∷ [])
    ∷ abort_message none
    ∷ chunk_read true (2 ∷ [])
    ∷ stream_end
    ∷ chunk_read true (3 ∷ [])
    ∷ []

abbrev parts : List Bytes
parts = (1 ∷ 2 ∷ []) ∷ (3 ∷ []) ∷ []

carry_writes-abort_example :
    carry_writes (true ∷ true ∷ []) (chunked parts (abort_chunk 9 ∷ [])) ≡ (1 ∷ 2 ∷ 3 ∷ [], reset 9)
carry_writes-abort_example = carry_writes-abort (true ∷ true ∷ []) parts 9 [] (omega arith)

abbrev meetings : List Connection.Turn
meetings =
    datagram_read true (1 ∷ [])
    ∷ accept_failed
    ∷ connection_closed true "done"
    ∷ datagram_read true (2 ∷ [])
    ∷ connection_closed true "done"
    ∷ read_failed
    ∷ []

-- A datagram may still be reported after the end.
datagram_after_end : adopt meetings ≡ datagram (1 ∷ []) ∷ closed "done" ∷ datagram (2 ∷ []) ∷ []
unfolding adopt pump turn
datagram_after_end = refl
