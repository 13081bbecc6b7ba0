-- ===== src/Frames.antt =====
-- gdiroh/src/session.rs: `spawn_stream_writer` and `read_stream`, one reliable channel of a session
-- as the bytes of one unidirectional stream, and the framing of a datagram.
-- The writer meets a transport that may fail at any write; the reader meets any bytes at all.
pub mod Parse
pub mod Delivery
pub mod Complete
mod Tests
use gdiroh.Prelude.{
  ℕ, zero, suc, ◌%◌, Option, none, some, List, [], ◌∷◌, ◌++◌, length, take, drop, ltb, ◌==◌,
  if◌then◌else◌, word_size, sign_bit, nat_eq, Bool,
}
use gdiroh.Wire.{Bytes, Buf, Control, decode}
use gdiroh.Wire.BigEndian.{to_be_bytes, read_word}

-- Stream channel reserved for membership messages, i32::MIN.
abbrev pub control_channel : ℕ
control_channel = sign_bit

-- How one `write_all` ends: all bytes are on the stream, or the first `n` of them and an error.
pub data Write : Type 0 where
  written : Write
  failed : ℕ → Write

-- The loop over the queued frames; the list of writes is what the transport does in turn. Where the
-- list runs out the task has not gone further yet.
pub write_frames : List Write → List Bytes → Bytes
write_frames ws [] = []
write_frames [] (frame ∷ frames) = []
write_frames (failed n ∷ ws) (frame ∷ frames) = take n (to_be_bytes (length frame % word_size))
write_frames (written ∷ []) (frame ∷ frames) = to_be_bytes (length frame % word_size)
write_frames (written ∷ failed n ∷ ws) (frame ∷ frames) =
    to_be_bytes (length frame % word_size) ++ take n frame
write_frames (written ∷ written ∷ ws) (frame ∷ frames) =
    to_be_bytes (length frame % word_size) ++ (frame ++ write_frames ws frames)

-- What is on the stream: the channel header, then the frames. `opened` is whether `open_uni` worked.
unfoldable pub stream_writer : Bool → List Write → ℕ → List Bytes → Bytes
unfolding write_frames to_be_bytes
stream_writer opened [] channel frames = []
stream_writer opened (failed n ∷ ws) channel frames =
    if opened then take n (to_be_bytes channel) else []
stream_writer opened (written ∷ ws) channel frames =
    if opened then to_be_bytes channel ++ write_frames ws frames else []

-- `read_exact`: so many bytes, or an error.
pub read_exact : ℕ → Bytes → Option (Bytes × Bytes)
read_exact n bytes = if ltb (length bytes) n then none else some (take n bytes, drop n bytes)

-- The frames that the reader's loop cuts from a stream, until a read fails. Each round takes at
-- least the four bytes of a length, so as many rounds as there are bytes are enough.
pub cut_frames : ℕ → Bytes → List Bytes
cut_frames zero bytes = []
cut_frames (suc fuel) bytes = elim (read_word bytes) [
  | none ↦ []
  | some (len, rest) ↦ elim (read_exact len rest) [
    | none ↦ []
    | some (frame, rest') ↦ frame ∷ cut_frames fuel rest'
  ]
]

-- What one frame becomes, by the stream's channel.
pub data Arrival : Type 0 where
  control : Control → Arrival
  packet : ℕ → Bytes → Arrival

-- `Control::decode` drops what is no message; a panic ends the task. The list stops there.
pub controls : ⦃b : Buf⦄ → ℕ → List Bytes → List Arrival
controls w [] = []
controls w (frame ∷ frames) = elim (decode w frame) [
  | none ↦ []
  | some none ↦ controls w frames
  | some (some c) ↦ control c ∷ controls w frames
]

unfoldable pub packets : ℕ → List Bytes → List Arrival
packets channel [] = []
packets channel (frame ∷ frames) = packet channel frame ∷ packets channel frames

pub route : ⦃b : Buf⦄ → ℕ → ℕ → List Bytes → List Arrival
unfolding controls packets
route w channel frames =
    if channel == control_channel then controls w frames else packets channel frames

-- Everything that one stream delivers while its receivers live.
unfoldable pub read_stream : ⦃b : Buf⦄ → ℕ → Bytes → List Arrival
unfolding cut_frames route read_exact read_word
read_stream w bytes = elim (read_word bytes) [
  | none ↦ []
  | some (channel, rest) ↦ route w channel (cut_frames (length rest) rest)
]
