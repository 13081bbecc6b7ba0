-- ===== src/Frames/Tests.antt =====
-- gdiroh/src/session.rs: a reliable channel, at concrete bytes.
use gdiroh.Prelude.{[], ◌∷◌, length, arith}
use gdiroh.Wire.{Bytes}
use gdiroh.Frames.{cut_frames}
use gdiroh.Frames.Complete.{Consists, cut_frames_complete}

-- A frame of one byte, an empty one, and the start of one of five.
abbrev stream : Bytes
stream = 0 ∷ 0 ∷ 0 ∷ 1 ∷ 9 ∷ 0 ∷ 0 ∷ 0 ∷ 0 ∷ 0 ∷ 0 ∷ 0 ∷ 5 ∷ 8 ∷ 7 ∷ []

cut_frames_complete_example : Consists stream (cut_frames (length stream) stream)
cut_frames_complete_example = cut_frames_complete stream (ground arith)
