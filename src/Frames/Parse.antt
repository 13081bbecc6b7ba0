-- ===== src/Frames/Parse.antt =====
-- gdiroh/src/session.rs: what the reader's loop cuts from the bytes of the writer's loop.
use native.Mathlib.Nat.{mod-eq_of_lt}
use gdiroh.Prelude.{
  ℕ, zero, suc, ◌%◌, ◌<◌, ◌≤◌, ◌≡◌, refl, ap, sym, ◌∙◌, none, some, List, [], ◌∷◌, ◌++◌, length,
  take, drop, length-append, append-nil, All, word_size, arith, dec_lt, length-take,
  take-append_self, drop-append_self,
}
use gdiroh.Wire.{Bytes}
use gdiroh.Wire.BigEndian.{to_be_bytes, read_word, read_word_short, read_word-to_be_bytes}
use gdiroh.Frames.{Write, written, failed, write_frames, read_exact, cut_frames}

-- `xs` is the start of `ys`.
abbrev pub StartOf {ℓ} : {A : Type ℓ} → List A → List A → Type ℓ
StartOf xs ys = (zs : List _) × (xs ++ zs ≡ ys)

-- A frame that a `u32` can measure.
abbrev pub IsShort : Bytes → Type 0
IsShort frame = length frame < word_size

pub cut_frames_nil : (f : ℕ) → cut_frames f [] ≡ []
unfolding cut_frames read_word
cut_frames_nil zero = refl
cut_frames_nil (suc f) = refl

cut_frames_short : (f : ℕ) (bytes : Bytes) → length bytes < 4 → cut_frames f bytes ≡ []
unfolding cut_frames
cut_frames_short zero bytes h = refl
cut_frames_short (suc f) bytes h = rw (read_word_short bytes h, cut_frames)

pub take_all {ℓ} : {A : Type ℓ} (n : ℕ) (xs : List A) → length xs ≤ n → take n xs ≡ xs
take_all zero [] h = refl
take_all zero (x ∷ xs) h = absurd (omega arith)
take_all (suc n) [] h = refl
take_all (suc n) (x ∷ xs) h = rw (take_all n xs (omega arith))

drop_all {ℓ} : {A : Type ℓ} (n : ℕ) (xs : List A) → length xs ≤ n → drop n xs ≡ []
drop_all zero [] h = refl
drop_all zero (x ∷ xs) h = absurd (omega arith)
drop_all (suc n) [] h = refl
drop_all (suc n) (x ∷ xs) h = drop_all n xs (omega arith)

read_exact_all :
    (frame rest : Bytes) → read_exact (length frame) (frame ++ rest) ≡ some (frame, rest)
unfolding read_exact
read_exact_all frame rest =
    rw (take-append_self frame rest, drop-append_self frame rest)
      (ground (arith, length-append frame rest))

read_exact_short : (n : ℕ) (bytes : Bytes) → length bytes < n → read_exact n bytes ≡ none
unfolding read_exact
read_exact_short n bytes h = ground arith

-- A whole frame comes off the front.
pub cut_frames_one :
    (f : ℕ) (frame rest : Bytes)
    → IsShort frame
    → cut_frames (suc f) (to_be_bytes (length frame % word_size) ++ (frame ++ rest))
      ≡ frame ∷ cut_frames f rest
unfolding cut_frames
cut_frames_one f frame rest h = rw (mod-eq_of_lt h) (
    rw (read_word-to_be_bytes (length frame) (frame ++ rest) h, cut_frames)
      (rw (read_exact_all frame rest)))

cut_frames_last :
    (f : ℕ) (frame : Bytes)
    → IsShort frame
    → cut_frames (suc f) (to_be_bytes (length frame % word_size) ++ frame) ≡ frame ∷ []
cut_frames_last f frame h =
    ap (λ (t : Bytes). cut_frames (suc f) (to_be_bytes (length frame % word_size) ++ t))
      (sym (append-nil frame))
    ∙ cut_frames_one f frame [] h
    ∙ ap (λ (t : List Bytes). frame ∷ t) (cut_frames_nil f)

-- Part of a frame is a whole one or nothing.
cut_frames_part :
    (f n : ℕ) (frame : Bytes) (frames : List Bytes)
    → IsShort frame
    → StartOf
        (cut_frames f (to_be_bytes (length frame % word_size) ++ take n frame))
        (frame ∷ frames)
cut_frames_part zero n frame frames h = (frame ∷ frames, unfold cut_frames in refl)
cut_frames_part (suc f) n frame frames h = elim (dec_lt n (length frame)) [
  | yes cut ↦ (
    frame ∷ frames,
    unfold cut_frames in
        rw (mod-eq_of_lt h) (
          rw (read_word-to_be_bytes (length frame) (take n frame) h, cut_frames)
            (rw (
              read_exact_short (length frame) (take n frame)
                (omega (arith, length-take n frame))))),
  )
  | no whole ↦ (frames, rw (take_all n frame (omega arith)) (rw (cut_frames_last f frame h) refl))
]

-- Part of a length is nothing; the whole of it is an empty part of the frame.
cut_frames_header :
    (f n : ℕ) (frame : Bytes) (frames : List Bytes)
    → IsShort frame
    → StartOf (cut_frames f (take n (to_be_bytes (length frame % word_size)))) (frame ∷ frames)
cut_frames_header f n frame frames h = elim (dec_lt n 4) [
  | yes cut ↦ (
    frame ∷ frames,
    rw (
        cut_frames_short f (take n (to_be_bytes (length frame % word_size)))
          (omega (arith, length-take n (to_be_bytes (length frame % word_size))))),
  )
  | no whole ↦
      rw (take_all n (to_be_bytes (length frame % word_size)) (unfold to_be_bytes in omega arith)) (
        rw (← append-nil (to_be_bytes (length frame % word_size)))
          (cut_frames_part f 0 frame frames h))
]

-- Whatever the transport does to the writes, what is cut is the start of what was queued.
pub cut_frames-write_frames :
    (f : ℕ) (ws : List Write) (frames : List Bytes)
    → All IsShort frames
    → StartOf (cut_frames f (write_frames ws frames)) frames
unfolding write_frames
cut_frames-write_frames f ws [] h = ([], rw (cut_frames_nil f))
cut_frames-write_frames f [] (frame ∷ frames) h = (frame ∷ frames, rw (cut_frames_nil f))
cut_frames-write_frames f (failed n ∷ ws) (frame ∷ frames) h =
    cut_frames_header f n frame frames h.0
cut_frames-write_frames f (written ∷ []) (frame ∷ frames) h =
    rw (← append-nil (to_be_bytes (length frame % word_size)))
      (cut_frames_part f 0 frame frames h.0)
cut_frames-write_frames f (written ∷ failed n ∷ ws) (frame ∷ frames) h =
    cut_frames_part f n frame frames h.0
cut_frames-write_frames zero (written ∷ written ∷ ws) (frame ∷ frames) h =
    (frame ∷ frames, unfold cut_frames in refl)
cut_frames-write_frames (suc f) (written ∷ written ∷ ws) (frame ∷ frames) h =
    let (zs, e) = cut_frames-write_frames f ws frames h.1 in
    (
      zs,
      rw (cut_frames_one f frame (write_frames ws frames) h.0)
          (ap (λ (t : List Bytes). frame ∷ t) e),
    )

-- Writes that all work, two for each frame.
abbrev pub all_written : List Bytes → List Write
all_written [] = []
all_written (frame ∷ frames) = written ∷ written ∷ all_written frames

-- With no failed write every frame is cut.
pub cut_frames-all_written :
    (f : ℕ) (frames : List Bytes)
    → All IsShort frames
    → length frames ≤ f
    → cut_frames f (write_frames (all_written frames) frames) ≡ frames
unfolding write_frames
cut_frames-all_written f [] h enough = cut_frames_nil f
cut_frames-all_written zero (frame ∷ frames) h enough = absurd (omega arith)
cut_frames-all_written (suc f) (frame ∷ frames) h enough =
    cut_frames_one f frame (write_frames (all_written frames) frames) h.0
    ∙ ap (λ (t : List Bytes). frame ∷ t) (cut_frames-all_written f frames h.1 (omega arith))

pub length-write_frames :
    (frames : List Bytes) → length frames ≤ length (write_frames (all_written frames) frames)
unfolding write_frames to_be_bytes
length-write_frames [] = omega arith
length-write_frames (frame ∷ frames) = omega (
  arith,
  length-append frame (write_frames (all_written frames) frames),
  length-write_frames frames,
)
