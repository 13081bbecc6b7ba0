-- ===== src/Stream/Reads.antt =====
-- gdiroh/src/stream.rs: what a stream's reads give: the bytes that the carrying task reported, in
-- order.
use gdiroh.Prelude.{
  if◌then◌else◌, leb, ℕ, zero, suc, ◌-◌, ◌≤◌, ◌<◌, ◌≡◌, refl, sym, ◌∙◌, none, some, List, [], ◌∷◌,
  ◌++◌, append-nil, append_assoc, length, length-append, length-take, length-drop, take, drop,
  concat, min, arith, Option-cases, take-append, drop-append, inl, inr,
}
use gdiroh.Wire.{Bytes}
use gdiroh.Raw
use gdiroh.Raw.{Incoming, arrived_data, ended}
use gdiroh.Raw.Carry.{EndsLast}
use gdiroh.Stream.{
  State, ok, unavailable, wrap, buffer, drain_arrived, drain, fill_coming, fill_arrived, fill,
  take_chunks, take_bytes, at_least_zero, get_data, get_partial_data, close,
}

-- The bytes among what is reported.
abbrev pub payload : List Incoming → Bytes
payload [] = []
payload (arrived_data chunk ∷ rest) = chunk ++ payload rest
payload (ended reason ∷ rest) = payload rest

-- What the carrying task has reported or will report, and nobody took.
abbrev pub reported : State → List Incoming
reported s = elim s.stream [ none ↦ [] | some st ↦ st.arrived ++ st.coming ]

-- The bytes in the buffer, and those that will get there from `queue`.
abbrev pub contents : List Incoming → State → Bytes
contents queue s = concat s.buffered ++ payload queue

-- All bytes that reads can still give.
abbrev pub readable : State → Bytes
readable s = contents (reported s) s

-- The count is that of the buffer, nothing follows the end, and after it nothing is to come.
abbrev pub SoundWith : List Incoming → State → Type 0
SoundWith queue s =
    (s.available ≡ length (concat s.buffered))
    × EndsLast queue
    × elim s.ended [ none ↦ Unit | some reason ↦ queue ≡ [] ]

abbrev pub Sound : State → Type 0
Sound s = SoundWith (reported s) s

concat-append : (xss : List Bytes) (ys : Bytes) → concat (xss ++ (ys ∷ [])) ≡ concat xss ++ ys
concat-append [] ys = append-nil ys
concat-append (xs ∷ xss) ys = rw (concat-append xss ys) (sym (append_assoc xs (concat xss) ys))

Sound-buffer :
    (chunk : Bytes) (queue : List Incoming) (s : State)
    → SoundWith (arrived_data chunk ∷ queue) s
    → SoundWith queue (buffer chunk s)
      × (contents queue (buffer chunk s) ≡ contents (arrived_data chunk ∷ queue) s)
Sound-buffer chunk queue s h = ground (
  arith,
  concat-append s.buffered chunk,
  length-append (concat s.buffered) chunk,
  append_assoc (concat s.buffered) chunk (payload queue),
)

Sound-drain_arrived :
    (queue : List Incoming) (st : Raw.Stream) (s : State)
    → SoundWith (queue ++ st.coming) s
    → Sound (drain_arrived queue st s)
      × (readable (drain_arrived queue st s) ≡ contents (queue ++ st.coming) s)
unfolding drain_arrived
Sound-drain_arrived [] st s h = (h, refl)
Sound-drain_arrived (arrived_data chunk ∷ rest) st s h =
    let (sound, same) = Sound-buffer chunk (rest ++ st.coming) s h in
    let (drained, all) = Sound-drain_arrived rest st (buffer chunk s) sound in (drained, all ∙ same)
Sound-drain_arrived (ended reason ∷ rest) st s h = ground arith

-- What `fill` comes to: nothing is lost, and it has enough or there is no more.
abbrev Filled : ℕ → Bytes → State → Type 0
Filled wanted all s = Sound s × (readable s ≡ all) × (s.available < wanted → reported s ≡ [])

Filled-fill_coming :
    (wanted : ℕ) (queue : List Incoming) (st : Raw.Stream) (s : State)
    → SoundWith queue s
    → Filled wanted (contents queue s) (fill_coming wanted queue (record st { arrived = [] }) s)
unfolding fill_coming
Filled-fill_coming wanted [] st s h = ground arith
Filled-fill_coming wanted (arrived_data chunk ∷ rest) st s h =
    ground (arith, Sound-buffer chunk rest s h, Filled-fill_coming wanted rest st (buffer chunk s))
Filled-fill_coming wanted (ended reason ∷ rest) st s h = ground arith

Filled-fill_arrived :
    (wanted : ℕ) (queue : List Incoming) (st : Raw.Stream) (s : State)
    → SoundWith (queue ++ st.coming) s
    → Filled wanted (contents (queue ++ st.coming) s) (fill_arrived wanted queue st s)
unfolding fill_arrived
Filled-fill_arrived wanted [] st s h = Filled-fill_coming wanted st.coming st s h
Filled-fill_arrived wanted (arrived_data chunk ∷ rest) st s h = ground (
  arith,
  Sound-buffer chunk (rest ++ st.coming) s h,
  Filled-fill_arrived wanted rest st (buffer chunk s),
)
Filled-fill_arrived wanted (ended reason ∷ rest) st s h = ground arith

Filled-fill : (wanted : ℕ) (s : State) → Sound s → Filled wanted (readable s) (fill wanted s)
unfolding fill
Filled-fill wanted s h = elim (Option-cases s.stream) [
  | inl e ↦ ground (arith, e)
  | inr (st, e) ↦ ground (arith, e, Filled-fill_arrived wanted st.arrived st s)
]

Sound-drain : (s : State) → Sound s → Sound (drain s) × (readable (drain s) ≡ readable s)
unfolding drain
Sound-drain s h = elim (Option-cases s.stream) [
  | inl e ↦ ground (arith, e)
  | inr (st, e) ↦ ground (arith, e, Sound-drain_arrived st.arrived st s)
]

-- Taking is cutting a prefix off the buffer.
take_chunks_lem :
    (wanted : ℕ) (chunks : List Bytes)
    → ((take_chunks wanted chunks).0 ≡ take wanted (concat chunks))
      × (concat (take_chunks wanted chunks).1 ≡ drop wanted (concat chunks))
unfolding take_chunks
take_chunks_lem zero [] = (refl, refl)
take_chunks_lem (suc n) [] = (refl, refl)
take_chunks_lem zero (chunk ∷ chunks) = (refl, refl)
take_chunks_lem (suc n) (chunk ∷ chunks) = ground (
  arith,
  take_chunks_lem (suc n - length chunk) chunks,
  take-append (suc n) chunk (concat chunks),
  drop-append (suc n) chunk (concat chunks),
)

Sound-take_bytes :
    (wanted : ℕ) (s : State)
    → Sound s
    → wanted ≤ s.available
    → let taken = take_bytes wanted s in
      Sound taken.1
      × (taken.0 ≡ take wanted (readable s))
      × (readable taken.1 ≡ drop wanted (readable s))
unfolding take_bytes
Sound-take_bytes wanted s h enough = ground (
  arith,
  take_chunks_lem wanted s.buffered,
  take-append wanted (concat s.buffered) (payload (reported s)),
  drop-append wanted (concat s.buffered) (payload (reported s)),
  length-drop wanted (concat s.buffered),
  length-take wanted (concat s.buffered),
)

-- A read of `r` bytes waits for them and takes exactly the first ones of all that was or will be
-- reported; when there will never be so many it takes none and answers ERR_UNAVAILABLE. The count
-- of buffered bytes stays right.
pub get_data_lem :
    (r : ℕ) (s : State)
    → Sound s
    → let wanted = at_least_zero r in
      let given = get_data r s in
      let all = readable s in
      let enough = leb wanted (length all) in
      Sound given.1.1
      × (given.0 ≡ (if enough then ok else unavailable))
      × (given.1.0 ≡ (if enough then take wanted all else []))
      × (readable given.1.1 ≡ (if enough then drop wanted all else all))
unfolding get_data
get_data_lem r s h =
    let wanted = at_least_zero r in
    let drained = drain s in
    let filled = fill wanted drained in
    let (d, same) = Sound-drain s h in
    let (f, all, enough) = Filled-fill wanted drained d in
    ground (
      arith,
      Sound-take_bytes wanted filled,
      length-append (concat filled.buffered) (payload (reported filled)),
      append-nil (concat filled.buffered),
    )

-- A partial read never waits: it answers OK, takes no more than was asked for, only what has already
-- arrived, and loses nothing.
pub get_partial_data_lem :
    (r : ℕ) (s : State)
    → Sound s
    → let given = get_partial_data r s in
      let taken = min (at_least_zero r) (drain s).available in
      Sound given.1.1
      × (given.0 ≡ ok)
      × (given.1.0 ≡ take taken (readable s))
      × (readable given.1.1 ≡ drop taken (readable s))
unfolding get_partial_data
get_partial_data_lem r s h =
    let drained = drain s in
    let (d, same) = Sound-drain s h in
    ground (arith, Sound-take_bytes (min (at_least_zero r) drained.available) drained)

-- A stream just opened is sound when nothing is reported after its end.
pub wrap-Sound : (st : Raw.Stream) → EndsLast (st.arrived ++ st.coming) → Sound (wrap st)
wrap-Sound st h = (refl, h, tt)

-- After `close` every read of at least one byte answers ERR_UNAVAILABLE and takes nothing.
pub get_data-close :
    (r : ℕ) (s : State)
    → 0 < at_least_zero r
    → let given = get_data r (close s) in
      (given.0 ≡ unavailable) × (given.1.0 ≡ []) × (given.1.1.available ≡ 0)
unfolding get_data close drain fill
get_data-close r s h = ground arith
