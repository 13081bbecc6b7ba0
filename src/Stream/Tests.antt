-- ===== src/Stream/Tests.antt =====
-- gdiroh/src/stream.rs: a stream, at concrete bytes.
use gdiroh.Prelude.{
  ◌≡◌, refl, none, List, [], ◌∷◌, true, arith, length, leb, if◌then◌else◌, take, drop,
}
use gdiroh.Wire.{Bytes}
use gdiroh.Raw
use gdiroh.Raw.{arrived_data, ended, carry_writes, finished}
use gdiroh.Stream.{
  ok, unavailable, wrap, drain, get_data, finish, drain_arrived, fill, fill_arrived, fill_coming,
  take_bytes, take_chunks,
}
use gdiroh.Stream.Reads.{Sound, readable, wrap-Sound, get_data_lem}
use gdiroh.Stream.Writes.{put_all, outgoing, put_data-carry_writes}

-- Two bytes have arrived; two more come, and then the end.
abbrev peer_side : Raw.Stream
peer_side = record {
  outgoing = [];
  carried = true;
  arrived = arrived_data (1 ∷ 2 ∷ []) ∷ [];
  coming = arrived_data (3 ∷ 4 ∷ []) ∷ ended none ∷ [];
}

-- A read of three bytes waits for the third.
get_data_waits : (get_data 3 (wrap peer_side)).1.0 ≡ 1 ∷ 2 ∷ 3 ∷ []
unfolding get_data drain drain_arrived fill fill_arrived fill_coming take_bytes take_chunks
get_data_waits = refl

get_data_lem_example :
    let given = get_data 3 (wrap peer_side) in
    let all = readable (wrap peer_side) in
    let enough = leb 3 (length all) in
    Sound given.1.1
    × (given.0 ≡ (if enough then ok else unavailable))
    × (given.1.0 ≡ (if enough then take 3 all else []))
    × (readable given.1.1 ≡ (if enough then drop 3 all else all))
get_data_lem_example = get_data_lem 3 (wrap peer_side) (wrap-Sound peer_side refl)

abbrev parts : List Bytes
parts = (1 ∷ 2 ∷ []) ∷ [] ∷ (3 ∷ []) ∷ []

put_data-carry_writes_example :
    carry_writes (true ∷ true ∷ true ∷ []) (outgoing (finish (put_all parts (wrap peer_side))))
    ≡ (1 ∷ 2 ∷ 3 ∷ [], finished)
put_data-carry_writes_example =
    put_data-carry_writes parts peer_side (true ∷ true ∷ true ∷ [])
      (omega arith, (omega arith, (omega arith, tt))) refl refl (omega arith)
