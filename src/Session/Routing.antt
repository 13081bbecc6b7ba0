-- ===== src/Session/Routing.antt =====
-- gdiroh/src/session.rs: where a packet of the game goes.
use gdiroh.Prelude.{
  ℕ, ◌≡◌, refl, inl, inr, List, [], ◌∷◌, ◌++◌, Bool, not, ◌&&◌, arith, ◌==◌, nat_eq, nat_beq_iff,
  if◌then◌else◌, contains, contains-keys, keys, has, not_positive, neg, Bool-cases, NoDup,
}
use gdiroh.Wire.{Bytes, Buf}
use gdiroh.Session.{State, reliable, write_reliable, host_id}
use gdiroh.Session.Send.{Limits, send_one, send_except, send_to}
use gdiroh.Session.Quiet.{Quiet-write_reliable, has-Quiet}
use gdiroh.Session.Queues.{queued, queued-write_reliable}

-- Godot's convention, for a peer `q`: target 0 is everyone, a negative target everyone but one, and
-- a positive target one peer, with the host in the place of a peer that is not linked.
abbrev pub addressed : ℕ → ℕ → State → Bool
addressed target q s =
    if not_positive target
    then not (q == neg target)
    else if has target s.links
    then q == target
    else q == host_id

module _ ⦃b : Buf⦄ (limits : Limits) (q ch channel : ℕ) (payload : Bytes) where
  queued-send_except :
      (x : ℕ) (ps : List ℕ) (s : State)
      → NoDup ps
      → queued q ch (send_except limits x channel reliable payload ps s) ≡ (
          if contains q ps && (has q s.links && (not (q == x) && channel == ch))
          then queued q ch s ++ payload ∷ []
          else queued q ch s)
  unfolding send_except send_one contains
  queued-send_except x [] s n = refl
  queued-send_except x (p ∷ ps) s n =
      let t = write_reliable p channel payload s in
      ground (
        arith,
        queued-send_except x ps t n.1,
        queued-send_except x ps s n.1,
        queued-write_reliable q ch p channel payload s,
        has-Quiet q s t (Quiet-write_reliable q p channel payload s),
        nat_beq_iff p q,
        nat_beq_iff p x,
        nat_beq_iff q x,
      )

  -- A reliable packet is queued, once and at the end, on its channel to each linked peer that its
  -- target addresses, and on no other channel and to no other peer.
  pub queued-send_to :
      (target : ℕ) (s : State)
      → NoDup (keys s.links)
      → queued q ch (send_to limits target channel reliable payload s) ≡ (
          if has q s.links && (addressed target q s && channel == ch)
          then queued q ch s ++ payload ∷ []
          else queued q ch s)
  unfolding send_to send_one
  queued-send_to target s n = elim (Bool-cases (not_positive target)) [
    | inl everyone ↦ rw everyone (
        ground (arith, queued-send_except (neg target) (keys s.links) s n, contains-keys q s.links))
    | inr one ↦ rw one (elim (Bool-cases (has target s.links)) [
      | inl direct ↦ rw direct (
          ground (
            arith,
            queued-write_reliable q ch target channel payload s,
            nat_beq_iff q target,
            nat_beq_iff target q,
          ))
      | inr relayed ↦ rw relayed (
          ground (
            arith,
            queued-write_reliable q ch host_id channel payload s,
            nat_beq_iff q host_id,
            nat_beq_iff host_id q,
          ))
    ])
  ]
