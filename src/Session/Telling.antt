-- ===== src/Session/Telling.antt =====
-- gdiroh/src/session.rs: what a host tells its clients of one another.
use gdiroh.Prelude.{
  ℕ, ◌≡◌, ◌≢◌, [], ◌∷◌, ◌++◌, true, false, ◌&&◌, arith, ◌==◌, nat_eq, nat_beq_iff, if◌then◌else◌,
  contains-keys, lookup, lookup-insert, lookup-remove, keys, has, NoDup-remove,
}
use gdiroh.Wire.{Buf, Control, peer_joined, peer_left, encode}
use gdiroh.Frames.{control_channel}
use gdiroh.Session.{State, add_link, announce, forget, emit, new_link}
use gdiroh.Session.Members
use gdiroh.Session.Members.{control_to, tell_all, welcome, report_lost, apply}
use gdiroh.Session.Quiet.{Quiet-write_reliable, has-Quiet}
use gdiroh.Session.SameLinks.{SameLinks, SameLinks-announce, SameLinks-forget, without}
use gdiroh.Session.Queues.{queued, queued-write_reliable, queued-tell_all}
use gdiroh.Session.Distinct.{Distinct, Distinct-SameLinks}

is_host-forget : (p : ℕ) (s : State) → (forget p s).is_host ≡ s.is_host
unfolding forget emit
is_host-forget p s = ground arith

module _ ⦃b : Buf⦄ (q ch : ℕ) where
  queued-SameLinks : (s t : State) → SameLinks s t → queued q ch t ≡ queued q ch s
  queued-SameLinks s t k = rw k.0

  -- A new peer's only message is its id with the peers already there; each of those is told of it
  -- once; and no other channel of anybody is touched.
  pub queued-welcome :
      (p conn : ℕ) (s : State)
      → Distinct s
      → has p s.links ≡ false
      → queued q ch (welcome p conn s) ≡ (
          if p == q
          then (if control_channel == ch
              then encode (Control.welcome p (keys s.links)) ∷ []
              else [])
          else if has q s.links && control_channel == ch
          then queued q ch s ++ encode (peer_joined p) ∷ []
          else queued q ch s)
  unfolding welcome control_to add_link lookup
  queued-welcome p conn s n new =
      let s₁ = add_link p conn s in
      let s₂ = control_to p (Control.welcome p (keys s.links)) s₁ in
      let s₃ = tell_all (keys s.links) (peer_joined p) s₂ in
      let greeting = encode (Control.welcome p (keys s.links)) in
      ground (
        arith,
        queued-SameLinks s₃ (announce p s₃) (SameLinks-announce p s₃),
        queued-tell_all q ch (keys s.links) (peer_joined p) s₂ n,
        queued-write_reliable q ch p control_channel greeting s₁,
        has-Quiet q s₁ s₂ (Quiet-write_reliable q p control_channel greeting s₁),
        contains-keys q s.links,
        lookup-insert p q (new_link conn) s.links,
        lookup-insert p p (new_link conn) s.links,
        nat_beq_iff p q,
      )

  -- A host that loses a peer tells each of the others once, and touches no other channel.
  pub queued-lost :
      (p : ℕ) (s : State)
      → Distinct s
      → s.is_host ≡ true
      → has p s.links ≡ true
      → (p ≢ q)
      → queued q ch (Members.lost p s) ≡ (
          if has q s.links && control_channel == ch
          then queued q ch s ++ encode (peer_left p) ∷ []
          else queued q ch s)
  unfolding Members.lost report_lost
  queued-lost p s n host there other =
      let s₁ = without p s in
      let s₂ = forget p s₁ in
      let same = SameLinks-forget p s₁ in
      ground (
        arith,
        queued-SameLinks s₁ s₂ same,
        same.0,
        is_host-forget p s₁,
        queued-tell_all q ch (keys s₂.links) (peer_left p) s₂
            (Distinct-SameLinks s₁ s₂ same (NoDup-remove p s.links n)),
        contains-keys q s₂.links,
        lookup-remove p q s.links,
        nat_beq_iff p q,
      )
