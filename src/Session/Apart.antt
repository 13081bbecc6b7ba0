-- ===== src/Session/Apart.antt =====
-- gdiroh/src/session.rs: membership leaves the channels of the game alone.
use gdiroh.Prelude.{
  ℕ, ◌≡◌, ◌≢◌, arith, nat_eq, nat_beq_iff, lookup-insert, NoDup-remove, lookup-remove, keys,
}
use gdiroh.Wire.{Buf, Control, peer_left, encode}
use gdiroh.Frames.{control_channel}
use gdiroh.Session.{emit, add_link, new_link, State, forget}
use gdiroh.Session.Members
use gdiroh.Session.Members.{apply, tell_all, report_lost, control_to, welcome}
use gdiroh.Session.Queues.{queued, queued-tell_all, queued-write_reliable}
use gdiroh.Session.SameLinks.{SameLinks-announce, SameLinks-forget, without}
use gdiroh.Session.Distinct.{Distinct, Distinct-SameLinks}

module _ ⦃b : Buf⦄ (q ch : ℕ) (app : ch ≢ control_channel) where
  pub queued-lost_app :
      (p : ℕ) (s : State) → Distinct s → p ≢ q → queued q ch (Members.lost p s) ≡ queued q ch s
  unfolding Members.lost report_lost emit
  queued-lost_app p s n other =
      let s₁ = without p s in
      let s₂ = forget p s₁ in
      let same = SameLinks-forget p s₁ in
      ground (
        arith,
        same.0,
        queued-tell_all q ch (keys s₂.links) (peer_left p) s₂
            (Distinct-SameLinks s₁ s₂ same (NoDup-remove p s.links n)),
        lookup-remove p q s.links,
        nat_beq_iff p q,
        nat_beq_iff control_channel ch,
      )

  pub queued-welcome_app :
      (p conn : ℕ) (s : State)
      → Distinct s
      → p ≢ q
      → queued q ch (Members.welcome p conn s) ≡ queued q ch s
  unfolding Members.welcome control_to add_link
  queued-welcome_app p conn s n other =
      let s₁ = add_link p conn s in
      let s₂ = control_to p (Control.welcome p (keys s.links)) s₁ in
      let s₃ = tell_all (keys s.links) (Control.peer_joined p) s₂ in
      let greeting = encode (Control.welcome p (keys s.links)) in
      ground (
        arith,
        SameLinks-announce p s₃,
        queued-tell_all q ch (keys s.links) (Control.peer_joined p) s₂ n,
        queued-write_reliable q ch p control_channel greeting s₁,
        lookup-insert p q (new_link conn) s.links,
        nat_beq_iff p q,
        nat_beq_iff control_channel ch,
      )
