-- ===== src/Session/Distinct.antt =====
-- gdiroh/src/session.rs: how often a peer stands among the links.
use gdiroh.Prelude.{
  ℕ, List, [], false, nat_eq, keys, has, NoDup, NoDup-insert, NoDup-remove, both_branches,
}
use gdiroh.Wire.{Buf, Control, peer_joined, encode}
use gdiroh.Frames.{control_channel}
use gdiroh.Session.{
  State, add_link, announce, forget, new_link, control, lost, send, disconnect, close, host_id,
}
use gdiroh.Session.Members
use gdiroh.Session.Members.{control_to, tell_all, welcome, report_lost, apply}
use gdiroh.Session.Run.{
  Loop, Input, command, message, connection, no_more_commands, no_more_messages,
  no_more_connections, finish, step, Start, hosting, connected, refused, start, fresh, state_of,
  run, run_induction, Any, All-Any,
}
use gdiroh.Session.Quiet.{
  Quiet-write_reliable, Quiet-tell_all, Quiet-send_to, Quiet-drop_link, Quiet-report_lost,
}
use gdiroh.Session.SameLinks.{
  SameLinks, SameLinks-announce, SameLinks-forget, SameLinks-apply, links-close_all, without,
}

abbrev pub Distinct : State → Type 0
Distinct s = NoDup (keys s.links)

pub Distinct-SameLinks : (s t : State) → SameLinks s t → Distinct s → Distinct t
Distinct-SameLinks s t k n = rw k.0 n

Distinct-add_link : (p conn : ℕ) (s : State) → Distinct s → Distinct (add_link p conn s)
unfolding add_link
Distinct-add_link p conn s n = NoDup-insert p (new_link conn) s.links n

module _ ⦃b : Buf⦄ where
  pub Distinct-welcome : (p conn : ℕ) (s : State) → Distinct s → Distinct (welcome p conn s)
  unfolding welcome control_to
  Distinct-welcome p conn s n =
      let s₁ = add_link p conn s in
      let s₂ = control_to p (Control.welcome p (keys s.links)) s₁ in
      let s₃ = tell_all (keys s.links) (peer_joined p) s₂ in
      Distinct-SameLinks s₃ (announce p s₃) (SameLinks-announce p s₃) (
        (Quiet-tell_all 0 (keys s.links) (peer_joined p) s₂).distinct (
          (Quiet-write_reliable 0 p control_channel (encode (Control.welcome p (keys s.links)))
              s₁).distinct
            (Distinct-add_link p conn s n)))

  Distinct-lost : (p : ℕ) (s : State) → Distinct s → Distinct (Members.lost p s)
  unfolding Members.lost
  Distinct-lost p s n =
      let s₁ = without p s in
      let s₂ = forget p s₁ in
      both_branches Distinct (has p s.links) (report_lost p s₂) s
        ((Quiet-report_lost 0 p s₂).distinct
          (Distinct-SameLinks s₁ s₂ (SameLinks-forget p s₁) (NoDup-remove p s.links n)))
        n

  Distinct-finish : (l : Loop) → Distinct (state_of (finish l))
  unfolding finish
  Distinct-finish l = rw (links-close_all l.state.links (record l.state { links = [] })) tt

  pub Distinct-step : (l : Loop) (i : Input) → Distinct l.state → Distinct (state_of (step l i))
  unfolding step
  Distinct-step l (command (send target channel mode payload) limits) n =
      (Quiet-send_to 0 limits target channel mode payload l.state).distinct n
  Distinct-step l (command (disconnect p) limits) n = (Quiet-drop_link 0 p l.state).distinct n
  Distinct-step l (command close limits) n = Distinct-finish l
  Distinct-step l (message (control c)) n =
      Distinct-SameLinks l.state (apply c l.state) (SameLinks-apply c l.state) n
  Distinct-step l (message (lost p)) n = Distinct-lost p l.state n
  Distinct-step l (connection conn) n =
      both_branches (λ flow. Distinct (state_of flow)) l.inbound _ _
        (Distinct-welcome l.next_id conn l.state n) n
  Distinct-step l no_more_commands n = Distinct-finish l
  Distinct-step l no_more_messages n = Distinct-finish l
  Distinct-step l no_more_connections n = n

  Distinct-start : (how : Start) → Distinct (state_of (start how))
  unfolding start
  Distinct-start hosting = tt
  Distinct-start (connected conn) = Distinct-add_link host_id conn (fresh false) tt
  Distinct-start (refused reason) = tt

  -- In every state that a session comes to no peer stands twice among the links.
  pub run-Distinct : (how : Start) (is : List Input) → Distinct (state_of (run how is))
  run-Distinct how is =
      run_induction (λ flow. Distinct (state_of flow)) Any (λ l i _. Distinct-step l i) how is
        (All-Any is) (Distinct-start how)
