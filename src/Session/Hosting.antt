-- ===== src/Session/Hosting.antt =====
-- gdiroh/src/session.rs: whom a host announces, and what membership messages do to that.
use gdiroh.Prelude.{
  ℕ, ◌≡◌, refl, ap, List, true, false, arith, ◌==◌, nat_eq, nat_beq_iff, if◌then◌else◌, contains,
  contains-set_insert, contains-set_remove, lookup, lookup-insert, lookup-remove, keys, has,
  both_branches, remove, All, beq_refl,
}
use gdiroh.Wire.{Buf, Control, peer_joined, peer_left, encode}
use gdiroh.Frames.{control_channel}
use gdiroh.Session.{
  control, lost, send, disconnect, close, State, emit, announce, forget, add_link, new_link,
}
use gdiroh.Session.Members
use gdiroh.Session.Members.{control_to, tell_all, welcome, report_lost, apply}
use gdiroh.Session.Run.{
  Loop, Flow, Input, command, message, connection, no_more_commands, no_more_messages,
  no_more_connections, running, finished, finish, step, hosting, start, run, state_of,
  run_induction,
}
use gdiroh.Session.Quiet.{
  Quiet, has-Quiet, is_some-connection_of, Quiet-send_to, Quiet-drop_link, Quiet-write_reliable,
  Quiet-tell_all, Quiet-report_lost,
}

-- An input that is no membership message.
abbrev pub NoControl : Input → Type 0
NoControl (message (control c)) = ⊥
NoControl _ = Unit

module _ (q : ℕ) where
  abbrev pub Agrees : State → Type 0
  Agrees s = contains q s.announced ≡ has q s.links

  -- While the session runs `q` is announced exactly if it is linked.
  abbrev pub AgreesWhile : Flow → Type 0
  AgreesWhile (running l) = Agrees l.state
  AgreesWhile (finished s) = Unit

  Agrees-Quiet : (s t : State) → Quiet q s t → Agrees s → Agrees t
  Agrees-Quiet s t k h = cc (ap (contains q) k.announced, has-Quiet q s t k)

  -- A new link and its announcement, one after the other.
  Agrees-announce :
      (p : ℕ) (s t : State)
      → contains q t.announced ≡ contains q s.announced
      → has q t.links ≡ (if p == q then true else has q s.links)
      → Agrees s
      → Agrees (announce p t)
  unfolding announce emit
  Agrees-announce p s t a l h = ground (arith, contains-set_insert p q t.announced, nat_beq_iff p q)

  Agrees-forget :
      (p : ℕ) (s t : State)
      → contains q t.announced ≡ contains q s.announced
      → has q t.links ≡ (if p == q then false else has q s.links)
      → Agrees s
      → Agrees (forget p t)
  unfolding forget emit
  Agrees-forget p s t a l h = ground (arith, contains-set_remove p q t.announced, nat_beq_iff p q)

  module _ ⦃b : Buf⦄ where
    Agrees-welcome : (p conn : ℕ) (s : State) → Agrees s → Agrees (welcome p conn s)
    unfolding welcome control_to
    Agrees-welcome p conn s h =
        let s₁ = add_link p conn s in
        let s₂ = control_to p (Control.welcome p (keys s.links)) s₁ in
        let s₃ = tell_all (keys s.links) (peer_joined p) s₂ in
        let k =
          Quiet-write_reliable q p control_channel (encode (Control.welcome p (keys s.links))) s₁ in
        let k' = Quiet-tell_all q (keys s.links) (peer_joined p) s₂ in
        Agrees-announce p s s₃
          (unfold add_link in cc (ap (contains q) k'.announced, ap (contains q) k.announced))
          (unfold add_link in
            ground (
              arith,
              k.links,
              k'.links,
              is_some-connection_of (lookup q s₁.links),
              is_some-connection_of (lookup q s₃.links),
              lookup-insert p q (new_link conn) s.links,
            ))
          h

    Agrees-lost : (p : ℕ) (s : State) → Agrees s → Agrees (Members.lost p s)
    unfolding Members.lost
    Agrees-lost p s h =
        let s₁ = record s { links = remove p s.links; connections = remove p s.connections } in
        let s₂ = forget p s₁ in
        both_branches Agrees (has p s.links) (report_lost p s₂) s
          (Agrees-Quiet s₂ (report_lost p s₂) (Quiet-report_lost q p s₂)
            (Agrees-forget p s s₁ refl (ground (arith, lookup-remove p q s.links)) h))
          h

    AgreesWhile-step :
        (l : Loop) (i : Input) → NoControl i → AgreesWhile (running l) → AgreesWhile (step l i)
    unfolding step finish
    AgreesWhile-step l (command (send target channel mode payload) limits) n h =
        Agrees-Quiet _ _ (Quiet-send_to q limits target channel mode payload l.state) h
    AgreesWhile-step l (command (disconnect p) limits) n h =
        Agrees-Quiet _ _ (Quiet-drop_link q p l.state) h
    AgreesWhile-step l (command close limits) n h = tt
    AgreesWhile-step l (message (control c)) n h = absurd n
    AgreesWhile-step l (message (lost p)) n h = Agrees-lost p l.state h
    AgreesWhile-step l (connection conn) n h =
        both_branches AgreesWhile l.inbound _ _ (Agrees-welcome l.next_id conn l.state h) h
    AgreesWhile-step l no_more_commands n h = tt
    AgreesWhile-step l no_more_messages n h = tt
    AgreesWhile-step l no_more_connections n h = h

    -- On a host that is sent no membership message, a peer is announced exactly if it is linked.
    pub run-hosting-Agrees : (is : List Input) → All NoControl is → AgreesWhile (run hosting is)
    run-hosting-Agrees is n =
        run_induction AgreesWhile NoControl AgreesWhile-step hosting is n
          (unfold start contains lookup in refl)

-- A session, a host's too, obeys a `PeerLeft` whoever sent it: one about a linked peer leaves the peer
-- linked and no longer announced.
pub PeerLeft_breaks_Agrees :
    ⦃b : Buf⦄ (l : Loop) (p : ℕ)
    → has p l.state.links ≡ true
    → let t = state_of (step l (message (control (peer_left p)))) in
      (has p t.links ≡ true) × (contains p t.announced ≡ false)
unfolding step apply forget emit
PeerLeft_breaks_Agrees l p linked =
    ground (arith, linked, contains-set_remove p p l.state.announced, beq_refl p)
