-- ===== src/Session/Links.antt =====
-- gdiroh/src/session.rs: which connections a session holds: the links, the map that the main thread
-- reads, and on the host the announced peers.
use gdiroh.Prelude.{
  ℕ, ◌≡◌, refl, ap, List, [], none, false, arith, nat_eq, lookup, lookup-insert, lookup-remove,
  keys, has, both_branches,
}
use gdiroh.Wire.{Buf, Control, peer_joined}
use gdiroh.Session.{
  control, lost, send, disconnect, close, State, announce, forget, add_link, host_id, new_link,
}
use gdiroh.Session.Members
use gdiroh.Session.Members.{control_to, tell_all, welcome, report_lost, announce_all, apply}
use gdiroh.Session.Run.{
  Loop, Flow, Input, command, message, connection, no_more_commands, no_more_messages,
  no_more_connections, running, finished, finish, step, Start, hosting, connected, refused, start,
  fresh, run, run_induction, Any, All-Any,
}
use gdiroh.Session.Quiet.{
  connection_of, Quiet, Quiet-send_to, Quiet-drop_link, Quiet-write_reliable, Quiet-tell_all,
  Quiet-report_lost,
}
use gdiroh.Session.SameLinks.{
  SameLinks, SameLinks-announce, SameLinks-forget, SameLinks-apply, links-close_all, without,
}

module _ (q : ℕ) where
  abbrev pub Mirrored : State → Type 0
  Mirrored s = lookup q s.connections ≡ connection_of (lookup q s.links)

  -- While the session runs the shared map has the connection of `q` exactly if there is a link to
  -- `q`, and it is the link's; once it has ended there is no link.
  abbrev pub Linked : Flow → Type 0
  Linked (running l) = Mirrored l.state
  Linked (finished s) = lookup q s.links ≡ none

  Mirrored-Quiet : (s t : State) → Quiet q s t → Mirrored s → Mirrored t
  Mirrored-Quiet s t k h = cc (k.links, ap (lookup q) k.shared)

  Mirrored-SameLinks : (s t : State) → SameLinks s t → Mirrored s → Mirrored t
  Mirrored-SameLinks s t k h = cc (ap (λ m. connection_of (lookup q m)) k.0, ap (lookup q) k.1)

  Mirrored-add_link : (p conn : ℕ) (s : State) → Mirrored s → Mirrored (add_link p conn s)
  unfolding add_link
  Mirrored-add_link p conn s h =
      ground
        (arith, lookup-insert p q (new_link conn) s.links, lookup-insert p q conn s.connections)

  Mirrored-without : (p : ℕ) (s : State) → Mirrored s → Mirrored (without p s)
  Mirrored-without p s h =
      ground (arith, lookup-remove p q s.links, lookup-remove p q s.connections)

  Linked-finish : (l : Loop) → Linked (finish l)
  unfolding finish lookup
  Linked-finish l = rw (links-close_all l.state.links (record l.state { links = [] }))

  module _ ⦃b : Buf⦄ where
    Mirrored-welcome : (p conn : ℕ) (s : State) → Mirrored s → Mirrored (welcome p conn s)
    unfolding welcome control_to
    Mirrored-welcome p conn s h =
        let s₁ = add_link p conn s in
        let s₂ = control_to p (Control.welcome p (keys s.links)) s₁ in
        let s₃ = tell_all (keys s.links) (peer_joined p) s₂ in
        Mirrored-SameLinks s₃ (announce p s₃) (SameLinks-announce p s₃) (
          Mirrored-Quiet s₂ s₃ (Quiet-tell_all q (keys s.links) (peer_joined p) s₂)
            (Mirrored-Quiet s₁ s₂ (Quiet-write_reliable q p _ _ s₁) (Mirrored-add_link p conn s h)))

    Mirrored-lost : (p : ℕ) (s : State) → Mirrored s → Mirrored (Members.lost p s)
    unfolding Members.lost
    Mirrored-lost p s h =
        let s₁ = without p s in
        let s₂ = forget p s₁ in
        both_branches Mirrored (has p s.links) (report_lost p s₂) s
          (Mirrored-Quiet s₂ (report_lost p s₂) (Quiet-report_lost q p s₂)
            (Mirrored-SameLinks s₁ s₂ (SameLinks-forget p s₁) (Mirrored-without p s h)))
          h

    Linked-step : (l : Loop) (i : Input) → Linked (running l) → Linked (step l i)
    unfolding step
    Linked-step l (command (send target channel mode payload) limits) h =
        Mirrored-Quiet _ _ (Quiet-send_to q limits target channel mode payload l.state) h
    Linked-step l (command (disconnect p) limits) h =
        Mirrored-Quiet _ _ (Quiet-drop_link q p l.state) h
    Linked-step l (command close limits) h = Linked-finish l
    Linked-step l (message (control c)) h =
        Mirrored-SameLinks l.state (apply c l.state) (SameLinks-apply c l.state) h
    Linked-step l (message (lost p)) h = Mirrored-lost p l.state h
    Linked-step l (connection conn) h =
        both_branches Linked l.inbound _ _ (Mirrored-welcome l.next_id conn l.state h) h
    Linked-step l no_more_commands h = Linked-finish l
    Linked-step l no_more_messages h = Linked-finish l
    Linked-step l no_more_connections h = h

    Linked-start : (how : Start) → Linked (start how)
    unfolding start lookup
    Linked-start hosting = refl
    Linked-start (connected conn) =
        Mirrored-add_link host_id conn (fresh false) (unfold lookup in refl)
    Linked-start (refused reason) = refl

    -- Whatever a session meets, the map that the main thread reads has a peer's connection exactly
    -- while the session runs with a link to the peer, and no link outlives the session.
    pub run-Linked : (how : Start) (is : List Input) → Linked (run how is)
    run-Linked how is =
        run_induction Linked Any (λ l i _. Linked-step l i) how is (All-Any is) (Linked-start how)
