-- ===== src/Session/Carried.antt =====
-- gdiroh/src/session.rs: one round of the loop, for the packets of a game.
use gdiroh.Prelude.{
  ℕ, suc, ◌≡◌, ◌≢◌, refl, ap, ◌∙◌, inl, inr, List, [], ◌∷◌, ◌++◌, append-nil, Bool, true, false,
  arith, nat_eq, nat_beq_iff, beq_refl, sym, has, taken_branch,
}
use gdiroh.Wire.{Bytes, Buf}
use gdiroh.Frames.{control_channel}
use gdiroh.Session.{
  Mode, reliable, unreliable, unreliable_ordered, send, disconnect, close, control, lost, drop_link,
  host_id,
}
use gdiroh.Session.Send.{Limits, send_to}
use gdiroh.Session.Members
use gdiroh.Session.Members.{apply, tell_all, report_lost, control_to, welcome}
use gdiroh.Session.Run.{
  Loop, Input, command, message, connection, no_more_commands, no_more_messages,
  no_more_connections, running, step, following_id,
}
use gdiroh.Session.Queues.{queued}
use gdiroh.Session.Routing.{addressed, queued-send_to}
use gdiroh.Session.Undisturbed.{Undisturbed-send_to, is_host-apply, is_host-welcome, is_host-lost}
use gdiroh.Session.Quiet.{Quiet-send_to, has-Quiet}
use gdiroh.Session.SameLinks.{SameLinks-apply}
use gdiroh.Session.Role.{links-drop_link}
use gdiroh.Session.Distinct.{Distinct, Distinct-welcome, Distinct-step}
use gdiroh.Session.Ids.{following_id_bounds, BelowWhile, BelowWhile-step, has-welcome, has-lost}
use gdiroh.Session.Traffic.{taken, reaches, meant, Steady, Hosts, Placed, Carrying}
use gdiroh.Session.Apart.{queued-lost_app, queued-welcome_app}

module _ ⦃b : Buf⦄ (q ch : ℕ) (is_host : Bool) where
  addressed-reaches :
      (room target : ℕ) (l : Loop)
      → Placed q ch is_host room l
      → addressed target q l.state ≡ reaches is_host q target
  addressed-reaches room target l h = elim h.place [
    | inl (host, below) ↦
        let role = h.role in
        let linked = h.linked in ground (arith, nat_beq_iff q target, nat_beq_iff q host_id)
    | inr (client, there, closed, alone) ↦
        let role = h.role in
        let linked = h.linked in
        ground (
          arith,
          alone target,
          nat_beq_iff q target,
          nat_beq_iff target host_id,
          nat_beq_iff q host_id,
        )
  ]

  -- The frames that one input adds.
  abbrev adds : Input → List Bytes
  adds i = meant is_host q ch (taken (i ∷ []))

  module _ (app : ch ≢ control_channel) where
    Carrying-send :
        (room target channel : ℕ) (mode : Mode) (payload : Bytes) (limits : Limits) (l : Loop)
        → Steady q ch (command (send target channel mode payload) limits)
        → Placed q ch is_host (suc room) l
        → queued q ch (send_to limits target channel mode payload l.state)
          ≡ queued q ch l.state ++ adds (command (send target channel mode payload) limits)
    Carrying-send room target channel reliable payload limits l steady h = ground (
      arith,
      queued-send_to limits q ch channel payload target l.state h.distinct,
      addressed-reaches (suc room) target l h,
      h.linked,
      append-nil (queued q ch l.state),
    )
    Carrying-send room target channel unreliable payload limits l steady h =
        (Undisturbed-send_to q ch channel steady limits target unreliable payload l.state).0
        ∙ sym (append-nil (queued q ch l.state))
    Carrying-send room target channel unreliable_ordered payload limits l steady h =
        (Undisturbed-send_to q ch channel steady limits target unreliable_ordered payload l.state).0
        ∙ sym (append-nil (queued q ch l.state))

    -- A round that keeps the role, the link to `q` and, for a client, that there is no other.
    Placed-kept :
        (room : ℕ) (l m : Loop)
        → Placed q ch is_host (suc room) l
        → m.state.is_host ≡ l.state.is_host
        → Distinct m.state
        → has q m.state.links ≡ true
        → (BelowWhile q (suc room) (running l) → BelowWhile q room (running m))
        → (l.inbound ≡ false → m.inbound ≡ false)
        → ((r : ℕ) → has r l.state.links ≡ false → has r m.state.links ≡ false)
        → Placed q ch is_host room m
    Placed-kept room l m h same n there below closed fewer = record {
      role = same ∙ h.role;
      distinct = n;
      linked = there;
      place = elim h.place [
        | inl (host, under) ↦ inl (same ∙ host, below under)
        | inr (client, mine, shut, alone) ↦
            inr (same ∙ client, mine, closed shut, λ r. ground (arith, alone r, fewer r))
      ];
    }

    Carrying-idle :
        (room : ℕ) (frames : List Bytes) (l : Loop)
        → Placed q ch is_host (suc room) l
        → queued q ch l.state ≡ frames
        → Carrying q ch is_host room (frames ++ []) (running l)
    Carrying-idle room frames l h e = (
      Placed-kept room l l h refl h.distinct h.linked (λ below. ground arith) (λ c. c) (λ r c. c),
      e ∙ sym (append-nil frames),
    )

    -- A host gives the new peer an id that is not `q`.
    Carrying-accept :
        (room : ℕ) (frames : List Bytes) (l : Loop) (conn : ℕ)
        → Hosts q ch (suc room) l
        → Placed q ch is_host (suc room) l
        → queued q ch l.state ≡ frames
        → Carrying q ch is_host room (frames ++ []) (step l (connection conn))
    unfolding step
    Carrying-accept room frames l conn (host, below) h e =
        let m : Loop = record {
          state = welcome l.next_id conn l.state;
          next_id = following_id l.next_id;
          inbound = l.inbound;
        } in
        let other : l.next_id ≢ q = (λ same. ground (arith, h.linked, same, beq_refl q)) in
        taken_branch (Carrying q ch is_host room (frames ++ [])) l.inbound (running m) (running l)
          (λ held. (
            record {
              role = is_host-welcome l.next_id conn l.state ∙ h.role;
              distinct = Distinct-welcome l.next_id conn l.state h.distinct;
              linked = ground (arith, h.linked, has-welcome q l.next_id conn l.state);
              place = inl (
                is_host-welcome l.next_id conn l.state ∙ host,
                ground (
                  arith,
                  has-welcome q l.next_id conn l.state,
                  following_id_bounds l.next_id,
                  nat_beq_iff l.next_id q,
                ),
              );
            },
            queued-welcome_app q ch app l.next_id conn l.state h.distinct other
                ∙ e
                ∙ sym (append-nil frames),
          ))
          (λ shut. Carrying-idle room frames l h e)

    pub Carrying-step :
        (room : ℕ) (frames : List Bytes) (l : Loop) (i : Input)
        → Steady q ch i
        → Carrying q ch is_host (suc room) frames (running l)
        → Carrying q ch is_host room (frames ++ adds i) (step l i)
    unfolding step
    Carrying-step room frames l (command (send target channel mode payload) limits) steady (h, e) =
        let s = l.state in
        let i = command (send target channel mode payload) limits in
        let same = λ (r : ℕ).
          has-Quiet r s (send_to limits target channel mode payload s)
            (Quiet-send_to r limits target channel mode payload s) in
        (
          Placed-kept room l (record l { state = send_to limits target channel mode payload s }) h
              (Undisturbed-send_to q (suc channel) channel (λ e. omega arith) limits target mode
                payload s).1
              (Distinct-step l i h.distinct) (same q ∙ h.linked) (BelowWhile-step q room l i)
              (λ c. c) (λ r c. same r ∙ c),
          Carrying-send room target channel mode payload limits l steady h
              ∙ ap (λ fs. fs ++ adds i) e,
        )
    Carrying-step room frames l (command (disconnect p) limits) steady (h, e) =
        let same = links-drop_link p l.state in
        (
          Placed-kept room l (record l { state = drop_link p l.state }) h same.1
              (rw same.0 h.distinct) (rw same.0 h.linked)
              (BelowWhile-step q room l (command (disconnect p) limits)) (λ c. c)
              (λ r c. rw same.0 c),
          rw same.0 (e ∙ sym (append-nil frames)),
        )
    Carrying-step room frames l (command close limits) steady _ = absurd steady
    Carrying-step room frames l no_more_commands steady _ = absurd steady
    Carrying-step room frames l no_more_messages steady _ = absurd steady
    Carrying-step room frames l (message (control c)) steady (h, e) =
        let same = (SameLinks-apply c l.state).0 in
        (
          Placed-kept room l (record l { state = apply c l.state }) h (is_host-apply c l.state)
              (Distinct-step l (message (control c)) h.distinct) (rw same h.linked)
              (BelowWhile-step q room l (message (control c))) (λ c. c) (λ r c. rw same c),
          rw same (e ∙ sym (append-nil frames)),
        )
    Carrying-step room frames l (message (lost p)) steady (h, e) = (
      Placed-kept room l (record l { state = Members.lost p l.state }) h (is_host-lost p l.state)
          (Distinct-step l (message (lost p)) h.distinct)
          (let linked = h.linked in ground (arith, has-lost q p l.state, nat_beq_iff p q))
          (BelowWhile-step q room l (message (lost p))) (λ c. c)
          (λ r c. ground (arith, has-lost r p l.state)),
      queued-lost_app q ch app p l.state h.distinct steady ∙ e ∙ sym (append-nil frames),
    )
    Carrying-step room frames l (connection conn) steady (h, e) = elim h.place [
      | inl (host, below) ↦ Carrying-accept room frames l conn (host, below) h e
      | inr (client, mine, shut, alone) ↦
          taken_branch (Carrying q ch is_host room (frames ++ [])) l.inbound _ (running l)
            (λ held. absurd (ground arith)) (λ still. Carrying-idle room frames l h e)
    ]
    Carrying-step room frames l no_more_connections steady (h, e) = (
      Placed-kept room l (record l { inbound = false }) h refl h.distinct h.linked
          (BelowWhile-step q room l no_more_connections) (λ c. refl) (λ r c. c),
      e ∙ sym (append-nil frames),
    )
