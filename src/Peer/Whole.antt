-- ===== src/Peer/Whole.antt =====
-- gdiroh/src/peer.rs with gdiroh/src/session.rs: that a peer comes to stand as its session's inputs say.
use gdiroh.Prelude.{
  ℕ, ◌≡◌, refl, sym, ap, subst, ◌∙◌, List, [], ◌∷◌, Bool, true, false, ◌||◌, not, arith, ◌==◌,
  nat_eq, nat_beq_iff, All, has, taken_branch, concat, some,
}
use gdiroh.Wire.{Buf, Control}
use gdiroh.Session.{
  Event, ready, closed, send, disconnect, close, control, lost, State, drop_link, emit, host_id,
}
use gdiroh.Session.Handle
use gdiroh.Session.Members
use gdiroh.Session.Members.{apply, announce_all, welcome}
use gdiroh.Session.Run.{
  Loop, Flow, Input, command, message, connection, no_more_commands, no_more_messages,
  no_more_connections, running, finished, finish, step, rounds, Start, hosting, connected, refused,
  start, run, state_of, fresh,
}
use gdiroh.Session.Emitting.{
  emit_lem, add_link_lem, NoWelcome, Said-host_lost, events-drop_link, events-finish, Said-apply,
  Said-welcomed, Said-send_to, Said-welcome, Said-lost,
}
use gdiroh.Session.Send.{send_to}
use gdiroh.Session.SameLinks.{SameLinks-apply}
use gdiroh.Session.Undisturbed.{is_host-apply, is_host-lost, is_host-welcome}
use gdiroh.Session.Quiet.{Quiet-send_to, has-Quiet}
use gdiroh.Session.Ids.{has-welcome, has-lost}
use gdiroh.Session.Role.{links-drop_link, hosts, is_host-step}
use gdiroh.Peer
use gdiroh.Peer.{IrohPeer}
use gdiroh.Peer.Stance.{
  Stance, stance, gone, told, unready, calm, over, told-over, without_packets, told-without_packets,
  calm-without_packets,
}
use gdiroh.Peer.Standing.{frames, stance-frames}
use gdiroh.Peer.Expected.{
  expected, expected_from, Unwelcome, Orderly, At, Ended, At-more, At-ready, At-closed, Past-rounds,
}

module _ ⦃b : Buf⦄ (st : Stance) (is_host : Bool) where
  -- A running session that has told so much, a client's linked to its host.
  abbrev Alive : Stance → Loop → Type 0
  Alive x l =
      (l.state.is_host ≡ is_host)
      × (is_host ≡ false → has host_id l.state.links ≡ true)
      × At st x l.state.events

  abbrev Comes : Stance → Flow → Type 0
  Comes x flow = (calm (state_of flow).events ≡ true) × (told (state_of flow).events st ≡ x)

  rounds-finished : (s : State) (is : List Input) → rounds (finished s) is ≡ finished s
  unfolding rounds
  rounds-finished s [] = refl
  rounds-finished s (i ∷ is) = refl

  Comes-finish :
      (x : Stance) (l : Loop) (is : List Input) → Alive x l → Comes gone (rounds (finish l) is)
  unfolding finish
  Comes-finish x l is (_, _, a) =
      let ended =
        subst (Ended st) (sym (events-finish l))
          (At-closed st x "session closed" l.state.events a) in
      rw (rounds-finished (state_of (finish l)) is)
        (ended.1, told-over (state_of (finish l)).events st ended.0)

  Alive-control :
      (c : Control) (l : Loop) (x : Stance)
      → NoWelcome c
      → Alive x l
      → Alive x (record l { state = apply c l.state })
  Alive-control c l x never (role, there, a) = (
    is_host-apply c l.state ∙ role,
    λ client. rw (SameLinks-apply c l.state).0 (there client),
    Said-apply (At st x) (At-more st x) c l.state never a,
  )

  Alive-lost :
      (p : ℕ) (l : Loop) (x : Stance)
      → (is_host || not (p == host_id)) ≡ true
      → Alive x l
      → Alive x (record l { state = Members.lost p l.state })
  Alive-lost p l x stays (role, there, a) = (
    is_host-lost p l.state ∙ role,
    λ client.
        let linked = there client in
        ground (arith, has-lost host_id p l.state, nat_beq_iff p host_id),
    Said-lost (At st x) (At-more st x) p l.state
        (λ client mine es k. absurd (ground (arith, nat_beq_iff p host_id))) a,
  )

  -- The loss of its host is the end for a client, whatever comes after it but a welcome.
  Comes-lost :
      (is : List Input) (l : Loop) (x : Stance)
      → is_host ≡ false
      → All Unwelcome is
      → Alive x l
      → Comes gone (rounds (running (record l { state = Members.lost host_id l.state })) is)
  Comes-lost is l x client never (role, there, a) =
      let m = record l { state = Members.lost host_id l.state } in
      let ended = Past-rounds st (running m) is never (
        Said-host_lost (At st x) (At-more st x) (Ended st) l.state
          (λ es k. At-closed st x "host disconnected" es k) (role ∙ client) (there client) a) in
      (ended.1, told-over (state_of (rounds (running m) is)).events st ended.0)

  Comes-rounds :
      (is : List Input) (l : Loop) (x : Stance)
      → Orderly is_host is
      → Alive x l
      → Comes (expected is_host is x) (rounds (running l) is)
  unfolding rounds step
  Comes-rounds [] l x orderly (_, _, a) = (a.1, a.2)
  Comes-rounds (command (send target channel mode payload) limits ∷ is) l x orderly
        (role, there, a) =
      let i = command (send target channel mode payload) limits in
      let s = l.state in
      let t = send_to limits target channel mode payload s in
      Comes-rounds is (record l { state = t }) x orderly
        (
          is_host-step l i ∙ role,
          λ c.
              has-Quiet host_id s t (Quiet-send_to host_id limits target channel mode payload s)
              ∙ there c,
          Said-send_to (At st x) (At-more st x) limits target channel mode payload s a,
        )
  Comes-rounds (command (disconnect p) limits ∷ is) l x orderly (role, there, a) =
      let same = links-drop_link p l.state in
      Comes-rounds is (record l { state = drop_link p l.state }) x orderly
        (same.1 ∙ role, λ c. rw same.0 (there c), rw (events-drop_link p l.state) a)
  Comes-rounds (command close limits ∷ is) l x orderly alive = Comes-finish x l is alive
  Comes-rounds (message (control (Control.welcome id peers)) ∷ is) l x orderly (role, there, a) =
      let c = Control.welcome id peers in
      Comes-rounds is (record l { state = apply c l.state })
        (record x { unique_id = id; status = Peer.connected }) orderly
        (
          is_host-step l (message (control c)) ∙ role,
          λ client. rw (SameLinks-apply c l.state).0 (there client),
          Said-welcomed (At st (record x { unique_id = id; status = Peer.connected }))
              (At-more st (record x { unique_id = id; status = Peer.connected })) id peers l.state
              (At-ready st x id l.state.events a),
        )
  Comes-rounds (message (control (Control.peer_joined id)) ∷ is) l x orderly alive =
      Comes-rounds is _ x orderly (Alive-control (Control.peer_joined id) l x tt alive)
  Comes-rounds (message (control (Control.peer_left id)) ∷ is) l x orderly alive =
      Comes-rounds is _ x orderly (Alive-control (Control.peer_left id) l x tt alive)
  Comes-rounds (message (lost p) ∷ is) l x orderly (role, there, a) =
      taken_branch
        (λ x. Comes x (rounds (running (record l { state = Members.lost p l.state })) is))
        (is_host || not (p == host_id)) _ _
        (λ stays.
          Comes-rounds is (record l { state = Members.lost p l.state }) x orderly.0
            (Alive-lost p l x stays (role, there, a)))
        (λ ends.
          let client : is_host ≡ false = ground arith in
          let mine : p ≡ host_id = ground (arith, nat_beq_iff p host_id) in
          subst
            (λ p. Comes gone (rounds (running (record l { state = Members.lost p l.state })) is))
            (sym mine) (Comes-lost is l x client (orderly.1 client mine) (role, there, a)))
  Comes-rounds (connection conn ∷ is) l x orderly (role, there, a) =
      taken_branch (λ flow. Comes (expected is_host is x) (rounds flow is)) l.inbound _ _
        (λ _. Comes-rounds is _ x orderly (
          is_host-welcome l.next_id conn l.state ∙ role,
          (λ client.
              let linked = there client in
              ground (arith, has-welcome host_id l.next_id conn l.state)),
          Said-welcome (At st x) (At-more st x) l.next_id conn l.state a,
        ))
        (λ _. Comes-rounds is l x orderly (role, there, a))
  Comes-rounds (no_more_commands ∷ is) l x orderly alive = Comes-finish x l is alive
  Comes-rounds (no_more_messages ∷ is) l x orderly alive = Comes-finish x l is alive
  Comes-rounds (no_more_connections ∷ is) l x orderly alive =
      Comes-rounds is (record l { inbound = false }) x orderly alive

module _ ⦃b : Buf⦄ where
  Comes-start :
      (how : Start) (is : List Input) (st : Stance)
      → Orderly (hosts how) is
      → Comes st (hosts how) (expected_from how is st) (run how is)
  unfolding run start over calm unready told
  Comes-start hosting is st orderly =
      let s = fresh true in
      let (says, role) = emit_lem (ready host_id) s in
      Comes-rounds st true is _ _ orderly (
        role,
        (λ e. absurd (ground arith)),
        subst (At st (record st { unique_id = host_id; status = Peer.connected })) (sym says)
            (refl, refl, refl),
      )
  Comes-start (connected conn) is st orderly =
      let (says, role, there) = add_link_lem host_id conn (fresh false) in
      Comes-rounds st false is _ _ orderly
        (role, (λ _. there), subst (At st st) (sym says) (refl, refl, refl))
  Comes-start (refused reason) is st orderly =
      let s = emit (closed reason) (fresh false) in
      rw (rounds-finished st false s is) (
        subst (λ es. (calm es ≡ true) × (told es st ≡ gone))
          (sym (emit_lem (closed reason) (fresh false)).0) (refl, refl))

  -- However the events of a session, those that its task sends with any packets that its readers send
  -- between them, are spread over the frames in which the game polls a peer that has handled none of
  -- them yet, the peer comes to stand as the session's inputs say: connected
  -- with the host's id once it hosts, or with the id of the last welcome; disconnected, with no id,
  -- session or endpoint, once the session ended, could not reach its host or lost it, where no
  -- welcome follows that loss.
  pub peer_stands :
      (how : Start) (is : List Input) (batches : List (List Event)) (p : IrohPeer)
      (s : Handle.Session)
      → p.session ≡ some s
      → s.events ≡ []
      → Orderly (hosts how) is
      → without_packets (concat batches) ≡ (state_of (run how is)).events
      → stance (frames batches p) ≡ expected_from how is (stance p)
  peer_stands how is batches p s there fresh orderly all =
      let (quiet, says) = Comes-start how is (stance p) orderly in
      stance-frames batches p s there fresh
        (calm-without_packets (concat batches) ∙ ap calm all ∙ quiet)
      ∙ told-without_packets (concat batches) (stance p)
      ∙ ap (λ es. told es (stance p)) all
      ∙ says
