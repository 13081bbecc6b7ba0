-- ===== src/Session/Emitting.antt =====
-- gdiroh/src/session.rs: what is said of the events sent so far, where it survives the reports of
-- arrivals, departures and packets too large.
use gdiroh.Prelude.{
  ℕ, ◌≡◌, refl, List, [], ◌∷◌, ◌++◌, Bool, true, false, arith, ◌==◌, nat_eq, nat_beq_iff,
  not_positive, neg, contains, lookup-insert, beq_refl, keys, has, Assoc, both_branches,
  taken_branch, sym, ap, ◌∙◌,
}
use gdiroh.Wire.{Bytes, Buf, Control, peer_left}
use gdiroh.Session.{
  Event, ready, peer_connected, peer_disconnected, warning, closed, Mode, reliable, unreliable,
  unreliable_ordered, Oversize, Link, State, emit, announce, forget, append_frame, put_link, act,
  write_reliable, new_link, add_link, drop_link, host_id,
}
use gdiroh.Session.Send.{Limits, warn, send_framed, write_datagram, send_one, send_except, send_to}
use gdiroh.Session.Members
use gdiroh.Session.Members.{control_to, tell_all, welcome, report_lost, announce_all, apply}
use gdiroh.Session.Run.{Loop, close_all, finish, state_of}
use gdiroh.Session.SameLinks.{without}

-- An event that tells nothing of the session itself.
abbrev pub of_peers : Event → Bool
of_peers (peer_connected p) = true
of_peers (peer_disconnected p) = true
of_peers (warning w) = true
of_peers (Event.packet p) = true
of_peers (ready id) = false
of_peers (closed reason) = false

-- A membership message that does not welcome.
abbrev pub NoWelcome : Control → Type 0
NoWelcome (Control.welcome id peers) = ⊥
NoWelcome (Control.peer_joined id) = Unit
NoWelcome (Control.peer_left id) = Unit

events-write_reliable :
    (q channel : ℕ) (payload : Bytes) (s : State)
    → (write_reliable q channel payload s).events ≡ s.events
unfolding write_reliable append_frame act put_link
events-write_reliable q channel payload s = ground arith

pub events-drop_link : (q : ℕ) (s : State) → (drop_link q s).events ≡ s.events
unfolding drop_link act
events-drop_link q s = ground arith

pub events-close_all : (ls : Assoc ℕ Link) (s : State) → (close_all ls s).events ≡ s.events
unfolding close_all act
events-close_all [] s = refl
events-close_all ((q, l) ∷ ls) s = events-close_all ls _

pub emit_lem :
    (e : Event) (s : State)
    → ((emit e s).events ≡ s.events ++ e ∷ []) × ((emit e s).is_host ≡ s.is_host)
unfolding emit
emit_lem e s = (refl, refl)

pub add_link_lem :
    (p conn : ℕ) (s : State)
    → ((add_link p conn s).events ≡ s.events)
      × ((add_link p conn s).is_host ≡ s.is_host)
      × (has p (add_link p conn s).links ≡ true)
unfolding add_link act put_link
add_link_lem p conn s =
    (refl, refl, ground (arith, lookup-insert p p (new_link conn) s.links, beq_refl p))

pub events-finish :
    (l : Loop) → (state_of (finish l)).events ≡ l.state.events ++ closed "session closed" ∷ []
unfolding finish emit
events-finish l =
    ap (λ es. es ++ closed "session closed" ∷ [])
      (events-close_all l.state.links (record l.state { links = [] }))

is_host-forget : (q : ℕ) (s : State) → (forget q s).is_host ≡ s.is_host
unfolding forget emit
is_host-forget q s = ground arith

module _ {κ} (P : List Event → Type κ)
    (one_more : (es : List Event) (e : Event) → of_peers e ≡ true → P es → P (es ++ e ∷ [])) where
  abbrev pub Said : State → Type κ
  Said s = P s.events

  Said-announce : (q : ℕ) (s : State) → Said s → Said (announce q s)
  unfolding announce
  Said-announce q s h =
      both_branches Said (contains q s.announced) _ _ h
        (unfold emit in one_more s.events (peer_connected q) refl h)

  Said-forget : (q : ℕ) (s : State) → Said s → Said (forget q s)
  unfolding forget
  Said-forget q s h =
      both_branches Said (contains q s.announced) _ _
        (unfold emit in one_more s.events (peer_disconnected q) refl h) h

  pub Said-announce_all : (qs : List ℕ) (s : State) → Said s → Said (announce_all qs s)
  unfolding announce_all
  Said-announce_all [] s h = h
  Said-announce_all (q ∷ qs) s h = Said-announce_all qs (announce q s) (Said-announce q s h)

  Said-write_reliable :
      (q channel : ℕ) (payload : Bytes) (s : State)
      → Said s
      → Said (write_reliable q channel payload s)
  Said-write_reliable q channel payload s h = rw (events-write_reliable q channel payload s) h

  Said-warn : (q : ℕ) (l : Link) (w : Oversize) (s : State) → Said s → Said (warn q l w s)
  unfolding warn put_link
  Said-warn q l w s h =
      both_branches Said (contains w.channel l.warned) _ _ h
        (unfold emit in one_more s.events (warning w) refl h)

  module _ ⦃b : Buf⦄ where
    Said-write_datagram :
        (limits : Limits) (q channel : ℕ) (mode : Mode) (payload : Bytes) (s : State)
        → Said s
        → Said (write_datagram limits q channel mode payload s)
    unfolding write_datagram send_framed put_link act
    Said-write_datagram limits q channel mode payload s h =
        grind (arith, Said-warn, Said-write_reliable)

    Said-send_one :
        (limits : Limits) (q channel : ℕ) (mode : Mode) (payload : Bytes) (s : State)
        → Said s
        → Said (send_one limits q channel mode payload s)
    unfolding send_one
    Said-send_one limits q channel reliable payload s h = Said-write_reliable q channel payload s h
    Said-send_one limits q channel unreliable payload s h =
        Said-write_datagram limits q channel unreliable payload s h
    Said-send_one limits q channel unreliable_ordered payload s h =
        Said-write_datagram limits q channel unreliable_ordered payload s h

    Said-send_except :
        (limits : Limits) (x channel : ℕ) (mode : Mode) (payload : Bytes) (qs : List ℕ) (s : State)
        → Said s
        → Said (send_except limits x channel mode payload qs s)
    unfolding send_except
    Said-send_except limits x channel mode payload [] s h = h
    Said-send_except limits x channel mode payload (q ∷ qs) s h =
        Said-send_except limits x channel mode payload qs _
          (both_branches Said (q == x) _ _ h (Said-send_one limits q channel mode payload s h))

    pub Said-send_to :
        (limits : Limits) (target channel : ℕ) (mode : Mode) (payload : Bytes) (s : State)
        → Said s
        → Said (send_to limits target channel mode payload s)
    unfolding send_to
    Said-send_to limits target channel mode payload s h =
        both_branches Said (not_positive target) _ _
          (Said-send_except limits (neg target) channel mode payload (keys s.links) s h)
          (Said-send_one limits _ channel mode payload s h)

    Said-tell_all : (qs : List ℕ) (c : Control) (s : State) → Said s → Said (tell_all qs c s)
    unfolding tell_all control_to
    Said-tell_all [] c s h = h
    Said-tell_all (q ∷ qs) c s h = Said-tell_all qs c _ (Said-write_reliable q _ _ s h)

    pub Said-welcome : (q conn : ℕ) (s : State) → Said s → Said (welcome q conn s)
    unfolding welcome control_to add_link act put_link
    Said-welcome q conn s h =
        Said-announce q _ (Said-tell_all (keys s.links) _ _ (Said-write_reliable q _ _ _ h))

    -- The loss of the host is told by a client alone.
    pub Said-lost :
        (q : ℕ) (s : State)
        → (s.is_host ≡ false
            → q ≡ host_id
            → (es : List Event) → P es
            → P (es ++ closed "host disconnected" ∷ []))
        → Said s
        → Said (Members.lost q s)
    unfolding Members.lost report_lost
    Said-lost q s alone h =
        let t = forget q (without q s) in
        let told : Said t = Said-forget q (without q s) h in
        both_branches Said (has q s.links) _ _
          (taken_branch Said t.is_host _ _ (λ _. Said-tell_all (keys t.links) (peer_left q) t told)
            (λ client.
              taken_branch Said (q == host_id) _ _
                (λ of_host.
                  unfold emit in
                  alone (sym (is_host-forget q (without q s)) ∙ client)
                    ((nat_beq_iff q host_id).0 of_host) t.events told)
                (λ _. told)))
          h

  pub Said-apply : (c : Control) (s : State) → NoWelcome c → Said s → Said (apply c s)
  unfolding apply
  Said-apply (Control.welcome id peers) s never h = absurd never
  Said-apply (Control.peer_joined id) s _ h = Said-announce id s h
  Said-apply (Control.peer_left id) s _ h = Said-forget id s h

  pub Said-welcomed :
      (id : ℕ) (peers : List ℕ) (s : State)
      → P (s.events ++ ready id ∷ [])
      → Said (apply (Control.welcome id peers) s)
  unfolding apply
  Said-welcomed id peers s h =
      Said-announce_all peers _ (Said-announce host_id (emit (ready id) s) (unfold emit in h))

  -- A client that loses its host tells so, last.
  pub Said-host_lost :
      ⦃b : Buf⦄ (Q : List Event → Type κ) (s : State)
      → ((es : List Event) → P es → Q (es ++ closed "host disconnected" ∷ []))
      → s.is_host ≡ false
      → has host_id s.links ≡ true
      → Said s
      → Q (Members.lost host_id s).events
  unfolding Members.lost report_lost
  Said-host_lost Q s end client linked h =
      let t = forget host_id (without host_id s) in
      taken_branch (λ (u : State). Q u.events) (has host_id s.links) _ _
        (λ _.
          taken_branch (λ (u : State). Q u.events) t.is_host _ _
            (λ host. absurd (ground (arith, is_host-forget host_id (without host_id s))))
            (λ _. unfold emit in end t.events (Said-forget host_id (without host_id s) h)))
        (λ unlinked. absurd (ground arith))
