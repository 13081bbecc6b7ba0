-- ===== src/Session/Undisturbed.antt =====
-- gdiroh/src/session.rs: what sending on one channel leaves alone: the other channels' queues, and
-- whether the session hosts.
use gdiroh.Prelude.{
  ℕ, ◌≡◌, ◌≢◌, refl, ◌∙◌, inl, inr, List, [], ◌∷◌, some, arith, ◌==◌, nat_eq, nat_beq_iff, keys,
  if◌then◌else◌, both_branches, contains, lookup, lookup-insert, has, Option-cases, set_insert, ltb,
  length, ◌-◌, not_positive, neg,
}
use gdiroh.Wire.{Bytes, Buf, Control, peer_left, encode}
use gdiroh.Frames.{control_channel}
use gdiroh.Session.{
  Mode, reliable, unreliable, unreliable_ordered, Oversize, send_datagram, Link, State, emit, act,
  put_link, append_frame, write_reliable, datagram_header, host_id, announce, forget, ready,
  add_link,
}
use gdiroh.Session.Send.{
  Limits, limit_of, warn, next_sequence, frame_datagram, send_framed, write_datagram, send_one,
  send_except, send_to,
}
use gdiroh.Session.Queues.{queued, queued-write_reliable}
use gdiroh.Session.SameLinks.{without}
use gdiroh.Session.Members
use gdiroh.Session.Members.{tell_all, control_to, announce_all, apply, report_lost}

module _ (q ch : ℕ) where
  -- The same queue on channel `ch` of `q`, and the same role.
  abbrev pub Undisturbed : State → State → Type 0
  Undisturbed s t = (queued q ch t ≡ queued q ch s) × (t.is_host ≡ s.is_host)

  pub Undisturbed-trans : (s t u : State) → Undisturbed s t → Undisturbed t u → Undisturbed s u
  Undisturbed-trans s t u h k = (k.0 ∙ h.0, k.1 ∙ h.1)

  is_host-write_reliable :
      (p channel : ℕ) (payload : Bytes) (s : State)
      → (write_reliable p channel payload s).is_host ≡ s.is_host
  unfolding write_reliable append_frame act put_link
  is_host-write_reliable p channel payload s = elim (Option-cases (lookup p s.links)) [
    | inl gone ↦ ground (arith, gone)
    | inr (link, there) ↦ elim (Option-cases (lookup channel link.reliable_queues)) [
      | inl new ↦ ground (arith, there, new)
      | inr (queue, old) ↦ ground (arith, there, old)
    ]
  ]

  module _ (channel : ℕ) (other : channel ≢ ch) where
    pub Undisturbed-write_reliable :
        (p : ℕ) (payload : Bytes) (s : State) → Undisturbed s (write_reliable p channel payload s)
    Undisturbed-write_reliable p payload s = ground (
      arith,
      queued-write_reliable q ch p channel payload s,
      is_host-write_reliable p channel payload s,
      nat_beq_iff channel ch,
    )

    -- Putting back a link with the queues it had.
    Undisturbed-put_link :
        (p : ℕ) (link new : Link) (s : State)
        → lookup p s.links ≡ some link
        → new.reliable_queues ≡ link.reliable_queues
        → Undisturbed s (put_link p new s)
    unfolding put_link
    Undisturbed-put_link p link new s there same =
        ground (arith, lookup-insert p q new s.links, nat_beq_iff p q)

    Undisturbed-warn :
        (p : ℕ) (link new : Link) (w : Oversize) (s : State)
        → lookup p s.links ≡ some link
        → new.reliable_queues ≡ link.reliable_queues
        → Undisturbed s (warn p new w s)
    unfolding warn emit
    Undisturbed-warn p link new w s there same =
        both_branches (Undisturbed s) (contains w.channel new.warned) _ _
          (Undisturbed-put_link p link new s there same)
          (Undisturbed-put_link p link (record new { warned = set_insert w.channel new.warned }) s
            there same)

    module _ ⦃b : Buf⦄ (limits : Limits) where
      Undisturbed-send_framed :
          (p sequence : ℕ) (payload : Bytes) (link new : Link) (s : State)
          → lookup p s.links ≡ some link
          → new.reliable_queues ≡ link.reliable_queues
          → Undisturbed s (send_framed limits p channel payload (sequence, new) s)
      unfolding send_framed act
      Undisturbed-send_framed p sequence payload link new s there same =
          let w : Oversize = record {
            bytes = length payload;
            limit = limit_of limits new.connection - datagram_header;
            channel = channel;
          } in
          both_branches (Undisturbed s)
            (ltb (limit_of limits new.connection)
              (length (frame_datagram channel sequence payload)))
            (write_reliable p channel payload (warn p new w s))
            (act (send_datagram new.connection (frame_datagram channel sequence payload))
              (put_link p new s))
            (Undisturbed-trans s (warn p new w s)
              (write_reliable p channel payload (warn p new w s))
              (Undisturbed-warn p link new w s there same)
              (Undisturbed-write_reliable p payload (warn p new w s)))
            (Undisturbed-put_link p link new s there same)

      reliable_queues-next_sequence :
          (mode : Mode) (link : Link)
          → (next_sequence mode channel link).1.reliable_queues ≡ link.reliable_queues
      unfolding next_sequence
      reliable_queues-next_sequence reliable link = refl
      reliable_queues-next_sequence unreliable link = refl
      reliable_queues-next_sequence unreliable_ordered link = refl

      Undisturbed-write_datagram :
          (p : ℕ) (mode : Mode) (payload : Bytes) (s : State)
          → Undisturbed s (write_datagram limits p channel mode payload s)
      unfolding write_datagram
      Undisturbed-write_datagram p mode payload s = elim (Option-cases (lookup p s.links)) [
        | inl gone ↦ rw (gone, write_datagram) (refl, refl)
        | inr (link, there) ↦
            rw (there, write_datagram)
              (let (sequence, new) = next_sequence mode channel link in
                Undisturbed-send_framed p sequence payload link new s there
                  (reliable_queues-next_sequence mode link))
      ]

      Undisturbed-send_one :
          (p : ℕ) (mode : Mode) (payload : Bytes) (s : State)
          → Undisturbed s (send_one limits p channel mode payload s)
      unfolding send_one
      Undisturbed-send_one p reliable payload s = Undisturbed-write_reliable p payload s
      Undisturbed-send_one p unreliable payload s =
          Undisturbed-write_datagram p unreliable payload s
      Undisturbed-send_one p unreliable_ordered payload s =
          Undisturbed-write_datagram p unreliable_ordered payload s

      Undisturbed-send_except :
          (x : ℕ) (mode : Mode) (payload : Bytes) (ps : List ℕ) (s : State)
          → Undisturbed s (send_except limits x channel mode payload ps s)
      unfolding send_except
      Undisturbed-send_except x mode payload [] s = (refl, refl)
      Undisturbed-send_except x mode payload (p ∷ ps) s =
          let t = if p == x then s else send_one limits p channel mode payload s in
          Undisturbed-trans s t (send_except limits x channel mode payload ps t)
            (both_branches (Undisturbed s) (p == x) s (send_one limits p channel mode payload s)
              (refl, refl) (Undisturbed-send_one p mode payload s))
            (Undisturbed-send_except x mode payload ps t)

      pub Undisturbed-send_to :
          (target : ℕ) (mode : Mode) (payload : Bytes) (s : State)
          → Undisturbed s (send_to limits target channel mode payload s)
      unfolding send_to
      Undisturbed-send_to target mode payload s =
          let one = if has target s.links then target else host_id in
          both_branches (Undisturbed s) (not_positive target)
            (send_except limits (neg target) channel mode payload (keys s.links) s)
            (send_one limits one channel mode payload s)
            (Undisturbed-send_except (neg target) mode payload (keys s.links) s)
            (Undisturbed-send_one one mode payload s)

-- A session hosts for its whole life.
is_host-announce : (p : ℕ) (s : State) → (announce p s).is_host ≡ s.is_host
unfolding announce emit
is_host-announce p s = ground arith

is_host-announce_all : (ps : List ℕ) (s : State) → (announce_all ps s).is_host ≡ s.is_host
unfolding announce_all
is_host-announce_all [] s = refl
is_host-announce_all (p ∷ ps) s = is_host-announce_all ps (announce p s) ∙ is_host-announce p s

pub is_host-apply : (c : Control) (s : State) → (apply c s).is_host ≡ s.is_host
unfolding apply emit forget
is_host-apply (Control.welcome id ps) s =
    is_host-announce_all ps (announce host_id (emit (ready id) s))
    ∙ is_host-announce host_id (emit (ready id) s)
is_host-apply (Control.peer_joined id) s = is_host-announce id s
is_host-apply (Control.peer_left id) s = ground arith

module _ ⦃b : Buf⦄ where
  is_host-tell_all : (ps : List ℕ) (c : Control) (s : State) → (tell_all ps c s).is_host ≡ s.is_host
  unfolding tell_all control_to
  is_host-tell_all [] c s = refl
  is_host-tell_all (p ∷ ps) c s =
      let t = control_to p c s in
      is_host-tell_all ps c t ∙ is_host-write_reliable 0 0 p control_channel (encode c) s

  pub is_host-welcome : (p conn : ℕ) (s : State) → (Members.welcome p conn s).is_host ≡ s.is_host
  unfolding Members.welcome control_to add_link act put_link
  is_host-welcome p conn s =
      let s₁ = add_link p conn s in
      let s₂ = control_to p (Control.welcome p (keys s.links)) s₁ in
      let s₃ = tell_all (keys s.links) (Control.peer_joined p) s₂ in
      is_host-announce p s₃
      ∙ is_host-tell_all (keys s.links) (Control.peer_joined p) s₂
      ∙ is_host-write_reliable 0 0 p control_channel (encode (Control.welcome p (keys s.links))) s₁

  pub is_host-lost : (p : ℕ) (s : State) → (Members.lost p s).is_host ≡ s.is_host
  unfolding Members.lost report_lost forget emit
  is_host-lost p s =
      let s₁ = forget p (without p s) in
      ground (arith, is_host-tell_all (keys s₁.links) (peer_left p) s₁)
