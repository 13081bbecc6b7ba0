-- ===== src/Session/Quiet.antt =====
-- gdiroh/src/session.rs: what sending leaves alone: who is linked by which connection, the map that
-- the main thread reads, and who is announced.
use gdiroh.Prelude.{
  ℕ, ◌≡◌, refl, ap, NoDup, NoDup-insert, inl, inr, List, [], ◌∷◌, Option, none, some, arith, ◌==◌,
  nat_eq, nat_beq_iff, contains, lookup, lookup-insert, Option-cases, keys, has, is_some,
  both_branches, not_positive, neg,
}
use gdiroh.Wire.{Bytes, Buf, Control, peer_left}
use gdiroh.Session.{
  Event, warning, Action, spawn_stream_writer, Mode, reliable, unreliable, unreliable_ordered,
  Oversize, Link, State, emit, append_frame, write_reliable, drop_link, host_id, put_link, act,
}
use gdiroh.Session.Send.{
  Limits, warn, send_framed, write_datagram, send_one, send_except, send_to, next_sequence,
}
use gdiroh.Session.Members.{control_to, tell_all, report_lost}

-- The connection behind a peer.
abbrev pub connection_of : Option Link → Option ℕ
connection_of none = none
connection_of (some link) = some link.connection

pub is_some-connection_of : (o : Option Link) → is_some (connection_of o) ≡ is_some o
is_some-connection_of none = refl
is_some-connection_of (some l) = refl

pub connection-next_sequence :
    (mode : Mode) (channel : ℕ) (link : Link)
    → (next_sequence mode channel link).1.connection ≡ link.connection
unfolding next_sequence
connection-next_sequence reliable channel link = refl
connection-next_sequence unreliable channel link = refl
connection-next_sequence unreliable_ordered channel link = refl

module _ (q : ℕ) where
  -- What an operation that only writes to links leaves alone.
  pub record Quiet (s t : State) : Type 0 where
    pub links : connection_of (lookup q t.links) ≡ connection_of (lookup q s.links)
    pub shared : t.connections ≡ s.connections
    pub announced : t.announced ≡ s.announced
    pub distinct : NoDup (keys s.links) → NoDup (keys t.links)

  pub Quiet-refl : (s : State) → Quiet s s
  Quiet-refl s = record { links = refl; shared = refl; announced = refl; distinct = λ n. n }

  pub Quiet-trans : (s t u : State) → Quiet s t → Quiet t u → Quiet s u
  Quiet-trans s t u h k = record {
    links = cc (h.links, k.links);
    shared = cc (h.shared, k.shared);
    announced = cc (h.announced, k.announced);
    distinct = λ n. k.distinct (h.distinct n);
  }

  pub Quiet-put_link :
      (p : ℕ) (link new : Link) (s : State)
      → lookup p s.links ≡ some link
      → new.connection ≡ link.connection
      → Quiet s (put_link p new s)
  unfolding put_link
  Quiet-put_link p link new s e c = record {
    links = ground (arith, lookup-insert p q new s.links, nat_beq_iff p q);
    shared = refl;
    announced = refl;
    distinct = NoDup-insert p new s.links;
  }

  pub Quiet-act : (a : Action) (s : State) → Quiet s (act a s)
  unfolding act
  Quiet-act a s = record { links = refl; shared = refl; announced = refl; distinct = λ n. n }

  pub Quiet-emit : (e : Event) (s : State) → Quiet s (emit e s)
  unfolding emit
  Quiet-emit e s = record { links = refl; shared = refl; announced = refl; distinct = λ n. n }

  pub Quiet-append_frame :
      (p : ℕ) (link : Link) (channel : ℕ) (payload : Bytes) (s : State)
      → lookup p s.links ≡ some link
      → Quiet s (append_frame p link channel payload s)
  Quiet-append_frame p link channel payload s e =
      elim (Option-cases (lookup channel link.reliable_queues)) [
        | inl new ↦
            unfold append_frame in
            rw (new, append_frame)
              (Quiet-trans s (act (spawn_stream_writer link.connection channel) s) _ (Quiet-act _ s)
                (Quiet-put_link p link _ _ (unfold act in e) refl))
        | inr (queue, old) ↦
            unfold append_frame in rw (old, append_frame) (Quiet-put_link p link _ s e refl)
      ]

  pub Quiet-write_reliable :
      (p channel : ℕ) (payload : Bytes) (s : State) → Quiet s (write_reliable p channel payload s)
  unfolding write_reliable
  Quiet-write_reliable p channel payload s = elim (Option-cases (lookup p s.links)) [
    | inl gone ↦ rw (gone, write_reliable) (Quiet-refl s)
    | inr (link, e) ↦ rw (e, write_reliable) (Quiet-append_frame p link channel payload s e)
  ]

  pub Quiet-warn :
      (p : ℕ) (link new : Link) (w : Oversize) (s : State)
      → lookup p s.links ≡ some link
      → new.connection ≡ link.connection
      → Quiet s (warn p new w s)
  unfolding warn
  Quiet-warn p link new w s e c =
      both_branches (Quiet s) (contains w.channel new.warned) _ _ (Quiet-put_link p link new s e c)
        (Quiet-trans s _ _ (Quiet-put_link p link _ s e c) (Quiet-emit (warning w) _))

  module _ ⦃b : Buf⦄ where
    pub Quiet-send_framed :
        (limits : Limits) (p channel sequence : ℕ) (payload : Bytes) (link new : Link) (s : State)
        → lookup p s.links ≡ some link
        → new.connection ≡ link.connection
        → Quiet s (send_framed limits p channel payload (sequence, new) s)
    unfolding send_framed
    Quiet-send_framed limits p channel sequence payload link new s e c =
        both_branches (Quiet s) _ _ _
          (Quiet-trans s _ _ (Quiet-warn p link new _ s e c)
            (Quiet-write_reliable p channel payload _))
          (Quiet-trans s _ _ (Quiet-put_link p link new s e c) (Quiet-act _ _))

    pub Quiet-write_datagram :
        (limits : Limits) (p channel : ℕ) (mode : Mode) (payload : Bytes) (s : State)
        → Quiet s (write_datagram limits p channel mode payload s)
    unfolding write_datagram
    Quiet-write_datagram limits p channel mode payload s = elim (Option-cases (lookup p s.links)) [
      | inl gone ↦ rw (gone, write_datagram) (Quiet-refl s)
      | inr (link, e) ↦
          rw (e, write_datagram)
            (Quiet-send_framed limits p channel (next_sequence mode channel link).0 payload link
              (next_sequence mode channel link).1 s e (connection-next_sequence mode channel link))
    ]

    pub Quiet-send_one :
        (limits : Limits) (p channel : ℕ) (mode : Mode) (payload : Bytes) (s : State)
        → Quiet s (send_one limits p channel mode payload s)
    unfolding send_one
    Quiet-send_one limits p channel reliable payload s = Quiet-write_reliable p channel payload s
    Quiet-send_one limits p channel unreliable payload s =
        Quiet-write_datagram limits p channel unreliable payload s
    Quiet-send_one limits p channel unreliable_ordered payload s =
        Quiet-write_datagram limits p channel unreliable_ordered payload s

    pub Quiet-send_except :
        (limits : Limits) (x channel : ℕ) (mode : Mode) (payload : Bytes) (ps : List ℕ) (s : State)
        → Quiet s (send_except limits x channel mode payload ps s)
    unfolding send_except
    Quiet-send_except limits x channel mode payload [] s = Quiet-refl s
    Quiet-send_except limits x channel mode payload (p ∷ ps) s =
        Quiet-trans s _ _
          (both_branches (Quiet s) (p == x) _ _ (Quiet-refl s)
            (Quiet-send_one limits p channel mode payload s))
          (Quiet-send_except limits x channel mode payload ps _)

    pub Quiet-send_to :
        (limits : Limits) (target channel : ℕ) (mode : Mode) (payload : Bytes) (s : State)
        → Quiet s (send_to limits target channel mode payload s)
    unfolding send_to
    Quiet-send_to limits target channel mode payload s =
        both_branches (Quiet s) (not_positive target) _ _
          (Quiet-send_except limits (neg target) channel mode payload (keys s.links) s)
          (Quiet-send_one limits _ channel mode payload s)

    pub Quiet-tell_all : (ps : List ℕ) (c : Control) (s : State) → Quiet s (tell_all ps c s)
    unfolding tell_all control_to
    Quiet-tell_all [] c s = Quiet-refl s
    Quiet-tell_all (p ∷ ps) c s =
        Quiet-trans s _ _ (Quiet-write_reliable p _ _ s) (Quiet-tell_all ps c _)

    pub Quiet-report_lost : (p : ℕ) (s : State) → Quiet s (report_lost p s)
    unfolding report_lost
    Quiet-report_lost p s =
        both_branches (Quiet s) s.is_host _ _ (Quiet-tell_all (keys s.links) (peer_left p) s)
          (both_branches (Quiet s) (p == host_id) _ _ (Quiet-emit _ s) (Quiet-refl s))

  pub Quiet-drop_link : (p : ℕ) (s : State) → Quiet s (drop_link p s)
  unfolding drop_link
  Quiet-drop_link p s = elim (Option-cases (lookup p s.links)) [
    | inl gone ↦ rw (gone, drop_link) (Quiet-refl s)
    | inr (link, e) ↦ rw (e, drop_link) (Quiet-act _ s)
  ]

-- Sending links and unlinks nobody.
pub has-Quiet : (q : ℕ) (s t : State) → Quiet q s t → has q t.links ≡ has q s.links
has-Quiet q s t k = cc (
  ap is_some k.links,
  is_some-connection_of (lookup q s.links),
  is_some-connection_of (lookup q t.links),
)
