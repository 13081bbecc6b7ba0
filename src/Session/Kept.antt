-- ===== src/Session/Kept.antt =====
-- gdiroh/src/session.rs: one round of a host, for what it has told a client.
use gdiroh.Session.Agreement.{hears, heard, heard-append}
use gdiroh.Session.Undisturbed.{Undisturbed-send_to, is_host-apply, is_host-welcome, is_host-lost}
use gdiroh.Session.Quiet.{Quiet-send_to, has-Quiet}
use gdiroh.Session.SameLinks.{SameLinks-apply}
use gdiroh.Session.Countable.{Under, length-Under, All-Under}
use gdiroh.Session.{drop_link, act, control, lost, send, disconnect, close}
use gdiroh.Session.Run.{
  Loop, Flow, Input, command, message, connection, no_more_commands, no_more_messages,
  no_more_connections, running, finished, finish, step, following_id,
}
use gdiroh.Session.Send.{send_to}
use gdiroh.Prelude.{
  Option-cases, All, ℕ_discrete, map-append, ℕ, ◌<◌, ◌≡◌, ◌≢◌, ap, ◌∙◌, inl, inr, List, [], ◌∷◌,
  ◌++◌, map, ◌&&◌, not, true, false, arith, ◌==◌, nat_eq, nat_beq_iff, beq_refl, keys,
  both_branches, contains-keys, lookup, has, Bool-cases, length,
}
use gdiroh.Wire.{Buf, Control, peer_joined, peer_left, encode}
use gdiroh.Session.{State, host_id}
use gdiroh.Frames.{control_channel}
use gdiroh.Session.Queues.{queued}
use gdiroh.Session.Distinct.{Distinct}
use gdiroh.Session.Telling.{queued-welcome, queued-lost}
use gdiroh.Session.Ids.{has-welcome, has-lost}
use gdiroh.Session.Members
use gdiroh.Session.Members.{announce_all, apply, welcome}

-- The control channel is left to the session's own messages.
abbrev pub OnGameChannel : Input → Type 0
OnGameChannel (command (send target channel mode payload) limits) = channel ≢ control_channel
OnGameChannel _ = Unit

-- A message about peers whose ids, and number, are below `n`.
abbrev pub Modest : ℕ → Control → Type 0
Modest n (Control.welcome id peers) = (id < n) × (length peers < n) × All (λ p. p < n) peers
Modest n (peer_joined id) = id < n
Modest n (peer_left id) = id < n

All-more :
    (n : ℕ) (cs : List Control) (c : Control)
    → All (Modest n) cs
    → Modest n c
    → All (Modest n) (cs ++ c ∷ [])
All-more n [] c a m = (m, tt)
All-more n (d ∷ cs) c a m = (a.0, All-more n cs c a.1 m)

-- The host's side, for a client `q` and another peer `p`.
module _ (q p n : ℕ) (no_host : p ≢ host_id) where
  -- What `q` is to make of the messages queued for it: `p` is there if it is linked and not `q`.
  abbrev pub Synced : ⦃b : Buf⦄ → State → Type 0
  Synced s =
      has q s.links ≡ true
      → (cs : List Control) × (queued q control_channel s ≡ map encode cs)
        × (heard p false cs ≡ (has p s.links && not (p == q)))
        × All (Modest n) cs

  module _ ⦃b : Buf⦄ where
    Synced-same :
        (s t : State)
        → queued q control_channel t ≡ queued q control_channel s
        → has q t.links ≡ has q s.links
        → has p t.links ≡ has p s.links
        → Synced s
        → Synced t
    Synced-same s t same hq hp h there =
        let (cs, e, a, m) = h (cc (hq, there)) in
        (cs, cc (same, e), cc (a, ap (λ here. here && not (p == q)) hp), m)

    -- One more message for `q`.
    Synced-more :
        (s t : State) (c : Control)
        → has q s.links ≡ true
        → queued q control_channel t ≡ queued q control_channel s ++ encode c ∷ []
        → hears p (has p s.links && not (p == q)) c ≡ (has p t.links && not (p == q))
        → Modest n c
        → Synced s
        → Synced t
    Synced-more s t c there more now modest h _ =
        let (cs, e, a, m) = h there in
        (
          cs ++ c ∷ [],
          cc (more, ap (λ fs. fs ++ encode c ∷ []) e, map-append encode cs (c ∷ [])),
          cc (heard-append p false cs (c ∷ []), ap (λ here. hears p here c) a, now),
          All-more n cs c m modest,
        )

    Synced-welcome :
        (new conn : ℕ) (s : State)
        → Distinct s
        → has new s.links ≡ false
        → Modest n (Control.welcome new (keys s.links))
        → Synced s
        → Synced (welcome new conn s)
    Synced-welcome new conn s d free modest h there =
        let t = welcome new conn s in
        let told = queued-welcome q control_channel new conn s d free in
        elim (ℕ_discrete new q) [
          | yes same ↦ (
            Control.welcome new (keys s.links) ∷ [],
            ground (arith, told, beq_refl new),
            ground (
              arith,
              has-welcome p new conn s,
              contains-keys p s.links,
              nat_beq_iff p q,
              nat_beq_iff new p,
              nat_beq_iff host_id p,
            ),
            (modest, tt),
          )
          | no apart ↦
              Synced-more s t (peer_joined new)
                (ground (arith, has-welcome q new conn s, nat_beq_iff new q))
                (ground (arith, told, has-welcome q new conn s, nat_beq_iff new q))
                (ground (arith, has-welcome p new conn s, nat_beq_iff new p, nat_beq_iff p q))
                modest.0 h there
        ]

    Synced-lost :
        (gone : ℕ) (s : State)
        → Distinct s
        → s.is_host ≡ true
        → (has gone s.links ≡ true → gone < n)
        → Synced s
        → Synced (Members.lost gone s)
    Synced-lost gone s d host below h = elim (Bool-cases (has gone s.links)) [
      | inl linked ↦ λ there.
          Synced-more s (Members.lost gone s) (peer_left gone)
            (ground (arith, has-lost q gone s, nat_beq_iff gone q))
            (ground (
              arith,
              queued-lost q control_channel gone s d host linked,
              has-lost q gone s,
              nat_beq_iff gone q,
              beq_refl control_channel,
            ))
            (ground (arith, has-lost p gone s, nat_beq_iff gone p, nat_beq_iff p q)) (below linked)
            h there
      | inr unknown ↦ unfold Members.lost in rw unknown h
    ]

    -- The next id is free, it is the largest, and below `n`.
    pub record Spaced (l : Loop) : Type 0 where
      pub free : has l.next_id l.state.links ≡ false
      pub ids : l.next_id < n
      pub below : Under l.next_id (keys l.state.links)

    Modest-welcome :
        (l : Loop)
        → Distinct l.state
        → Spaced l
        → Modest n (Control.welcome l.next_id (keys l.state.links))
    Modest-welcome l d spaced =
        let few = length-Under l.next_id (keys l.state.links) d spaced.below in
        let ids = spaced.ids in
        let below = spaced.below in
        (
          ids,
          omega (arith, few),
          All-Under n (keys l.state.links) (λ k there. omega (arith, below k there)),
        )

    -- What a running host keeps to.
    abbrev pub Keeps : Flow → Type 0
    Keeps (running l) = (l.state.is_host ≡ true) × Synced l.state
    Keeps (finished s) = Unit

    pub Keeps-step :
        (l : Loop) (i : Input)
        → OnGameChannel i
        → Distinct l.state
        → Spaced l
        → Keeps (running l)
        → Keeps (step l i)
    unfolding step finish drop_link act
    Keeps-step l (command (send target channel mode payload) limits) other d spaced (host, h) =
        let s = l.state in
        let t = send_to limits target channel mode payload s in
        let quiet =
          Undisturbed-send_to q control_channel channel other limits target mode payload s in
        (
          quiet.1 ∙ host,
          Synced-same s t quiet.0
              (has-Quiet q s t (Quiet-send_to q limits target channel mode payload s))
              (has-Quiet p s t (Quiet-send_to p limits target channel mode payload s)) h,
        )
    Keeps-step l (command (disconnect gone) limits) other d spaced (host, h) =
        elim (Option-cases (lookup gone l.state.links)) [
          | inl unknown ↦ rw (unknown, drop_link) (host, h)
          | inr (link, known) ↦ rw (known, drop_link) (host, h)
        ]
    Keeps-step l (command close limits) other d spaced k = tt
    Keeps-step l (message (control c)) other d spaced (host, h) =
        let same = ap (λ ls. lookup q ls) (SameLinks-apply c l.state).0 in
        (
          is_host-apply c l.state ∙ host,
          Synced-same l.state (apply c l.state) (rw (SameLinks-apply c l.state).0)
              (rw (SameLinks-apply c l.state).0) (rw (SameLinks-apply c l.state).0) h,
        )
    Keeps-step l (message (lost gone)) other d spaced (host, h) = (
      is_host-lost gone l.state ∙ host,
      Synced-lost gone l.state d host
          (λ there.
            let ids = spaced.ids in
            omega (arith, spaced.below gone (contains-keys gone l.state.links ∙ there)))
          h,
    )
    Keeps-step l (connection conn) other d spaced (host, h) =
        both_branches Keeps l.inbound
          (running (record {
            state = welcome l.next_id conn l.state;
            next_id = following_id l.next_id;
            inbound = l.inbound;
          }))
          (running l)
          (
            is_host-welcome l.next_id conn l.state ∙ host,
            Synced-welcome l.next_id conn l.state d spaced.free (Modest-welcome l d spaced) h,
          )
          (host, h)
    Keeps-step l no_more_commands other d spaced k = tt
    Keeps-step l no_more_messages other d spaced k = tt
    Keeps-step l no_more_connections other d spaced k = k
