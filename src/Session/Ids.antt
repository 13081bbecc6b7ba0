-- ===== src/Session/Ids.antt =====
-- gdiroh/src/session.rs: the ids that a host hands out.
use gdiroh.Prelude.{
  ℕ, suc, ◌+◌, ◌-◌, ◌<◌, ◌≤◌, ◌^◌, ◌≡◌, refl, subst, List, [], ◌∷◌, true, false, ◌&&◌, ◌||◌, ltb,
  arith, leb, ◌==◌, nat_eq, nat_beq_iff, if◌then◌else◌, lookup, lookup-insert, lookup-remove, keys,
  has, length, sign_bit,
}
use gdiroh.Wire.{Buf, Control, peer_joined, encode}
use gdiroh.Frames.{control_channel}
use gdiroh.Session.{
  State, add_link, forget, new_link, control, lost, send, disconnect, close, first_client_id,
}
use gdiroh.Session.Members
use gdiroh.Session.Members.{control_to, tell_all, welcome, report_lost, apply}
use gdiroh.Session.Run.{
  Loop, Flow, Input, command, message, connection, no_more_commands, no_more_messages,
  no_more_connections, running, finished, finish, following_id, step, rounds, hosting, start, run,
}
use gdiroh.Session.Quiet.{
  Quiet-write_reliable, Quiet-tell_all, Quiet-send_to, Quiet-drop_link, Quiet-report_lost,
  has-Quiet,
}
use gdiroh.Session.SameLinks.{SameLinks-announce, SameLinks-forget, SameLinks-apply, without}

-- An id is a client's: positive as an `i32`, and not the host's. After the last of them the first
-- comes again.
pub following_id_bounds :
    (id : ℕ)
    → first_client_id ≤ id
    → id < sign_bit
    → (first_client_id ≤ following_id id)
      × (following_id id < sign_bit)
      × (following_id id ≡ (if id == sign_bit - 1 then first_client_id else id + 1))
unfolding following_id
following_id_bounds id h k = ground arith

module _ ⦃b : Buf⦄ (q : ℕ) where
  pub has-welcome :
      (p conn : ℕ) (s : State)
      → has q (welcome p conn s).links ≡ (if p == q then true else has q s.links)
  unfolding welcome control_to add_link
  has-welcome p conn s =
      let s₁ = add_link p conn s in
      let greeting = encode (Control.welcome p (keys s.links)) in
      let s₂ = control_to p (Control.welcome p (keys s.links)) s₁ in
      let s₃ = tell_all (keys s.links) (peer_joined p) s₂ in
      ground (
        arith,
        SameLinks-announce p s₃,
        has-Quiet q s₂ s₃ (Quiet-tell_all q (keys s.links) (peer_joined p) s₂),
        has-Quiet q s₁ s₂ (Quiet-write_reliable q p control_channel greeting s₁),
        lookup-insert p q (new_link conn) s.links,
      )

  pub has-lost :
      (p : ℕ) (s : State)
      → has q (Members.lost p s).links ≡ (if p == q then false else has q s.links)
  unfolding Members.lost
  has-lost p s =
      let s₁ = without p s in
      let s₂ = forget p s₁ in
      ground (
        arith,
        has-Quiet q s₂ (report_lost p s₂) (Quiet-report_lost q p s₂),
        SameLinks-forget p s₁,
        lookup-remove p q s.links,
        nat_beq_iff p q,
      )

  -- No link from the next id on, nor before the first.
  abbrev pub Below : Loop → Type 0
  Below l = (has q l.state.links && (leb l.next_id q || ltb q first_client_id)) ≡ false

  abbrev pub BelowWhile : ℕ → Flow → Type 0
  BelowWhile room (running l) =
      Below l × (first_client_id ≤ l.next_id) × (l.next_id + room < sign_bit)
  BelowWhile room (finished s) = Unit

  pub BelowWhile-step :
      (room : ℕ) (l : Loop) (i : Input)
      → BelowWhile (suc room) (running l)
      → BelowWhile room (step l i)
  unfolding step finish
  BelowWhile-step room l (command (send target channel mode payload) limits) h =
      ground (arith, has-Quiet q _ _ (Quiet-send_to q limits target channel mode payload l.state))
  BelowWhile-step room l (command (disconnect p) limits) h =
      ground (arith, has-Quiet q _ _ (Quiet-drop_link q p l.state))
  BelowWhile-step room l (command close limits) h = tt
  BelowWhile-step room l (message (control c)) h = ground (arith, SameLinks-apply c l.state)
  BelowWhile-step room l (message (lost p)) h = ground (arith, has-lost p l.state)
  BelowWhile-step room l (connection conn) h = ground (
    arith,
    has-welcome l.next_id conn l.state,
    following_id_bounds l.next_id,
    nat_beq_iff l.next_id q,
  )
  BelowWhile-step room l no_more_commands h = tt
  BelowWhile-step room l no_more_messages h = tt
  BelowWhile-step room l no_more_connections h = ground arith

  pub BelowWhile-rounds :
      (room : ℕ) (flow : Flow) (is : List Input)
      → BelowWhile (length is + room) flow
      → BelowWhile room (rounds flow is)
  unfolding rounds
  BelowWhile-rounds room (running l) [] (below, low, fits) = (below, low, omega arith)
  BelowWhile-rounds room (finished s) [] h = tt
  BelowWhile-rounds room (finished s) (i ∷ is) h = tt
  BelowWhile-rounds room (running l) (i ∷ is) (below, low, fits) =
      BelowWhile-rounds room (step l i) is
        (BelowWhile-step (length is + room) l i (below, low, omega arith))

-- A host that has met fewer than 2 ^ 31 - 2 inputs gives the next client an id that no link has.
pub next_id_fresh :
    ⦃b : Buf⦄ (is : List Input) (l : Loop)
    → length is + 2 < 2 ^ 31
    → run hosting is ≡ running l
    → has l.next_id l.state.links ≡ false
unfolding run
next_id_fresh is l h e = fresh_of (
    subst (BelowWhile l.next_id 0) e (
      BelowWhile-rounds l.next_id 0 (start hosting) is
        (unfold start lookup in (refl, omega arith, omega arith))))
  where
    fresh_of : BelowWhile l.next_id 0 (running l) → has l.next_id l.state.links ≡ false
    fresh_of (below, _, _) = ground arith

-- A host that has met fewer than 2 ^ 31 - 2 inputs has linked its clients under ids between the first
-- client's and the next one to be given, all of them below 2 ^ 31, so that none is 0, the host's own or
-- negative, which as targets mean something else.
pub linked_ids_bounded :
    ⦃b : Buf⦄ (q : ℕ) (is : List Input) (l : Loop)
    → length is + 2 < 2 ^ 31
    → run hosting is ≡ running l
    → has q l.state.links ≡ true
    → (first_client_id ≤ q) × (q < l.next_id) × (l.next_id < 2 ^ 31)
unfolding run
linked_ids_bounded q is l h e linked = bounded_of (
    subst (BelowWhile q 0) e (
      BelowWhile-rounds q 0 (start hosting) is
        (unfold start lookup in (refl, omega arith, omega arith))))
  where
    bounded_of :
        BelowWhile q 0 (running l) → (first_client_id ≤ q) × (q < l.next_id) × (l.next_id < 2 ^ 31)
    bounded_of (below, _, small) = ground arith
