-- ===== src/Session/Synced.antt =====
-- gdiroh/src/session.rs: what a host has told a client at any time, and what the client makes of it.
use gdiroh.Session.Agreement.{apply_all, announced-apply_all}
use gdiroh.Session.Distinct.{Distinct-step}
use gdiroh.Session.Ids.{BelowWhile, BelowWhile-step}
use gdiroh.Session.{add_link}
use gdiroh.Session.Run.{
  Loop, Flow, Input, running, finished, step, rounds, hosting, start, run, state_of, fresh,
}
use gdiroh.Prelude.{
  All, ℕ, suc, ◌+◌, ◌-◌, ◌<◌, ◌≤◌, sign_bit, ◌^◌, ◌≡◌, ◌≢◌, refl, subst, ◌∙◌, List, [], ◌∷◌, map,
  ◌&&◌, not, true, false, arith, ◌==◌, nat_eq, contains, contains-keys, lookup, has, length,
}
use gdiroh.Wire.{Buf, Control, encode}
use gdiroh.Session.{host_id}
use gdiroh.Frames.{control_channel}
use gdiroh.Session.Queues.{queued}
use gdiroh.Session.Distinct.{Distinct}
use gdiroh.Session.Kept.{OnGameChannel, Modest, Spaced, Keeps, Keeps-step}

module _ ⦃b : Buf⦄ (q p n : ℕ) (no_host : p ≢ host_id) where
  -- With room for so many inputs more before the ids come to `n`.
  abbrev Roomy : ℕ → Flow → Type 0
  Roomy room flow = ((r : ℕ) → BelowWhile r (room + (sign_bit - n)) flow) × Distinct (state_of flow)

  Spaced-Roomy :
      (room : ℕ) (l : Loop) → n ≤ sign_bit → Roomy room (running l) → Spaced q p n no_host l
  Spaced-Roomy room l fits (below, _) = record {
    free = let (mine, _, _) = below l.next_id in ground arith;
    ids = let (_, _, small) = below l.next_id in omega arith;
    below =
        λ r there. let (under, _, small) = below r in ground (arith, contains-keys r l.state.links);
  }

  Keeps-rounds :
      (flow : Flow) (is : List Input)
      → n ≤ sign_bit
      → All OnGameChannel is
      → Roomy (length is) flow
      → Keeps q p n no_host flow
      → Keeps q p n no_host (rounds flow is)
  unfolding rounds
  Keeps-rounds flow [] fits other roomy k = k
  Keeps-rounds (finished s) (i ∷ is) fits other roomy k = k
  Keeps-rounds (running l) (i ∷ is) fits other (below, d) k =
      Keeps-rounds (step l i) is fits other.1
        (
          λ r.
              let (under, low, small) = below r in
              BelowWhile-step r (length is + (sign_bit - n)) l i (under, low, omega arith),
          Distinct-step l i d,
        )
        (Keeps-step q p n no_host l i other.0 d (Spaced-Roomy (suc (length is)) l fits (below, d))
          k)

module _ (q p : ℕ) (no_host : p ≢ host_id) ⦃b : Buf⦄ where
  -- `clients_agree` below, where the messages also name ids, and no more of them, below three more than
  -- the inputs met.
  pub told_agrees :
      (is : List Input) (l : Loop) (conn : ℕ)
      → All OnGameChannel is
      → length is + 2 < 2 ^ 31
      → run hosting is ≡ running l
      → has q l.state.links ≡ true
      → (cs : List Control) × (queued q control_channel l.state ≡ map encode cs)
        × (contains p (apply_all cs (add_link host_id conn (fresh false))).announced
            ≡ (has p l.state.links && not (p == q)))
        × All (Modest (length is + 3)) cs
  unfolding run start lookup add_link contains
  told_agrees is l conn other room e there =
      let n = length is + 3 in
      let kept = subst (Keeps q p n no_host) e (
        Keeps-rounds q p n no_host (start hosting) is (omega arith) other
          (λ r. (refl, omega arith, omega arith), tt) (refl, λ h. ground arith)) in
      let (cs, all, agree, modest) = kept.1 there in
      (cs, all, announced-apply_all p cs (add_link host_id conn (fresh false)) ∙ agree, modest)

  -- A host that has met fewer than 2 ^ 31 - 2 inputs, with no packet of the game sent on the control
  -- channel, has queued on each linked client's control channel just a list of membership messages,
  -- and a client that applies them in order has announced another peer than the host exactly if that
  -- is linked now and is not the client itself.
  pub clients_agree :
      (is : List Input) (l : Loop) (conn : ℕ)
      → All OnGameChannel is
      → length is + 2 < 2 ^ 31
      → run hosting is ≡ running l
      → has q l.state.links ≡ true
      → (cs : List Control) × (queued q control_channel l.state ≡ map encode cs)
        × (contains p (apply_all cs (add_link host_id conn (fresh false))).announced
            ≡ (has p l.state.links && not (p == q)))
  clients_agree is l conn other room e there =
      let (cs, all, agree, _) = told_agrees is l conn other room e there in (cs, all, agree)
