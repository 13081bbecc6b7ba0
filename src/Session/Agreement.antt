-- ===== src/Session/Agreement.antt =====
-- gdiroh/src/session.rs: what a client makes of the membership messages it is sent.
use gdiroh.Prelude.{
  ℕ, ◌≡◌, refl, ap, ◌∙◌, List, [], ◌∷◌, ◌++◌, ◌||◌, Bool, true, false, arith, ◌==◌, nat_eq,
  nat_beq_iff, if◌then◌else◌, contains, contains-set_insert, contains-set_remove,
}
use gdiroh.Wire.{Control, peer_joined, peer_left}
use gdiroh.Session.{State, emit, ready, announce, forget, host_id}
use gdiroh.Session.Members.{announce_all, apply}

-- What a client makes of membership messages, one after the other.
abbrev pub apply_all : List Control → State → State
apply_all [] s = s
apply_all (c ∷ cs) s = apply_all cs (apply c s)

module _ (p : ℕ) where
  announced-announce :
      (q : ℕ) (s : State)
      → contains p (announce q s).announced ≡ (if q == p then true else contains p s.announced)
  unfolding announce emit
  announced-announce q s = ground (arith, contains-set_insert q p s.announced, nat_beq_iff q p)

  announced-forget :
      (q : ℕ) (s : State)
      → contains p (forget q s).announced ≡ (if q == p then false else contains p s.announced)
  unfolding forget emit
  announced-forget q s = ground (arith, contains-set_remove q p s.announced, nat_beq_iff q p)

  announced-announce_all :
      (qs : List ℕ) (s : State)
      → contains p (announce_all qs s).announced ≡ (contains p qs || contains p s.announced)
  unfolding announce_all contains
  announced-announce_all [] s = refl
  announced-announce_all (q ∷ qs) s =
      ground (arith, announced-announce_all qs (announce q s), announced-announce q s)

  -- Whether `p` is announced after one more message.
  abbrev pub hears : Bool → Control → Bool
  hears here (Control.welcome id ps) = if host_id == p then true else contains p ps || here
  hears here (peer_joined id) = if id == p then true else here
  hears here (peer_left id) = if id == p then false else here

  abbrev pub heard : Bool → List Control → Bool
  heard here [] = here
  heard here (c ∷ cs) = heard (hears here c) cs

  pub heard-append :
      (here : Bool) (cs ds : List Control) → heard here (cs ++ ds) ≡ heard (heard here cs) ds
  heard-append here [] ds = refl
  heard-append here (c ∷ cs) ds = heard-append (hears here c) cs ds

  pub announced-apply :
      (c : Control) (s : State)
      → contains p (apply c s).announced ≡ hears (contains p s.announced) c
  unfolding apply emit
  announced-apply (Control.welcome id ps) s = ground (
    arith,
    announced-announce_all ps (announce host_id (emit (ready id) s)),
    announced-announce host_id (emit (ready id) s),
  )
  announced-apply (peer_joined id) s = announced-announce id s
  announced-apply (peer_left id) s = announced-forget id s

  pub announced-apply_all :
      (cs : List Control) (s : State)
      → contains p (apply_all cs s).announced ≡ heard (contains p s.announced) cs
  announced-apply_all [] s = refl
  announced-apply_all (c ∷ cs) s =
      announced-apply_all cs (apply c s) ∙ ap (λ here. heard here cs) (announced-apply c s)
