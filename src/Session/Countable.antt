-- ===== src/Session/Countable.antt =====
-- gdiroh/src/session.rs: how many peers a host can have linked, by the ids it hands out.
use gdiroh.Prelude.{
  ℕ, zero, suc, ◌<◌, ◌≤◌, ◌≡◌, refl, List, [], ◌∷◌, true, false, arith, nat_eq, nat_beq_iff,
  contains, set_remove, contains-set_remove, NoDup, length, All,
}

-- Every number of the list is below `n`.
abbrev pub Under : ℕ → List ℕ → Type 0
Under n ks = (k : ℕ) → contains k ks ≡ true → k < n

NoDup-set_remove : (k : ℕ) (ks : List ℕ) → NoDup ks → NoDup (set_remove k ks)
unfolding set_remove
NoDup-set_remove k [] n = tt
NoDup-set_remove k (j ∷ ks) (new, n) =
    let rest = NoDup-set_remove k ks n in ground (arith, contains-set_remove k j ks)

set_remove-absent : (k : ℕ) (ks : List ℕ) → contains k ks ≡ false → set_remove k ks ≡ ks
unfolding set_remove contains
set_remove-absent k [] new = refl
set_remove-absent k (j ∷ ks) new = ground (arith, set_remove-absent k ks)

length-set_remove : (k : ℕ) (ks : List ℕ) → NoDup ks → length ks ≤ suc (length (set_remove k ks))
unfolding set_remove contains
length-set_remove k [] n = omega arith
length-set_remove k (j ∷ ks) (new, n) =
    ground (arith, length-set_remove k ks n, set_remove-absent k ks, nat_beq_iff j k)

-- As many different numbers as there are below `n`, at most.
pub length-Under : (n : ℕ) (ks : List ℕ) → NoDup ks → Under n ks → length ks ≤ n
unfolding contains
length-Under n [] d u = omega arith
length-Under zero (k ∷ ks) d u = absurd (omega (arith, u k (ground (arith, nat_beq_iff k k))))
length-Under (suc n) (k ∷ ks) d u =
    let rest = set_remove n (k ∷ ks) in
    ground (
      arith,
      length-set_remove n (k ∷ ks) d,
      length-Under n rest (NoDup-set_remove n (k ∷ ks) d)
          (λ j there. ground (arith, u j, contains-set_remove n j (k ∷ ks), nat_beq_iff n j)),
    )

pub All-Under : (n : ℕ) (ks : List ℕ) → Under n ks → All (λ k. k < n) ks
unfolding contains
All-Under n [] u = tt
All-Under n (k ∷ ks) u =
    (u k (ground (arith, nat_beq_iff k k)), All-Under n ks (λ j there. u j (ground arith)))
