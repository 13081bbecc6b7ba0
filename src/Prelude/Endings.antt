-- ===== src/Prelude/Endings.antt =====
-- What a task reports of itself: events, of which some are its last word.
use mathlib.Core.Path.{◌≡◌, refl}
use mathlib.Core.Bool.{Bool, true, false, not, ◌&&◌}
use mathlib.Core.List.{List, [], ◌∷◌, ◌++◌}
use native.Mathlib.Omega.{arith}
use gdiroh.Prelude.Tests.{if◌then◌else◌}

abbrev pub is_empty {ℓ} : {A : Type ℓ} → List A → Bool
is_empty [] = true
is_empty (x ∷ xs) = false

is_empty-append {ℓ} :
    {A : Type ℓ} (xs ys : List A) → is_empty (xs ++ ys) ≡ (is_empty xs && is_empty ys)
is_empty-append [] ys = refl
is_empty-append (x ∷ xs) ys = refl

pub is_empty_iff {ℓ} : {A : Type ℓ} (xs : List A) → is_empty xs ≡ true → xs ≡ []
is_empty_iff [] h = refl
is_empty_iff (x ∷ xs) h = ground arith

module _ {ℓ} {E : Type ℓ} (is_ending : E → Bool) where
  -- No ending so far.
  abbrev pub goes_on : List E → Bool
  goes_on [] = true
  goes_on (e ∷ es) = not (is_ending e) && goes_on es

  -- Some events, and then one ending.
  abbrev pub ends_once : List E → Bool
  ends_once [] = false
  ends_once (e ∷ es) = let rest = ends_once es in if is_ending e then is_empty es else rest

  pub goes_on-append :
      (xs : List E) (e : E) → goes_on (xs ++ e ∷ []) ≡ (goes_on xs && not (is_ending e))
  goes_on-append [] e = ground arith
  goes_on-append (x ∷ xs) e = ground (arith, goes_on-append xs e)

  pub ends_once-append :
      (xs : List E) (e : E) → goes_on xs ≡ true → ends_once (xs ++ e ∷ []) ≡ is_ending e
  ends_once-append [] e h = ground arith
  ends_once-append (x ∷ xs) e h = ground (arith, ends_once-append xs e)

  -- Where the ending of two lists put together lies.
  pub ends_once-split :
      (xs ys : List E)
      → ends_once (xs ++ ys) ≡ (if goes_on xs then ends_once ys else (ends_once xs && is_empty ys))
  ends_once-split [] ys = refl
  ends_once-split (x ∷ xs) ys = ground (arith, ends_once-split xs ys, is_empty-append xs ys)

  pub goes_on-split : (xs ys : List E) → goes_on (xs ++ ys) ≡ (goes_on xs && goes_on ys)
  goes_on-split [] ys = refl
  goes_on-split (x ∷ xs) ys = ground (arith, goes_on-split xs ys)
