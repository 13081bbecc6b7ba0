-- ===== src/Prelude/Maps.antt =====
-- Rust's `HashMap` as an association list, and `HashSet` as a list. The order of a list is the
-- order in which one run iterates; no law below depends on it.
use mathlib.Core.Path.{◌≡◌, refl}
use mathlib.Core.Bool.{Bool, true, false, ◌||◌}
use mathlib.Core.List.{List, [], ◌∷◌}
use mathlib.Core.Option.{Option, none, some}
use native.Mathlib.Omega.{arith}
use gdiroh.Prelude.Tests.{if◌then◌else◌, Comparable, ◌==◌}

abbrev pub Assoc {ℓ κ} : Type ℓ → Type κ → Type (ℓ ⊔ κ)
Assoc K V = List (K × V)

abbrev pub is_some {ℓ} : {A : Type ℓ} → Option A → Bool
is_some none = false
is_some (some a) = true

module _ {ℓ κ} {K : Type ℓ} {V : Type κ} ⦃e : Comparable K⦄ where
  -- map.get(k)
  unfoldable pub lookup : K → Assoc K V → Option V
  lookup k [] = none
  lookup k ((j, v) ∷ m) = if j == k then some v else lookup k m

  -- map.insert(k, v)
  unfoldable pub insert : K → V → Assoc K V → Assoc K V
  insert k v [] = (k, v) ∷ []
  insert k v ((j, w) ∷ m) = if j == k then (k, v) ∷ m else (j, w) ∷ insert k v m

  -- map.remove(k)
  unfoldable pub remove : K → Assoc K V → Assoc K V
  remove k [] = []
  remove k ((j, w) ∷ m) = let rest = remove k m in if j == k then rest else (j, w) ∷ rest

  -- map.contains_key(k)
  abbrev pub has : K → Assoc K V → Bool
  has k m = is_some (lookup k m)

  -- map.keys()
  abbrev pub keys : Assoc K V → List K
  keys [] = []
  keys ((j, v) ∷ m) = j ∷ keys m

  pub lookup-insert :
      (put got : K) (v : V) (m : Assoc K V)
      → lookup got (insert put v m) ≡ (if put == got then some v else lookup got m)
  unfolding insert lookup
  lookup-insert put got v [] = refl
  lookup-insert put got v ((i, w) ∷ m) = ground (
    arith,
    e.equals_iff put got,
    e.equals_iff i put,
    e.equals_iff i got,
    lookup-insert put got v m,
  )

  pub lookup-remove :
      (gone got : K) (m : Assoc K V)
      → lookup got (remove gone m) ≡ (if gone == got then none else lookup got m)
  unfolding remove lookup
  lookup-remove gone got [] = ground arith
  lookup-remove gone got ((i, w) ∷ m) = ground (
    arith,
    e.equals_iff gone got,
    e.equals_iff i gone,
    e.equals_iff i got,
    lookup-remove gone got m,
  )

module _ {ℓ} {K : Type ℓ} ⦃e : Comparable K⦄ where
  pub beq_refl : (k : K) → (k == k) ≡ true
  beq_refl k = (e.equals_iff k k).1 refl

  -- set.contains(k)
  unfoldable pub contains : K → List K → Bool
  contains k [] = false
  contains k (j ∷ s) = j == k || contains k s

  -- set.insert(k), whose result is whether `k` was new
  unfoldable pub set_insert : K → List K → List K
  set_insert k s = if contains k s then s else k ∷ s

  -- set.remove(k), whose result is whether `k` was there
  unfoldable pub set_remove : K → List K → List K
  set_remove k [] = []
  set_remove k (j ∷ s) = let rest = set_remove k s in if j == k then rest else j ∷ rest

  -- No key twice.
  abbrev pub NoDup : List K → Type 0
  NoDup [] = Unit
  NoDup (k ∷ ks) = (contains k ks ≡ false) × NoDup ks

  pub contains-set_insert :
      (k j : K) (s : List K) → contains j (set_insert k s) ≡ (if k == j then true else contains j s)
  unfolding contains set_insert
  contains-set_insert k j s = ground (arith, e.equals_iff k j)

  pub contains-set_remove :
      (k j : K) (s : List K)
      → contains j (set_remove k s) ≡ (if k == j then false else contains j s)
  unfolding contains set_remove
  contains-set_remove k j [] = ground arith
  contains-set_remove k j (i ∷ s) =
      ground
        (arith, contains-set_remove k j s, e.equals_iff i k, e.equals_iff i j, e.equals_iff k j)

module _ {ℓ κ} {K : Type ℓ} {V : Type κ} ⦃e : Comparable K⦄ where
  -- What iterating over the keys meets is what a lookup finds.
  pub contains-keys : (k : K) (m : Assoc K V) → contains k (keys m) ≡ has k m
  unfolding contains lookup
  contains-keys k [] = refl
  contains-keys k ((j, v) ∷ m) = ground (arith, contains-keys k m)

  pub NoDup-insert : (k : K) (v : V) (m : Assoc K V) → NoDup (keys m) → NoDup (keys (insert k v m))
  unfolding insert contains
  NoDup-insert k v [] n = (refl, tt)
  NoDup-insert k v ((j, w) ∷ m) n = ground (
    arith,
    NoDup-insert k v m n.1,
    contains-keys j (insert k v m),
    contains-keys j m,
    lookup-insert k j v m,
    e.equals_iff j k,
    e.equals_iff k j,
  )

  pub NoDup-remove : (k : K) (m : Assoc K V) → NoDup (keys m) → NoDup (keys (remove k m))
  unfolding remove
  NoDup-remove k [] n = tt
  NoDup-remove k ((j, w) ∷ m) n = ground (
    arith,
    NoDup-remove k m n.1,
    contains-keys j (remove k m),
    contains-keys j m,
    lookup-remove k j m,
    e.equals_iff j k,
    e.equals_iff k j,
  )
