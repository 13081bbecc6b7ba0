-- ===== src/Runtime/Leases.antt =====
-- gdiroh/src/runtime.rs: the life of the runtime, over what the endpoints and the unloading of the
-- extension do.
use gdiroh.Prelude.{
  ℕ, zero, suc, ◌+◌, ◌-◌, ◌<◌, ◌≡◌, refl, none, some, List, [], ◌∷◌, Bool, true, false, arith, ltb,
  is_some, if◌then◌else◌, nat_eq, All,
}
use gdiroh.Runtime.{Shared, unstarted, acquire, drop_lease, shutdown, spawn}

pub data Operation : Type 0 where
  acquiring : Bool → Operation
  dropping unloading : Operation
  spawning : ℕ → Operation

-- The shared slot and the number of leases that are alive, which only an owner can drop.
pub record World : Type 0 where
  pub shared : Shared
  pub leases : ℕ

unfoldable pub perform : World → Operation → World
perform w (acquiring builds) =
    let given = acquire builds w.shared in
    record { shared = given.1; leases = if given.0 then w.leases + 1 else w.leases }
perform w dropping =
    if ltb 0 w.leases then record { shared = drop_lease w.shared; leases = w.leases - 1 } else w
perform w unloading = record w { shared = shutdown w.shared }
perform w (spawning task) = record w { shared = (spawn task w.shared).1 }

unfoldable pub performed : World → List Operation → World
performed w [] = w
performed w (o ∷ os) = performed (perform w o) os

abbrev pub opening : World
opening = record { shared = unstarted; leases = 0 }

abbrev pub Loaded : Operation → Type 0
Loaded (acquiring builds) = Unit
Loaded dropping = Unit
Loaded unloading = false ≡ true
Loaded (spawning task) = Unit

-- The count is the number of leases, and there is a runtime just while there are any.
abbrev pub Counted : World → Type 0
Counted w = (w.shared.holders ≡ w.leases) × (is_some w.shared.runtime ≡ ltb 0 w.leases)

Counted-perform : (w : World) (o : Operation) → Loaded o → Counted w → Counted (perform w o)
unfolding perform acquire drop_lease spawn
Counted-perform w (acquiring builds) l h = ground arith
Counted-perform w dropping l h = ground arith
Counted-perform w unloading l h = ground arith
Counted-perform w (spawning task) l h = ground arith

Counted-performed :
    (w : World) (os : List Operation) → All Loaded os → Counted w → Counted (performed w os)
unfolding performed
Counted-performed w [] l h = h
Counted-performed w (o ∷ os) l h =
    Counted-performed (perform w o) os l.1 (Counted-perform w o l.0 h)

-- As long as the extension is not unloaded, the runtime runs exactly while some lease is alive, and
-- the count of holders is the number of those.
pub performed-Counted : (os : List Operation) → All Loaded os → Counted (performed opening os)
performed-Counted os l = Counted-performed opening os l (refl, refl)

-- The runtimes built before the `n`-th, the latest first.
abbrev pub before : ℕ → List ℕ
before zero = []
before (suc n) = n ∷ before n

-- The running one is the latest built, and those told to stop are all the others.
abbrev pub Accounted : World → Type 0
Accounted w =
    let s = w.shared in
    elim s.runtime [
      | none ↦ s.stopped ≡ before s.built
      | some r ↦ (s.built ≡ suc r) × (s.stopped ≡ before r)
    ]

Accounted-perform : (w : World) (o : Operation) → Accounted w → Accounted (perform w o)
unfolding perform acquire drop_lease shutdown spawn
Accounted-perform w (acquiring builds) h = ground arith
Accounted-perform w dropping h = ground arith
Accounted-perform w unloading h = ground arith
Accounted-perform w (spawning task) h = ground arith

Accounted-performed : (w : World) (os : List Operation) → Accounted w → Accounted (performed w os)
unfolding performed
Accounted-performed w [] h = h
Accounted-performed w (o ∷ os) h = Accounted-performed (perform w o) os (Accounted-perform w o h)

-- At most one runtime runs at a time, the one built last, and each of those built before it was told
-- to stop exactly once, whatever leases were taken and dropped and however often the extension was
-- unloaded.
pub performed-Accounted : (os : List Operation) → Accounted (performed opening os)
performed-Accounted os = Accounted-performed opening os refl

-- Unloading forgets the leases that are alive: with any of them left, a lease taken afterwards does
-- not keep the runtime it started, which stops when an old one is dropped.
pub unloading_forgets :
    (w : World)
    → 0 < w.leases
    → let after = performed w (unloading ∷ acquiring true ∷ dropping ∷ []) in
      (after.shared.runtime ≡ none) × (after.leases ≡ w.leases)
unfolding performed perform acquire drop_lease shutdown
unloading_forgets w h = ground arith
