-- ===== src/Runtime/Tests.antt =====
-- gdiroh/src/runtime.rs: the runtime's life, at concrete leases.
use gdiroh.Prelude.{◌≡◌, refl, some, List, [], ◌∷◌, true, false}
use gdiroh.Runtime.{acquire, drop_lease, spawn}
use gdiroh.Runtime.Leases.{
  Operation, acquiring, dropping, spawning, World, opening, perform, performed,
}

abbrev day : List Operation
day =
    acquiring true
    ∷ acquiring true
    ∷ spawning 5
    ∷ dropping
    ∷ dropping
    ∷ acquiring false
    ∷ acquiring true
    ∷ []

-- Two leases share one runtime, and a third has one of its own.
second_runtime : (performed opening day).shared.runtime ≡ some 1
unfolding performed perform acquire drop_lease spawn
second_runtime = refl

abbrev leased : World
leased = record {
  shared = record { runtime = some 0; holders = 1; built = 1; stopped = []; tasks = [] };
  leases = 1;
}
