-- ===== src/Runtime.antt =====
-- gdiroh/src/runtime.rs: the shared network runtime and the leases that keep it alive. A runtime
-- that was built is a number, and a task is one too; what the runtimes are asked to do is a list.
use gdiroh.Prelude.{
  ℕ, ◌+◌, ◌-◌, Option, none, some, List, [], ◌∷◌, ◌++◌, Bool, true, false, ltb, is_some,
  if◌then◌else◌,
}
pub mod Leases
mod Tests

-- The shared slot, with what happened so far: how many runtimes were built, those that were told to
-- stop, and the tasks that were started, each on its runtime.
pub record Shared : Type 0 where
  pub runtime : Option ℕ
  pub holders : ℕ
  pub built : ℕ
  pub stopped : List ℕ
  pub tasks : List (ℕ × ℕ)

abbrev pub unstarted : Shared
unstarted = record { runtime = none; holders = 0; built = 0; stopped = []; tasks = [] }

abbrev take_lease : Shared → Bool × Shared
take_lease s = (true, record s { holders = s.holders + 1 })

-- Lease::acquire, where `builds` is whether tokio could build a runtime; the answer is whether a
-- lease was given.
unfoldable pub acquire : Bool → Shared → Bool × Shared
acquire builds s = elim s.runtime [
  | none ↦
      if builds
      then take_lease (record s { runtime = some s.built; built = s.built + 1 })
      else (false, s)
  | some r ↦ take_lease s
]

abbrev stop : Shared → Shared
stop s = elim s.runtime [ none ↦ s | some r ↦ record s { runtime = none; stopped = r ∷ s.stopped } ]

-- Drop for Lease. The subtraction saturates, as it does on ℕ.
unfoldable pub drop_lease : Shared → Shared
drop_lease s =
    let left = record s { holders = s.holders - 1 } in
    if ltb 0 left.holders then left else stop left

unfoldable pub shutdown : Shared → Shared
shutdown s = stop (record s { holders = 0 })

-- Whether the task was started, on the runtime that is there.
unfoldable pub spawn : ℕ → Shared → Bool × Shared
spawn task s = elim s.runtime [
  | none ↦ (false, s)
  | some r ↦ (true, record s { tasks = s.tasks ++ ((r, task) ∷ []) })
]

-- detach_handle, where `ambient` is the runtime that the caller is in, if any.
unfoldable pub detach_handle : Option ℕ → ℕ → Shared → Bool × Shared
detach_handle none task s = spawn task s
detach_handle (some r) task s = (true, record s { tasks = s.tasks ++ ((r, task) ∷ []) })

-- handle
unfoldable pub handle : Option ℕ → Shared → Option ℕ
handle none s = s.runtime
handle (some r) s = some r
