-- ===== src/Transfer.antt =====
-- gdiroh/src/transfer.rs: `IrohTransfer`, one blob operation in flight. The queue that its operation
-- fills is part of it.
use gdiroh.Prelude.{
  ℕ, ◌+◌, Option, none, some, List, [], ◌∷◌, ◌++◌, Bool, true, false, String, if◌then◌else◌,
  is_some,
}
use gdiroh.Wire.{Bytes}
use gdiroh.Blobs.{Event, size, progress, completed, gave_up}
pub mod Reports
mod Tests

pub data Signal : Type 0 where
  progressed : (done total : ℕ) → Signal
  finished_with : ℕ → Bytes → Signal
  failed : String → Signal

-- `hash` is none while it is the empty string.
pub record IrohTransfer : Type 0 where
  pub transfer : Option (List Event)
  pub total : ℕ
  pub hash : Option ℕ
  pub done : ℕ
  pub ticking : Bool
  pub signals : List Signal

-- `scene` is whether there is a scene tree to poll on.
abbrev pub start_ticking : Bool → IrohTransfer → IrohTransfer
start_ticking scene t = if t.ticking then t else record t { ticking = scene }

abbrev pub stop_ticking : IrohTransfer → IrohTransfer
stop_ticking t = record t { ticking = false }

unfoldable pub wrap : Bool → List Event → IrohTransfer
wrap scene waiting = start_ticking scene (record {
  transfer = some waiting;
  total = 0;
  hash = none;
  done = 0;
  ticking = false;
  signals = [];
})

abbrev pub emit_later : Signal → IrohTransfer → IrohTransfer
emit_later s t = record t { signals = t.signals ++ s ∷ [] }

abbrev pub finished : IrohTransfer → IrohTransfer
finished t = stop_ticking (record t { transfer = none })

unfoldable pub handle : Event → IrohTransfer → IrohTransfer
handle (size n) t = emit_later (progressed t.done n) (record t { total = n })
handle (progress n) t = emit_later (progressed n t.total) (record t { done = n })
handle (completed hash bytes) t =
    emit_later (finished_with hash bytes) (finished (record t { hash = some hash }))
handle (gave_up reason) t = emit_later (failed reason) (finished t)

unfoldable pub handle_each : List Event → IrohTransfer → IrohTransfer
handle_each [] t = t
handle_each (e ∷ es) t = handle_each es (handle e t)

-- _drain: all that waits is taken before any of it is handled.
unfoldable pub drain : IrohTransfer → IrohTransfer
drain t = elim t.transfer [
  | none ↦ t
  | some pending ↦ handle_each pending (record t { transfer = some [] })
]

abbrev pub is_running : IrohTransfer → Bool
is_running t = is_some t.transfer

unfoldable pub cancel : IrohTransfer → IrohTransfer
cancel t = finished t

-- The operation's end of the queue: lost when the transfer was given up.
unfoldable pub arrive : List Event → IrohTransfer → IrohTransfer
arrive es t = elim t.transfer [
  | none ↦ t
  | some waiting ↦ record t { transfer = some (waiting ++ es) }
]
