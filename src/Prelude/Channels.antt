-- ===== src/Prelude/Channels.antt =====
-- Rust's `Result` with a text for an error, and the receiving end of a oneshot channel.
use Prim.Native.String.{String}
use mathlib.Core.Option.{Option, none, some}
use mathlib.Core.List.{List, [], ◌∷◌}
use mathlib.Core.Bool.{Bool, true, false}

pub data Result {ℓ} (A : Type ℓ) : Type ℓ where
  good : A → Result A
  bad : String → Result A

-- The sender has not answered yet, has answered, or was dropped without an answer.
pub data Oneshot {ℓ} (A : Type ℓ) : Type ℓ where
  unanswered : Oneshot A
  answered : A → Oneshot A
  abandoned : Oneshot A

-- try_recv().ok()
abbrev pub received_answer {ℓ} : {A : Type ℓ} → Oneshot A → Option A
received_answer unanswered = none
received_answer (answered a) = some a
received_answer abandoned = none

-- Parsing one by one, where the first failure ends it.
unfoldable pub parse_each {ℓ} : {A : Type ℓ} → List (Option A) → Option (List A)
parse_each [] = some []
parse_each (none ∷ os) = none
parse_each (some a ∷ os) = elim (parse_each os) [ none ↦ none | some rest ↦ some (a ∷ rest) ]

abbrev pub is_abandoned {ℓ} : {A : Type ℓ} → Oneshot A → Bool
is_abandoned unanswered = false
is_abandoned (answered a) = false
is_abandoned abandoned = true
