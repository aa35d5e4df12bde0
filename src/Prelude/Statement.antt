-- ===== src/Prelude/Statement.antt =====
-- What the SQL statements of the components share: where one fails, what it gives back, and NULLs.
use mathlib.Core.Bool.{Bool, false}
use mathlib.Core.List.{[], ◌∷◌}
use mathlib.Core.Option.{Option, none, some}
use anvil_forge.Prelude.Strings.{Text, eq_text}

-- An error that the driver reports before a statement has run.
pub data Fault : Type 0 where
  no_fault : Fault
  query_fault : Text → Fault

pub data Outcome {ℓ} (A : Type ℓ) : Type ℓ where
  ok : A → Outcome A
  err : Text → Outcome A

-- NULLIF(x, '')
abbrev pub null_if_empty : Text → Option Text
null_if_empty [] = none
null_if_empty (c ∷ s) = some (c ∷ s)

-- Two NULLs are no conflict.
abbrev pub same_key : Option Text → Option Text → Bool
same_key none k = false
same_key (some a) none = false
same_key (some a) (some b) = eq_text a b
