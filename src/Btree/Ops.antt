-- ===== src/Btree/Ops.antt =====
-- What the operations of btree.go share: their modes and outcomes, and lists sorted by their keys.
use mini_database_v.Base.{◌≡◌, Bool, true, false, List, [], ◌∷◌, Option, none, some, All}
use mini_database_v.Base.Bytes.{Bytes, eq_bytes}
use mini_database_v.Tx.Ranges.{is_lt}
use mini_database_v.Btree.Limit.{LimitError}

-- The keys of the list increase.
abbrev pub KeysSorted : List (Bytes × Bytes) → Type 0
KeysSorted [] = Unit
KeysSorted (e ∷ es) = All (λ f. is_lt e.0 f.0 ≡ true) es × KeysSorted es

-- the value that is stored already
abbrev pub is_stored : Option Bytes → Bytes → Bool
is_stored none v = false
is_stored (some w) v = eq_bytes v w

abbrev pub is_some {ℓ} : {A : Type ℓ} → Option A → Bool
is_some none = false
is_some (some a) = true

-- MODE_UPSERT, MODE_UPDATE_ONLY, MODE_INSERT_ONLY
pub data Mode : Type 0 where
  upsert update_only insert_only : Mode

-- An error, or whether something changed and the new tree.
pub data Outcome {ℓ} (A : Type ℓ) : Type ℓ where
  done : A → Outcome A
  failed : LimitError → Outcome A
