-- ===== src/Table/Result.antt =====
-- Results of the table operations: a state that is passed on, an error that is returned, and
-- panics, which are `none`.
pub mod Keeps
use mini_database_v.Base.{Option, none, some, Bool, true, false}
use mini_database_v.Base.Bytes.{Bytes}
use mini_database_v.Tx.Ops.{TxError, TxResult}

pub data DbError : Type 0 where
  missing_column bad_column_type bad_column : Bytes → DbError
  bad_schema bad_record bad_range no_index : DbError
  empty_index : DbError
  unknown_index_column duplicate_index_column : Bytes → DbError
  table_exists : DbError
  kv : TxError → DbError

pub data Res {ℓ} (A : Type ℓ) : Type ℓ where
  ok : A → Res A
  err : DbError → Res A

-- A chain of checks that change no state.
abbrev pub and_check {ℓ κ} :
    {A : Type ℓ} {B : Type κ} → Option (Res A) → (A → Option (Res B)) → Option (Res B)
and_check none f = none
and_check (some (err e)) f = some (err e)
and_check (some (ok a)) f = f a

-- An operation on a state.
abbrev pub M : Type 0 → Type 0 → Type 0
M S A = S → Option (Res A × S)

unfoldable pub pure : {S A : Type 0} → A → M S A
pure a s = some (ok a, s)

unfoldable pub panic : {S A : Type 0} → M S A
panic s = none

-- a check in front of the operation
unfoldable pub check : {S A : Type 0} → Option (Res A) → M S A
check none s = none
check (some r) s = some (r, s)

unfoldable pub total : {S A : Type 0} → Option A → M S A
total none s = none
total (some a) s = some (ok a, s)

unfoldable pub assert_that : {S : Type 0} → Bool → M S (Unit {0})
assert_that true s = some (ok tt, s)
assert_that false s = none

infixl 5 ◌>>=◌ ◌>>◌
unfoldable pub ◌>>=◌ : {S A B : Type 0} → M S A → (A → M S B) → M S B
◌>>=◌ m f s = elim (m s) [
  | none ↦ none
  | some (err e, s') ↦ some (err e, s')
  | some (ok a, s') ↦ f a s'
]

abbrev pub ◌>>◌ : {S B : Type 0} → M S (Unit {0}) → M S B → M S B
m >> k = m >>= λ _. k

-- An operation of the transaction.
unfoldable pub of_tx : {S A : Type 0} → (S → Option (TxResult A × S)) → M S A
of_tx m s = elim (m s) [
  | none ↦ none
  | some (TxResult.ok a, s') ↦ some (ok a, s')
  | some (TxResult.err e, s') ↦ some (err (kv e), s')
]
