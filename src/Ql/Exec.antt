-- ===== src/Ql/Exec.antt =====
-- The statements of ql_exec.go over the tables of a transaction.
pub mod Scan
pub mod Statement
pub mod Session
pub mod Frame
use mini_database_v.Base.{
  ℕ, zero, suc, ◌==◌, Bool, true, false, if◌then◌else◌, Option, none, some, List, [], ◌∷◌, ◌⊎◌, inl,
  inr,
}
use mini_database_v.Base
use mini_database_v.Base.Bytes.{Bytes, codes, eq_bytes}
use mini_database_v.Btree.Pages.{PageOps}
use mini_database_v.Btree.Ops.{Mode}
use mini_database_v.Cmp.{Cmp}
use mini_database_v.Tx.State.{Kvtx}
use mini_database_v.Tx.Ops.{Tree, Updated}
use mini_database_v.Table.Value.{Value, Record, add_str, get}
use mini_database_v.Table.Result.{DbError, M}
use mini_database_v.Table.Result
use mini_database_v.Table.Schema.{TableDef}
use mini_database_v.Table.Rows.{db_get, never_fails}
use mini_database_v.Table.Rows.Write.{
  no_columns, tdef_meta, tdef_table, db_update, db_delete, table_new,
}
use mini_database_v.Ql.Arith.{EvalError}

pub data ExecError : Type 0 where
  eval : EvalError → ExecError
  db : DbError → ExecError
  not_boolean table_not_found cannot_update_primary_key : ExecError
  unknown_column : Bytes → ExecError

-- A transaction on tables, with the cache of the definitions.
pub record DbTx (T : Type 0) : Type 0 where
  pub kv : Kvtx T
  pub tables : List (Bytes × TableDef)

-- A step of a statement: an error keeps the state that it was met in, and a panic is `none`.
abbrev pub X : Type 0 → Type 0 → Type 0
X S A = S → Option ((ExecError ⊎ A) × S)

unfoldable pub give : {S A : Type 0} → A → X S A
give a s = some (inr a, s)

unfoldable pub fail : {S A : Type 0} → ExecError → X S A
fail e s = some (inl e, s)

unfoldable pub sure : {S A : Type 0} → Option A → X S A
sure none s = none
sure (some a) s = some (inr a, s)

unfoldable pub evaluated : {S A : Type 0} → Option (EvalError ⊎ A) → X S A
evaluated none s = none
evaluated (some (inl e)) s = some (inl (eval e), s)
evaluated (some (inr a)) s = some (inr a, s)

infixl 5 ◌>>=◌ ◌>>◌
unfoldable pub ◌>>=◌ : {S A B : Type 0} → X S A → (A → X S B) → X S B
◌>>=◌ m f s = elim (m s) [
  | none ↦ none
  | some (inl e, s') ↦ some (inl e, s')
  | some (inr a, s') ↦ f a s'
]

abbrev pub ◌>>◌ : {S B : Type 0} → X S (Unit {0}) → X S B → X S B
m >> k = m >>= λ _. k

-- An operation on the tables within the transaction.
unfoldable pub on_kv : {T A : Type 0} → M (Kvtx T) A → X (DbTx T) A
on_kv m tx = elim (m tx.kv) [
  | none ↦ none
  | some (Result.err e, kv) ↦ some (inl (db e), record tx { kv = kv })
  | some (Result.ok a, kv) ↦ some (inr a, record tx { kv = kv })
]

-- the cache of definitions
unfoldable pub cached : Bytes → List (Bytes × TableDef) → Option TableDef
cached name [] = none
cached name (e ∷ es) = let rest = cached name es in if eq_bytes e.0 name then some e.1 else rest

-- What the statements are given: the callbacks for the pages of the file, the levels that the
-- operations of the trees may pass, and the encoding of definitions.
pub record DbOps : Type 1 where
  pub pages : PageOps
  pub levels : ℕ
  pub marshal : TableDef → Bytes
  pub unmarshal : Bytes → Option TableDef

module _ (ops : DbOps) where
  abbrev pub Tx : Type 0
  Tx = DbTx (Tree ops.pages ops.levels)

  -- the definition in a row of the table of definitions
  unfoldable pub definition : Record → Option TableDef
  unfolding get
  definition row = elim (get row (codes "def")) [
    | none ↦ none
    | some none ↦ none
    | some (some v) ↦ ops.unmarshal v.str
  ]

  -- `getTableDefDB`: an error of the read is a failed assertion.
  unfoldable pub get_table_def_db : Bytes → X Tx (Option TableDef)
  unfolding db_get add_str definition
  get_table_def_db name = do
    found ← on_kv (
        never_fails
          (db_get ops.pages ops.levels 1 tdef_table (add_str no_columns (codes "name") name)))
    elim found [ none ↦ give none | some row ↦ sure (definition row) >>= λ tdef. give (some tdef) ]

  unfoldable pub from_cache : Bytes → X Tx (Option TableDef)
  unfolding cached
  from_cache name tx = some (inr (cached name tx.tables), tx)

  unfoldable pub remember : Bytes → TableDef → X Tx (Unit {0})
  remember name tdef tx = some (inr tt, record tx { tables = (name, tdef) ∷ tx.tables })

  -- A definition that was found is cached, also one of a transaction that is not committed.
  unfoldable pub get_table_def : Bytes → X Tx (Option TableDef)
  unfolding get_table_def_db from_cache remember
  get_table_def name =
      if eq_bytes name tdef_meta.name
      then give (some tdef_meta)
      else if eq_bytes name tdef_table.name
      then give (some tdef_table)
      else (do
        hit ← from_cache name
        elim hit [
          | some tdef ↦ give (some tdef)
          | none ↦ get_table_def_db name >>= λ found. elim found [
            | none ↦ give none
            | some tdef ↦ remember name tdef >> give (some tdef)
          ]
        ])

  -- a table, which must be there
  unfoldable pub known_table : Bytes → X Tx TableDef
  unfolding get_table_def
  known_table name = do
    found ← get_table_def name
    elim found [ none ↦ fail table_not_found | some tdef ↦ give tdef ]

  -- `Set` and `Delete`
  unfoldable pub set_row : Bytes → Record → Mode → X Tx Updated
  unfolding known_table db_update
  set_row table rec mode = do
    tdef ← known_table table
    on_kv (db_update ops.pages ops.levels tdef rec mode)

  unfoldable pub delete_row : Bytes → Record → X Tx Bool
  unfolding known_table db_delete
  delete_row table rec = do
    tdef ← known_table table
    on_kv (db_delete ops.pages ops.levels tdef rec)

  -- `TableNew`
  unfoldable pub new_table : TableDef → X Tx (Unit {0})
  unfolding table_new
  new_table tdef = on_kv (table_new ops.pages ops.levels ops.marshal tdef)
