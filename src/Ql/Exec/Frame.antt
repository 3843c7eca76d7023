-- ===== src/Ql/Exec/Frame.antt =====
-- What the statements of ql_exec.go leave alone in their transaction, whatever they answer.
pub mod Statement
use mini_database_v.Base.{
  ℕ, zero, suc, Bool, true, false, Option, none, some, List, [], ◌∷◌, ◌⊎◌, inl, inr, if◌then◌else◌,
  ◌==◌,
}
use mini_database_v.Base.Bytes.{Bytes, codes, eq_bytes}
use mini_database_v.Btree.Ops.{Mode}
use mini_database_v.Tx.State.{Kvtx}
use mini_database_v.Tx.Ops.Frame.{Frame, Frame-refl, Frame-trans, Framed}
use mini_database_v.Table.Value.{Record, add_str}
use mini_database_v.Table.Result
use mini_database_v.Table.Result.{M, Res}
use mini_database_v.Table.Result.Keeps.{Keeps}
use mini_database_v.Table.Schema.{TableDef}
use mini_database_v.Table.Rows.Frame.{never_fails-Keeps, db_get-Keeps}
use mini_database_v.Table.Rows.Write.{no_columns, tdef_meta, tdef_table}
use mini_database_v.Table.Rows.Write.Frame.{db_update-Keeps, db_delete-Keeps, table_new-Keeps}
use mini_database_v.Ql.Arith.{EvalError}
use mini_database_v.Ql.Exec.{
  ExecError, DbTx, X, give, fail, sure, evaluated, on_kv, ◌>>=◌, ◌>>◌, DbOps, Tx, definition,
  get_table_def_db, from_cache, remember, get_table_def, known_table, set_row, delete_row,
  new_table,
}

module _ {T : Type 0} where
  abbrev pub FramedTx : {A : Type 0} → DbTx T → Option (A × DbTx T) → Type 0
  FramedTx tx none = Unit
  FramedTx tx (some (a, tx')) = Frame tx.kv tx'.kv

  pub record Leaves {A : Type 0} (m : X (DbTx T) A) : Type 0 where
    pub framed : (tx : DbTx T) → FramedTx tx (m tx)

  FramedTx-trans :
      {A : Type 0} (a b : DbTx T) (o : Option (A × DbTx T))
      → Frame a.kv b.kv
      → FramedTx b o
      → FramedTx a o
  FramedTx-trans a b none p q = tt
  FramedTx-trans a b (some (r, c)) p q = Frame-trans a.kv b.kv c.kv p q

  pub give-Leaves : {A : Type 0} (a : A) → Leaves (give a)
  unfolding give
  give-Leaves a = record { framed = λ tx. Frame-refl tx.kv }

  pub fail-Leaves : {A : Type 0} (e : ExecError) → Leaves (fail {A = A} e)
  unfolding fail
  fail-Leaves e = record { framed = λ tx. Frame-refl tx.kv }

  pub sure-Leaves : {A : Type 0} (o : Option A) → Leaves (sure o)
  unfolding sure
  sure-Leaves none = record { framed = λ tx. tt }
  sure-Leaves (some a) = record { framed = λ tx. Frame-refl tx.kv }

  pub evaluated-Leaves : {A : Type 0} (o : Option (EvalError ⊎ A)) → Leaves (evaluated o)
  unfolding evaluated
  evaluated-Leaves none = record { framed = λ tx. tt }
  evaluated-Leaves (some (inl e)) = record { framed = λ tx. Frame-refl tx.kv }
  evaluated-Leaves (some (inr a)) = record { framed = λ tx. Frame-refl tx.kv }

  after :
      {A B : Type 0} (f : A → X (DbTx T) B) (tx : DbTx T) (o : Option ((ExecError ⊎ A) × DbTx T))
      → FramedTx tx o
      → ((a : A) → Leaves (f a))
      → FramedTx tx
          (elim o [ none ↦ none | some (inl e, s') ↦ some (inl e, s') | some (inr a, s') ↦ f a s' ])
  after f tx none h k = tt
  after f tx (some (inl e, tx')) h k = h
  after f tx (some (inr a, tx')) h k = FramedTx-trans tx tx' (f a tx') h ((k a).framed tx')

  pub bind-Leaves :
      {A B : Type 0} {m : X (DbTx T) A} {f : A → X (DbTx T) B}
      → Leaves m
      → ((a : A) → Leaves (f a))
      → Leaves (m >>= f)
  unfolding ◌>>=◌
  bind-Leaves {m = m} {f = f} p k = record { framed = λ tx. after f tx (m tx) (p.framed tx) k }

  within :
      {A : Type 0} (tx : DbTx T) (o : Option (Res A × Kvtx T))
      → Framed tx.kv o
      → FramedTx tx (elim o [
        | none ↦ none
        | some (Result.err e, kv) ↦ some (inl (ExecError.db e), record tx { kv = kv })
        | some (Result.ok a, kv) ↦ some (inr a, record tx { kv = kv })
      ])
  within tx none h = tt
  within tx (some (Result.err e, kv)) h = h
  within tx (some (Result.ok a, kv)) h = h

  pub on_kv-Leaves : {A : Type 0} {m : M (Kvtx T) A} → Keeps m → Leaves (on_kv m)
  unfolding on_kv
  on_kv-Leaves {m = m} p = record { framed = λ tx. within tx (m tx.kv) (p.framed tx.kv) }

  pub if-Leaves :
      {A : Type 0} {m k : X (DbTx T) A} (b : Bool)
      → Leaves m
      → Leaves k
      → Leaves (if b then m else k)
  if-Leaves true p q = p
  if-Leaves false p q = q

  pub bool-Leaves :
      {A : Type 0} {m k : X (DbTx T) A} (b : Bool)
      → Leaves m
      → Leaves k
      → Leaves (elim b [ true ↦ m | false ↦ k ])
  bool-Leaves true p q = p
  bool-Leaves false p q = q

  pub option-Leaves :
      {A B : Type 0} {m : X (DbTx T) A} {f : B → X (DbTx T) A} (o : Option B)
      → Leaves m
      → ((b : B) → Leaves (f b))
      → Leaves (elim o [ none ↦ m | some b ↦ f b ])
  option-Leaves none p q = p
  option-Leaves (some b) p q = q b

  pub sum-Leaves :
      {A B C : Type 0} {f : A → X (DbTx T) C} {g : B → X (DbTx T) C} (o : A ⊎ B)
      → ((a : A) → Leaves (f a))
      → ((b : B) → Leaves (g b))
      → Leaves (elim o [ inl a ↦ f a | inr b ↦ g b ])
  sum-Leaves (inl a) p q = p a
  sum-Leaves (inr b) p q = q b

module _ (ops : DbOps) where
  get_table_def_db-Leaves : (name : Bytes) → Leaves (get_table_def_db ops name)
  unfolding get_table_def_db
  get_table_def_db-Leaves name =
      bind-Leaves
        (on_kv-Leaves (
          never_fails-Keeps (
            db_get-Keeps ops.pages ops.levels 1 tdef_table
              (add_str no_columns (codes "name") name))))
        λ found.
          option-Leaves found (give-Leaves none)
            λ row. bind-Leaves (sure-Leaves (definition ops row)) λ tdef. give-Leaves (some tdef)

  from_cache-Leaves : (name : Bytes) → Leaves (from_cache ops name)
  unfolding from_cache
  from_cache-Leaves name = record { framed = λ tx. Frame-refl tx.kv }

  remember-Leaves : (name : Bytes) (tdef : TableDef) → Leaves (remember ops name tdef)
  unfolding remember
  remember-Leaves name tdef = record { framed = λ tx. Frame-refl tx.kv }

  pub get_table_def-Leaves : (name : Bytes) → Leaves (get_table_def ops name)
  unfolding get_table_def
  get_table_def-Leaves name = if-Leaves (eq_bytes name tdef_meta.name) (give-Leaves _) (
      if-Leaves (eq_bytes name tdef_table.name) (give-Leaves _) (
        bind-Leaves (from_cache-Leaves name) λ hit.
          option-Leaves hit
            (bind-Leaves (get_table_def_db-Leaves name) λ found.
              option-Leaves found (give-Leaves none)
                λ tdef. bind-Leaves (remember-Leaves name tdef) λ done. give-Leaves (some tdef))
            (λ tdef. give-Leaves (some tdef))))

  pub known_table-Leaves : (name : Bytes) → Leaves (known_table ops name)
  unfolding known_table
  known_table-Leaves name =
      bind-Leaves (get_table_def-Leaves name)
        λ found. option-Leaves found (fail-Leaves _) give-Leaves

  pub set_row-Leaves :
      (table : Bytes) (rec : Record) (mode : Mode) → Leaves (set_row ops table rec mode)
  unfolding set_row
  set_row-Leaves table rec mode =
      bind-Leaves (known_table-Leaves table)
        λ tdef. on_kv-Leaves (db_update-Keeps ops.pages ops.levels tdef rec mode)

  pub delete_row-Leaves : (table : Bytes) (rec : Record) → Leaves (delete_row ops table rec)
  unfolding delete_row
  delete_row-Leaves table rec =
      bind-Leaves (known_table-Leaves table)
        λ tdef. on_kv-Leaves (db_delete-Keeps ops.pages ops.levels tdef rec)

  pub new_table-Leaves : (tdef : TableDef) → Leaves (new_table ops tdef)
  unfolding new_table
  new_table-Leaves tdef = on_kv-Leaves (table_new-Keeps ops.pages ops.levels ops.marshal tdef)
