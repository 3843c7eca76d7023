-- ===== src/Ql/Exec/Statement.antt =====
-- The statements of ql_exec.go: `execStmt` and what it calls.
use mini_database_v.Base.{
  ℕ, zero, suc, ◌+◌, ◌==◌, Bool, true, false, if◌then◌else◌, Option, none, some, List, [], ◌∷◌,
  ◌++◌, ◌⊎◌, inl, inr, length,
}
use mini_database_v.Base
use mini_database_v.Base.Bytes.{Bytes, codes, eq_bytes}
use mini_database_v.Btree.Iter.{set_elem}
use mini_database_v.Btree.Ops.{Mode}
use mini_database_v.Tx.Ops.{save, revert}
use mini_database_v.Table.Value.{Value, Record}
use mini_database_v.Table.Result.{Res, ok, err}
use mini_database_v.Table.Schema.{TableDef, slices_index, is_in, primary_key, get_values}
use mini_database_v.Ql.Ast.{
  QlNode, node, nil, ql_sym, QlScan, CreateTable, Select, Update, Insert, Stmt,
}
use mini_database_v.Ql.Display.{display}
use mini_database_v.Ql.Eval.{eval_multi}
use mini_database_v.Ql.Exec.{
  ExecError, X, give, fail, sure, evaluated, ◌>>=◌, ◌>>◌, DbOps, Tx, get_table_def, set_row,
  delete_row, new_table,
}
use mini_database_v.Ql.Exec.Scan.{RowIter, next_row, exec_scan_live, row_of, plus}

-- The iterator of a select, over that of its condition.
pub record SelectIter (I : Type 0) : Type 0 where
  pub req : QlScan
  pub iter : RowIter I
  pub names : List Bytes
  pub exprs : List QlNode

-- QLResult
pub record QlResult (I : Type 0) : Type 0 where
  pub records : Option (SelectIter I)
  pub added : ℕ
  pub updated : ℕ
  pub deleted : ℕ

abbrev pub column_of : Bytes → QlNode
column_of col = node ql_sym 0 col nil

-- The columns of a select, with "*" expanded.
unfoldable pub select_cols :
    Option TableDef → List Bytes → List QlNode → Option (List (Bytes × QlNode))
select_cols tdef [] output = some []
select_cols tdef (name ∷ names) [] = none
select_cols tdef (name ∷ names) (e ∷ output) =
    let rest = select_cols tdef names output in
    if eq_bytes name (codes "*")
    then (Base.◌>>=◌ tdef λ found.
        Base.◌>>=◌ rest λ more. some (Base.map (λ col. (col, column_of col)) found.cols ++ more))
    else Base.◌>>=◌ rest λ more. some ((name, e) ∷ more)

-- a column without a name is named after its expression
unfoldable pub with_name : Bytes × QlNode → Option Bytes
unfolding display
with_name (name, e) = if length name == 0 then display e else some name

unfoldable pub with_names : List (Bytes × QlNode) → Option (List Bytes)
unfolding with_name
with_names [] = some []
with_names (c ∷ cols) =
    Base.◌>>=◌ (with_name c) λ name. Base.◌>>=◌ (with_names cols) λ names. some (name ∷ names)

-- Only columns of the table outside the primary key may be updated.
unfoldable pub check_updated : {S : Type 0} → Option TableDef → List Bytes → X S (Unit {0})
unfolding slices_index primary_key
check_updated tdef [] = give tt
check_updated tdef (col ∷ cols) = do
  found ← sure tdef
  if is_in found.cols col
      then (sure (primary_key found) >>= λ pk.
          if is_in pk col
          then fail ExecError.cannot_update_primary_key
          else check_updated tdef cols)
      else fail (ExecError.unknown_column col)

-- `rec.Vals[slices.Index(tdef.Cols, col)] = vals[i]` for each column: the position is that of the
-- definition.
unfoldable pub put_values :
    Option TableDef → List Bytes → List Value → List Value → Option (List Value)
unfolding slices_index set_elem
put_values tdef [] vals row = some row
put_values tdef (col ∷ cols) [] row = none
put_values tdef (col ∷ cols) (v ∷ vals) row = Base.◌>>=◌ tdef λ found.
    Base.◌>>=◌ (slices_index found.cols col)
      λ i. Base.◌>>=◌ (set_elem row i v) λ row'. put_values tdef cols vals row'

-- a check of the tables
unfoldable pub checked : {S A : Type 0} → Option (Res A) → X S A
checked none s = none
checked (some (err e)) s = some (inl (ExecError.db e), s)
checked (some (ok a)) s = some (inr a, s)

-- The definition that a statement gives; the first index is the primary key, or nil.
abbrev pub def_of : CreateTable → TableDef
def_of req = record {
  name = req.name;
  types = req.types;
  cols = req.cols;
  indexes = req.primary ∷ req.indexes;
  prefixes = [];
}

module _ (ops : DbOps) where
  -- `qlSelectIter.Deref`
  unfoldable pub select_deref : SelectIter ops.pages.Pages → X (Tx ops) Record
  unfolding row_of eval_multi
  select_deref it = do
    row ← row_of ops it.req it.iter
    vals ← evaluated (eval_multi row it.exprs)
    give (record { cols = it.names; vals = vals })

  -- `execSelect`
  unfoldable pub exec_select : ℕ → Select → X (Tx ops) (SelectIter ops.pages.Pages)
  unfolding exec_scan_live get_table_def select_cols with_names
  exec_select rows req = do
    records ← exec_scan_live ops req.scan rows
    tdef ← get_table_def ops req.scan.table
    cols ← sure (select_cols tdef req.names req.output)
    names ← sure (with_names cols)
    give
        (record { req = req.scan; iter = records; names = names; exprs = Base.map (λ c. c.1) cols })

  -- `execInsert`: how many rows were added, and how many were added or updated.
  unfoldable pub insert_loop : Insert → List (List QlNode) → ℕ → ℕ → X (Tx ops) (ℕ × ℕ)
  unfolding eval_multi set_row
  insert_loop req [] added updated = give (added, updated)
  insert_loop req (exprs ∷ rest) added updated = do
    vals ← evaluated (eval_multi (record { cols = []; vals = [] }) exprs)
    done ← set_row ops req.table (record { cols = req.names; vals = vals }) req.mode
    insert_loop req rest (plus added done.added) (plus updated done.updated)

  unfoldable pub exec_insert : Insert → X (Tx ops) (ℕ × ℕ)
  unfolding insert_loop
  exec_insert req = insert_loop req req.values 0 0

  -- The loop of `execUpdate`; the rows that the iterator may pass at most, and those that one step
  -- may pass, come first.
  unfoldable pub update_loop :
      ℕ → ℕ → Update → Option TableDef → RowIter ops.pages.Pages → ℕ → X (Tx ops) ℕ
  unfolding row_of eval_multi put_values set_row next_row
  update_loop zero rows req tdef it n = sure none
  update_loop (suc left) rows req tdef it n = elim it.ended [
    | true ↦ give n
    | false ↦ row_of ops req.scan it >>= λ row. evaluated (eval_multi row req.values) >>= λ vals.
        sure (put_values tdef req.names vals row.vals) >>= λ new.
        set_row ops req.scan.table (record row { vals = new }) Mode.update_only >>= λ done.
        next_row ops req.scan rows it >>= λ it'.
        update_loop left rows req tdef it' (plus n done.updated)
  ]

  -- `execUpdate`
  unfoldable pub exec_update : ℕ → Update → X (Tx ops) ℕ
  unfolding get_table_def check_updated exec_scan_live update_loop
  exec_update rows req = do
    sure (if length req.names == length req.values then some tt else none)
    tdef ← get_table_def ops req.scan.table
    check_updated tdef req.names
    records ← exec_scan_live ops req.scan rows
    update_loop (suc rows) rows req tdef records 0

  -- The loop of `execDelete`, whose rows are deleted by their primary keys.
  unfoldable pub delete_loop :
      ℕ → ℕ → QlScan → TableDef → RowIter ops.pages.Pages → ℕ → X (Tx ops) ℕ
  unfolding row_of get_values primary_key delete_row next_row
  delete_loop zero rows req tdef it n = sure none
  delete_loop (suc left) rows req tdef it n = elim it.ended [
    | true ↦ give n
    | false ↦ row_of ops req it >>= λ row. sure (primary_key tdef) >>= λ pk.
        checked (get_values tdef row pk) >>= λ vals.
        delete_row ops req.table (record { cols = pk; vals = vals }) >>= λ deleted.
        sure (if deleted then some tt else none) >> next_row ops req rows it >>= λ it'.
        delete_loop left rows req tdef it' (suc n)
  ]

  -- `execDelete`
  unfoldable pub exec_delete : ℕ → QlScan → X (Tx ops) ℕ
  unfolding exec_scan_live get_table_def delete_loop
  exec_delete rows req = do
    records ← exec_scan_live ops req rows
    found ← get_table_def ops req.table
    tdef ← sure found
    delete_loop (suc rows) rows req tdef records 0

  abbrev pub Result : Type 0
  Result = QlResult ops.pages.Pages

  abbrev pub no_result : Result
  no_result = record { records = none; added = 0; updated = 0; deleted = 0 }

  -- The statement by its type; the statements of transactions do not come here.
  unfoldable pub run_stmt : ℕ → Stmt → X (Tx ops) Result
  unfolding new_table exec_select exec_insert exec_update exec_delete
  run_stmt rows (Stmt.create_table req) = new_table ops (def_of req) >> give no_result
  run_stmt rows (Stmt.select req) =
      exec_select rows req >>= λ it. give (record no_result { records = some it })
  run_stmt rows (Stmt.insert req) =
      exec_insert req >>= λ n. give (record no_result { added = n.0; updated = n.1 })
  run_stmt rows (Stmt.update req) =
      exec_update rows req >>= λ n. give (record no_result { updated = n })
  run_stmt rows (Stmt.delete req) =
      exec_delete rows req >>= λ n. give (record no_result { deleted = n })
  run_stmt rows Stmt.begin_tx = sure none
  run_stmt rows Stmt.commit_tx = sure none
  run_stmt rows Stmt.rollback_tx = sure none

  -- `execStmt`: an error reverts what the statement has written and read; the cache of definitions
  -- stays.
  unfoldable pub exec_stmt : ℕ → Stmt → X (Tx ops) Result
  unfolding run_stmt save revert
  exec_stmt rows stmt tx = elim (run_stmt rows stmt tx) [
    | none ↦ none
    | some (inl e, tx') ↦ some (inl e, record tx' { kv = revert (save tx.kv) tx'.kv })
    | some (inr res, tx') ↦ some (inr res, tx')
  ]
