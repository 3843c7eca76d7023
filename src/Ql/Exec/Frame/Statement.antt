-- ===== src/Ql/Exec/Frame/Statement.antt =====
-- Each statement of ql_exec.go leaves the snapshot of its transaction alone.
use mini_database_v.Base.{ℕ, zero, suc, ◌&&◌, not, leb, Option, none, some, List, [], ◌∷◌, ◌==◌}
use mini_database_v.Base.Bytes.{Bytes}
use mini_database_v.Btree.Ops.{Mode}
use mini_database_v.Table.Schema.{TableDef, is_in}
use mini_database_v.Tx.Ops.Frame.{Frame-refl}
use mini_database_v.Table.Rows.Frame.{never_fails-Keeps, db_scan-Keeps, scan_deref-Keeps}
use mini_database_v.Ql.Ast.{QlNode, QlScan, Select, Update, Insert, Stmt}
use mini_database_v.Tx.Ops.{Tree}
use mini_database_v.Ql.Exec.{DbOps}
use mini_database_v.Ql.Exec.Frame.{
  Leaves, give-Leaves, fail-Leaves, sure-Leaves, evaluated-Leaves, bind-Leaves, on_kv-Leaves,
  if-Leaves, bool-Leaves, option-Leaves, sum-Leaves, get_table_def-Leaves, known_table-Leaves,
  set_row-Leaves, delete_row-Leaves, new_table-Leaves,
}
use mini_database_v.Ql.Exec.Scan.{RowIter, next_loop, next_row, exec_scan_live, row_of, plus}
use mini_database_v.Ql.Exec.Statement.{
  check_updated, exec_select, insert_loop, exec_insert, update_loop, exec_update, delete_loop,
  exec_delete, run_stmt, checked, def_of,
}
use mini_database_v.Table.Result.{Res, ok, err}

pub checked-Leaves : {T A : Type 0} (r : Option (Res A)) → Leaves {T = T} (checked r)
unfolding checked
checked-Leaves none = record { framed = λ tx. tt }
checked-Leaves (some (err e)) = record { framed = λ tx. Frame-refl tx.kv }
checked-Leaves (some (ok a)) = record { framed = λ tx. Frame-refl tx.kv }

module _ (ops : DbOps) where
  abbrev Rows : Type 0
  Rows = RowIter ops.pages.Pages

  next_loop-Leaves : (req : QlScan) (left : ℕ) (it : Rows) → Leaves (next_loop ops req left it)
  unfolding next_loop
  next_loop-Leaves req zero it = sure-Leaves none
  next_loop-Leaves req (suc left) it = bind-Leaves (sure-Leaves _) λ valid.
      bool-Leaves valid
        (bind-Leaves
          (on_kv-Leaves (never_fails-Keeps (scan_deref-Keeps ops.pages ops.levels it.sc)))
          λ row. bind-Leaves (sure-Leaves _) λ matched.
            sum-Leaves matched (λ e. give-Leaves _)
              λ passes. bind-Leaves (sure-Leaves _) λ sc.
                (let later : Rows = record it {
                  sc = sc;
                  rec = row;
                  count = plus it.count passes;
                } in
                  if-Leaves (passes && not (leb later.count req.offset)) (give-Leaves later)
                    (next_loop-Leaves req left later)))
        (give-Leaves _)

  next_row-Leaves : (req : QlScan) (rows : ℕ) (it : Rows) → Leaves (next_row ops req rows it)
  unfolding next_row
  next_row-Leaves req rows it =
      if-Leaves (it.count == req.limit) (give-Leaves _) (next_loop-Leaves req rows it)

  exec_scan_live-Leaves : (req : QlScan) (rows : ℕ) → Leaves (exec_scan_live ops req rows)
  unfolding exec_scan_live
  exec_scan_live-Leaves req rows = bind-Leaves (evaluated-Leaves _) λ range.
      bind-Leaves (known_table-Leaves ops req.table) λ tdef.
        bind-Leaves
          (on_kv-Leaves
            (db_scan-Keeps ops.pages ops.levels tdef range.key1 range.cmp1 range.key2 range.cmp2))
          λ sc. next_row-Leaves req rows _

  row_of-Leaves : (req : QlScan) (it : Rows) → Leaves (row_of ops req it)
  unfolding row_of
  row_of-Leaves req it = option-Leaves it.err (give-Leaves it.rec) fail-Leaves

  exec_select-Leaves : (rows : ℕ) (req : Select) → Leaves (exec_select ops rows req)
  unfolding exec_select
  exec_select-Leaves rows req = bind-Leaves (exec_scan_live-Leaves req.scan rows) λ records.
      bind-Leaves (get_table_def-Leaves ops req.scan.table) λ tdef.
        bind-Leaves (sure-Leaves _) λ cols. bind-Leaves (sure-Leaves _) λ names. give-Leaves _

  insert_loop-Leaves :
      (req : Insert) (rows : List (List QlNode)) (added updated : ℕ)
      → Leaves (insert_loop ops req rows added updated)
  unfolding insert_loop
  insert_loop-Leaves req [] added updated = give-Leaves (added, updated)
  insert_loop-Leaves req (exprs ∷ rest) added updated = bind-Leaves (evaluated-Leaves _) λ vals.
      bind-Leaves (set_row-Leaves ops req.table (record { cols = req.names; vals = vals }) req.mode)
        λ done. insert_loop-Leaves req rest (plus added done.added) (plus updated done.updated)

  check_updated-Leaves :
      (tdef : Option TableDef) (cols : List Bytes)
      → Leaves {T = (Tree ops.pages ops.levels)} (check_updated tdef cols)
  unfolding check_updated
  check_updated-Leaves tdef [] = give-Leaves tt
  check_updated-Leaves tdef (col ∷ cols) = bind-Leaves (sure-Leaves tdef) λ found.
      if-Leaves (is_in found.cols col)
        (bind-Leaves (sure-Leaves _)
          λ pk. if-Leaves (is_in pk col) (fail-Leaves _) (check_updated-Leaves tdef cols))
        (fail-Leaves _)

  update_loop-Leaves :
      (left rows : ℕ) (req : Update) (tdef : Option TableDef) (it : Rows) (n : ℕ)
      → Leaves (update_loop ops left rows req tdef it n)
  unfolding update_loop
  update_loop-Leaves zero rows req tdef it n = sure-Leaves none
  update_loop-Leaves (suc left) rows req tdef it n = bool-Leaves it.ended (give-Leaves n) (
      bind-Leaves (row_of-Leaves req.scan it) λ row. bind-Leaves (evaluated-Leaves _) λ vals.
        bind-Leaves (sure-Leaves _) λ new.
          bind-Leaves
            (set_row-Leaves ops req.scan.table (record row { vals = new }) Mode.update_only)
            λ done.
              bind-Leaves (next_row-Leaves req.scan rows it)
                λ it'. update_loop-Leaves left rows req tdef it' (plus n done.updated))

  exec_update-Leaves : (rows : ℕ) (req : Update) → Leaves (exec_update ops rows req)
  unfolding exec_update
  exec_update-Leaves rows req = bind-Leaves (sure-Leaves _) λ same.
      bind-Leaves (get_table_def-Leaves ops req.scan.table) λ tdef.
        bind-Leaves (check_updated-Leaves tdef req.names) λ allowed.
          bind-Leaves (exec_scan_live-Leaves req.scan rows)
            λ records. update_loop-Leaves (suc rows) rows req tdef records 0

  delete_loop-Leaves :
      (left rows : ℕ) (req : QlScan) (tdef : TableDef) (it : Rows) (n : ℕ)
      → Leaves (delete_loop ops left rows req tdef it n)
  unfolding delete_loop
  delete_loop-Leaves zero rows req tdef it n = sure-Leaves none
  delete_loop-Leaves (suc left) rows req tdef it n = bool-Leaves it.ended (give-Leaves n) (
      bind-Leaves (row_of-Leaves req it) λ row. bind-Leaves (sure-Leaves _) λ pk.
        bind-Leaves (checked-Leaves _) λ vals.
          bind-Leaves (delete_row-Leaves ops req.table (record { cols = pk; vals = vals }))
            λ deleted.
              bind-Leaves (bind-Leaves (sure-Leaves _) λ done. next_row-Leaves req rows it)
                λ it'. delete_loop-Leaves left rows req tdef it' (suc n))

  exec_delete-Leaves : (rows : ℕ) (req : QlScan) → Leaves (exec_delete ops rows req)
  unfolding exec_delete
  exec_delete-Leaves rows req = bind-Leaves (exec_scan_live-Leaves req rows) λ records.
      bind-Leaves (get_table_def-Leaves ops req.table) λ found.
        bind-Leaves (sure-Leaves found)
          λ tdef. delete_loop-Leaves (suc rows) rows req tdef records 0

  pub run_stmt-Leaves : (rows : ℕ) (stmt : Stmt) → Leaves (run_stmt ops rows stmt)
  unfolding run_stmt exec_insert
  run_stmt-Leaves rows (Stmt.create_table req) =
      bind-Leaves (new_table-Leaves ops (def_of req)) λ done. give-Leaves _
  run_stmt-Leaves rows (Stmt.select req) =
      bind-Leaves (exec_select-Leaves rows req) λ it. give-Leaves _
  run_stmt-Leaves rows (Stmt.insert req) =
      bind-Leaves (insert_loop-Leaves req req.values 0 0) λ n. give-Leaves _
  run_stmt-Leaves rows (Stmt.update req) =
      bind-Leaves (exec_update-Leaves rows req) λ n. give-Leaves _
  run_stmt-Leaves rows (Stmt.delete req) =
      bind-Leaves (exec_delete-Leaves rows req) λ n. give-Leaves _
  run_stmt-Leaves rows Stmt.begin_tx = sure-Leaves none
  run_stmt-Leaves rows Stmt.commit_tx = sure-Leaves none
  run_stmt-Leaves rows Stmt.rollback_tx = sure-Leaves none
