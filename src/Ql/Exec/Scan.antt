-- ===== src/Ql/Exec/Scan.antt =====
-- `qlScanIter` of ql_exec.go over a `Scanner`, while the transaction goes on.
use mini_database_v.Base.{
  ℕ, zero, suc, leb, ◌&&◌, not, ◌==◌, Bool, true, false, if◌then◌else◌, Option, none, some, [], inl,
  inr,
}
use mini_database_v.Table.Value.{Record}
use mini_database_v.Table.Rows.{Scanner, db_scan, scan_valid, scan_next, scan_deref, never_fails}
use mini_database_v.Ql.Ast.{QlScan}
use mini_database_v.Ql.Range.{init_scanner}
use mini_database_v.Ql.Rows.{PullError, pull}
use mini_database_v.Ql.Exec.{
  ExecError, X, give, fail, sure, evaluated, ◌>>=◌, on_kv, DbOps, Tx, known_table,
}

abbrev pub pull_error : PullError → ExecError
pull_error (PullError.filter_failed e) = ExecError.eval e
pull_error PullError.not_boolean = ExecError.not_boolean

-- The fields of `qlScanIter`; `end` is a word of the language.
pub record RowIter (I : Type 0) : Type 0 where
  pub sc : Scanner I
  pub count : ℕ
  pub ended : Bool
  pub rec : Record
  pub err : Option ExecError

-- one more if it is so
abbrev pub plus : ℕ → Bool → ℕ
plus n true = suc n
plus n false = n

module _ (ops : DbOps) (req : QlScan) where
  abbrev pub Rows : Type 0
  Rows = RowIter ops.pages.Pages

  -- The loop of `Next`, with the rows left first.
  unfoldable pub next_loop : ℕ → Rows → X (Tx ops) Rows
  unfolding scan_valid scan_next scan_deref pull
  next_loop zero it = sure none
  next_loop (suc left) it = sure (scan_valid ops.pages ops.levels it.sc) >>= λ valid. elim valid [
    | false ↦ give (record it { ended = true })
    | true ↦ on_kv (never_fails (scan_deref ops.pages ops.levels it.sc)) >>= λ row.
        sure (pull req row) >>= λ matched. elim matched [
          | inl e ↦ give (record it { rec = row; err = some (pull_error e) })
          | inr passes ↦ sure (scan_next ops.pages ops.levels it.sc) >>= λ sc.
              (let later : Rows = record it { sc = sc; rec = row; count = plus it.count passes } in
                if passes && not (leb later.count req.offset)
                then give later
                else next_loop left later)
        ]
  ]

  unfoldable pub next_row : ℕ → Rows → X (Tx ops) Rows
  unfolding next_loop
  next_row rows it =
      if it.count == req.limit then give (record it { ended = true }) else next_loop rows it

  -- `execScan`
  unfoldable pub exec_scan_live : ℕ → X (Tx ops) Rows
  unfolding init_scanner known_table db_scan next_row
  exec_scan_live rows = do
    range ← evaluated (init_scanner req)
    tdef ← known_table ops req.table
    sc ← on_kv (db_scan ops.pages ops.levels tdef range.key1 range.cmp1 range.key2 range.cmp2)
    next_row rows (record {
      sc = sc;
      count = 0;
      ended = false;
      rec = record { cols = []; vals = [] };
      err = none;
    })

  -- `Deref`: the cached row, or the error of retrieving it.
  unfoldable pub row_of : Rows → X (Tx ops) Record
  row_of it = elim it.err [ some e ↦ fail e | none ↦ give it.rec ]
