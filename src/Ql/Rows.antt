-- ===== src/Ql/Rows.antt =====
-- `qlScanIter` of ql_exec.go: the rows of a Scanner that satisfy FILTER, within LIMIT.
pub mod Step
pub mod Limit
use mini_database_v.Base.{
  ℕ, zero, suc, ◌+◌, ◌-◌, ◌<◌, ◌≤◌, Bool, true, false, not, List, [], ◌∷◌, Option, none, some, ◌==◌,
  leb, ltb, ◌>>=◌, if◌then◌else◌, ◌≡◌, refl, arith, inl, inr, ◌⊎◌, length, take, drop, Bool-cases,
}
use mini_database_v.Table.Value.{Record, type_int64}
use mini_database_v.Ql.Ast.{QlScan, QlNode}
use mini_database_v.Ql.Clause.{is_unset}
use mini_database_v.Ql.Arith.{EvalError}
use mini_database_v.Ql.Eval.{eval_expr, empty_ctx}

pub data PullError : Type 0 where
  filter_failed : EvalError → PullError
  not_boolean : PullError

-- Does the row satisfy the filter? `none` is a panic.
unfoldable pub pull : QlScan → Record → Option (PullError ⊎ Bool)
pull req row = if is_unset req.filter then some (inr true) else (do
  ctx ← eval_expr row empty_ctx req.filter
  elim ctx.err [
    | some e ↦ some (inl (filter_failed e))
    | none ↦
        if not (ctx.out.type == type_int64)
        then some (inl not_boolean)
        else some (inr (not (ctx.out.i64 == 0)))
  ])

-- The Scanner is the rows that it still has, the current one first; `end` is a word of the language.
pub record ScanIter : Type 0 where
  pub rows : List Record
  pub count : ℕ
  pub ended : Bool
  pub rec : Record
  pub err : Option PullError

-- The loop of `Next`.
unfoldable pub next_rows : QlScan → List Record → ScanIter → Option ScanIter
next_rows req [] it =
    some (record { rows = []; count = it.count; ended = true; rec = it.rec; err = it.err })
next_rows req (r ∷ rs) it =
    let skip = λ (n : ℕ).
      next_rows req rs (record { rows = rs; count = n; ended = it.ended; rec = r; err = it.err }) in
    do
      matched ← pull req r
      elim matched [
        | inl e ↦
            some
              (record { rows = r ∷ rs; count = it.count; ended = it.ended; rec = r; err = some e })
        | inr false ↦ skip it.count
        | inr true ↦
            if leb (suc it.count) req.offset
            then skip (suc it.count)
            else some (record {
              rows = rs;
              count = suc it.count;
              ended = it.ended;
              rec = r;
              err = it.err;
            })
      ]

unfoldable pub next : QlScan → ScanIter → Option ScanIter
next req it =
    if it.count == req.limit
    then some
        (record { rows = it.rows; count = it.count; ended = true; rec = it.rec; err = it.err })
    else next_rows req it.rows it

-- `execScan` over the rows that the Scanner gives.
unfoldable pub exec_scan : QlScan → List Record → Option ScanIter
exec_scan req rows = next req (record {
  rows = rows;
  count = 0;
  ended = false;
  rec = record { cols = []; vals = [] };
  err = none;
})

-- The loop of `printRecords` in cmd/ql.go over the iterator: the rows that it
-- prints, or the error that ends it; what is printed in front of an error is left out.
unfoldable pub collect : QlScan → ℕ → ScanIter → Option (PullError ⊎ List Record)
collect req zero it = none
collect req (suc fuel) it =
    let rest = next req it >>= collect req fuel in
    if it.ended then some (inr []) else elim it.err [
      | some e ↦ some (inl e)
      | none ↦ rest >>= (λ r. some (elim r [ inl e ↦ inl e | inr rows ↦ inr (it.rec ∷ rows) ]))
    ]
