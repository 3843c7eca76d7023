-- ===== src/Examples/Queries.antt =====
-- Statements, the scanner of the prompt and the rows of a query.
use mini_database_v.Base.{
  ltb, Bool-cases, inl, false, ℕ, ◌≡◌, refl, arith, Bool, true, List, [], ◌∷◌, ◌++◌, none, some,
  inr, ◌⊎◌, ◌>>=◌,
}
use mini_database_v.Base.Bytes.{Bytes, codes, eq_bytes}
use mini_database_v.Table.Value.{Record, get, get_from}
use mini_database_v.Ql.Lex.{is_space, drop_while}
use mini_database_v.Ql.Ast.{
  QlScan, QlNode, node, nil, ql_add, ql_cmp_gt, ql_tup, ql_sym, ql_i64, empty_node, with_kids,
}
use mini_database_v.Ql.Scanner.{
  StmtScanner, found, next_stmt_str, append, next_stmt_str_splits, next_stmt_str-append, scan,
  next_quote,
}
use mini_database_v.Ql.Repl.{scan_all, ReachesEmpty, at_empty, scan_all_hangs, scan_all_ends}
use mini_database_v.Ql.Arith.{cmp2bool}
use mini_database_v.Ql.Eval.{
  EvalCtx, eval_bin_op, bin_op, end_cmp, value_cmp, eval_expr, eval_multi, eval_op, empty_ctx,
}
use mini_database_v.Ql.Eval.Total.{IsDone}
use mini_database_v.Ql.Eval.Panics.{IsExpr, IsRow, eval_expr-IsDone}
use mini_database_v.Cmp.{Cmp}
use mini_database_v.Ql.Range.{
  ScanRange, IsOpposite, init_scanner, eval_scan_key, tuple_key, scan_cmp, col_names, scan_range,
  init_scanner-IsOpposite,
}
use mini_database_v.Ql.Rows.{pull, exec_scan, collect}
use mini_database_v.Ql.Rows.Limit.{exec_scan_lem}

abbrev input : StmtScanner
input = record { rest = codes " a';';b" }

abbrev rest : StmtScanner
rest = record { rest = codes "b" }

first_found : next_stmt_str input ≡ (found (codes "a';';"), rest)
unfolding next_stmt_str scan next_quote drop_while is_space
first_found = refl

next_stmt_str_splits_example : drop_while is_space (codes " a';';b") ≡ codes "a';';" ++ codes "b"
next_stmt_str_splits_example = next_stmt_str_splits input rest (codes "a';';") first_found

next_stmt_str-append_example :
    next_stmt_str (append (codes ";") input) ≡ (found (codes "a';';"), append (codes ";") rest)
next_stmt_str-append_example =
    next_stmt_str-append input rest (codes "a';';") (codes ";") first_found

-- The input of a line that is a semicolon alone.
abbrev lonely : StmtScanner
lonely = record { rest = codes ";" }

lonely-ReachesEmpty : ReachesEmpty lonely
unfolding drop_while is_space
lonely-ReachesEmpty = at_empty [] refl

scan_all_hangs_example : scan_all 1000 lonely [] ≡ none
scan_all_hangs_example = scan_all_hangs 1000 lonely [] lonely-ReachesEmpty

scan_all_ends_example :
    ReachesEmpty input
    ⊎ ((b : Bool) × ((l : List Bytes) × ((s' : StmtScanner) × (scan_all 8 input []
              ≡ some (b, l, s')))))
scan_all_ends_example = scan_all_ends 8 input [] (omega arith)

abbrev query : QlScan
query = record {
  table = codes "t";
  key1 = empty_node;
  key2 = empty_node;
  filter = empty_node;
  offset = 1;
  limit = 2;
}

-- FILTER a > 1
abbrev filtered : QlScan
filtered = record query {
  filter = with_kids ql_cmp_gt (node ql_sym 0 (codes "a") nil ∷ node ql_i64 1 [] nil ∷ []);
}

abbrev numbered : ℕ → Record
numbered n = record { cols = codes "a" ∷ []; vals = record { type = 2; i64 = n; str = [] } ∷ [] }

abbrev above_1 : Record → Bool
above_1 r = elim r.vals [ [] ↦ false | v ∷ vs ↦ ltb 1 v.i64 ]

abbrev four_rows : List Record
four_rows = numbered 2 ∷ numbered 1 ∷ numbered 3 ∷ numbered 4 ∷ []

-- The row whose number is 1 does not count: LIMIT 1, 2 gives the second of the others.
exec_scan_example :
    (exec_scan filtered four_rows >>= collect filtered 5) ≡ some (inr (numbered 3 ∷ []))
unfolding pull eval_expr eval_op get get_from eval_bin_op bin_op end_cmp value_cmp cmp2bool
exec_scan_example =
    exec_scan_lem filtered above_1 four_rows 5 (refl, (refl, (refl, (refl, tt)))) (omega arith)

-- a + 1
abbrev sum : QlNode
sum = with_kids ql_add (node ql_sym 0 (codes "a") nil ∷ node ql_i64 1 [] nil ∷ [])

sum-IsExpr : IsExpr sum
unfolding IsExpr
sum-IsExpr = (refl, ((tt, tt), ((tt, tt), tt)))

numbered-IsRow : IsRow (numbered 5)
unfolding get get_from
numbered-IsRow col = elim (Bool-cases (eq_bytes (codes "a") col)) [
  | inl here ↦ (some (record { type = 2; i64 = 5; str = [] }), rw here, inl refl)
  | inr other ↦ (none, rw other, tt)
]

eval_expr-IsDone_example :
    (c : EvalCtx) × (eval_expr (numbered 5) empty_ctx sum ≡ some c)
    × IsDone c
    × (false ≡ true → c ≡ empty_ctx)
eval_expr-IsDone_example = eval_expr-IsDone (numbered 5) sum empty_ctx numbered-IsRow sum-IsExpr

-- INDEX BY a > 3
abbrev by_index : QlScan
by_index = record query {
  key1 = with_kids ql_cmp_gt (
      with_kids ql_tup (node ql_sym 0 (codes "a") nil ∷ [])
      ∷ with_kids ql_tup (node ql_i64 3 [] nil ∷ [])
      ∷ []);
}

abbrev above_3 : ScanRange
above_3 = record {
  key1 = record { cols = codes "a" ∷ []; vals = record { type = 2; i64 = 3; str = [] } ∷ [] };
  cmp1 = Cmp.gt;
  key2 = record { cols = []; vals = [] };
  cmp2 = Cmp.le;
}

by_index_range : init_scanner by_index ≡ some (inr above_3)
unfolding init_scanner eval_scan_key tuple_key scan_cmp col_names scan_range eval_multi eval_expr
    eval_op
by_index_range = refl

init_scanner-IsOpposite_example : IsOpposite above_3
init_scanner-IsOpposite_example = init_scanner-IsOpposite by_index above_3 refl by_index_range
