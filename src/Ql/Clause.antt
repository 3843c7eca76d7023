-- ===== src/Ql/Clause.antt =====
-- The clauses of statements in ql_parse.go: names and types of columns, INDEX BY, FILTER and LIMIT.
use mini_database_v.Base.{
  ℕ, suc, ◌-◌, ◌^◌, Bool, true, false, not, ◌&&◌, ◌||◌, List, [], ◌∷◌, ◌++◌, map, Option, none,
  some, ◌>>=◌, if◌then◌else◌, length, ◌==◌,
}
use mini_database_v.Base.Bytes.{Bytes, codes, eq_bytes}
use mini_database_v.Table.Value.{type_bytes, type_int64}
use mini_database_v.Ql.Ast.{
  QlNode, node, nil, kid, unset, ql_and, ql_cmp_eq, ql_cmp_ne, ql_cmp_ge, ql_cmp_le, ql_cmp_gt,
  ql_cmp_lt, ql_tup, ql_sym, empty_node, with_kids, type_of, i64_of, kids_of, from_kids, QlScan,
  CreateTable,
}
use mini_database_v.Ql.Lex.{
  Parser, expect_paren, duplicate_primary_key, bad_column_type, single_eq, ne_not_allowed,
  expect_comparison, tuple_and_single, count_mismatch, expect_columns, bad_limit, match, p_err,
  consume, try_num, p_sym, to_lower,
}
use mini_database_v.Ql.Expr.{Parse, p_grouped_comma_list, appending, p_expr, p_expr_or, p_expr_and}

-- a parser that always returns
abbrev pub sure : {A : Type 0} → (Parser → A × Parser) → Parse A
sure f p = some (f p)

unfoldable pub p_name_list : Parse (List Bytes)
unfolding consume p_grouped_comma_list p_sym
p_name_list p =
    p_grouped_comma_list (appending (sure p_sym)) [] (consume (codes "(") expect_paren p)

unfoldable pub p_col_type : Parser → ℕ × Parser
unfolding p_sym to_lower p_err
p_col_type p =
    let (name, p1) = p_sym p in
    let lower = map to_lower name in
    if eq_bytes lower (codes "string") || eq_bytes lower (codes "bytes")
    then (type_bytes, p1)
    else if eq_bytes lower (codes "int") || eq_bytes lower (codes "int64")
    then (type_int64, p1)
    else (0, p_err bad_column_type p1)

-- the closure of `pCreateTable`; a primary key that is `nil` is not there yet
unfoldable pub create_item : CreateTable → Parse CreateTable
create_item def p = elim (match (codes "index" ∷ []) p) [
  | some p1 ↦ do
    (names, p2) ← p_name_list p1
    some (record def { indexes = def.indexes ++ names ∷ [] }, p2)
  | none ↦ elim (match (codes "primary" ∷ codes "key" ∷ []) p) [
    | some p1 ↦
        if not (length def.primary == 0)
        then some (def, p_err duplicate_primary_key p1)
        else (do (names, p2) ← p_name_list p1; some (record def { primary = names }, p2))
    | none ↦
        let (name, p1) = p_sym p in
        let (type, p2) = p_col_type p1 in
        some (record def { cols = def.cols ++ name ∷ []; types = def.types ++ type ∷ [] }, p2)
  ]
]

unfoldable pub p_create_table : Parse CreateTable
unfolding create_item p_name_list p_col_type p_sym consume match p_err p_grouped_comma_list
p_create_table p =
    let (name, p1) = p_sym p in
    p_grouped_comma_list create_item
      (record { name = name; cols = []; types = []; primary = []; indexes = [] })
      (consume (codes "(") expect_paren p1)

-- the two operands of a comparison
abbrev pub operands : QlNode → Option (QlNode × QlNode)
operands (node t n s nil) = none
operands (node t n s (kid l nil)) = none
operands (node t n s (kid l (kid r ks))) = some (l, r)

abbrev pub is_tuple : QlNode → Bool
is_tuple (node ql_tup n s ks) = true
is_tuple _ = false

abbrev pub is_column : QlNode → Bool
is_column (node ql_sym n s ks) = true
is_column _ = false

abbrev pub is_unset : QlNode → Bool
is_unset (node unset n s ks) = true
is_unset _ = false

unfoldable pub all_columns : List QlNode → Bool
all_columns [] = true
all_columns (k ∷ ks) = is_column k && all_columns ks

-- The part of `verifyScanKey` behind the test of the operator, over the operands as tuples.
unfoldable pub verify_sides : QlNode → QlNode → QlNode → Parser → QlNode × Parser
verify_sides key left right p =
    if not (is_tuple left) || not (is_tuple right)
    then (key, p_err tuple_and_single p)
    else if not (length (from_kids (kids_of left)) == length (from_kids (kids_of right)))
    then (key, p_err count_mismatch p)
    else if not (all_columns (from_kids (kids_of left)))
    then (key, p_err expect_columns p)
    else (with_kids (type_of key) (left ∷ right ∷ []), p)

-- two operands that are no tuples count as tuples of one
abbrev pub normalized : QlNode → QlNode → QlNode × QlNode
normalized left right =
    if not (is_tuple left) && not (is_tuple right)
    then (with_kids ql_tup (left ∷ []), with_kids ql_tup (right ∷ []))
    else (left, right)

abbrev pub verify_operands : QlNode → Parse QlNode
verify_operands key p = do
  (left, right) ← operands key
  let (l, r) = normalized left right
  some (verify_sides key l r p)

unfoldable pub verify_scan_key : QlNode → Parse QlNode
unfolding verify_sides all_columns p_err
verify_scan_key (node ql_cmp_eq n s ks) p = verify_operands (node ql_cmp_eq n s ks) p
verify_scan_key (node ql_cmp_ge n s ks) p = verify_operands (node ql_cmp_ge n s ks) p
verify_scan_key (node ql_cmp_gt n s ks) p = verify_operands (node ql_cmp_gt n s ks) p
verify_scan_key (node ql_cmp_lt n s ks) p = verify_operands (node ql_cmp_lt n s ks) p
verify_scan_key (node ql_cmp_le n s ks) p = verify_operands (node ql_cmp_le n s ks) p
verify_scan_key (node ql_cmp_ne n s ks) p = some (node ql_cmp_ne n s ks, p_err ne_not_allowed p)
verify_scan_key key p = some (key, p_err expect_comparison p)

abbrev pub is_eq : QlNode → Bool
is_eq (node ql_cmp_eq n s ks) = true
is_eq _ = false

-- the two keys of an INDEX BY clause
abbrev pub split_keys : QlNode → Option (QlNode × QlNode)
split_keys (node ql_and n s ks) = operands (node ql_and n s ks)
split_keys key = some (key, empty_node)

-- the checks of `pIndexBy` behind the split
unfoldable pub verify_keys : QlScan → QlNode → QlNode → Parse QlScan
unfolding verify_scan_key
verify_keys scan key1 key2 p =
    if is_eq key1 && not (is_unset key2)
    then some (record scan { key1 = key1; key2 = key2 }, p_err single_eq p)
    else (do
      (key1', p2) ← verify_scan_key key1 p
      (key2', p3) ← if is_unset key2 then some (key2, p2) else verify_scan_key key2 p2
      some (record scan { key1 = key1'; key2 = key2' }, p3))

unfoldable pub p_index_by : QlScan → Parse QlScan
unfolding p_expr_and p_expr_or verify_keys p_err
p_index_by scan p = do
  (index, p1) ← p_expr_and (p_expr_or (suc (length p.rest))) p
  (key1, key2) ← split_keys index
  verify_keys scan key1 key2 p1

abbrev pub max_int64 : ℕ
max_int64 = 2 ^ 63 - 1

-- the number of `pLimit` behind the comma, or the first one again
unfoldable pub second_num : Option QlNode → Parser → Option QlNode × Parser
second_num none p = (none, p)
second_num (some first) p = try_num p

-- LIMIT count, or LIMIT offset, count
unfoldable pub p_limit : QlScan → Parser → QlScan × Parser
unfolding match try_num p_err second_num
p_limit scan p =
    let (first, p1) = try_num p in
    elim (match (codes "," ∷ []) p1) [
      | none ↦ elim first [
        | none ↦ (scan, p_err bad_limit p1)
        | some count ↦ (record scan { offset = 0; limit = i64_of count }, p1)
      ]
      | some p2 ↦
          let (second, p3) = second_num first p2 in
          elim first [
            | none ↦ (scan, p_err bad_limit p3)
            | some offset ↦ elim second [
              | none ↦ (scan, p_err bad_limit p3)
              | some count ↦ (record scan { offset = i64_of offset; limit = i64_of count }, p3)
            ]
          ]
    ]

-- INDEX BY, FILTER and LIMIT, each of which may be missing
unfoldable pub scan_index : QlScan → Parse QlScan
unfolding p_index_by match
scan_index scan p = elim (match (codes "index" ∷ codes "by" ∷ []) p) [
  | none ↦ some (scan, p)
  | some p1 ↦ p_index_by scan p1
]

unfoldable pub scan_filter : QlScan → Parse QlScan
unfolding p_expr match
scan_filter scan p = elim (match (codes "filter" ∷ []) p) [
  | none ↦ some (scan, p)
  | some p1 ↦ do (filter, p2) ← p_expr p1; some (record scan { filter = filter }, p2)
]

unfoldable pub scan_limit : QlScan → Parser → QlScan × Parser
unfolding p_limit match
scan_limit scan p =
    let unlimited = record scan { offset = 0; limit = max_int64 } in
    elim (match (codes "limit" ∷ []) p) [ none ↦ (unlimited, p) | some p1 ↦ p_limit unlimited p1 ]

unfoldable pub p_scan : QlScan → Parse QlScan
unfolding scan_index scan_filter scan_limit
p_scan scan p = do
  (scan1, p1) ← scan_index scan p
  (scan2, p2) ← scan_filter scan1 p1
  some (scan_limit scan2 p2)

abbrev pub scan_of : Bytes → QlScan
scan_of table = record {
  table = table;
  key1 = empty_node;
  key2 = empty_node;
  filter = empty_node;
  offset = 0;
  limit = 0;
}
