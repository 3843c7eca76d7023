-- ===== src/Ql/Stmt.antt =====
-- Statements: the parser of ql_parse.go above expressions and clauses.
use mini_database_v.Base.{
  ℕ, Bool, true, ◌&&◌, List, [], ◌∷◌, ◌++◌, Option, none, some, ◌>>=◌, if◌then◌else◌, length, ◌≡◌,
  refl, ◌==◌, inl, inr, ◌⊎◌,
}
use mini_database_v.Base.Bytes.{Bytes, codes}
use mini_database_v.Btree.Ops.{Mode}
use mini_database_v.Ql.Ast.{
  QlNode, node, nil, ql_sym, ql_star, empty_node, with_kids, QlScan, Select, Update, Insert, Stmt,
}
use mini_database_v.Ql.Lex
use mini_database_v.Ql.Lex.{
  Parser, ParseError, unknown_stmt, expect_semicolon, expect_paren, duplicate_primary_key,
  bad_column_type, expect_from, single_eq, ne_not_allowed, expect_comparison, tuple_and_single,
  count_mismatch, expect_columns, bad_limit, expect_values, values_length, expect_set, expect_eq,
  match, p_err, consume, try_num, p_sym, to_lower, new_parser,
}
use mini_database_v.Ql.Expr.{Parse, p_comma_list, p_grouped_comma_list, appending, p_expr}
use mini_database_v.Ql.Clause.{p_name_list, p_create_table, p_scan, scan_of}

-- the alias behind AS, or the empty name
p_alias : Parser → Bytes × Parser
unfolding match p_sym
p_alias p = elim (match (codes "as" ∷ []) p) [ some p1 ↦ p_sym p1 | none ↦ ([], p) ]

-- `pSelectExpr`: an item, and its alias or the empty name
select_item : List Bytes × List QlNode → Parse (List Bytes × List QlNode)
unfolding p_expr p_alias match
select_item (names, output) p = elim (match (codes "*" ∷ []) p) [
  | some p1 ↦ some ((names ++ codes "*" ∷ [], output ++ with_kids ql_star [] ∷ []), p1)
  | none ↦ do
    (expr, p1) ← p_expr p
    let (name, p2) = p_alias p1
    some ((names ++ name ∷ [], output ++ expr ∷ []), p2)
]

unfoldable pub p_select : Parse Select
unfolding select_item p_comma_list p_scan consume
p_select p = do
  (items, p1) ← p_comma_list select_item ([], []) p
  let (table, p2) = p_sym (consume (codes "from") expect_from p1)
  (scan, p3) ← p_scan (scan_of table) p2
  some (record { scan = scan; names = items.0; output = items.1 }, p3)

unfoldable pub p_value_list : Parse (List QlNode)
unfolding p_grouped_comma_list p_expr consume
p_value_list p = p_grouped_comma_list (appending p_expr) [] (consume (codes "(") expect_paren p)

all_of_length : ℕ → List (List QlNode) → Bool
all_of_length n [] = true
all_of_length n (row ∷ rows) = length row == n && all_of_length n rows

unfoldable pub p_insert : Mode → Parse Insert
unfolding p_name_list p_value_list p_comma_list all_of_length consume p_err p_sym
p_insert mode p = do
  let (table, p1) = p_sym p
  (names, p2) ← p_name_list p1
  (rows, p3) ← p_comma_list (appending p_value_list) [] (consume (codes "values") expect_values p2)
  some (
    record { table = table; mode = mode; names = names; values = rows },
    if all_of_length (length names) rows then p3 else p_err values_length p3,
  )

-- `pAssign`
assign_item : List Bytes × List QlNode → Parse (List Bytes × List QlNode)
unfolding p_expr p_sym consume
assign_item (names, values) p = do
  let (name, p1) = p_sym p
  (val, p2) ← p_expr (consume (codes "=") expect_eq p1)
  some ((names ++ name ∷ [], values ++ val ∷ []), p2)

unfoldable pub p_update : Parse Update
unfolding assign_item p_comma_list p_scan p_sym consume
p_update p = do
  let (table, p1) = p_sym p
  (items, p2) ← p_comma_list assign_item ([], []) (consume (codes "set") expect_set p1)
  (scan, p3) ← p_scan (scan_of table) p2
  some (record { scan = scan; names = items.0; values = items.1 }, p3)

unfoldable pub p_delete : Parse QlScan
unfolding p_scan p_sym
p_delete p = let (table, p1) = p_sym p in p_scan (scan_of table) p1

-- The keywords of a statement and the parser of what follows them, in the order of `pStmt`.
abbrev stmt_table : List (List Bytes × Parse Stmt)
stmt_table =
    (codes "begin" ∷ [], λ p. some (Stmt.begin_tx, p))
    ∷ (codes "commit" ∷ [], λ p. some (Stmt.commit_tx, p))
    ∷ (codes "rollback" ∷ [], λ p. some (Stmt.rollback_tx, p))
    ∷ (
      codes "create" ∷ codes "table" ∷ [],
      λ p. do (c, p1) ← p_create_table p; some (Stmt.create_table c, p1),
    )
    ∷ (codes "select" ∷ [], λ p. do (s, p1) ← p_select p; some (Stmt.select s, p1))
    ∷ (
      codes "insert" ∷ codes "into" ∷ [],
      λ p. do (i, p1) ← p_insert Mode.insert_only p; some (Stmt.insert i, p1),
    )
    ∷ (
      codes "replace" ∷ codes "into" ∷ [],
      λ p. do (i, p1) ← p_insert Mode.update_only p; some (Stmt.insert i, p1),
    )
    ∷ (
      codes "upsert" ∷ codes "into" ∷ [],
      λ p. do (i, p1) ← p_insert Mode.upsert p; some (Stmt.insert i, p1),
    )
    ∷ (codes "delete" ∷ codes "from" ∷ [], λ p. do (s, p1) ← p_delete p; some (Stmt.delete s, p1))
    ∷ (codes "update" ∷ [], λ p. do (u, p1) ← p_update p; some (Stmt.update u, p1))
    ∷ []

-- the first alternative whose keywords match
first_stmt : List (List Bytes × Parse Stmt) → Parser → Option (Option Stmt × Parser)
unfolding match p_err
first_stmt [] p = some (none, p_err unknown_stmt p)
first_stmt ((keys, parse) ∷ rest) p = elim (match keys p) [
  | some p1 ↦ do (stmt, p2) ← parse p1; some (some stmt, p2)
  | none ↦ first_stmt rest p
]

-- the result of `pStmt`; an unknown statement has an error
abbrev result_of : Option Stmt → Option ParseError → Option (Stmt ⊎ ParseError)
result_of stmt (some e) = some (inr e)
result_of (some stmt) none = some (inl stmt)
result_of none none = none

unfoldable pub p_stmt : Bytes → Option (Stmt ⊎ ParseError)
unfolding first_stmt p_create_table p_select p_insert p_delete p_update consume
p_stmt input = do
  (stmt, p1) ← first_stmt stmt_table (new_parser input)
  result_of stmt (consume (codes ";") expect_semicolon p1).err

abbrev parsed_select : Stmt
parsed_select = Stmt.select (record {
  scan = record {
    table = codes "t";
    key1 = empty_node;
    key2 = empty_node;
    filter = empty_node;
    offset = 2;
    limit = 3;
  };
  names = codes "b" ∷ codes "*" ∷ [];
  output = node ql_sym 0 (codes "a") nil ∷ with_kids ql_star [] ∷ [];
})

select_limit : p_stmt (codes "select a AS b, * from t limit 2, 3;") ≡ some (inl parsed_select)
unfolding p_stmt
select_limit = refl

missing_semicolon : p_stmt (codes "commit") ≡ some (inr expect_semicolon)
unfolding p_stmt
missing_semicolon = refl

-- A keyword is no name.
keyword_as_table : p_stmt (codes "delete from select;") ≡ some (inr Lex.expect_name)
unfolding p_stmt
keyword_as_table = refl
