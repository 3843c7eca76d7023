-- ===== src/Ql/Expr.antt =====
-- Expressions: the parser of ql_parse.go by precedence. A parser that calls for an expression within
-- parentheses takes the parser of expressions as its argument; fuel bounds the nesting and the
-- rounds of the loops, and `none` means that it ran out.
use mini_database_v.Base.{
  ℕ, zero, suc, Bool, true, false, List, [], ◌∷◌, ◌++◌, Option, none, some, ◌>>=◌, if◌then◌else◌,
  length, ◌≡◌, refl,
}
use mini_database_v.Base.Bytes.{Bytes, codes}
use mini_database_v.Ql.Ast.{
  QlType, QlNode, node, nil, ql_or, ql_and, ql_not, ql_cmp_eq, ql_cmp_ne, ql_cmp_ge, ql_cmp_le,
  ql_cmp_gt, ql_cmp_lt, ql_add, ql_sub, ql_mul, ql_div, ql_mod, ql_neg, ql_tup, empty_node,
  with_kids, ql_sym, ql_i64, ql_str,
}
use mini_database_v.Ql.Lex.{
  Parser, expect_comma, expect_atom, match, p_err, consume, try_sym, try_num, try_str, new_parser,
}

abbrev pub Parse : Type 0 → Type 0
Parse A = Parser → Option (A × Parser)

module _ {S : Type 0} (item : S → Parse S) where
  -- The loop of `pCommaList`. The state is what the closure that parses an item writes.
  comma_rest : ℕ → S → Parse S
  comma_rest zero s p = none
  comma_rest (suc fuel) s p = elim (match (codes "," ∷ []) p) [
    | none ↦ some (s, p)
    | some p1 ↦ elim (item s p1) [ none ↦ none | some (s2, p2) ↦ comma_rest fuel s2 p2 ]
  ]

  unfoldable pub p_comma_list : S → Parse S
  unfolding comma_rest match
  p_comma_list s p = do (s1, p1) ← item s p; comma_rest (suc (length p1.rest)) s1 p1

  -- The loop of `pGroupedCommaList`: it stops at the first error and behind ')'. Every item but the
  -- first wants a comma.
  group_rest : ℕ → Bool → S → Parse S
  group_rest zero need_comma s p = none
  group_rest (suc fuel) need_comma s p = elim p.err [
    | some e ↦ some (s, p)
    | none ↦ elim (match (codes ")" ∷ []) p) [
      | some p1 ↦ some (s, p1)
      | none ↦ elim (item s (if need_comma then consume (codes ",") expect_comma p else p)) [
        | none ↦ none
        | some (s2, p2) ↦ group_rest fuel true s2 p2
      ]
    ]
  ]

  unfoldable pub p_grouped_comma_list : S → Parse S
  unfolding group_rest match consume
  p_grouped_comma_list s p = group_rest (suc (suc (length p.rest))) false s p

-- A closure that appends its item to a list.
abbrev pub appending : {A : Type 0} → Parse A → List A → Parse (List A)
appending item items p = do (a, p1) ← item p; some (items ++ a ∷ [], p1)

-- the first operator that matches, with its type
first_op : List (Bytes × QlType) → Parser → Option (QlType × Parser)
first_op [] p = none
first_op ((tok, type) ∷ ops) p = elim (match (tok ∷ []) p) [
  | some p1 ↦ some (type, p1)
  | none ↦ first_op ops p
]

bin_rest : ℕ → List (Bytes × QlType) → Parse QlNode → QlNode → Parse QlNode
bin_rest zero ops next left p = none
bin_rest (suc fuel) ops next left p = elim (first_op ops p) [
  | none ↦ some (left, p)
  | some (type, p1) ↦ elim (next p1) [
    | none ↦ none
    | some (right, p2) ↦ bin_rest fuel ops next (with_kids type (left ∷ right ∷ [])) p2
  ]
]

-- `pExprBinOp`: left-associative
unfoldable pub p_expr_bin_op : List (Bytes × QlType) → Parse QlNode → Parse QlNode
unfolding bin_rest first_op match
p_expr_bin_op ops next p = do (left, p1) ← next p; bin_rest (suc (length p1.rest)) ops next left p1

unfoldable pub p_expr_un_op : Bytes → QlType → Parse QlNode → Parse QlNode
unfolding match
p_expr_un_op op type next p = elim (match (op ∷ []) p) [
  | some p1 ↦ do (operand, p2) ← next p1; some (with_kids type (operand ∷ []), p2)
  | none ↦ next p
]

-- one operand in parentheses is that operand
abbrev tuple_of : List QlNode → QlNode
tuple_of [] = with_kids ql_tup []
tuple_of (k ∷ []) = k
tuple_of (k ∷ l ∷ ks) = with_kids ql_tup (k ∷ l ∷ ks)

module _ (expr : Parse QlNode) where
  unfoldable pub p_expr_tuple : Parse QlNode
  unfolding p_grouped_comma_list
  p_expr_tuple p = do
    (kids, p1) ← p_grouped_comma_list (appending expr) [] p
    some (tuple_of kids, p1)

  unfoldable pub p_expr_atom : Parse QlNode
  unfolding p_expr_tuple match try_sym try_num try_str p_err
  p_expr_atom p = elim (match (codes "(" ∷ []) p) [
    | some p1 ↦ p_expr_tuple p1
    | none ↦
        let (sym, p1) = try_sym p in
        let (num, p2) = try_num p1 in
        let (str, p3) = try_str p2 in
        elim sym [
          | some n ↦ some (n, p1)
          | none ↦ elim num [
            | some n ↦ some (n, p2)
            | none ↦ elim str [
              | some n ↦ some (n, p3)
              | none ↦ some (empty_node, p_err expect_atom p3)
            ]
          ]
        ]
  ]

  unfoldable pub p_expr_neg : Parse QlNode
  unfolding p_expr_un_op p_expr_atom
  p_expr_neg = p_expr_un_op (codes "-") ql_neg p_expr_atom

  unfoldable pub p_expr_mul : Parse QlNode
  unfolding p_expr_bin_op p_expr_neg
  p_expr_mul =
      p_expr_bin_op ((codes "*", ql_mul) ∷ (codes "/", ql_div) ∷ (codes "%", ql_mod) ∷ [])
        p_expr_neg

  unfoldable pub p_expr_add : Parse QlNode
  unfolding p_expr_mul
  p_expr_add = p_expr_bin_op ((codes "+", ql_add) ∷ (codes "-", ql_sub) ∷ []) p_expr_mul

  unfoldable pub p_expr_cmp : Parse QlNode
  unfolding p_expr_add
  p_expr_cmp =
      p_expr_bin_op
        ((codes "=", ql_cmp_eq)
          ∷ (codes "!=", ql_cmp_ne)
          ∷ (codes ">=", ql_cmp_ge)
          ∷ (codes "<=", ql_cmp_le)
          ∷ (codes ">", ql_cmp_gt)
          ∷ (codes "<", ql_cmp_lt)
          ∷ [])
        p_expr_add

  unfoldable pub p_expr_not : Parse QlNode
  unfolding p_expr_cmp
  p_expr_not = p_expr_un_op (codes "not") ql_not p_expr_cmp

  unfoldable pub p_expr_and : Parse QlNode
  unfolding p_expr_not
  p_expr_and = p_expr_bin_op ((codes "and", ql_and) ∷ []) p_expr_not

  -- one level of nesting
  unfoldable pub p_expr_level : Parse QlNode
  unfolding p_expr_and
  p_expr_level = p_expr_bin_op ((codes "or", ql_or) ∷ []) p_expr_and

unfoldable pub p_expr_or : ℕ → Parse QlNode
unfolding p_expr_level
p_expr_or zero p = none
p_expr_or (suc fuel) p = p_expr_level (p_expr_or fuel) p

-- Every level of nesting takes a '(' from the input.
unfoldable pub p_expr : Parse QlNode
unfolding p_expr_or
p_expr p = p_expr_or (suc (length p.rest)) p

abbrev column : Bytes → QlNode
column s = node ql_sym 0 s nil

-- Multiplication binds tighter than subtraction, and operators of one level associate to the left.
precedence :
    p_expr (new_parser (codes "a - b*2 - 'c'"))
    ≡ some (
      with_kids ql_sub (
          with_kids ql_sub (
            column (codes "a")
            ∷ with_kids ql_mul (column (codes "b") ∷ node ql_i64 2 [] nil ∷ [])
            ∷ [])
          ∷ node ql_str 0 (codes "c") nil
          ∷ []),
      new_parser [],
    )
unfolding p_expr
precedence = refl
