-- ===== src/Ql/Eval/Panics.antt =====
-- The panics of `evalExpr` of ql_exec.go.
use mini_database_v.Base.{
  ℕ, suc, ◌≡◌, refl, sym, ap, arith, Bool, true, false, List, [], ◌∷◌, Option, none, some, ◌>>=◌,
  ◌==◌, inl, inr, All, Bool-cases, subst, length,
}
use mini_database_v.Base.Bytes.{Bytes}
use mini_database_v.Table.Value.{Value, Record, type_int64, get}
use mini_database_v.Ql.Ast.{
  QlType, unset, ql_str, ql_i64, ql_cmp_ge, ql_cmp_gt, ql_cmp_lt, ql_cmp_le, ql_cmp_eq, ql_cmp_ne,
  ql_add, ql_sub, ql_mul, ql_div, ql_mod, ql_and, ql_or, ql_not, ql_neg, ql_sym, ql_tup, ql_star,
  ql_err, QlNode, QlKids, node, nil, kid, from_kids,
}
use mini_database_v.Ql.Arith.{b2i, negate, unknown_column, unexpected_tuple, neg_type, not_type}
use mini_database_v.Ql.Eval.{
  EvalCtx, failed, e_err, set_i64, check_operand, eval_logic, Operand, eval_op, eval_expr, operands,
  tuples_of, tuple_of,
}
use mini_database_v.Ql.Eval.Total.{
  IsTyped, IsDone, Works, TupleWorks, e_err-IsDone, eval_logic_total, eval_bin_op_total,
}

-- The number of operands that a node of a type has.
abbrev pub Arity : QlType → ℕ → Type 0
Arity unset n = ⊥
Arity ql_star n = ⊥
Arity ql_err n = ⊥
Arity ql_str n = Unit
Arity ql_i64 n = Unit
Arity ql_sym n = Unit
Arity ql_tup n = Unit
Arity ql_not n = n ≡ 1
Arity ql_neg n = n ≡ 1
Arity ql_cmp_ge n = n ≡ 2
Arity ql_cmp_gt n = n ≡ 2
Arity ql_cmp_lt n = n ≡ 2
Arity ql_cmp_le n = n ≡ 2
Arity ql_cmp_eq n = n ≡ 2
Arity ql_cmp_ne n = n ≡ 2
Arity ql_add n = n ≡ 2
Arity ql_sub n = n ≡ 2
Arity ql_mul n = n ≡ 2
Arity ql_div n = n ≡ 2
Arity ql_mod n = n ≡ 2
Arity ql_and n = n ≡ 2
Arity ql_or n = n ≡ 2

-- An expression: every node has its operands, and none is the mark of a missing one.
unfoldable mutual
  pub IsExpr : QlNode → Type 0
  IsExpr (node t n s ks) = Arity t (length (from_kids ks)) × AreExprs ks

  pub AreExprs : QlKids → Type 0
  AreExprs nil = Unit
  AreExprs (kid k ks) = IsExpr k × AreExprs ks

abbrev pub IsCell : Option Value → Type 0
IsCell none = Unit
IsCell (some v) = IsTyped v

-- A row in which every column has a value, an integer or a text.
abbrev pub IsRow : Record → Type 0
IsRow env = (col : Bytes) → (v : Option Value) × (get env col ≡ some v) × IsCell v

abbrev Result : Option EvalCtx → Type 0
Result o = (c : EvalCtx) × (o ≡ some c) × IsDone c

sym_total :
    (env : Record) (ctx : EvalCtx) (n : ℕ) (s : Bytes) (kids : List Operand)
    (tuples : List (Option (List Operand)))
    → IsRow env
    → Result (eval_op env ctx ql_sym n s kids tuples)
unfolding eval_op
sym_total env ctx n s kids tuples row = go (row s)
  where
    go :
        (v : Option Value) × (get env s ≡ some v) × IsCell v
        → Result (eval_op env ctx ql_sym n s kids tuples)
    go (none, found, cell) = (e_err ctx unknown_column, rw found, e_err-IsDone ctx unknown_column)
    go (some v, found, cell) = (record { out = v; err = ctx.err }, rw found, inr cell)

-- The operators of one operand.
unary_total :
    (env : Record) (ctx : EvalCtx) (n : ℕ) (s : Bytes) (a : Operand)
    (tuples : List (Option (List Operand)))
    → Works a
    → Result (eval_op env ctx ql_neg n s (a ∷ []) tuples)
      × Result (eval_op env ctx ql_not n s (a ∷ []) tuples)
unfolding eval_op
unary_total env ctx n s a tuples works =
    let (c, ok, done, stays) = works ctx in
    elim (Bool-cases (c.out.type == type_int64)) [
      | inl number ↦ (
        (set_i64 c (negate c.out.i64), rw (ok, number), inr (inl (ground arith))),
        (set_i64 c (b2i (c.out.i64 == 0)), rw (ok, number), inr (inl (ground arith))),
      )
      | inr other ↦ (
        (e_err c neg_type, rw (ok, other), e_err-IsDone c neg_type),
        (e_err c not_type, rw (ok, other), e_err-IsDone c not_type),
      )
    ]

one_kid :
    (kids : List Operand)
    → All Works kids
    → length kids ≡ 1
    → (F : List Operand → Type 0) → ((a : Operand) → Works a → F (a ∷ []))
    → F kids
one_kid [] hk h F f = absurd (omega arith)
one_kid (a ∷ []) (wa, _) h F f = f a wa
one_kid (a ∷ b ∷ ks) hk h F f = absurd (omega arith)

two_kids :
    (kids : List Operand)
    → All Works kids
    → length kids ≡ 2
    → (F : List Operand → Type 0) → ((a b : Operand) → Works a → Works b → F (a ∷ b ∷ []))
    → F kids
two_kids [] hk h F f = absurd (omega arith)
two_kids (a ∷ []) hk h F f = absurd (omega arith)
two_kids (a ∷ b ∷ []) (wa, (wb, _)) h F f = f a b wa wb
two_kids (a ∷ b ∷ c ∷ ks) hk h F f = absurd (omega arith)

logic_total :
    (is_or : Bool) (ctx : EvalCtx) (a b : Operand)
    → Works a
    → Works b
    → Result (eval_logic is_or (a ctx) (a ctx >>= (λ c. b (check_operand c))))
logic_total is_or ctx a b wa wb =
    let (c1, ok1, done1, stays1) = wa ctx in
    let (c2, ok2, done2, stays2) = wb (check_operand c1) in
    rw (ok1, ok2) (eval_logic_total is_or c1 c2)

module _ (env : Record) (row : IsRow env) where
  eval_op_total :
      (ctx : EvalCtx) (t : QlType) (n : ℕ) (s : Bytes) (kids : List Operand)
      (tuples : List (Option (List Operand)))
      → Arity t (length kids)
      → All Works kids
      → All TupleWorks tuples
      → Result (eval_op env ctx t n s kids tuples)
  unfolding eval_op
  eval_op_total ctx unset n s kids tuples h hk ht = absurd h
  eval_op_total ctx ql_star n s kids tuples h hk ht = absurd h
  eval_op_total ctx ql_err n s kids tuples h hk ht = absurd h
  eval_op_total ctx ql_str n s kids tuples h hk ht = (_, refl, inr (inr refl))
  eval_op_total ctx ql_i64 n s kids tuples h hk ht = (_, refl, inr (inl refl))
  eval_op_total ctx ql_sym n s kids tuples h hk ht = sym_total env ctx n s kids tuples row
  eval_op_total ctx ql_tup n s kids tuples h hk ht = (_, refl, e_err-IsDone ctx unexpected_tuple)
  eval_op_total ctx ql_not n s kids tuples h hk ht =
      one_kid kids hk h (λ ks. Result (eval_op env ctx ql_not n s ks tuples))
        (λ a wa. (unary_total env ctx n s a tuples wa).1)
  eval_op_total ctx ql_neg n s kids tuples h hk ht =
      one_kid kids hk h (λ ks. Result (eval_op env ctx ql_neg n s ks tuples))
        (λ a wa. (unary_total env ctx n s a tuples wa).0)
  eval_op_total ctx ql_and n s kids tuples h hk ht =
      two_kids kids hk h (λ ks. Result (eval_op env ctx ql_and n s ks tuples))
        (λ a b wa wb. logic_total false ctx a b wa wb)
  eval_op_total ctx ql_or n s kids tuples h hk ht =
      two_kids kids hk h (λ ks. Result (eval_op env ctx ql_or n s ks tuples))
        (λ a b wa wb. logic_total true ctx a b wa wb)
  eval_op_total ctx ql_cmp_ge n s kids tuples h hk ht =
      two_kids kids hk h (λ ks. Result (eval_op env ctx ql_cmp_ge n s ks tuples))
        (λ a b wa wb. eval_bin_op_total ctx ql_cmp_ge a b tuples wa wb ht)
  eval_op_total ctx ql_cmp_gt n s kids tuples h hk ht =
      two_kids kids hk h (λ ks. Result (eval_op env ctx ql_cmp_gt n s ks tuples))
        (λ a b wa wb. eval_bin_op_total ctx ql_cmp_gt a b tuples wa wb ht)
  eval_op_total ctx ql_cmp_lt n s kids tuples h hk ht =
      two_kids kids hk h (λ ks. Result (eval_op env ctx ql_cmp_lt n s ks tuples))
        (λ a b wa wb. eval_bin_op_total ctx ql_cmp_lt a b tuples wa wb ht)
  eval_op_total ctx ql_cmp_le n s kids tuples h hk ht =
      two_kids kids hk h (λ ks. Result (eval_op env ctx ql_cmp_le n s ks tuples))
        (λ a b wa wb. eval_bin_op_total ctx ql_cmp_le a b tuples wa wb ht)
  eval_op_total ctx ql_cmp_eq n s kids tuples h hk ht =
      two_kids kids hk h (λ ks. Result (eval_op env ctx ql_cmp_eq n s ks tuples))
        (λ a b wa wb. eval_bin_op_total ctx ql_cmp_eq a b tuples wa wb ht)
  eval_op_total ctx ql_cmp_ne n s kids tuples h hk ht =
      two_kids kids hk h (λ ks. Result (eval_op env ctx ql_cmp_ne n s ks tuples))
        (λ a b wa wb. eval_bin_op_total ctx ql_cmp_ne a b tuples wa wb ht)
  eval_op_total ctx ql_add n s kids tuples h hk ht =
      two_kids kids hk h (λ ks. Result (eval_op env ctx ql_add n s ks tuples))
        (λ a b wa wb. eval_bin_op_total ctx ql_add a b tuples wa wb ht)
  eval_op_total ctx ql_sub n s kids tuples h hk ht =
      two_kids kids hk h (λ ks. Result (eval_op env ctx ql_sub n s ks tuples))
        (λ a b wa wb. eval_bin_op_total ctx ql_sub a b tuples wa wb ht)
  eval_op_total ctx ql_mul n s kids tuples h hk ht =
      two_kids kids hk h (λ ks. Result (eval_op env ctx ql_mul n s ks tuples))
        (λ a b wa wb. eval_bin_op_total ctx ql_mul a b tuples wa wb ht)
  eval_op_total ctx ql_div n s kids tuples h hk ht =
      two_kids kids hk h (λ ks. Result (eval_op env ctx ql_div n s ks tuples))
        (λ a b wa wb. eval_bin_op_total ctx ql_div a b tuples wa wb ht)
  eval_op_total ctx ql_mod n s kids tuples h hk ht =
      two_kids kids hk h (λ ks. Result (eval_op env ctx ql_mod n s ks tuples))
        (λ a b wa wb. eval_bin_op_total ctx ql_mod a b tuples wa wb ht)

  length-operands : (ks : QlKids) → length (operands env ks) ≡ length (from_kids ks)
  unfolding eval_expr
  length-operands nil = refl
  length-operands (kid k ks) = ap suc (length-operands ks)

  mutual
    unfolding eval_expr IsExpr

    eval_expr-Works : (e : QlNode) → IsExpr e → Works (λ ctx. eval_expr env ctx e)
    eval_expr-Works (node t n s ks) (arity, es) ctx = elim (Bool-cases (failed ctx)) [
      | inl bad ↦ (ctx, rw bad, inl bad, λ h. refl)
      | inr fine ↦
          let (c, ok, done) =
            eval_op_total ctx t n s (operands env ks) (tuples_of env ks)
              (subst (Arity t) (sym (length-operands ks)) arity) (operands-Works ks es)
              (tuples_of-Works ks es) in
          (c, rw fine ok, done, λ h. absurd (ground arith))
    ]

    operands-Works : (ks : QlKids) → AreExprs ks → All Works (operands env ks)
    operands-Works nil es = tt
    operands-Works (kid k ks) (e, es) = (eval_expr-Works k e, operands-Works ks es)

    tuples_of-Works : (ks : QlKids) → AreExprs ks → All TupleWorks (tuples_of env ks)
    tuples_of-Works nil es = tt
    tuples_of-Works (kid k ks) (e, es) = (tuple_of-Works k e, tuples_of-Works ks es)

    tuple_of-Works : (k : QlNode) → IsExpr k → TupleWorks (tuple_of env k)
    tuple_of-Works (node ql_tup n s ks) (arity, es) = operands-Works ks es
    tuple_of-Works (node t n s ks) (arity, es) = tt

-- Evaluating an expression never panics: whatever the operators and the values, it ends in an error or
-- in an integer or a text, and a context with an error stays as it is. Every node has its operands,
-- and every column of the row has a value, an integer or a text.
pub eval_expr-IsDone :
    (env : Record) (e : QlNode) (ctx : EvalCtx)
    → IsRow env
    → IsExpr e
    → (c : EvalCtx) × (eval_expr env ctx e ≡ some c) × IsDone c × (failed ctx ≡ true → c ≡ ctx)
eval_expr-IsDone env e ctx row ok = eval_expr-Works env row e ok ctx
