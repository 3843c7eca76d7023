-- ===== src/Ql/Eval.antt =====
-- The evaluation of expressions in ql_exec.go. `none` is a panic.
pub mod Total
pub mod Panics
use mini_database_v.Base.{
  ℕ, zero, suc, Bool, true, false, not, ◌&&◌, List, [], ◌∷◌, ◌++◌, Option, none, some, ◌==◌, ◌>>=◌,
  if◌then◌else◌, length, inl, inr, ◌⊎◌, Ordering,
}
use mini_database_v.Base.Bytes.{Bytes, compare_bytes}
use mini_database_v.Table.Value.{Value, Record, type_bytes, type_int64, get, compare_int64}
use mini_database_v.Ql.Ast.{
  QlType, unset, ql_str, ql_i64, ql_cmp_ge, ql_cmp_gt, ql_cmp_lt, ql_cmp_le, ql_cmp_eq, ql_cmp_ne,
  ql_add, ql_and, ql_or, ql_not, ql_neg, ql_sym, ql_tup, ql_star, ql_err, QlNode, QlKids, node, nil,
  kid,
}
use mini_database_v.Ql.Arith.{
  b2i, cmp2bool, negate, bin_op_i64, EvalError, unknown_column, unexpected_tuple, neg_type,
  not_type, type_mismatch, bad_operand, different_types, different_lengths, bad_str_op,
}

-- QLEvalCtx without its row, which does not change.
pub record EvalCtx : Type 0 where
  pub out : Value
  pub err : Option EvalError

abbrev pub failed : EvalCtx → Bool
failed ctx = elim ctx.err [ none ↦ false | some e ↦ true ]

-- QL_ERR, the type of the result after an error
abbrev pub type_err : ℕ
type_err = 200

unfoldable pub e_err : EvalCtx → EvalError → EvalCtx
e_err ctx e = if failed ctx then ctx else record {
  out = record { type = type_err; i64 = ctx.out.i64; str = ctx.out.str };
  err = some e;
}

abbrev pub report : EvalCtx → Option EvalError → EvalCtx
report ctx none = ctx
report ctx (some e) = e_err ctx e

-- `ctx.out.I64 = n`, and the same with `ctx.out.Type = TYPE_INT64` in front
abbrev pub set_i64 : EvalCtx → ℕ → EvalCtx
set_i64 ctx n = record {
  out = record { type = ctx.out.type; i64 = n; str = ctx.out.str };
  err = ctx.err;
}

abbrev pub set_int64 : EvalCtx → ℕ → EvalCtx
set_int64 ctx n = record {
  out = record { type = type_int64; i64 = n; str = ctx.out.str };
  err = ctx.err;
}

abbrev pub set_bytes : EvalCtx → Bytes → EvalCtx
set_bytes ctx s = record {
  out = record { type = type_bytes; i64 = ctx.out.i64; str = s };
  err = ctx.err;
}

unfoldable pub value_cmp : EvalCtx → Value → Value → Option (Ordering × EvalCtx)
value_cmp ctx v1 v2 =
    if failed ctx
    then some (Ordering.eq, ctx)
    else if not (v1.type == v2.type)
    then some (Ordering.eq, e_err ctx different_types)
    else if v1.type == type_int64
    then some (compare_int64 v1.i64 v2.i64, ctx)
    else if v1.type == type_bytes
    then some (compare_bytes v1.str v2.str, ctx)
    else none

unfoldable pub bin_op_str : QlType → Bytes → Bytes → Bytes × Option EvalError
bin_op_str ql_add s t = (s ++ t, none)
bin_op_str _ s t = ([], some bad_str_op)

abbrev pub is_cmp : QlType → Bool
is_cmp ql_cmp_eq = true
is_cmp ql_cmp_ne = true
is_cmp ql_cmp_ge = true
is_cmp ql_cmp_gt = true
is_cmp ql_cmp_le = true
is_cmp ql_cmp_lt = true
is_cmp _ = false

-- The end of a comparison: the result even where an operand failed.
unfoldable pub end_cmp : QlType → Option (Ordering × EvalCtx) → Option EvalCtx
end_cmp t compared = do (r, ctx) ← compared; b ← cmp2bool r t; some (set_int64 ctx (b2i b))

-- `evalBinOp` behind the evaluation of its operands: the context after them and their values.
unfoldable pub bin_op : QlType → EvalCtx → Value → Value → Option EvalCtx
bin_op t ctx v1 v2 =
    if is_cmp t
    then end_cmp t (value_cmp ctx v1 v2)
    else if failed ctx
    then some ctx
    else if not (v1.type == v2.type)
    then some (e_err ctx type_mismatch)
    else if v1.type == type_int64
    then (let (n, e) = bin_op_i64 t v1.i64 v2.i64 in
        some (set_i64 (report (set_int64 ctx ctx.out.i64) e) n))
    else if v1.type == type_bytes
    then (let (s, e) = bin_op_str t v1.str v2.str in
        let c = report (set_bytes ctx ctx.out.str) e in
        some (record { out = record { type = c.out.type; i64 = c.out.i64; str = s }; err = c.err }))
    else none

-- The check of `evalLogic` behind an operand.
unfoldable pub check_operand : EvalCtx → EvalCtx
check_operand ctx = if ctx.out.type == type_int64 then ctx else e_err ctx bad_operand

-- `evalLogic` with the contexts after the first operand and after the second.
unfoldable pub eval_logic : Bool → Option EvalCtx → Option EvalCtx → Option EvalCtx
eval_logic is_or first second = do
  c1 ← first
  let ctx1 = check_operand c1
  let both = second >>= (λ c2.
      let ctx2 = check_operand c2 in
      some (if failed ctx2 then ctx2 else set_i64 ctx2 (b2i (not (ctx2.out.i64 == 0)))))
  (if failed ctx1
      then some ctx1
      else if not is_or && ctx1.out.i64 == 0
      then some ctx1
      else if is_or && not (ctx1.out.i64 == 0)
      then some (set_i64 ctx1 1)
      else both)

-- An operand, to be evaluated in the context that is current then; `nth` is `node.Kids[i]`.
abbrev pub Operand : Type 0
Operand = EvalCtx → Option EvalCtx

abbrev pub nth : List Operand → ℕ → Operand
nth [] i ctx = none
nth (k ∷ ks) zero ctx = k ctx
nth (k ∷ ks) (suc i) ctx = nth ks i ctx

-- The loop of `tupleCmp`.
unfoldable pub tuple_loop : EvalCtx → List Operand → List Operand → Option (Ordering × EvalCtx)
tuple_loop ctx [] ls = some (Ordering.eq, ctx)
tuple_loop ctx (a ∷ ks) [] = none
tuple_loop ctx (a ∷ ks) (b ∷ ls) =
    let rest = λ (c : EvalCtx). tuple_loop c ks ls in
    if failed ctx then some (Ordering.eq, ctx) else (do
      c1 ← a ctx
      c2 ← b c1
      (o, c3) ← value_cmp c2 c1.out c2.out
      elim o [
        | Ordering.eq ↦ rest c3
        | Ordering.lt ↦ some (Ordering.lt, c3)
        | Ordering.gt ↦ some (Ordering.gt, c3)
      ])

unfoldable pub tuple_cmp : EvalCtx → List Operand → List Operand → Option (Ordering × EvalCtx)
unfolding tuple_loop
tuple_cmp ctx ks ls =
    if length ks == length ls
    then tuple_loop ctx ks ls
    else some (Ordering.eq, e_err ctx different_lengths)

-- `evalBinOp` for all but AND and OR; an operand that is a tuple is given with its own operands.
unfoldable pub eval_bin_op :
    EvalCtx → QlType → List Operand → List (Option (List Operand)) → Option EvalCtx
eval_bin_op ctx t kids (some ks ∷ some ls ∷ rest) =
    if is_cmp t
    then end_cmp t (tuple_cmp ctx ks ls)
    else (do c1 ← nth kids 0 ctx; c2 ← nth kids 1 c1; bin_op t c2 c1.out c2.out)
eval_bin_op ctx t kids _ = do c1 ← nth kids 0 ctx; c2 ← nth kids 1 c1; bin_op t c2 c1.out c2.out

-- `evalExpr` at a node in a context without an error.
unfoldable pub eval_op :
    Record
    → EvalCtx
    → QlType
    → ℕ
    → Bytes
    → List Operand
    → List (Option (List Operand))
    → Option EvalCtx
eval_op env ctx ql_sym n s kids tuples = do
  v ← get env s
  some (elim v [ none ↦ e_err ctx unknown_column | some v ↦ record { out = v; err = ctx.err } ])
eval_op env ctx ql_i64 n s kids tuples =
    some (record { out = record { type = type_int64; i64 = n; str = s }; err = ctx.err })
eval_op env ctx ql_str n s kids tuples =
    some (record { out = record { type = type_bytes; i64 = n; str = s }; err = ctx.err })
eval_op env ctx ql_tup n s kids tuples = some (e_err ctx unexpected_tuple)
eval_op env ctx ql_neg n s kids tuples = do
  c ← nth kids 0 ctx
  some (if c.out.type == type_int64 then set_i64 c (negate c.out.i64) else e_err c neg_type)
eval_op env ctx ql_not n s kids tuples = do
  c ← nth kids 0 ctx
  some (if c.out.type == type_int64 then set_i64 c (b2i (c.out.i64 == 0)) else e_err c not_type)
eval_op env ctx unset n s kids tuples = none
eval_op env ctx ql_star n s kids tuples = none
eval_op env ctx ql_err n s kids tuples = none
eval_op env ctx ql_and n s kids tuples =
    eval_logic false (nth kids 0 ctx) (nth kids 0 ctx >>= (λ c. nth kids 1 (check_operand c)))
eval_op env ctx ql_or n s kids tuples =
    eval_logic true (nth kids 0 ctx) (nth kids 0 ctx >>= (λ c. nth kids 1 (check_operand c)))
eval_op env ctx t n s kids tuples = eval_bin_op ctx t kids tuples

unfoldable mutual
  pub eval_expr : Record → EvalCtx → QlNode → Option EvalCtx
  eval_expr env ctx (node t n s ks) =
      let kids = operands env ks in
      let tuples = tuples_of env ks in
      if failed ctx then some ctx else eval_op env ctx t n s kids tuples

  pub operands : Record → QlKids → List Operand
  operands env nil = []
  operands env (kid k ks) = (λ ctx. eval_expr env ctx k) ∷ operands env ks

  -- Which operands are tuples, and of what.
  pub tuples_of : Record → QlKids → List (Option (List Operand))
  tuples_of env nil = []
  tuples_of env (kid k ks) = tuple_of env k ∷ tuples_of env ks

  pub tuple_of : Record → QlNode → Option (List Operand)
  tuple_of env (node ql_tup n s ks) = some (operands env ks)
  tuple_of env (node _ n s ks) = none

abbrev pub empty_ctx : EvalCtx
empty_ctx = record { out = record { type = 0; i64 = 0; str = [] }; err = none }

-- `evalMulti`; the error of the first expression that fails.
unfoldable pub eval_multi : Record → List QlNode → Option (EvalError ⊎ List Value)
eval_multi env [] = some (inr [])
eval_multi env (e ∷ es) = do
  ctx ← eval_expr env empty_ctx e
  rest ← some (eval_multi env es)
  elim ctx.err [
    | some err ↦ some (inl err)
    | none ↦ rest >>= (λ r. some (elim r [ inl err ↦ inl err | inr vs ↦ inr (ctx.out ∷ vs) ]))
  ]
