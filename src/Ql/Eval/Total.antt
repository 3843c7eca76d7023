-- ===== src/Ql/Eval/Total.antt =====
-- The operators of ql_exec.go, on operands that give a context.
use mini_database_v.Base.{
  ◌≡◌, ◌≢◌, refl, arith, Bool, true, false, List, [], ◌∷◌, Option, none, some, ◌>>=◌, ◌==◌, inl,
  inr, ◌⊎◌, All, Bool-cases, Option-cases, Ordering, length,
}
use mini_database_v.Table.Value.{Value, type_bytes, type_int64}
use mini_database_v.Ql.Ast.{QlType}
use mini_database_v.Ql.Arith.{b2i, cmp2bool, EvalError, different_lengths}
use mini_database_v.Ql.Eval.{
  EvalCtx, failed, e_err, report, value_cmp, is_cmp, end_cmp, bin_op, check_operand, eval_logic,
  Operand, tuple_loop, tuple_cmp, eval_bin_op,
}

-- An integer or a text.
abbrev pub IsTyped : Value → Type 0
IsTyped v = (v.type ≡ type_int64) ⊎ (v.type ≡ type_bytes)

-- A context with an error, or with a value.
abbrev pub IsDone : EvalCtx → Type 0
IsDone ctx = (failed ctx ≡ true) ⊎ IsTyped ctx.out

-- Whatever the context, the operand gives a context; one with an error stays.
abbrev pub Works : Operand → Type 0
Works k =
    (ctx : EvalCtx) → (c : EvalCtx) × (k ctx ≡ some c) × IsDone c × (failed ctx ≡ true → c ≡ ctx)

pub e_err-IsDone : (ctx : EvalCtx) (e : EvalError) → IsDone (e_err ctx e)
unfolding e_err
e_err-IsDone ctx e = elim (Bool-cases (failed ctx)) [
  | inl bad ↦ inl (rw (bad, e_err) bad)
  | inr fine ↦ inl (rw fine)
]

report-IsDone : (ctx : EvalCtx) (e : Option EvalError) → IsTyped ctx.out → IsDone (report ctx e)
report-IsDone ctx none typed = inr typed
report-IsDone ctx (some e) typed = e_err-IsDone ctx e

-- Operands that were evaluated: an error, or two values.
abbrev Evaluated : EvalCtx → Value → Value → Type 0
Evaluated ctx v w = (failed ctx ≡ true) ⊎ (IsTyped v × IsTyped w)

value_cmp-none : (ctx : EvalCtx) (v w : Value) → Evaluated ctx v w → value_cmp ctx v w ≢ none
unfolding value_cmp
value_cmp-none ctx v w h e = ground arith

-- A comparison of values that are there never panics.
value_cmp_total :
    (ctx : EvalCtx) (v w : Value)
    → Evaluated ctx v w
    → (r : Ordering × EvalCtx) × (value_cmp ctx v w ≡ some r)
value_cmp_total ctx v w h = elim (Option-cases (value_cmp ctx v w)) [
  | inl panics ↦ absurd (value_cmp-none ctx v w h panics)
  | inr r ↦ r
]

cmp2bool_total : (o : Ordering) (t : QlType) → is_cmp t ≡ true → cmp2bool o t ≢ none
unfolding cmp2bool
cmp2bool_total Ordering.lt t h e = ground arith
cmp2bool_total Ordering.eq t h e = ground arith
cmp2bool_total Ordering.gt t h e = ground arith

end_cmp_total :
    (t : QlType) (r : Ordering × EvalCtx)
    → is_cmp t ≡ true
    → (c : EvalCtx) × (end_cmp t (some r) ≡ some c) × IsDone c
unfolding end_cmp
end_cmp_total t (o, c) h = elim (Option-cases (cmp2bool o t)) [
  | inl panics ↦ absurd (cmp2bool_total o t h panics)
  | inr (b, e) ↦ (
    record { out = record { type = type_int64; i64 = b2i b; str = c.out.str }; err = c.err },
    rw e,
    inr (inl refl),
  )
]

bin_op_total :
    (t : QlType) (ctx : EvalCtx) (v w : Value)
    → Evaluated ctx v w
    → (c : EvalCtx) × (bin_op t ctx v w ≡ some c) × IsDone c
unfolding bin_op e_err
bin_op_total t ctx v w h = elim (Bool-cases (is_cmp t)) [
  | inl compares ↦
      let (r, e) = value_cmp_total ctx v w h in
      let (c, ok, done) = end_cmp_total t r compares in (c, rw (compares, e) ok, done)
  | inr computes ↦ elim (Option-cases (bin_op t ctx v w)) [
    | inl panics ↦ absurd (bin_op-none t ctx v w computes h panics)
    | inr (c, e) ↦ (c, e, bin_op_done t ctx v w c computes e)
  ]
]
  where
    bin_op-none :
        (t : QlType) (ctx : EvalCtx) (v w : Value)
        → is_cmp t ≡ false
        → Evaluated ctx v w
        → bin_op t ctx v w ≢ none
    bin_op-none t ctx v w computes h e = ground arith

    bin_op_done :
        (t : QlType) (ctx : EvalCtx) (v w : Value) (c : EvalCtx)
        → is_cmp t ≡ false
        → bin_op t ctx v w ≡ some c
        → IsDone c
    bin_op_done t ctx v w c computes e = ground arith

pub eval_logic_total :
    (is_or : Bool) (c1 c2 : EvalCtx)
    → (c : EvalCtx) × (eval_logic is_or (some c1) (some c2) ≡ some c) × IsDone c
unfolding eval_logic check_operand e_err
eval_logic_total is_or c1 c2 = elim (Option-cases (eval_logic is_or (some c1) (some c2))) [
  | inl panics ↦ absurd (logic_none is_or c1 c2 panics)
  | inr (c, e) ↦ (c, e, logic_done is_or c1 c2 c e)
]
  where
    logic_none : (is_or : Bool) (c1 c2 : EvalCtx) → eval_logic is_or (some c1) (some c2) ≢ none
    logic_none is_or c1 c2 e = ground arith

    logic_done :
        (is_or : Bool) (c1 c2 c : EvalCtx)
        → eval_logic is_or (some c1) (some c2) ≡ some c
        → IsDone c
    logic_done is_or c1 c2 c e = ground arith

-- The second operand behind the first one.
second_operand :
    (b : Operand) (c1 : EvalCtx)
    → Works b
    → IsDone c1
    → (c2 : EvalCtx) × (b c1 ≡ some c2) × Evaluated c2 c1.out c2.out
second_operand b c1 works done =
    let (c2, ok, done2, stays) = works c1 in
    (
      c2,
      ok,
      elim done [
        | inl bad ↦ inl (rw (stays bad) bad)
        | inr typed ↦ elim done2 [ inl bad ↦ inl bad | inr typed2 ↦ inr (typed, typed2) ]
      ],
    )

tuple_loop_total :
    (ks ls : List Operand) (ctx : EvalCtx)
    → All Works ks
    → All Works ls
    → length ks ≡ length ls
    → (r : Ordering × EvalCtx) × (tuple_loop ctx ks ls ≡ some r)
unfolding tuple_loop
tuple_loop_total [] ls ctx hk hl same = ((Ordering.eq, ctx), refl)
tuple_loop_total (a ∷ ks) [] ctx hk hl same = absurd (ground arith)
tuple_loop_total (a ∷ ks) (b ∷ ls) ctx (wa, hk) (wb, hl) same = elim (Bool-cases (failed ctx)) [
  | inl bad ↦ ((Ordering.eq, ctx), rw bad)
  | inr fine ↦
      let (c1, ok1, done1, stays1) = wa ctx in
      let (c2, ok2, evaluated) = second_operand b c1 wb done1 in
      let ((o, c3), ok3) = value_cmp_total c2 c1.out c2.out evaluated in
      let (r, rest) = tuple_loop_total ks ls c3 hk hl (ground arith) in
      elim o
          as (λ o.
            value_cmp c2 c1.out c2.out ≡ some (o, c3)
            → (r : Ordering × EvalCtx) × (tuple_loop ctx (a ∷ ks) (b ∷ ls) ≡ some r)) [
              | Ordering.lt ↦ λ e. ((Ordering.lt, c3), rw (fine, ok1, ok2, e))
              | Ordering.eq ↦ λ e. (r, rw (fine, ok1, ok2, e) rest)
              | Ordering.gt ↦ λ e. ((Ordering.gt, c3), rw (fine, ok1, ok2, e))
            ]
        ok3
]

tuple_cmp_total :
    (ks ls : List Operand) (ctx : EvalCtx)
    → All Works ks
    → All Works ls
    → (r : Ordering × EvalCtx) × (tuple_cmp ctx ks ls ≡ some r)
unfolding tuple_cmp
tuple_cmp_total ks ls ctx hk hl = elim (Bool-cases (length ks == length ls)) [
  | inl same ↦ let (r, e) = tuple_loop_total ks ls ctx hk hl (ground arith) in (r, rw same e)
  | inr differ ↦ ((Ordering.eq, e_err ctx different_lengths), rw differ)
]

abbrev pub TupleWorks : Option (List Operand) → Type 0
TupleWorks none = Unit
TupleWorks (some ks) = All Works ks

binary_total :
    (t : QlType) (a b : Operand) (ctx : EvalCtx)
    → Works a
    → Works b
    → (c : EvalCtx) × ((do c1 ← a ctx; c2 ← b c1; bin_op t c2 c1.out c2.out) ≡ some c) × IsDone c
binary_total t a b ctx wa wb =
    let (c1, ok1, done1, stays1) = wa ctx in
    let (c2, ok2, evaluated) = second_operand b c1 wb done1 in
    let (c, ok, done) = bin_op_total t c2 c1.out c2.out evaluated in (c, rw (ok1, ok2) ok, done)

pub eval_bin_op_total :
    (ctx : EvalCtx) (t : QlType) (a b : Operand) (tuples : List (Option (List Operand)))
    → Works a
    → Works b
    → All TupleWorks tuples
    → (c : EvalCtx) × (eval_bin_op ctx t (a ∷ b ∷ []) tuples ≡ some c) × IsDone c
unfolding eval_bin_op
eval_bin_op_total ctx t a b [] wa wb h = binary_total t a b ctx wa wb
eval_bin_op_total ctx t a b (none ∷ ts) wa wb h = binary_total t a b ctx wa wb
eval_bin_op_total ctx t a b (some ks ∷ []) wa wb h = binary_total t a b ctx wa wb
eval_bin_op_total ctx t a b (some ks ∷ none ∷ ts) wa wb h = binary_total t a b ctx wa wb
eval_bin_op_total ctx t a b (some ks ∷ some ls ∷ ts) wa wb (hk, (hl, hs)) =
    elim (Bool-cases (is_cmp t)) [
      | inl compares ↦
          let (r, e) = tuple_cmp_total ks ls ctx hk hl in
          let (c, ok, done) = end_cmp_total t r compares in (c, rw (compares, e) ok, done)
      | inr computes ↦ let (c, ok, done) = binary_total t a b ctx wa wb in (c, rw computes ok, done)
    ]
