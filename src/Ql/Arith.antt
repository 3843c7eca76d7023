-- ===== src/Ql/Arith.antt =====
-- The `int64` arithmetic of ql_exec.go on 64-bit patterns, and `b2i` and `cmp2bool`.
use mini_database_v.Base.{
  ℕ, ◌+◌, ◌-◌, ◌*◌, ◌/◌, ◌%◌, ◌^◌, Bool, true, false, ◌==◌, leb, if◌then◌else◌, Option, none, some,
  Ordering,
}
use mini_database_v.Ql.Ast.{
  QlType, ql_cmp_ge, ql_cmp_gt, ql_cmp_lt, ql_cmp_le, ql_cmp_eq, ql_cmp_ne, ql_add, ql_sub, ql_mul,
  ql_div, ql_mod,
}

abbrev pub b2i : Bool → ℕ
b2i b = if b then 1 else 0

-- `none` is the panic on a type that is no comparison.
unfoldable pub cmp2bool : Ordering → QlType → Option Bool
cmp2bool Ordering.lt ql_cmp_eq = some false
cmp2bool Ordering.lt ql_cmp_ne = some true
cmp2bool Ordering.lt ql_cmp_ge = some false
cmp2bool Ordering.lt ql_cmp_gt = some false
cmp2bool Ordering.lt ql_cmp_le = some true
cmp2bool Ordering.lt ql_cmp_lt = some true
cmp2bool Ordering.eq ql_cmp_eq = some true
cmp2bool Ordering.eq ql_cmp_ne = some false
cmp2bool Ordering.eq ql_cmp_ge = some true
cmp2bool Ordering.eq ql_cmp_gt = some false
cmp2bool Ordering.eq ql_cmp_le = some true
cmp2bool Ordering.eq ql_cmp_lt = some false
cmp2bool Ordering.gt ql_cmp_eq = some false
cmp2bool Ordering.gt ql_cmp_ne = some true
cmp2bool Ordering.gt ql_cmp_ge = some true
cmp2bool Ordering.gt ql_cmp_gt = some true
cmp2bool Ordering.gt ql_cmp_le = some false
cmp2bool Ordering.gt ql_cmp_lt = some false
cmp2bool _ _ = none

-- `-x`, and what `x` is without its sign.
abbrev pub negate : ℕ → ℕ
negate x = (2 ^ 64 - x) % 2 ^ 64

abbrev pub is_minus : ℕ → Bool
is_minus x = leb (2 ^ 63) x

abbrev pub magnitude : ℕ → ℕ
magnitude x = if is_minus x then 2 ^ 64 - x else x

-- Go divides towards 0, and the remainder has the sign of the dividend.
abbrev pub quotient : ℕ → ℕ → ℕ
quotient x y =
    let q = magnitude x / magnitude y in
    if is_minus x
    then (if is_minus y then q else negate q)
    else (if is_minus y then negate q else q)

abbrev pub remainder : ℕ → ℕ → ℕ
remainder x y = let r = magnitude x % magnitude y in if is_minus x then negate r else r

pub data EvalError : Type 0 where
  unknown_column unexpected_tuple neg_type not_type type_mismatch bad_operand different_types :
      EvalError
  different_lengths div_by_zero bad_i64_op bad_str_op : EvalError

-- The result, and the error that is reported with it.
unfoldable pub bin_op_i64 : QlType → ℕ → ℕ → ℕ × Option EvalError
bin_op_i64 ql_add x y = ((x + y) % 2 ^ 64, none)
bin_op_i64 ql_sub x y = ((x + (2 ^ 64 - y)) % 2 ^ 64, none)
bin_op_i64 ql_mul x y = ((x * y) % 2 ^ 64, none)
bin_op_i64 ql_div x y = if y == 0 then (0, some div_by_zero) else (quotient x y, none)
bin_op_i64 ql_mod x y = if y == 0 then (0, some div_by_zero) else (remainder x y, none)
bin_op_i64 _ x y = (0, some bad_i64_op)
