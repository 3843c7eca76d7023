-- ===== src/Ql/Display.antt =====
-- `Display` of expressions and of values, in ql_parse.go and table.go.
use mini_database_v.Base.{
  ℕ, zero, suc, ◌+◌, ◌-◌, ◌%◌, ◌/◌, ◌^◌, ltb, ◌==◌, if◌then◌else◌, ◌≡◌, refl, Option, none, some,
  List, [], ◌∷◌, ◌++◌, ◌>>=◌,
}
use mini_database_v.Base.Bytes.{Bytes, codes}
use mini_database_v.Table.Value.{Value, type_bytes, type_int64}
use mini_database_v.Ql.Ast.{
  QlType, QlNode, node, QlKids, nil, kid, ql_str, ql_i64, ql_cmp_ge, ql_cmp_gt, ql_cmp_lt,
  ql_cmp_le, ql_cmp_eq, ql_cmp_ne, ql_add, ql_sub, ql_mul, ql_div, ql_mod, ql_and, ql_or, ql_not,
  ql_neg, ql_sym, ql_tup,
}

-- The decimal digits of a number, at most as many as the fuel.
abbrev pub decimal : ℕ → ℕ → Bytes
decimal zero n = []
decimal (suc digits) n =
    let front = decimal digits (n / 10) in
    if ltb n 10 then (48 + n) ∷ [] else front ++ (48 + n % 10) ∷ []

-- `strconv.FormatInt` in base ten, of a 64-bit pattern
unfoldable pub format_int : ℕ → Bytes
format_int n = if ltb n (2 ^ 63) then decimal 20 n else codes "-" ++ decimal 20 (2 ^ 64 - n)

-- the sign that `displayBinOp` is called with
abbrev pub op_str : QlType → Option Bytes
op_str ql_cmp_ge = some (codes ">=")
op_str ql_cmp_gt = some (codes ">")
op_str ql_cmp_lt = some (codes "<")
op_str ql_cmp_le = some (codes "<=")
op_str ql_cmp_eq = some (codes "=")
op_str ql_cmp_ne = some (codes "!=")
op_str ql_add = some (codes "+")
op_str ql_sub = some (codes "-")
op_str ql_mul = some (codes "*")
op_str ql_div = some (codes "/")
op_str ql_mod = some (codes "%")
op_str ql_and = some (codes "AND")
op_str ql_or = some (codes "OR")
op_str _ = none

-- the operands, each displayed or a panic
abbrev first_of : List (Option Bytes) → Option Bytes
first_of [] = none
first_of (a ∷ rest) = a

abbrev display_bin_op : Bytes → List (Option Bytes) → Option Bytes
display_bin_op op [] = none
display_bin_op op (a ∷ []) = none
display_bin_op op (a ∷ b ∷ rest) =
    a >>= λ left. b >>= λ right. some (left ++ codes " " ++ op ++ codes " " ++ right)

-- `strings.Join` with ", "
abbrev join : List (Option Bytes) → Option Bytes
join [] = some []
join (a ∷ []) = a
join (a ∷ b ∷ rest) =
    let others = join (b ∷ rest) in
    a >>= λ first. others >>= λ more. some (first ++ codes ", " ++ more)

abbrev pub display_op : QlType → ℕ → Bytes → List (Option Bytes) → Option Bytes
unfolding format_int
display_op ql_sym n s kids = some s
display_op ql_tup n s kids = join kids >>= λ inner. some (codes "(" ++ inner ++ codes ")")
display_op ql_str n s kids = some (b'"' ∷ s ++ b'"' ∷ [])
display_op ql_i64 n s kids = some (format_int n)
display_op ql_not n s kids = first_of kids >>= λ text. some (codes "NOT " ++ text)
display_op ql_neg n s kids = first_of kids >>= λ text. some (codes "-" ++ text)
display_op t n s kids = op_str t >>= λ op. display_bin_op op kids

unfoldable mutual
  pub display : QlNode → Option Bytes
  display (node t n s ks) = display_op t n s (display_kids ks)

  pub display_kids : QlKids → List (Option Bytes)
  display_kids nil = []
  display_kids (kid k ks) = display k ∷ display_kids ks

-- `Value.Display`
unfoldable pub display_value : Value → Option Bytes
unfolding format_int
display_value v =
    if v.type == type_bytes
    then some v.str
    else if v.type == type_int64
    then some (format_int v.i64)
    else none

minus_twelve : format_int (2 ^ 64 - 12) ≡ codes "-12"
unfolding format_int
minus_twelve = refl

sum_and_text :
    display (
      node QlType.ql_tup 0 [] (
        kid
          (node QlType.ql_add 0 []
            (kid (node QlType.ql_i64 305 [] nil) (kid (node QlType.ql_sym 0 (codes "a") nil) nil)))
          (kid (node QlType.ql_not 0 [] (kid (node QlType.ql_sym 0 (codes "b") nil) nil)) nil)))
    ≡ some (codes "(305 + a, NOT b)")
unfolding display display_op
sum_and_text = refl
