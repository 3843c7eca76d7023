-- ===== src/Ql/Range.antt =====
-- `initScanner` and `evalScanKey` of ql_exec.go: the range of keys that INDEX BY asks for. `none` is a
-- panic.
use mini_database_v.Base.{
  ◌≡◌, refl, arith, Bool, true, false, List, [], ◌∷◌, Option, none, some, ◌>>=◌, ◌>>◌, assert, ◌==◌,
  if◌then◌else◌, inl, inr, ◌⊎◌, length, bind_some, bound, sym,
}
use mini_database_v.Base.Bytes.{Bytes}
use mini_database_v.Cmp.{Cmp, is_positive, cmp2dir}
use mini_database_v.Table.Value.{Record}
use mini_database_v.Ql.Ast.{
  QlType, unset, ql_cmp_ge, ql_cmp_gt, ql_cmp_lt, ql_cmp_le, ql_cmp_eq, ql_tup, ql_sym, QlNode,
  node, kid, QlScan, type_of, from_kids, str_of,
}
use mini_database_v.Ql.Arith.{EvalError}
use mini_database_v.Ql.Eval.{eval_multi}

-- The fields of Scanner that say which keys are visited.
pub record ScanRange : Type 0 where
  pub key1 : Record
  pub cmp1 : Cmp
  pub key2 : Record
  pub cmp2 : Cmp

abbrev empty_record : Record
empty_record = record { cols = []; vals = [] }

-- `=` is left to `initScanner`.
unfoldable pub scan_cmp : QlType → Option Cmp
scan_cmp ql_cmp_eq = some Cmp.unset
scan_cmp ql_cmp_ge = some Cmp.ge
scan_cmp ql_cmp_gt = some Cmp.gt
scan_cmp ql_cmp_le = some Cmp.le
scan_cmp ql_cmp_lt = some Cmp.lt
scan_cmp _ = none

abbrev is_sym_node : QlNode → Bool
is_sym_node (node ql_sym n s ks) = true
is_sym_node (node _ n s ks) = false

-- the names of the columns, each of which must be a symbol
unfoldable pub col_names : List QlNode → Option (List Bytes)
col_names [] = some []
col_names (k ∷ ks) = do assert (is_sym_node k); names ← col_names ks; some (str_of k ∷ names)

-- `evalScanKey` behind the test of the operator, over the names and the expressions.
unfoldable pub tuple_key :
    Option Cmp → List QlNode → List QlNode → Option (EvalError ⊎ (Record × Cmp))
tuple_key operator names exprs = do
  cmp ← operator
  assert (length names == length exprs)
  vals ← eval_multi empty_record exprs
  elim vals [
    | inl e ↦ some (inl e)
    | inr vs ↦ col_names names >>= (λ cols. some (inr (record { cols = cols; vals = vs }, cmp)))
  ]

unfoldable pub eval_scan_key : QlNode → Option (EvalError ⊎ (Record × Cmp))
unfolding tuple_key scan_cmp
eval_scan_key (node unset n s ks) = some (inr (empty_record, Cmp.unset))
eval_scan_key (node t n s (kid (node ql_tup i r names) (kid (node ql_tup j q exprs) rest))) =
    tuple_key (scan_cmp t) (from_kids names) (from_kids exprs)
eval_scan_key (node _ n s _) = none

-- The switch of `initScanner`, on the types of the two keys.
unfoldable pub scan_range : QlType → QlType → Record × Cmp → Record × Cmp → Option ScanRange
scan_range unset unset k1 k2 =
    some (record { key1 = k1.0; cmp1 = Cmp.ge; key2 = k2.0; cmp2 = Cmp.le })
scan_range ql_cmp_eq unset k1 k2 =
    some (record { key1 = k1.0; cmp1 = Cmp.ge; key2 = k1.0; cmp2 = Cmp.le })
scan_range unset _ k1 k2 = none
scan_range _ unset k1 k2 = some (record {
  key1 = k1.0;
  cmp1 = k1.1;
  key2 = k2.0;
  cmp2 = if is_positive k1.1 then Cmp.le else Cmp.ge;
})
scan_range _ _ k1 k2 = some (record { key1 = k1.0; cmp1 = k1.1; key2 = k2.0; cmp2 = k2.1 })

unfoldable pub init_scanner : QlScan → Option (EvalError ⊎ ScanRange)
init_scanner req = do
  first ← eval_scan_key req.key1
  let second = eval_scan_key req.key2
  elim first [
    | inl e ↦ some (inl e)
    | inr k1 ↦ second >>= (λ r2. elim r2 [
      | inl e ↦ some (inl e)
      | inr k2 ↦ scan_range (type_of req.key1) (type_of req.key2) k1 k2 >>= (λ r. some (inr r))
    ])
  ]

-- The two ends of a range point at each other, as `KVTX.Seek` asserts.
abbrev pub IsOpposite : ScanRange → Type 0
IsOpposite r =
    (cmp2dir r.cmp1 ≡ some true) × (cmp2dir r.cmp2 ≡ some false)
    ⊎ (cmp2dir r.cmp1 ≡ some false) × (cmp2dir r.cmp2 ≡ some true)

scan_range-IsOpposite :
    (t : QlType) (k1 k2 : Record × Cmp) (r : ScanRange)
    → (t ≡ unset) ⊎ (scan_cmp t ≡ some k1.1)
    → scan_range t unset k1 k2 ≡ some r
    → IsOpposite r
unfolding scan_range scan_cmp cmp2dir
scan_range-IsOpposite t k1 k2 r h e = ground arith

tuple_key_cmp :
    (operator : Option Cmp) (names exprs : List QlNode) {rec : Record} {cmp : Cmp}
    → tuple_key operator names exprs ≡ some (inr (rec, cmp))
    → operator ≡ some cmp
unfolding tuple_key
tuple_key_cmp operator names exprs h = ground arith

eval_scan_key_cmp :
    (key : QlNode) {rec : Record} {cmp : Cmp}
    → eval_scan_key key ≡ some (inr (rec, cmp))
    → (type_of key ≡ unset) ⊎ (scan_cmp (type_of key) ≡ some cmp)
unfolding eval_scan_key
eval_scan_key_cmp (node unset n s ks) h = inl refl
eval_scan_key_cmp (node t n s (kid (node ql_tup i r names) (kid (node ql_tup j q exprs) rest))) h =
    inr (tuple_key_cmp (scan_cmp t) (from_kids names) (from_kids exprs) h)
eval_scan_key_cmp (node t n s ks) h = cc

-- The range of a query with one key, or none, has ends that point at each other, so that seeking its
-- start passes the assertion on the directions.
pub init_scanner-IsOpposite :
    (req : QlScan) (r : ScanRange)
    → type_of req.key2 ≡ unset
    → init_scanner req ≡ some (inr r)
    → IsOpposite r
unfolding init_scanner
init_scanner-IsOpposite req r one_sided h = elim (bind_some (eval_scan_key req.key1) _ h) [
  | bound (inl e) first h1 ↦ absurd (cc)
  | bound (inr k1) first h1 ↦ elim (bind_some (eval_scan_key req.key2) _ h1) [
    | bound (inl e) second h2 ↦ absurd (cc)
    | bound (inr k2) second h2 ↦
        elim (bind_some (scan_range (type_of req.key1) (type_of req.key2) k1 k2) _ h2) [
          | bound r' ok h3 ↦
              let same : r' ≡ r = cc in
              let at : scan_range (type_of req.key1) unset k1 k2 ≡ some r =
                rw (sym one_sided, ← same) ok in
              scan_range-IsOpposite (type_of req.key1) k1 k2 r (eval_scan_key_cmp req.key1 first) at
        ]
  ]
]
