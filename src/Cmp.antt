-- ===== src/Cmp.antt =====
-- The comparison of a scan: the CMP constants and `cmpOK` of db/btree_iter.go, and `cmp2dir` of
-- db/transaction.go.
use mini_database_v.Base.{Bool, true, false, Option, none, some, Ordering}
use mini_database_v.Base.Bytes.{Bytes, compare_bytes}

-- CMP_GE, CMP_GT, CMP_LT, CMP_LE; `unset` is 0, which stands for `=` or for a missing key.
pub data Cmp : Type 0 where
  ge gt lt le unset : Cmp

-- `cmp > 0` and `cmp < 0`
abbrev pub is_positive : Cmp → Bool
is_positive ge = true
is_positive gt = true
is_positive lt = false
is_positive le = false
is_positive unset = false

abbrev pub is_negative : Cmp → Bool
is_negative ge = false
is_negative gt = false
is_negative lt = true
is_negative le = true
is_negative unset = false

-- the comparison of a result of `bytes.Compare` with 0
abbrev pub holds : Cmp → Ordering → Option Bool
holds ge Ordering.lt = some false
holds ge Ordering.eq = some true
holds ge Ordering.gt = some true
holds gt Ordering.lt = some false
holds gt Ordering.eq = some false
holds gt Ordering.gt = some true
holds lt Ordering.lt = some true
holds lt Ordering.eq = some false
holds lt Ordering.gt = some false
holds le Ordering.lt = some true
holds le Ordering.eq = some true
holds le Ordering.gt = some false
holds unset r = none

unfoldable pub cmp_ok : Bytes → Cmp → Bytes → Option Bool
cmp_ok curr cmp key = holds cmp (compare_bytes curr key)

-- true is the direction 1, false is -1; `cmp2dir` panics at 0.
unfoldable pub cmp2dir : Cmp → Option Bool
cmp2dir ge = some true
cmp2dir gt = some true
cmp2dir lt = some false
cmp2dir le = some false
cmp2dir unset = none
