-- ===== src/Tx/Combined.antt =====
-- `CombinedIter` of transaction.go: the pending updates of a transaction over its snapshot.
pub mod Merged
use mini_database_v.Base.{
  Bool, true, false, not, ◌&&◌, ◌||◌, if◌then◌else◌, Option, none, some, List, [], ◌∷◌, ◌>>=◌, ◌>>◌,
  assert, Ordering,
}
use mini_database_v.Base.Bytes.{Bytes, compare_bytes}
use mini_database_v.Cmp.{Cmp, cmp_ok}
use mini_database_v.Btree.Node.{Node}
use mini_database_v.Btree.Pages.{PageOps}
use mini_database_v.Btree.Pages.Memory.{memory}
use mini_database_v.Btree.Iter.{BIter, iter_valid, iter_deref, next, prev}

-- The iterators with the pages of their trees; the direction is true for 1 and false for -1.
pub record CombinedIter (Pages : Type 0) : Type 0 where
  pub top : BIter
  pub top_pages : List Node
  pub bottom : BIter
  pub bottom_pages : Pages
  pub direction : Bool
  pub end_key : Bytes
  pub end_cmp : Cmp

-- `bytes.Compare(k1, k2) == direction`
abbrev pub second_first : Bool → Ordering → Bool
second_first true Ordering.gt = true
second_first true Ordering.eq = false
second_first true Ordering.lt = false
second_first false Ordering.lt = true
second_first false Ordering.eq = false
second_first false Ordering.gt = false

-- which of the two iterators move, where both are valid
abbrev pub moves : Bool → Ordering → Bool × Bool
moves d Ordering.eq = (true, true)
moves true Ordering.lt = (true, false)
moves true Ordering.gt = (false, true)
moves false Ordering.lt = (false, true)
moves false Ordering.gt = (true, false)

-- `v1[1:]`, behind the flag
abbrev pub drop_flag : Bytes × Bytes → Option (Bytes × Bytes)
drop_flag (k, []) = none
drop_flag (k, f ∷ v) = some (k, v)

-- `Next` or `Prev` of an iterator, by the direction
unfoldable pub advance : (ops : PageOps) → ops.Pages → Bool → BIter → Option BIter
unfolding next prev
advance ops s true it = next ops s it
advance ops s false it = prev ops s it

abbrev pub advance_if : Bool → (ops : PageOps) → ops.Pages → Bool → BIter → Option BIter
advance_if true ops s d it = advance ops s d it
advance_if false ops s d it = some it

module _ (ops : PageOps) where
  open ops use {Pages}

  -- The pair, by which of the two iterators are valid.
  unfoldable pub pick : CombinedIter Pages → Bool → Bool → Option (Bytes × Bytes)
  unfolding iter_deref
  pick iter false false = none
  pick iter false true = iter_deref iter.bottom
  pick iter true false = iter_deref iter.top >>= drop_flag
  pick iter true true = iter_deref iter.top >>= λ first. iter_deref iter.bottom >>= λ second.
      if second_first iter.direction (compare_bytes first.0 second.0)
      then some second
      else drop_flag first

  unfoldable pub combined_deref : CombinedIter Pages → Option (Bytes × Bytes)
  unfolding iter_valid pick
  combined_deref iter = iter_valid iter.top >>= λ top_valid.
      iter_valid iter.bottom >>= λ bottom_valid. pick iter top_valid bottom_valid

  unfoldable pub combined_valid : CombinedIter Pages → Option Bool
  unfolding iter_valid combined_deref cmp_ok
  combined_valid iter = iter_valid iter.top >>= λ top_valid.
      iter_valid iter.bottom >>= λ bottom_valid.
      if not top_valid && not bottom_valid
      then some false
      else combined_deref iter >>= λ kv. cmp_ok kv.0 iter.end_cmp iter.end_key

  unfoldable pub both_moves : CombinedIter Pages → Bool → Bool → Option (Bool × Bool)
  unfolding iter_deref
  both_moves iter false bottom_valid = some (false, bottom_valid)
  both_moves iter true false = some (true, false)
  both_moves iter true true = iter_deref iter.top >>= λ first. iter_deref iter.bottom >>= λ second.
      some (moves iter.direction (compare_bytes first.0 second.0))

  unfoldable pub combined_next : CombinedIter Pages → Option (CombinedIter Pages)
  unfolding iter_valid both_moves advance
  combined_next iter = iter_valid iter.top >>= λ top_valid.
      iter_valid iter.bottom >>= λ bottom_valid. both_moves iter top_valid bottom_valid >>= λ move.
      assert (move.0 || move.1)
      >> advance_if move.0 memory iter.top_pages iter.direction iter.top
      >>= λ top. advance_if move.1 ops iter.bottom_pages iter.direction iter.bottom >>= λ bottom.
          some (record iter { top = top; bottom = bottom })
