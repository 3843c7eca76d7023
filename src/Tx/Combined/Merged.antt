-- ===== src/Tx/Combined/Merged.antt =====
-- The pairs that `CombinedIter` of transaction.go visits, from those that its iterators visit.
use mini_database_v.Base.{
  ◌≡◌, ◌≢◌, refl, sym, ap, ◌∙◌, Bool, true, false, not, ◌||◌, ◌&&◌, Bool-cases, inl, inr,
  if◌then◌else◌, some, List, [], ◌∷◌, All, Ordering, arith, ◌<◌, length,
}
use mini_database_v.Base.Bytes.{Bytes, compare_bytes, compare_bytes_refl, eq_bytes, eq_bytes_iff}
use mini_database_v.Cmp.{cmp_ok}
use mini_database_v.Btree.Pages.{PageOps}
use mini_database_v.Btree.Pages.Memory.{memory}
use mini_database_v.Btree.Iter.{BIter, iter_valid, iter_deref}
use mini_database_v.Tx.Ranges.{is_lt, is_lt_asym}
use mini_database_v.Tx.Combined.{
  CombinedIter, second_first, moves, drop_flag, advance, advance_if, pick, combined_deref,
  combined_valid, both_moves, combined_next,
}

abbrev pub Pairs : Type 0
Pairs = List (Bytes × Bytes)

-- The iterator of a tree gives the pairs one after the other, and then it is not valid.
unfoldable pub Walks : (ops : PageOps) → ops.Pages → Bool → BIter → Pairs → Type 0
Walks ops s d it [] = iter_valid it ≡ some false
Walks ops s d it (e ∷ es) =
    (iter_valid it ≡ some true)
    × (iter_deref it ≡ some e)
    × (it' : BIter) × (advance ops s d it ≡ some it')
    × Walks ops s d it' es

-- the value behind the flag
abbrev pub unflagged : Bytes × Bytes → Bytes × Bytes
unflagged (k, []) = (k, [])
unflagged (k, f ∷ v) = (k, v)

-- The first key comes before the second one, ascending or descending.
abbrev pub comes_first : Bool → Bytes → Bytes → Bool
comes_first true a b = is_lt a b
comes_first false a b = is_lt b a

-- The two lists as one in their order: at a key that both have, the pending pair alone.
unfoldable pub merge : Bool → Pairs → Pairs → Pairs
merge d [] ys = ys
merge d (x ∷ xs) [] = unflagged x ∷ merge d xs []
merge d (x ∷ xs) (y ∷ ys) =
    let both = merge d xs ys in
    let first = merge d xs (y ∷ ys) in
    let second = merge d (x ∷ xs) ys in
    if eq_bytes x.0 y.0
    then unflagged x ∷ both
    else if comes_first d x.0 y.0
    then unflagged x ∷ first
    else y ∷ second

-- Every pending value carries its flag.
abbrev pub Flagged : Pairs → Type 0
Flagged = All (λ e. 0 < length e.1)

drop_flag_lem : (e : Bytes × Bytes) → 0 < length e.1 → drop_flag e ≡ some (unflagged e)
drop_flag_lem (k, []) h = absurd (omega arith)
drop_flag_lem (k, f ∷ v) h = refl

equal_keys : (a b : Bytes) → compare_bytes a b ≡ Ordering.eq → eq_bytes a b ≡ true
equal_keys [] [] h = refl
equal_keys [] (y ∷ b) h = cc
equal_keys (x ∷ a) [] h = cc
equal_keys (x ∷ a) (y ∷ b) h = ground (arith, equal_keys a b)

flipped : (a b : Bytes) → compare_bytes a b ≡ Ordering.gt → is_lt b a ≡ true
flipped [] [] h = cc
flipped [] (y ∷ b) h = cc
flipped (x ∷ a) [] h = refl
flipped (x ∷ a) (y ∷ b) h = ground (arith, flipped a b)

-- How two keys compare, as the tests say it.
data Compared (a b : Bytes) : Type 0 where
  same : compare_bytes a b ≡ Ordering.eq → eq_bytes a b ≡ true → Compared a b
  less :
      compare_bytes a b ≡ Ordering.lt
      → eq_bytes a b ≡ false
      → is_lt a b ≡ true
      → is_lt b a ≡ false
      → Compared a b
  more :
      compare_bytes a b ≡ Ordering.gt
      → eq_bytes a b ≡ false
      → is_lt a b ≡ false
      → is_lt b a ≡ true
      → Compared a b

different :
    (a b : Bytes) (o : Ordering) → compare_bytes a b ≡ o → o ≢ Ordering.eq → eq_bytes a b ≡ false
different a b o h other = elim (Bool-cases (eq_bytes a b)) [
  | inr distinct ↦ distinct
  | inl yes_same ↦
      let equal : a ≡ b = (eq_bytes_iff a b).0 yes_same in
      absurd (other (sym h ∙ ap (λ k. compare_bytes k b) equal ∙ compare_bytes_refl b))
]

compared : (a b : Bytes) → Compared a b
compared a b = by_order (compare_bytes a b) refl
  where
    by_order : (o : Ordering) → compare_bytes a b ≡ o → Compared a b
    by_order Ordering.eq h = same h (equal_keys a b h)
    by_order Ordering.lt h =
        let below : is_lt a b ≡ true = rw (h, is_lt) refl in
        less h (different a b Ordering.lt h (λ e. cc)) below (is_lt_asym a b below)
    by_order Ordering.gt h =
        let not_below : is_lt a b ≡ false = rw (h, is_lt) refl in
        more h (different a b Ordering.gt h (λ e. cc)) not_below (flipped a b h)

module _ (ops : PageOps) where
  -- The iterator gives these pairs one after the other; each time it is valid exactly if the key is in range, and at the end it is not.
  unfoldable pub Visits : CombinedIter ops.Pages → Pairs → Type 0
  Visits iter [] = combined_valid ops iter ≡ some false
  Visits iter (kv ∷ rest) =
      (combined_deref ops iter ≡ some kv)
      × (combined_valid ops iter ≡ cmp_ok kv.0 iter.end_cmp iter.end_key)
      × (later : CombinedIter ops.Pages) × (combined_next ops iter ≡ some later)
      × Visits later rest

  abbrev TopWalks : CombinedIter ops.Pages → Pairs → Type 0
  TopWalks iter = Walks memory iter.top_pages iter.direction iter.top

  abbrev BottomWalks : CombinedIter ops.Pages → Pairs → Type 0
  BottomWalks iter = Walks ops iter.bottom_pages iter.direction iter.bottom

  module _ (iter : CombinedIter ops.Pages) (top_valid bottom_valid : Bool)
      (t : iter_valid iter.top ≡ some top_valid)
      (b : iter_valid iter.bottom ≡ some bottom_valid) where
    -- One pair, by what the iterators are.
    visit :
        (kv : Bytes × Bytes) (move : Bool × Bool) (top bottom : BIter) (rest : Pairs)
        → (top_valid || bottom_valid) ≡ true
        → pick ops iter top_valid bottom_valid ≡ some kv
        → both_moves ops iter top_valid bottom_valid ≡ some move
        → (move.0 || move.1) ≡ true
        → advance_if move.0 memory iter.top_pages iter.direction iter.top ≡ some top
        → advance_if move.1 ops iter.bottom_pages iter.direction iter.bottom ≡ some bottom
        → Visits (record iter { top = top; bottom = bottom }) rest
        → Visits iter (kv ∷ rest)
    unfolding Visits combined_deref combined_valid combined_next
    visit kv move top bottom rest any at found moving first second later =
        let deref : combined_deref ops iter ≡ some kv = rw (t, b, at, combined_deref) refl in
        let some_valid : (not top_valid && not bottom_valid) ≡ false = ground arith in
        (
          deref,
          rw (t, b, some_valid, at) refl,
          record iter { top = top; bottom = bottom },
          rw (t, b, found, moving, first, second) refl,
          later,
        )

  ended :
      (iter : CombinedIter ops.Pages)
      → iter_valid iter.top ≡ some false
      → iter_valid iter.bottom ≡ some false
      → Visits iter []
  unfolding Visits combined_valid
  ended iter t b = rw (t, b) refl

  module _ (iter : CombinedIter ops.Pages) (x y : Bytes × Bytes) (it it' : BIter)
      (valid : iter_valid iter.top ≡ some true) (valid' : iter_valid iter.bottom ≡ some true)
      (at : iter_deref iter.top ≡ some x) (at' : iter_deref iter.bottom ≡ some y)
      (moved : advance memory iter.top_pages iter.direction iter.top ≡ some it)
      (moved' : advance ops iter.bottom_pages iter.direction iter.bottom ≡ some it')
      (f : 0 < length x.1) where
    picked :
        (d : Bool) (o : Ordering)
        → iter.direction ≡ d
        → compare_bytes x.0 y.0 ≡ o
        → pick ops iter true true ≡ some (if second_first d o then y else unflagged x)
    unfolding pick
    picked d o dir h = elim (Bool-cases (second_first d o)) [
      | inl second ↦ rw (at, at', dir, h, second) refl
      | inr first ↦ rw (at, at', dir, h, first) (drop_flag_lem x f)
    ]

    found_moves :
        (d : Bool) (o : Ordering)
        → iter.direction ≡ d
        → compare_bytes x.0 y.0 ≡ o
        → both_moves ops iter true true ≡ some (moves d o)
    unfolding both_moves
    found_moves d o dir h = rw (at, at', dir, h) refl

    two_pairs :
        (xs ys : Pairs)
        → Compared x.0 y.0
        → Visits (record iter { top = it; bottom = it' }) (merge iter.direction xs ys)
        → Visits (record iter { top = it }) (merge iter.direction xs (y ∷ ys))
        → Visits (record iter { bottom = it' }) (merge iter.direction (x ∷ xs) ys)
        → Visits iter (merge iter.direction (x ∷ xs) (y ∷ ys))
    unfolding merge
    two_pairs xs ys (same h eq) both first second = elim (Bool-cases iter.direction) [
      | inl up ↦ rw eq (
          visit iter true true valid valid' (unflagged x) (true, true) it it'
            (merge iter.direction xs ys) refl (picked true Ordering.eq up h)
            (found_moves true Ordering.eq up h) refl moved moved' both)
      | inr down ↦ rw eq (
          visit iter true true valid valid' (unflagged x) (true, true) it it'
            (merge iter.direction xs ys) refl (picked false Ordering.eq down h)
            (found_moves false Ordering.eq down h) refl moved moved' both)
    ]
    two_pairs xs ys (less h other lt gt) both first second = elim (Bool-cases iter.direction) [
      | inl up ↦
          let order : comes_first iter.direction x.0 y.0 ≡ true = rw up lt in
          rw (other, order)
            (visit iter true true valid valid' (unflagged x) (true, false) it iter.bottom
              (merge iter.direction xs (y ∷ ys)) refl (picked true Ordering.lt up h)
              (found_moves true Ordering.lt up h) refl moved refl first)
      | inr down ↦
          let order : comes_first iter.direction x.0 y.0 ≡ false = rw down gt in
          rw (other, order)
            (visit iter true true valid valid' y (false, true) iter.top it'
              (merge iter.direction (x ∷ xs) ys) refl (picked false Ordering.lt down h)
              (found_moves false Ordering.lt down h) refl refl moved' second)
    ]
    two_pairs xs ys (more h other lt gt) both first second = elim (Bool-cases iter.direction) [
      | inl up ↦
          let order : comes_first iter.direction x.0 y.0 ≡ false = rw up lt in
          rw (other, order)
            (visit iter true true valid valid' y (false, true) iter.top it'
              (merge iter.direction (x ∷ xs) ys) refl (picked true Ordering.gt up h)
              (found_moves true Ordering.gt up h) refl refl moved' second)
      | inr down ↦
          let order : comes_first iter.direction x.0 y.0 ≡ true = rw down gt in
          rw (other, order)
            (visit iter true true valid valid' (unflagged x) (true, false) it iter.bottom
              (merge iter.direction xs (y ∷ ys)) refl (picked false Ordering.gt down h)
              (found_moves false Ordering.gt down h) refl moved refl first)
    ]

  visits :
      (iter : CombinedIter ops.Pages) (xs ys : Pairs)
      → TopWalks iter xs
      → BottomWalks iter ys
      → Flagged xs
      → Visits iter (merge iter.direction xs ys)
  unfolding Walks merge pick both_moves
  visits iter [] [] t b flagged = ended iter t b
  visits iter (x ∷ xs) [] (valid, at, it, moved, walks) b (f, fs) =
      visit iter true false valid b (unflagged x) (true, false) it iter.bottom _ refl
        (rw at (drop_flag_lem x f)) refl refl moved refl
        (visits (record iter { top = it }) xs [] walks b fs)
  visits iter [] (y ∷ ys) t (valid, at, it, moved, walks) flagged =
      visit iter false true t valid y (false, true) iter.top it _ refl at refl refl refl moved
        (visits (record iter { bottom = it }) [] ys t walks flagged)
  visits iter (x ∷ xs) (y ∷ ys) (valid, at, it, moved, walks) (valid', at', it', moved', walks')
        (f, fs) =
      two_pairs iter x y it it' valid valid' at at' moved moved' f xs ys (compared x.0 y.0)
        (visits (record iter { top = it; bottom = it' }) xs ys walks walks' fs)
        (visits (record iter { top = it }) xs (y ∷ ys) walks (valid', at', it', moved', walks') fs)
        (visits (record iter { bottom = it' }) (x ∷ xs) ys (valid, at, it, moved, walks) walks'
          (f, fs))

  -- The iterator stands at the front of the pairs that its two iterators visit, as one list in its order: it visits exactly these pairs, a pending one alone and without its flag where both trees have the key, each is valid if its key is in range, and at the end it is not valid. The two iterators visit their pairs and end, and the pending values carry their flags.
  pub combined_iter_lem :
      (iter : CombinedIter ops.Pages) (xs ys : Pairs)
      → Walks memory iter.top_pages iter.direction iter.top xs
      → Walks ops iter.bottom_pages iter.direction iter.bottom ys
      → Flagged xs
      → Visits iter (merge iter.direction xs ys)
  combined_iter_lem = visits
