-- ===== src/Tx/Ranges.antt =====
-- `KeyRange`, `keyRangeCmp` and `sortedRangesOverlap` of transaction.go.
use mini_database_v.Base.{
  ℕ, ◌≡◌, refl, sym, ◌∙◌, Bool, true, false, List, [], ◌∷◌, arith, if◌then◌else◌, inl, inr, ◌↔◌,
  All, Any, Ordering, Bool-cases,
}
use mini_database_v.Base.Bytes.{Bytes, compare_bytes}

-- start <= key <= stop
pub record KeyRange : Type 0 where
  pub start : Bytes
  pub stop : Bytes

pub record CommittedTx : Type 0 where
  pub version : ℕ
  pub writes : List KeyRange

-- `bytes.Compare(a, b) < 0`
abbrev pub is_lt : Bytes → Bytes → Bool
is_lt a b = elim (compare_bytes a b) [ Ordering.lt ↦ true | _ ↦ false ]

abbrev pub key_range_cmp : KeyRange → KeyRange → Ordering
key_range_cmp r s = compare_bytes r.start s.start

abbrev pub is_gt : Ordering → Bool
is_gt o = elim o [ Ordering.gt ↦ true | _ ↦ false ]

-- `slices.SortFunc` by `keyRangeCmp`
unfoldable pub insert_range : KeyRange → List KeyRange → List KeyRange
insert_range r [] = r ∷ []
insert_range r (s ∷ rs) =
    let rest = insert_range r rs in if is_gt (key_range_cmp r s) then s ∷ rest else r ∷ s ∷ rs

unfoldable pub sort_ranges : List KeyRange → List KeyRange
unfolding insert_range
sort_ranges [] = []
sort_ranges (r ∷ rs) = insert_range r (sort_ranges rs)

-- The two lists are what is left from the indexes `i1` and `i2` on.
unfoldable pub sorted_ranges_overlap : List KeyRange → List KeyRange → Bool
sorted_ranges_overlap [] ws = false
sorted_ranges_overlap (r ∷ rs) [] = false
sorted_ranges_overlap (r ∷ rs) (w ∷ ws) = elim (is_lt r.stop w.start) [
  | true ↦ sorted_ranges_overlap rs (w ∷ ws)
  | false ↦ elim (is_lt w.stop r.start) [ true ↦ sorted_ranges_overlap (r ∷ rs) ws | false ↦ true ]
]

-- Neither range ends before the other one starts.
abbrev pub Overlaps : KeyRange → KeyRange → Type 0
Overlaps r w = (is_lt r.stop w.start ≡ false) × (is_lt w.stop r.start ≡ false)

abbrev pub StartsSorted : List KeyRange → Type 0
StartsSorted [] = Unit
StartsSorted (r ∷ rs) = All (λ s. is_lt s.start r.start ≡ false) rs × StartsSorted rs

pub is_lt-of_lt_of_le : (a b c : Bytes) → is_lt a b ≡ true → is_lt c b ≡ false → is_lt a c ≡ true
is_lt-of_lt_of_le [] [] c h k = cc
is_lt-of_lt_of_le [] (y ∷ b) [] h k = cc
is_lt-of_lt_of_le [] (y ∷ b) (z ∷ c) h k = refl
is_lt-of_lt_of_le (x ∷ a) [] c h k = cc
is_lt-of_lt_of_le (x ∷ a) (y ∷ b) [] h k = cc
is_lt-of_lt_of_le (x ∷ a) (y ∷ b) (z ∷ c) h k = ground (arith, is_lt-of_lt_of_le a b c)

pub is_lt_asym : (a b : Bytes) → is_lt a b ≡ true → is_lt b a ≡ false
is_lt_asym [] [] h = refl
is_lt_asym [] (y ∷ b) h = refl
is_lt_asym (x ∷ a) [] h = cc
is_lt_asym (x ∷ a) (y ∷ b) h = ground (arith, is_lt_asym a b)

module _ (a : Bytes) where
  -- A range that ends before the first start ends before them all.
  All-is_lt :
      (b : Bytes) (ws : List KeyRange)
      → is_lt a b ≡ true
      → All (λ s. is_lt s.start b ≡ false) ws
      → All (λ w. is_lt a w.start ≡ true) ws
  All-is_lt b [] h k = tt
  All-is_lt b (w ∷ ws) h (kw, ks) = (is_lt-of_lt_of_le a b w.start h kw, All-is_lt b ws h ks)

none-Overlaps :
    (r : KeyRange) (ws : List KeyRange)
    → All (λ w. is_lt r.stop w.start ≡ true) ws
    → ¬ Any (Overlaps r) ws
none-Overlaps r [] h k = k
none-Overlaps r (w ∷ ws) (hw, hs) (inl (p, q)) = cc
none-Overlaps r (w ∷ ws) (hw, hs) (inr k) = none-Overlaps r ws hs k

Overlaps-none :
    (w : KeyRange) (ws rs : List KeyRange)
    → All (λ r. is_lt w.stop r.start ≡ true) rs
    → Any (λ r. Any (Overlaps r) (w ∷ ws)) rs
    → Any (λ r. Any (Overlaps r) ws) rs
Overlaps-none w ws [] h k = k
Overlaps-none w ws (r ∷ rs) (hr, hs) (inl (inl (p, q))) = cc
Overlaps-none w ws (r ∷ rs) (hr, hs) (inl (inr k)) = inl k
Overlaps-none w ws (r ∷ rs) (hr, hs) (inr k) = inr (Overlaps-none w ws rs hs k)

add_range :
    (w : KeyRange) (ws rs : List KeyRange)
    → Any (λ r. Any (Overlaps r) ws) rs
    → Any (λ r. Any (Overlaps r) (w ∷ ws)) rs
add_range w ws [] k = k
add_range w ws (r ∷ rs) (inl k) = inl (inr k)
add_range w ws (r ∷ rs) (inr k) = inr (add_range w ws rs k)

no_writes : (rs : List KeyRange) → ¬ Any (λ r. Any (Overlaps r) []) rs
no_writes [] k = k
no_writes (r ∷ rs) (inl k) = k
no_writes (r ∷ rs) (inr k) = no_writes rs k

module _ (r w : KeyRange) (rs ws : List KeyRange) where
  sweep_read :
      is_lt r.stop w.start ≡ true
      → sorted_ranges_overlap (r ∷ rs) (w ∷ ws) ≡ sorted_ranges_overlap rs (w ∷ ws)
  unfolding sorted_ranges_overlap
  sweep_read before = rw (before, sorted_ranges_overlap)

  sweep_write :
      is_lt r.stop w.start ≡ false
      → is_lt w.stop r.start ≡ true
      → sorted_ranges_overlap (r ∷ rs) (w ∷ ws) ≡ sorted_ranges_overlap (r ∷ rs) ws
  unfolding sorted_ranges_overlap
  sweep_write meets after = rw (meets, sorted_ranges_overlap) (rw (after, sorted_ranges_overlap))

  sweep_found :
      is_lt r.stop w.start ≡ false
      → is_lt w.stop r.start ≡ false
      → sorted_ranges_overlap (r ∷ rs) (w ∷ ws) ≡ true
  unfolding sorted_ranges_overlap
  sweep_found meets both = rw (meets, sorted_ranges_overlap) (rw (both, sorted_ranges_overlap))

-- The sweep over two lists of ranges, each sorted by its starts, answers whether some range of one
-- overlaps some range of the other. The ranges of one list may overlap and nest.
pub sorted_ranges_overlap_iff :
    (rs ws : List KeyRange)
    → StartsSorted rs
    → StartsSorted ws
    → (sorted_ranges_overlap rs ws ≡ true) ↔ Any (λ r. Any (Overlaps r) ws) rs
unfolding sorted_ranges_overlap
sorted_ranges_overlap_iff [] ws hr hw = (λ e. cc, λ k. absurd k)
sorted_ranges_overlap_iff (r ∷ rs) [] hr hw = (λ e. cc, λ k. absurd (no_writes (r ∷ rs) k))
sorted_ranges_overlap_iff (r ∷ rs) (w ∷ ws) hr hw = elim (Bool-cases (is_lt r.stop w.start)) [
  | inl before ↦
      let (to, from) = sorted_ranges_overlap_iff rs (w ∷ ws) hr.1 hw in
      let step = sweep_read r w rs ws before in
      (λ e. inr (to (sym step ∙ e)), λ k. step ∙ from (skip_read before k))
  | inr meets ↦ elim (Bool-cases (is_lt w.stop r.start)) [
    | inl after ↦
        let (to, from) = sorted_ranges_overlap_iff (r ∷ rs) ws hr hw.1 in
        let step = sweep_write r w rs ws meets after in
        (λ e. add_range w ws (r ∷ rs) (to (sym step ∙ e)), λ k. step ∙ from (skip_write after k))
    | inr both ↦ (λ e. inl (inl (meets, both)), λ k. sweep_found r w rs ws meets both)
  ]
]
  where
    skip_read :
        is_lt r.stop w.start ≡ true
        → Any (λ s. Any (Overlaps s) (w ∷ ws)) (r ∷ rs)
        → Any (λ s. Any (Overlaps s) (w ∷ ws)) rs
    skip_read before (inl k) =
        absurd (none-Overlaps r (w ∷ ws) (before, All-is_lt r.stop w.start ws before hw.0) k)
    skip_read before (inr k) = k

    skip_write :
        is_lt w.stop r.start ≡ true
        → Any (λ s. Any (Overlaps s) (w ∷ ws)) (r ∷ rs)
        → Any (λ s. Any (Overlaps s) ws) (r ∷ rs)
    skip_write after = Overlaps-none w ws (r ∷ rs) (after, All-is_lt w.stop r.start rs after hr.0)
