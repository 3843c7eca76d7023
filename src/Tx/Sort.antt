-- ===== src/Tx/Sort.antt =====
-- The sorting of ranges by `keyRangeCmp` in transaction.go.
use mini_database_v.Base.{
  ◌≡◌, refl, true, false, List, [], ◌∷◌, arith, inl, inr, ◌⊎◌, ◌↔◌, All, Any, Bool-cases,
}
use mini_database_v.Base.Bytes.{Bytes, compare_bytes}
use mini_database_v.Tx.Ranges.{
  KeyRange, is_lt, is_lt-of_lt_of_le, is_gt, key_range_cmp, insert_range, sort_ranges, StartsSorted,
}

not_lt_trans : (a b c : Bytes) → is_lt b a ≡ false → is_lt c b ≡ false → is_lt c a ≡ false
not_lt_trans a b c h k = elim (Bool-cases (is_lt c a)) [
  | inl lt ↦ let less = is_lt-of_lt_of_le c a b lt h in cc
  | inr le ↦ le
]

not_gt-le : (a b : Bytes) → is_gt (compare_bytes a b) ≡ false → is_lt b a ≡ false
not_gt-le [] [] h = refl
not_gt-le [] (y ∷ b) h = refl
not_gt-le (x ∷ a) [] h = cc
not_gt-le (x ∷ a) (y ∷ b) h = ground (arith, not_gt-le a b)

gt-le : (a b : Bytes) → is_gt (compare_bytes a b) ≡ true → is_lt a b ≡ false
gt-le a b h = ground arith

module _ (P : KeyRange → Type 0) where
  Any-insert_range :
      (r : KeyRange) (rs : List KeyRange) → Any P (insert_range r rs) ↔ (P r ⊎ Any P rs)
  unfolding insert_range
  Any-insert_range r [] = (λ h. h, λ h. h)
  Any-insert_range r (s ∷ rs) = elim (Bool-cases (is_gt (key_range_cmp r s))) [
    | inl behind ↦
        let (to, from) = Any-insert_range r rs in
        rw behind (
          elim [
            | inl p ↦ inr (inl p)
            | inr h ↦ elim (to h) [ inl p ↦ inl p | inr k ↦ inr (inr k) ]
          ],
          elim [
            | inl p ↦ inr (from (inl p))
            | inr h ↦ elim h [ inl p ↦ inl p | inr k ↦ inr (from (inr k)) ]
          ],
        )
    | inr front ↦ rw front (λ h. h, λ h. h)
  ]

  pub Any-sort_ranges : (rs : List KeyRange) → Any P (sort_ranges rs) ↔ Any P rs
  unfolding sort_ranges
  Any-sort_ranges [] = (λ h. h, λ h. h)
  Any-sort_ranges (r ∷ rs) =
      let (to, from) = Any-insert_range r (sort_ranges rs) in
      let (sorted, unsorted) = Any-sort_ranges rs in
      (
        λ h. elim (to h) [ inl p ↦ inl p | inr k ↦ inr (sorted k) ],
        elim [ inl p ↦ from (inl p) | inr k ↦ from (inr (unsorted k)) ],
      )

All-insert_range :
    (a : Bytes) (r : KeyRange) (rs : List KeyRange)
    → is_lt r.start a ≡ false
    → All (λ s. is_lt s.start a ≡ false) rs
    → All (λ s. is_lt s.start a ≡ false) (insert_range r rs)
unfolding insert_range
All-insert_range a r [] h k = (h, tt)
All-insert_range a r (s ∷ rs) h (k, ks) = ground (arith, All-insert_range a r rs h ks)

All-trans :
    (a b : Bytes) (rs : List KeyRange)
    → is_lt b a ≡ false
    → All (λ s. is_lt s.start b ≡ false) rs
    → All (λ s. is_lt s.start a ≡ false) rs
All-trans a b [] h k = tt
All-trans a b (s ∷ rs) h (k, ks) = (not_lt_trans a b s.start h k, All-trans a b rs h ks)

insert_range-StartsSorted :
    (r : KeyRange) (rs : List KeyRange) → StartsSorted rs → StartsSorted (insert_range r rs)
unfolding insert_range
insert_range-StartsSorted r [] h = (tt, tt)
insert_range-StartsSorted r (s ∷ rs) (h, hs) = elim (Bool-cases (is_gt (key_range_cmp r s))) [
  | inl behind ↦ rw behind (
    All-insert_range s.start r rs (gt-le r.start s.start behind) h,
    insert_range-StartsSorted r rs hs,
  )
  | inr front ↦
      let le = not_gt-le r.start s.start front in
      rw front ((le, All-trans r.start s.start rs le h), (h, hs))
]

pub sort_ranges-StartsSorted : (rs : List KeyRange) → StartsSorted (sort_ranges rs)
unfolding sort_ranges
sort_ranges-StartsSorted [] = tt
sort_ranges-StartsSorted (r ∷ rs) =
    insert_range-StartsSorted r (sort_ranges rs) (sort_ranges-StartsSorted rs)
