-- ===== src/Btree/Split/Total.antt =====
-- When `nodeSplit3` of btree.go succeeds.
use mini_database_v.Base.{
  ◌≡◌, ap, sym, ◌∙◌, subst, ℕ, suc, ◌+◌, ◌*◌, ◌/◌, ◌≤◌, ◌<◌, inl, inr, ◌⊎◌, some, List, take, drop,
  arith,
}
use mini_database_v.Btree.Node.{Node, page_size}
use mini_database_v.Btree.Node.Build.{IsBuilt}
use mini_database_v.Btree.Split.{split_loop}
use mini_database_v.Btree.Split.Point.{packed, packed-take-drop, split_loop_lem}
use mini_database_v.Btree.Split.Halves.{left_part, left_part-IsBuilt, node_split2_lem}
use mini_database_v.Btree.Split.Pieces.{
  Within, Within-take, take-take, two_keys, point-lt, point_tight, IsSplit, one_page-IsSplit,
  two_pages-IsSplit, three_pages-IsSplit,
}

le_or_lt : (a b : ℕ) → (a ≤ b) ⊎ (b < a)
le_or_lt a b = ground arith

module _ (m : ℕ) (small : 4 + m ≤ page_size) where
  -- The loop's position, with what it says of the two parts.
  abbrev Halving : Node → ℕ → Type 0
  Halving old p =
      (split_loop (suc old.nkeys) old (old.nkeys / 2) ≡ some p)
      × (0 < p)
      × (p < old.nkeys)
      × (packed (drop p old.kvs) ≤ page_size)
      × ((p ≡ old.nkeys / 2) ⊎ (page_size < packed (drop p old.kvs) + m))

  halving :
      (old : Node)
      → IsBuilt old
      → packed old.kvs < 65536
      → Within m old.kvs
      → 2 ≤ old.nkeys
      → (p : ℕ) × Halving old p
  halving old b w within two =
      let (p, found, point) =
        split_loop_lem old b w (suc old.nkeys) (old.nkeys / 2) (omega arith) (omega arith) in
      (
        p,
        (
          found,
          omega (arith, point),
          point-lt m small old b w within p two point,
          point.2,
          point_tight m small old b w within p point,
        ),
      )

  module _ (old : Node) (b : IsBuilt old) (within : Within m old.kvs)
      (bounded : packed old.kvs + m + 8 ≤ 2 * page_size)
      (front : packed (take (old.nkeys / 2 / 2) old.kvs) ≤ page_size)
      (over : page_size < packed old.kvs) (two : 2 ≤ old.nkeys) where
    module _ (p : ℕ) (split : Halving old p) (wide : page_size < packed (take p old.kvs)) where
      abbrev left : Node
      left = left_part (2 * page_size) old p

      built : IsBuilt left
      built = left_part-IsBuilt old b (2 * page_size) p (omega (arith, split))

      half : p ≡ old.nkeys / 2
      half = elim split.4 [
        | inl same ↦ same
        | inr tight ↦ absurd (omega (arith, tight, wide, packed-take-drop old.kvs p))
      ]

      quarter_fits : (q : ℕ) → Halving left q → packed (take q (take p old.kvs)) ≤ page_size
      quarter_fits q (_, _, inside, _, inl same) =
          let e : old.nkeys / 2 / 2 ≡ q = ap (λ (r : ℕ). r / 2) (sym half) ∙ sym same in
          subst (λ l. packed l ≤ page_size) (sym (take-take old.kvs q p (omega arith)))
            (subst (λ r. packed (take r old.kvs) ≤ page_size) e front)
      quarter_fits q (_, _, _, _, inr tight) =
          omega (arith, tight, packed-take-drop (take p old.kvs) q, packed-take-drop old.kvs p)

      three_pages : (parts : List Node) × IsSplit old parts
      three_pages =
          let (found, lo, hi, fit, tight) = split in
          let sizes = packed-take-drop old.kvs p in
          let halves =
            node_split2_lem old b (omega arith) (2 * page_size) page_size (omega arith) p two found
              hi fit (omega (arith, sizes)) in
          let within_left = Within-take m p old.kvs within in
          let two_left = two_keys m small left built (omega (arith, sizes)) within_left wide lo in
          let (q, again) = halving left built (omega (arith, sizes)) within_left two_left in
          let first = quarter_fits q again in
          let quarters =
            node_split2_lem left built (omega (arith, sizes)) page_size page_size (omega arith) q
              two_left again.0 again.2 again.3 first in
          (
            _,
            three_pages-IsSplit old b (omega arith) p over halves hi lo fit q wide quarters again.2
                again.1 again.3 first,
          )

    two_or_three : (p : ℕ) → Halving old p → (parts : List Node) × IsSplit old parts
    two_or_three p split = elim (le_or_lt (packed (take p old.kvs)) page_size) [
      | inl fits ↦
          let (found, lo, hi, fit, tight) = split in
          let halves =
            node_split2_lem old b (omega arith) (2 * page_size) page_size (omega arith) p two found
              hi fit (omega arith) in
          (_, two_pages-IsSplit old b (omega arith) p over halves hi lo fit fits)
      | inr wide ↦ three_pages p split wide
    ]

  -- A node with a key, of which no KV takes more than m bytes with its pointer and its offset, splits into pages that are not empty, keep its type and hold its KVs in their order, if a page has room for m bytes and a header, if the node leaves m + 8 bytes of two pages, and if the first quarter of its keys fits a page.
  pub node_split3_lem :
      (old : Node)
      → IsBuilt old
      → 0 < old.nkeys
      → Within m old.kvs
      → packed old.kvs + m + 8 ≤ 2 * page_size
      → packed (take (old.nkeys / 2 / 2) old.kvs) ≤ page_size
      → (parts : List Node) × IsSplit old parts
  node_split3_lem old b some_key within bounded front = elim (le_or_lt (packed old.kvs) page_size) [
    | inl fits ↦ (_, one_page-IsSplit old b fits some_key)
    | inr over ↦
        let two = two_keys m small old b (omega arith) within over some_key in
        let (p, split) = halving old b (omega arith) within two in
        two_or_three old b within bounded front over two p split
  ]
