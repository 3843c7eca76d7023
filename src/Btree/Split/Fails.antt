-- ===== src/Btree/Split/Fails.antt =====
-- Where the second split of `nodeSplit3` of btree.go leaves more than a page.
use mini_database_v.Base.{
  ◌≡◌, ap, sym, ◌∙◌, subst, ℕ, zero, suc, ◌+◌, ◌-◌, ◌*◌, ◌/◌, ◌≤◌, ◌<◌, ltb, leb, inl, inr, ◌⊎◌,
  none, some, List, [], ◌∷◌, ◌++◌, length, take, drop, arith, get_elem?, bind_some, bound,
  Bool-cases, Option-cases, length-take,
}
use mini_database_v.Btree.Node.{
  Entry, Node, page_size, nbytes, kv_size, kv_pos, get_kv, node_append_kv, node_append_range,
  set_header,
}
use mini_database_v.Btree.Node.Build.{
  IsBuilt, total, total-append, offset-total, take-length, drop-get_elem?,
}
use mini_database_v.Btree.Split.{split_loop, node_split2, node_split3}
use mini_database_v.Btree.Split.Point.{
  packed, packed-take-drop, nbytes-packed, IsPoint, split_loop_lem, ℕ-cases,
}
use mini_database_v.Btree.Split.Halves.{left_part, right_part, left_part-IsBuilt, node_split2_lem}
use mini_database_v.Btree.Split.Pieces.{leb-false, take-take}

le_or_lt : (a b : ℕ) → (a ≤ b) ⊎ (b < a)
le_or_lt a b = ground arith

-- A KV that was appended has its place in the buffer.
node_append_kv_room :
    (new : Node) (idx : ℕ) (e : Entry) (next : Node)
    → node_append_kv new idx e ≡ some next
    → (next ≡ record new { kvs = new.kvs ++ e ∷ [] })
      × (length new.kvs ≡ idx)
      × (4 + 10 * new.nkeys + total new.kvs + kv_size e ≤ new.room)
unfolding node_append_kv kv_pos
node_append_kv_room new idx e next h =
    ground (arith, offset-total new.kvs idx, take-length new.kvs idx)

get_kv_at :
    (old : Node) (i : ℕ) (e f : Entry)
    → get_kv old i ≡ some e
    → get_elem? old.kvs i ≡ some f
    → e ≡ f
unfolding get_kv
get_kv_at old i e f h k = ground (arith, h, k)

node_append_range_room :
    (n : ℕ) (old : Node) (dst src : ℕ) (new : Node) (r : Node)
    → node_append_range n old dst src new ≡ some r
    → src + n ≤ length old.kvs
    → (4 + 10 * new.nkeys + total new.kvs ≤ new.room) ⊎ (0 < n)
    → 4 + 10 * new.nkeys + total new.kvs + total (take n (drop src old.kvs)) ≤ new.room
unfolding node_append_range
node_append_range_room zero old dst src new r h k (inl fits) = omega arith
node_append_range_room zero old dst src new r h k (inr some_round) = absurd (omega arith)
node_append_range_room (suc n) old dst src new r h k _ = elim (bind_some (get_kv old src) _ h) [
  | bound e at rest ↦ elim (bind_some (node_append_kv new dst e) _ rest) [
    | bound next appended more ↦
        let (f, there, from) = drop-get_elem? old.kvs src (omega arith) in
        let (same, _, room) = node_append_kv_room new dst e next appended in
        let wider = total-append new.kvs (e ∷ []) in
        let fits_next =
          node_append_range_room n old (suc dst) (suc src) (record new { kvs = new.kvs ++ e ∷ [] })
            r (subst (λ x. node_append_range n old (suc dst) (suc src) x ≡ some r) same more)
            (omega arith) (inl (omega (arith, room, wider))) in
        omega (
          arith,
          fits_next,
          wider,
          ap kv_size (get_kv_at old src e f at there),
          ap (λ (l : List Entry). total (take (suc n) l)) from,
        )
  ]
]

-- A left part that exceeds a page is not copied whole into a buffer of one page.
split2_too_big :
    (old : Node) (p : ℕ)
    → IsBuilt old
    → 0 < p
    → p ≤ old.nkeys
    → packed old.kvs < 65536
    → split_loop (suc old.nkeys) old (old.nkeys / 2) ≡ some p
    → page_size < packed (take p old.kvs)
    → node_split2 page_size page_size old ≡ none
unfolding node_split2
split2_too_big old p b some_left inside w found over = elim (Bool-cases (leb 2 old.nkeys)) [
  | inr few ↦ rw few
  | inl two ↦ elim (Bool-cases (ltb p old.nkeys)) [
    | inr at_the_end ↦ rw (two, found, at_the_end)
    | inl before ↦
        elim (Option-cases (node_append_range p old 0 0 (set_header page_size old.btype p))) [
          | inl stops ↦ rw (two, found, before, stops)
          | inr (left, copied) ↦
              let fits =
                node_append_range_room p old 0 0 (set_header page_size old.btype p) left copied
                  (omega arith) (inr some_left) in
              absurd (omega (arith, fits, length-take p old.kvs (omega arith)))
        ]
  ]
]

packed-drop_mono : (s t : ℕ) (kvs : List Entry) → s ≤ t → packed (drop t kvs) ≤ packed (drop s kvs)
packed-drop_mono zero zero kvs h = omega arith
packed-drop_mono zero (suc t) [] h = omega arith
packed-drop_mono zero (suc t) (e ∷ kvs) h = omega (arith, packed-drop_mono zero t kvs (omega arith))
packed-drop_mono (suc s) zero kvs h = absurd (omega arith)
packed-drop_mono (suc s) (suc t) [] h = omega arith
packed-drop_mono (suc s) (suc t) (e ∷ kvs) h = packed-drop_mono s t kvs (omega arith)

packed-take_mono : (s t : ℕ) (kvs : List Entry) → s ≤ t → packed (take s kvs) ≤ packed (take t kvs)
packed-take_mono s t kvs h =
    omega (arith, packed-drop_mono s t kvs h, packed-take-drop kvs s, packed-take-drop kvs t)

positive : (r : ℕ) (kvs : List Entry) → page_size < packed (take r kvs) → 0 < r
positive zero kvs h = absurd (omega arith)
positive (suc r) kvs h = omega arith

module _ (old : Node) (b : IsBuilt old) (w : packed old.kvs < 65536) (start p : ℕ)
    (point : IsPoint old b w start p) where
  point_at_start : packed (drop start old.kvs) ≤ page_size → p ≡ start
  point_at_start fits = elim (ℕ-cases start p point.0) [
    | inl same ↦ sym same
    | inr behind ↦ absurd (omega (arith, point.3 start (omega arith) behind))
  ]

  point_behind : (r : ℕ) → (r ≡ start) ⊎ (page_size < packed (drop (r - 1) old.kvs)) → r ≤ p
  point_behind r (inl same) = omega (arith, point)
  point_behind r (inr over) = elim (le_or_lt r p) [
    | inl before ↦ before
    | inr behind ↦ absurd (omega (arith, point.2, packed-drop_mono p (r - 1) old.kvs (omega arith)))
  ]

module _ (old : Node) (b : IsBuilt old) (w : packed old.kvs + 4 ≤ 2 * page_size)
    (two : 2 ≤ old.nkeys) (right_fits : packed (drop (old.nkeys / 2) old.kvs) ≤ page_size)
    (wide : page_size < packed (take (old.nkeys / 2) old.kvs)) where
  abbrev first_half : Node
  first_half = left_part (2 * page_size) old (old.nkeys / 2)

  halved :
      node_split2 (2 * page_size) page_size old
      ≡ some (first_half, right_part page_size old (old.nkeys / 2))
  halved =
      let (p, found, point) =
        split_loop_lem old b (omega arith) (suc old.nkeys) (old.nkeys / 2) (omega arith)
          (omega arith) in
      node_split2_lem old b (omega arith) (2 * page_size) page_size (omega arith) (old.nkeys / 2)
        two
        (found ∙ ap some (point_at_start old b (omega arith) (old.nkeys / 2) p point right_fits))
        (omega arith) right_fits (omega (arith, packed-take-drop old.kvs (old.nkeys / 2)))

  -- Where the second half of the keys fits a page and the first half does not, a node that leaves four bytes of two pages is not split, and the code panics, if the first r keys exceed a page, r is not above the half, and the second split moves on to r: r is the quarter, or the KVs from r - 1 to the half exceed a page.
  pub node_split3-none :
      (r : ℕ)
      → r ≤ old.nkeys / 2
      → page_size < packed (take r old.kvs)
      → (r ≡ old.nkeys / 2 / 2) ⊎ (page_size < packed (drop (r - 1) (take (old.nkeys / 2) old.kvs)))
      → node_split3 old ≡ none
  unfolding node_split3
  node_split3-none r h over moves =
      let sizes = packed-take-drop old.kvs (old.nkeys / 2) in
      let built = left_part-IsBuilt old b (2 * page_size) (old.nkeys / 2) (omega arith) in
      let (q, found, point) =
        split_loop_lem first_half built (omega (arith, sizes)) (suc (old.nkeys / 2))
          (old.nkeys / 2 / 2) (omega arith) (omega arith) in
      let reached =
        point_behind first_half built (omega (arith, sizes)) (old.nkeys / 2 / 2) q point r moves in
      let prefix = take-take old.kvs r (old.nkeys / 2) h in
      let first : page_size < packed (take q (take (old.nkeys / 2) old.kvs)) =
        omega
          (arith, ap packed prefix, packed-take_mono r q (take (old.nkeys / 2) old.kvs) reached) in
      rw (
        leb-false (nbytes old) page_size (
            omega (
              arith,
              nbytes-packed old b,
              packed-take_mono (old.nkeys / 2) old.nkeys old.kvs (omega arith),
              ap packed (take-length old.kvs old.nkeys (sym b)),
            )),
        halved,
        leb-false (nbytes first_half) page_size (omega (arith, nbytes-packed first_half built)),
        split2_too_big first_half q built (omega (arith, positive r old.kvs over))
            (omega (arith, point)) (omega (arith, sizes)) found first,
      )
