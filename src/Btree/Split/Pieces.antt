-- ===== src/Btree/Split/Pieces.antt =====
-- The nodes that `nodeSplit3` of btree.go makes of one that is too big.
use mini_database_v.Base.{
  ◌≡◌, refl, subst, ap, sym, ℕ, zero, suc, ◌+◌, ◌-◌, ◌*◌, ◌/◌, ◌≤◌, ◌<◌, leb, inl, inr, ◌⊎◌, false,
  some, List, [], ◌∷◌, ◌++◌, take, drop, All, arith, take-append-drop, append-nil, append_assoc,
  ◌∙◌,
}
use mini_database_v.Btree.Node.{Entry, Node, kv_size, page_size, nbytes}
use mini_database_v.Btree.Node.Build.{IsBuilt}
use mini_database_v.Btree.Split.{node_split2, node_split3}
use mini_database_v.Btree.Split.Point.{packed, nbytes-packed, IsPoint, at_end, ℕ-cases, le→leb}
use mini_database_v.Btree.Split.Halves.{
  left_part, right_part, left_part-IsBuilt, right_part-IsBuilt,
}

-- A node that is a page: it fits, it is not empty, and it has the type.
abbrev pub IsPage : ℕ → Node → Type 0
IsPage btype node =
    IsBuilt node
    × (nbytes node ≤ page_size)
    × (node.room ≡ page_size)
    × (0 < node.nkeys)
    × (node.btype ≡ btype)

abbrev pub contents : List Node → List Entry
contents [] = []
contents (node ∷ nodes) = node.kvs ++ contents nodes

-- No pointer with its KV and its offset takes more bytes.
abbrev pub Within : ℕ → List Entry → Type 0
Within m = All (λ e. 10 + kv_size e ≤ m)

pub Within-take : (m n : ℕ) (kvs : List Entry) → Within m kvs → Within m (take n kvs)
Within-take m zero kvs h = tt
Within-take m (suc n) [] h = tt
Within-take m (suc n) (e ∷ kvs) (h, hs) = (h, Within-take m n kvs hs)

packed-drop-suc :
    (m r : ℕ) (kvs : List Entry)
    → Within m kvs
    → packed (drop r kvs) ≤ packed (drop (suc r) kvs) + m
packed-drop-suc m zero [] h = omega arith
packed-drop-suc m zero (e ∷ kvs) (h, hs) = omega arith
packed-drop-suc m (suc r) [] h = omega arith
packed-drop-suc m (suc r) (e ∷ kvs) (h, hs) = packed-drop-suc m r kvs hs

packed-drop_pred :
    (m p : ℕ) (kvs : List Entry)
    → 0 < p
    → Within m kvs
    → packed (drop (p - 1) kvs) ≤ packed (drop p kvs) + m
packed-drop_pred m zero kvs h k = absurd (omega arith)
packed-drop_pred m (suc q) kvs h k =
    let e : suc q - 1 ≡ q = omega arith in rw e (packed-drop-suc m q kvs k)

pub take-take {ℓ} : {A : Type ℓ} (xs : List A) (m n : ℕ) → m ≤ n → take m (take n xs) ≡ take m xs
take-take xs zero n h = refl
take-take xs (suc m) zero h = absurd (omega arith)
take-take [] (suc m) (suc n) h = refl
take-take (x ∷ xs) (suc m) (suc n) h = ap (λ l. x ∷ l) (take-take xs m n (omega arith))

module _ (m : ℕ) (small : 4 + m ≤ page_size) (old : Node) (b : IsBuilt old)
    (w : packed old.kvs < 65536) (within : Within m old.kvs) where
  last_fits : 0 < old.nkeys → packed (drop (old.nkeys - 1) old.kvs) ≤ page_size
  last_fits some_key =
      omega (arith, packed-drop_pred m old.nkeys old.kvs some_key within, at_end old b w)

  -- One KV alone would fit.
  pub two_keys : page_size < packed old.kvs → 0 < old.nkeys → 2 ≤ old.nkeys
  two_keys over some_key = elim (ℕ-cases 1 old.nkeys (omega arith)) [
    | inl one ↦
        let first : old.nkeys - 1 ≡ 0 = omega arith in
        let fits = subst (λ p. packed (drop p old.kvs) ≤ page_size) first (last_fits some_key) in
        absurd (omega (arith, fits))
    | inr more ↦ more
  ]

  pub point-lt : (p : ℕ) → 2 ≤ old.nkeys → IsPoint old b w (old.nkeys / 2) p → p < old.nkeys
  point-lt p two (lo, hi, fit, least) = elim (ℕ-cases p old.nkeys hi) [
    | inl same ↦
        let before = least (old.nkeys - 1) (omega arith) (omega arith) in
        absurd (omega (arith, before, last_fits))
    | inr inside ↦ inside
  ]

  -- At the start, or one more KV would not fit.
  pub point_tight :
      (p : ℕ)
      → IsPoint old b w (old.nkeys / 2) p
      → (p ≡ old.nkeys / 2) ⊎ (page_size < packed (drop p old.kvs) + m)
  point_tight p (lo, hi, fit, least) = elim (ℕ-cases (old.nkeys / 2) p lo) [
    | inl same ↦ inl (sym same)
    | inr behind ↦
        let before = least (p - 1) (omega arith) (omega arith) in
        inr (omega (arith, before, packed-drop_pred m p old.kvs (omega arith) within))
  ]

-- Pages that hold the KVs of the node in their order.
abbrev pub IsSplit : Node → List Node → Type 0
IsSplit old parts =
    (node_split3 old ≡ some parts) × (contents parts ≡ old.kvs) × All (IsPage old.btype) parts

pub leb-false : (a b : ℕ) → b < a → leb a b ≡ false
leb-false a b h = ground arith

module _ (old : Node) (b : IsBuilt old) where
  pub one_page-IsSplit :
      packed old.kvs ≤ page_size
      → 0 < old.nkeys
      → IsSplit old (record old { room = page_size } ∷ [])
  unfolding node_split3
  one_page-IsSplit fits some_key =
      let size = nbytes-packed old b in
      let page = nbytes-packed (record old { room = page_size }) b in
      (
        rw (le→leb (nbytes old) page_size (omega (arith, size))),
        append-nil old.kvs,
        ((b, omega (arith, page), refl, some_key, refl), tt),
      )

  left_half : ℕ → Node
  left_half p = left_part (2 * page_size) old p

  module _ (w : packed old.kvs < 65536) (p : ℕ) (over : page_size < packed old.kvs)
      (halves : node_split2 (2 * page_size) page_size old
        ≡ some (left_part (2 * page_size) old p, right_part page_size old p))
      (inside : p < old.nkeys) (some_left : 0 < p) (fit : packed (drop p old.kvs) ≤ page_size) where
    right_part-IsPage : IsPage old.btype (right_part page_size old p)
    right_part-IsPage =
        let built = right_part-IsBuilt old b page_size p in
        let size = nbytes-packed (right_part page_size old p) built in
        (built, omega (arith, size), refl, omega arith, refl)

    pub two_pages-IsSplit :
        packed (take p old.kvs) ≤ page_size
        → IsSplit old (left_part page_size old p ∷ right_part page_size old p ∷ [])
    unfolding node_split3
    two_pages-IsSplit fits =
        let built = left_part-IsBuilt old b (2 * page_size) p (omega arith) in
        let size = nbytes-packed (left_part (2 * page_size) old p) built in
        let page = nbytes-packed (left_part page_size old p) built in
        (
          rw (
            leb-false (nbytes old) page_size (omega (arith, nbytes-packed old b)),
            halves,
            le→leb (nbytes (left_part (2 * page_size) old p)) page_size (omega (arith, size)),
          ),
          rw (append-nil (drop p old.kvs)) (take-append-drop p old.kvs),
          ((built, omega (arith, page), refl, some_left, refl), (right_part-IsPage, tt)),
        )

    module _ (q : ℕ) (wide : page_size < packed (take p old.kvs))
        (quarters : node_split2 page_size page_size (left_part (2 * page_size) old p)
          ≡ some (
            left_part page_size (left_part (2 * page_size) old p) q,
            right_part page_size (left_part (2 * page_size) old p) q,
          ))
        (inside_left : q < p) (some_quarter : 0 < q)
        (fit_middle : packed (drop q (take p old.kvs)) ≤ page_size)
        (fit_first : packed (take q (take p old.kvs)) ≤ page_size) where
      pub three_pages-IsSplit : IsSplit old (
          left_part page_size (left_part (2 * page_size) old p) q
          ∷ right_part page_size (left_part (2 * page_size) old p) q
          ∷ right_part page_size old p
          ∷ [])
      unfolding node_split3
      three_pages-IsSplit =
          let left = left_part (2 * page_size) old p in
          let built = left_part-IsBuilt old b (2 * page_size) p (omega arith) in
          let size = nbytes-packed left built in
          let first = left_part-IsBuilt left built page_size q (omega arith) in
          let first_size = nbytes-packed (left_part page_size left q) first in
          let middle = right_part-IsBuilt left built page_size q in
          let middle_size = nbytes-packed (right_part page_size left q) middle in
          (
            rw (
              leb-false (nbytes old) page_size (omega (arith, nbytes-packed old b)),
              halves,
              leb-false (nbytes left) page_size (omega (arith, size)),
              quarters,
              le→leb (nbytes (left_part page_size left q)) page_size (omega (arith, first_size)),
            ),
            rw (append-nil (drop p old.kvs)) (
                sym (
                  append_assoc (take q (take p old.kvs)) (drop q (take p old.kvs)) (drop p old.kvs))
                ∙ ap (λ l. l ++ drop p old.kvs) (take-append-drop q (take p old.kvs))
                ∙ take-append-drop p old.kvs),
            (
              (first, omega (arith, first_size), refl, some_quarter, refl),
              (
                (middle, omega (arith, middle_size), refl, omega arith, refl),
                (right_part-IsPage, tt),
              ),
            ),
          )
