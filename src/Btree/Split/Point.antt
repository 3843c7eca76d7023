-- ===== src/Btree/Split/Point.antt =====
-- Where the loop of `nodeSplit2` of btree.go stops.
use mini_database_v.Base.{
  ◌≡◌, subst, true, ap, sym, ℕ, zero, suc, ◌+◌, ◌-◌, ◌*◌, ◌≤◌, ◌<◌, ltb, leb, Bool-cases, inl, inr,
  ◌⊎◌, some, List, ◌++◌, length, take, drop, arith, length-append, length-take, length-drop,
  take-append-drop,
}
use mini_database_v.Btree.Node.{Entry, Node, page_size, nbytes}
use mini_database_v.Btree.Node.Build.{
  take-length, total, total-append, offset-total, IsBuilt, nbytes_lem,
}
use mini_database_v.Btree.Split.{left_bytes, right_bytes, split_loop}

pub le→leb : (a b : ℕ) → a ≤ b → leb a b ≡ true
le→leb a b h = ground arith

pub ℕ-cases : (a b : ℕ) → a ≤ b → (a ≡ b) ⊎ (a < b)
ℕ-cases a b h = ground arith

-- The size of a node with these KVs.
abbrev pub packed : List Entry → ℕ
packed kvs = 4 + 10 * length kvs + total kvs

pub packed-append : (xs ys : List Entry) → packed (xs ++ ys) + 4 ≡ packed xs + packed ys
packed-append xs ys = omega (arith, length-append xs ys, total-append xs ys)

pub packed-take-drop :
    (kvs : List Entry) (p : ℕ) → packed (take p kvs) + packed (drop p kvs) ≡ packed kvs + 4
packed-take-drop kvs p =
    omega (arith, packed-append (take p kvs) (drop p kvs), ap packed (take-append-drop p kvs))

pub nbytes-packed : (node : Node) → IsBuilt node → nbytes node ≡ packed node.kvs
nbytes-packed node b = omega (arith, nbytes_lem node b)

module _ (old : Node) (b : IsBuilt old) (w : packed old.kvs < 65536) where
  right_bytes-packed : (p : ℕ) → p ≤ old.nkeys → right_bytes old p ≡ packed (drop p old.kvs)
  unfolding right_bytes left_bytes
  right_bytes-packed p h = omega (
    arith,
    nbytes-packed old b,
    offset-total old.kvs p,
    length-take p old.kvs (omega arith),
    length-drop p old.kvs,
    packed-take-drop old.kvs p,
  )

  -- behind the last KV
  pub at_end : packed (drop old.nkeys old.kvs) ≡ 4
  at_end =
      omega (
        arith,
        packed-take-drop old.kvs old.nkeys,
        ap packed (take-length old.kvs old.nkeys (sym b)),
      )

  over_inside : (p : ℕ) → p ≤ old.nkeys → page_size < packed (drop p old.kvs) → p < old.nkeys
  over_inside p h over = elim (ℕ-cases p old.nkeys h) [
    | inl same ↦
        let over_end = subst (λ q. page_size < packed (drop q old.kvs)) same over in
        absurd (omega (arith, over_end, at_end))
    | inr before ↦ before
  ]

  first_or_later :
      (start p : ℕ)
      → page_size < packed (drop start old.kvs)
      → ((r : ℕ) → suc start ≤ r → r < p → page_size < packed (drop r old.kvs))
      → (r : ℕ) → start ≤ r
      → r < p
      → page_size < packed (drop r old.kvs)
  first_or_later start p over later r g k = elim (ℕ-cases start r g) [
    | inl same ↦ subst (λ q. page_size < packed (drop q old.kvs)) same over
    | inr behind ↦ later r behind k
  ]

  -- What the loop finds from a start: the first position whose right part fits a page.
  abbrev pub IsPoint : ℕ → ℕ → Type 0
  IsPoint start p =
      (start ≤ p)
      × (p ≤ old.nkeys)
      × (packed (drop p old.kvs) ≤ page_size)
      × ((r : ℕ) → start ≤ r → r < p → page_size < packed (drop r old.kvs))

  pub split_loop_lem :
      (fuel start : ℕ)
      → start ≤ old.nkeys
      → old.nkeys - start < fuel
      → (p : ℕ) × (split_loop fuel old start ≡ some p) × IsPoint start p
  unfolding split_loop
  split_loop_lem zero start h f = absurd (omega arith)
  split_loop_lem (suc fuel) start h f =
      let here = right_bytes-packed start h in
      elim (Bool-cases (ltb page_size (right_bytes old start))) [
        | inl more ↦
            let over : page_size < packed (drop start old.kvs) = ground (arith, more, here) in
            let next : start < old.nkeys = over_inside start h over in
            let (p, found, (lo, hi, fit, least)) =
              split_loop_lem fuel (suc start) (omega arith) (omega arith) in
            let least_here : (r : ℕ) → start ≤ r → r < p → page_size < packed (drop r old.kvs) =
              λ r g k. first_or_later start p over least r g k in
            (p, rw (le→leb start old.nkeys h, more) found, (omega arith, hi, fit, least_here))
        | inr done ↦
            let fit : packed (drop start old.kvs) ≤ page_size = ground (arith, done, here) in
            (
              start,
              rw (le→leb start old.nkeys h, done),
              (omega arith, h, fit, λ r g k. absurd (omega arith)),
            )
      ]
