-- ===== src/Btree/Tree/Found.antt =====
-- What `Get` of btree.go finds in a tree.
use mini_database_v.Base.{
  ◌≡◌, refl, sym, ap, ◌∙◌, subst, ℕ, zero, suc, ◌+◌, ◌-◌, ◌%◌, ◌≤◌, ◌<◌, none, some, List, [], ◌∷◌,
  ◌++◌, arith, true, false, inl, inr, ◌⊎◌, Bool-cases, get_elem?, if◌then◌else◌, ◌==◌, All, of_some,
}
use mini_database_v.Base.Bytes.{Bytes, eq_bytes, eq_bytes_iff}
use mini_database_v.Tx.Ranges.{is_lt, is_lt-of_lt_of_le}
use mini_database_v.Btree.Ops.{KeysSorted}
use mini_database_v.Btree.Sorted.{
  Entries, Above, Above-trans, find, find-Above, eq_bytes-false_of_lt,
}
use mini_database_v.Btree.Node.{Entry, Node, bnode_leaf, bnode_node, get_kv}
use mini_database_v.Btree.Node.Build.{get_kv_lem, drop-get_elem?}
use mini_database_v.Btree.Search.{node_lookup_le}
use mini_database_v.Btree.Search.Found.{
  KvsSorted, All-get, count_le, count_le-le, node_lookup_le_lem,
}
use mini_database_v.Btree.Pages.{PageOps}
use mini_database_v.Btree.Tree.{BTree, node_get_key, tree_get}
use mini_database_v.Btree.Tree.Holds.{
  pairs, StartsAt, Reaches, IsNode, Kids, Holds, find-Before, find-append-Above, KeysSorted-split,
  KeysSorted-Before, Above-next,
}

-- The position of the search, where a key is not above the key.
position : (c n : ℕ) → 0 < c → c ≤ n → n < 65536 → (c + 65535) % 65536 ≡ c - 1
position c n h k w = omega arith

pairs-Above :
    (key : Bytes) (kvs : List Entry) → All (λ f. is_lt key f.key ≡ true) kvs → Above key (pairs kvs)
pairs-Above key [] h = tt
pairs-Above key (e ∷ kvs) (h, hs) = (h, pairs-Above key kvs hs)

pub pairs-KeysSorted : (kvs : List Entry) → KvsSorted kvs → KeysSorted (pairs kvs)
pairs-KeysSorted [] h = tt
pairs-KeysSorted (e ∷ kvs) (h, hs) = (pairs-Above e.key kvs h, pairs-KeysSorted kvs hs)

pub some_below : (kvs : List Entry) (key : Bytes) → Reaches key (pairs kvs) → 0 < count_le kvs key
some_below [] key r = absurd r
some_below (e ∷ kvs) key r = ground (arith, r)

count_zero-Above :
    (kvs : List Entry) (key : Bytes) → KvsSorted kvs → count_le kvs key ≡ 0 → Above key (pairs kvs)
count_zero-Above [] key s c = tt
count_zero-Above (e ∷ kvs) key (s, ss) c =
    let above : is_lt key e.key ≡ true = ground (arith, c) in
    (above, Above-trans key e.key (pairs kvs) above (pairs-Above e.key kvs s))

pub other_key : (a key : Bytes) → is_lt a key ≡ true → eq_bytes key a ≡ false
other_key a key h =
    ground (arith, eq_bytes-false_of_lt a key h, eq_bytes_iff a key, eq_bytes_iff key a)

-- The KV at the position decides.
pub find-position :
    (kvs : List Entry) (key : Bytes) (i : ℕ) (e : Entry)
    → KvsSorted kvs
    → count_le kvs key ≡ suc i
    → get_elem? kvs i ≡ some e
    → (is_lt key e.key ≡ false)
      × (find key (pairs kvs) ≡ (if eq_bytes key e.key then some e.val else none))
find-position [] key i e s c h = cc
find-position (x ∷ kvs) key zero e (s, ss) c h = elim (Bool-cases (is_lt key x.key)) [
  | inl above ↦ absurd (ground (arith, c, above))
  | inr below ↦
      let none_left : count_le kvs key ≡ 0 = ground (arith, c, below) in
      let last = find-Above key (pairs kvs) (count_zero-Above kvs key ss none_left) in
      (ground (arith, h, below), ground (arith, h, last))
]
find-position (x ∷ kvs) key (suc i) e (s, ss) c h = elim (Bool-cases (is_lt key x.key)) [
  | inl above ↦ absurd (ground (arith, c, above))
  | inr below ↦
      let less : count_le kvs key ≡ suc i = ground (arith, c, below) in
      let (le, found) = find-position kvs key i e ss less h in
      let before =
        is_lt-of_lt_of_le x.key e.key key (All-get (λ f. is_lt x.key f.key ≡ true) kvs i s h) le in
      (le, rw (other_key x.key key before) found)
]

start_append : (xs ys : Entries) (k : Bytes) → StartsAt k xs → StartsAt k (xs ++ ys)
start_append [] ys k h = absurd h
start_append (x ∷ xs) ys k h = h

start-Reaches :
    (xs : Entries) (k key : Bytes) → StartsAt k xs → is_lt key k ≡ false → Reaches key xs
start-Reaches [] k key h below = absurd h
start-Reaches (x ∷ xs) k key h below = subst (λ j. is_lt key j ≡ false) (sym h) below

first-Reaches :
    (xs ys : Entries) (k key : Bytes) → StartsAt k xs → is_lt key k ≡ false → Reaches key (xs ++ ys)
first-Reaches xs ys k key h below = start-Reaches (xs ++ ys) k key (start_append xs ys k h) below

module _ (ops : PageOps) (s : ops.Pages) (R : Node → Entries → Type 0) (key : Bytes) where
  Kids-reach :
      (kvs : List Entry) (es : Entries)
      → Kids ops s R kvs es
      → 0 < count_le kvs key
      → Reaches key es
  Kids-reach [] es k c = absurd (omega arith)
  Kids-reach (e ∷ kvs) es (kid, front, rest, at, holds, start, whole, more) c =
      subst (Reaches key) (sym whole) (first-Reaches front rest e.key key start (ground (arith, c)))

  -- The kids behind the position hold greater keys.
  Kids-Above :
      (kvs : List Entry) (es : Entries)
      → Kids ops s R kvs es
      → KeysSorted es
      → count_le kvs key ≡ 0
      → Above key es
  Kids-Above [] es k sorted c = subst (Above key) (sym k) tt
  Kids-Above (e ∷ kvs) es (kid, front, rest, at, holds, start, whole, more) sorted c =
      Above-next key es e.key
        (subst (StartsAt e.key) (sym whole) (start_append front rest e.key start)) sorted
        (ground (arith, c))

  -- The kid at the position holds what the node holds of the key.
  abbrev Leads : Entry → Entries → Type 0
  Leads e es =
      (kid : Node) × (part : Entries) × (ops.read s e.ptr ≡ some kid)
      × R kid part
      × KeysSorted part
      × Reaches key part
      × (find key es ≡ find key part)

  kid_at_position :
      (kvs : List Entry) (es : Entries) (i : ℕ) (e : Entry)
      → Kids ops s R kvs es
      → KeysSorted es
      → count_le kvs key ≡ suc i
      → get_elem? kvs i ≡ some e
      → Leads e es
  kid_at_position [] es i e k sorted c h = cc
  kid_at_position (x ∷ kvs) es zero e (kid, front, rest, at, holds, start, whole, more) sorted c h =
      let same : x ≡ e = of_some h in
      let below : is_lt key x.key ≡ false = ground (arith, c) in
      let none_left : count_le kvs key ≡ 0 = ground (arith, c, below) in
      let both = KeysSorted-split front rest (subst KeysSorted whole sorted) in
      let behind = Kids-Above kvs rest more both.1 none_left in
      (
        kid,
        front,
        subst (λ d. ops.read s d.ptr ≡ some kid) same at,
        holds,
        both.0,
        start-Reaches front x.key key start below,
        ap (find key) whole ∙ find-append-Above key front rest behind,
      )
  kid_at_position (x ∷ kvs) es (suc i) e (kid, front, rest, at, holds, start, whole, more) sorted c
        h =
      let below : is_lt key x.key ≡ false = ground (arith, c) in
      let left : count_le kvs key ≡ suc i = ground (arith, c, below) in
      let sorted' = subst KeysSorted whole sorted in
      let both = KeysSorted-split front rest sorted' in
      let before =
        KeysSorted-Before front rest key sorted' (Kids-reach kvs rest more (omega arith)) in
      let (there, part, at', holds', sorted_part, reaches, found) =
        kid_at_position kvs rest i e more both.1 left h in
      (
        there,
        part,
        at',
        holds',
        sorted_part,
        reaches,
        ap (find key) whole ∙ find-Before key front rest before ∙ found,
      )

  Kids-below :
      (kvs : List Entry) (es : Entries)
      → Kids ops s R kvs es
      → Reaches key es
      → 0 < count_le kvs key
  Kids-below [] es k r = absurd (subst (Reaches key) k r)
  Kids-below (e ∷ kvs) es (kid, front, rest, at, holds, start, whole, more) r =
      let first =
        starts_reaches (front ++ rest) e.key (start_append front rest e.key start)
          (subst (Reaches key) whole r) in
      ground (arith, first)
    where
      starts_reaches :
          (xs : Entries) (k : Bytes) → StartsAt k xs → Reaches key xs → is_lt key k ≡ false
      starts_reaches [] k st re = absurd st
      starts_reaches (x ∷ xs) k st re = subst (λ j. is_lt key j ≡ false) st re

-- The search ends at a KV of the node.
pub at_position :
    (node : Node) (btype : ℕ) (key : Bytes)
    → IsNode btype node
    → 0 < count_le node.kvs key
    → (i : ℕ) × (e : Entry) × (node_lookup_le node key ≡ some i)
      × (count_le node.kvs key ≡ suc i)
      × (get_elem? node.kvs i ≡ some e)
      × (get_kv node i ≡ some e)
at_position node btype key (type, built, w, sorted) below =
    let c = count_le node.kvs key in
    let inside = count_le-le node.kvs key in
    let (e, at, _) = drop-get_elem? node.kvs (c - 1) (omega (arith, inside)) in
    (
      c - 1,
      e,
      node_lookup_le_lem key node built sorted w
          ∙ ap some (position c node.nkeys below (omega (arith, inside)) w),
      omega arith,
      at,
      get_kv_lem node (c - 1) e (omega (arith, inside)) at,
    )

module _ (ops : PageOps) (s : ops.Pages) (key : Bytes) where
  -- In a tree whose pairs are sorted and start at or before the key, the search finds what the sorted pairs hold of the key, at any depth that the levels exceed.
  pub node_get_key_lem :
      (levels depth : ℕ) (node : Node) (es : Entries)
      → Holds ops s depth node es
      → KeysSorted es
      → Reaches key es
      → depth < levels
      → node_get_key ops levels node key s ≡ some (find key es)
  unfolding node_get_key
  node_get_key_lem zero depth node es h sorted r deep = absurd (omega arith)
  node_get_key_lem (suc levels) zero node es (is_node, same) sorted r deep =
      let below = some_below node.kvs key (subst (Reaches key) (sym same) r) in
      let (i, e, search, count, at, read_kv) = at_position node bnode_leaf key is_node below in
      let found = find-position node.kvs key i e is_node.3 count at in
      rw (search, is_node.0, read_kv) (ap some (sym found.1 ∙ ap (find key) same))
  node_get_key_lem (suc levels) (suc depth) node es (is_node, kids) sorted r deep =
      let below = Kids-below ops s (Holds ops s depth) key node.kvs es kids r in
      let (i, e, search, count, at, read_kv) = at_position node bnode_node key is_node below in
      let (kid, part, there, holds, sorted_part, reaches, found) =
        kid_at_position ops s (Holds ops s depth) key node.kvs es i e kids sorted count at in
      rw (search, is_node.0, read_kv, there)
        (node_get_key_lem levels depth kid part holds sorted_part reaches (omega arith)
          ∙ ap some (sym found))

-- No root and no pairs, or a root whose tree starts at the sentinel.
abbrev pub IsTree : (ops : PageOps) → ℕ → BTree ops.Pages → Entries → Type 0
IsTree ops depth tree es =
    ((tree.root ≡ 0) × (es ≡ []))
    ⊎ ((node : Node) × (0 < tree.root)
        × (ops.read tree.pages tree.root ≡ some node)
        × Holds ops tree.pages depth node es
        × KeysSorted es
        × StartsAt [] es)

sentinel-Reaches : (key : Bytes) (es : Entries) → StartsAt [] es → Reaches key es
sentinel-Reaches key [] h = h
sentinel-Reaches key (e ∷ es) h = subst (λ j. is_lt key j ≡ false) (sym h) (is_lt-nil key)
  where
    is_lt-nil : (a : Bytes) → is_lt a [] ≡ false
    is_lt-nil [] = refl
    is_lt-nil (x ∷ a) = refl

-- `Get` of an empty tree finds nothing, and `Get` of a tree that starts at the sentinel finds what its sorted pairs hold of the key, with no panic, at any depth that the levels exceed.
pub tree_get_lem :
    (ops : PageOps) (levels depth : ℕ) (tree : BTree ops.Pages) (es : Entries) (key : Bytes)
    → IsTree ops depth tree es
    → depth < levels
    → tree_get ops levels tree key ≡ some (find key es)
unfolding tree_get
tree_get_lem ops levels depth tree es key (inl (no_root, nothing)) deep =
    rw (no_root) (ap (λ l. some (find key l)) (sym nothing))
tree_get_lem ops levels depth tree es key (inr (node, root, at, holds, sorted, start)) deep =
    let some_root : (tree.root == 0) ≡ false = ground arith in
    rw (some_root, at)
      (node_get_key_lem ops tree.pages key levels depth node es holds sorted
        (sentinel-Reaches key es start) deep)
