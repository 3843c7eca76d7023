-- ===== src/Btree/Tree/Holds.antt =====
-- The pairs that the nodes of a B+tree hold.
use mini_database_v.Base.{
  ◌≡◌, refl, sym, subst, ℕ, zero, suc, ◌<◌, some, List, [], ◌∷◌, ◌++◌, All, arith, true, false,
}
use mini_database_v.Base.Bytes.{Bytes, eq_bytes, eq_bytes_iff}
use mini_database_v.Tx.Ranges.{is_lt, is_lt-of_lt_of_le}
use mini_database_v.Btree.Ops.{KeysSorted}
use mini_database_v.Btree.Sorted.{
  Entries, Above, Above-trans, find, find-Above, eq_bytes-false_of_lt,
}
use mini_database_v.Btree.Node.{Entry, Node, bnode_leaf, bnode_node}
use mini_database_v.Btree.Node.Build.{IsBuilt}
use mini_database_v.Btree.Search.Found.{KvsSorted}
use mini_database_v.Btree.Pages.{PageOps}

abbrev pub pairs : List Entry → Entries
pairs [] = []
pairs (e ∷ kvs) = (e.key, e.val) ∷ pairs kvs

abbrev pub StartsAt : Bytes → Entries → Type 0
StartsAt key [] = ⊥
StartsAt key (e ∷ es) = e.0 ≡ key

-- There is a first key, and it is not above the key.
abbrev pub Reaches : Bytes → Entries → Type 0
Reaches key [] = ⊥
Reaches key (e ∷ es) = is_lt key e.0 ≡ false

-- The header counts the KVs, and the keys increase.
abbrev pub IsNode : ℕ → Node → Type 0
IsNode btype node = (node.btype ≡ btype) × IsBuilt node × (node.nkeys < 65536) × KvsSorted node.kvs

module _ (ops : PageOps) (s : ops.Pages) where
  -- Every pointer leads to a kid that starts at its key.
  abbrev pub Kids : (Node → Entries → Type 0) → List Entry → Entries → Type 0
  Kids R [] es = es ≡ []
  Kids R (e ∷ kvs) es =
      (kid : Node) × (front : Entries) × (rest : Entries) × (ops.read s e.ptr ≡ some kid)
      × R kid front
      × StartsAt e.key front
      × (es ≡ front ++ rest)
      × Kids R kvs rest

  -- The node of a tree with so many levels below it, and the pairs of its leaves.
  abbrev pub Holds : ℕ → Node → Entries → Type 0
  Holds zero node es = IsNode bnode_leaf node × (pairs node.kvs ≡ es)
  Holds (suc levels) node es = IsNode bnode_node node × Kids (Holds levels) node.kvs es

abbrev pub Before : Bytes → Entries → Type 0
Before key = All (λ f. is_lt f.0 key ≡ true)

pub find-Before :
    (key : Bytes) (xs ys : Entries) → Before key xs → find key (xs ++ ys) ≡ find key ys
find-Before key [] ys h = refl
find-Before key (x ∷ xs) ys (h, hs) =
    let other : eq_bytes key x.0 ≡ false =
      ground (arith, eq_bytes-false_of_lt x.0 key h, eq_bytes_iff x.0 key, eq_bytes_iff key x.0) in
    rw other (find-Before key xs ys hs)

pub find-append-Above :
    (key : Bytes) (xs ys : Entries) → Above key ys → find key (xs ++ ys) ≡ find key xs
find-append-Above key [] ys h = find-Above key ys h
find-append-Above key ((j, v) ∷ xs) ys h = ground (arith, find-append-Above key xs ys h)

pub KeysSorted-split : (xs ys : Entries) → KeysSorted (xs ++ ys) → KeysSorted xs × KeysSorted ys
KeysSorted-split [] ys h = (tt, h)
KeysSorted-split (x ∷ xs) ys (h, hs) =
    let (left, right) = KeysSorted-split xs ys hs in ((Above-split x.0 xs ys h, left), right)
  where
    Above-split : (key : Bytes) (us vs : Entries) → Above key (us ++ vs) → Above key us
    Above-split key [] vs a = tt
    Above-split key (u ∷ us) vs (a, rest) = (a, Above-split key us vs rest)

-- The first list ends before the second one starts.
pub KeysSorted-Before :
    (xs ys : Entries) (key : Bytes) → KeysSorted (xs ++ ys) → Reaches key ys → Before key xs
KeysSorted-Before xs [] key h r = absurd r
KeysSorted-Before [] (y ∷ ys) key h r = tt
KeysSorted-Before (x ∷ xs) (y ∷ ys) key (h, hs) r = (
  is_lt-of_lt_of_le x.0 y.0 key (at_second x.0 xs y ys h) r,
  KeysSorted-Before xs (y ∷ ys) key hs r,
)
  where
    at_second :
        (a : Bytes) (us : Entries) (v : Bytes × Bytes) (vs : Entries)
        → Above a (us ++ v ∷ vs)
        → is_lt a v.0 ≡ true
    at_second a [] v vs (b, bs) = b
    at_second a (u ∷ us) v vs (b, bs) = at_second a us v vs bs

pub Above-next :
    (key : Bytes) (es : Entries) (k : Bytes)
    → StartsAt k es
    → KeysSorted es
    → is_lt key k ≡ true
    → Above key es
Above-next key [] k s h less = absurd s
Above-next key (e ∷ es) k s (h, hs) less =
    let first : is_lt key e.0 ≡ true = subst (λ j. is_lt key j ≡ true) (sym s) less in
    (first, Above-trans key e.0 es first h)
