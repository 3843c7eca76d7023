-- ===== src/Btree/Tree/Leaf.antt =====
-- What `treeUpdate` and `treeDelete` of btree.go do to a leaf.
pub mod Update
pub mod Delete
use mini_database_v.Base.{
  ◌≡◌, refl, sym, ap, ◌∙◌, subst, ℕ, zero, suc, ◌+◌, ◌-◌, ◌*◌, ◌%◌, ◌≤◌, ◌<◌, Option, none, some,
  List, [], ◌∷◌, ◌++◌, length, arith, true, false, inl, inr, ◌⊎◌, Bool, Bool-cases, get_elem?,
  if◌then◌else◌, take, drop, All, ◌>>=◌, ◌==◌, ◌||◌,
}
use mini_database_v.Base.Bytes.{Bytes, eq_bytes, eq_bytes_iff, eq_bytes_refl}
use mini_database_v.Tx.Ranges.{is_lt, is_lt-of_lt_of_le, is_lt_asym}
use mini_database_v.Btree.Ops.{KeysSorted, is_some, is_stored}
use mini_database_v.Btree.Sorted.{
  Entries, Above, add, KeysSorted-add, drop_key, find, find-Above, eq_bytes-false_of_lt,
}
use mini_database_v.Btree.Node.{Entry, Node, page_size, bnode_leaf, bnode_node, get_kv, leaf_entry}
use mini_database_v.Btree.Node.Build.{around, total-around, length-around, total}
use mini_database_v.Btree.Node.Parts.{leaf_insert_lem, leaf_update_lem, leaf_delete_lem}
use mini_database_v.Btree.Split.Point.{packed}
use mini_database_v.Btree.Search.{node_lookup_le}
use mini_database_v.Btree.Pages.{PageOps}
use mini_database_v.Btree.Search.Found.{KvsSorted, All-get, count_le, count_le-le, is_lt_irrefl}
use mini_database_v.Btree.Tree.{
  UpdateReq, Reply, unchanged, insert_only, update_only, update_leaf, by_type, tree_update,
}
use mini_database_v.Btree.Tree.Remove.{delete_leaf}
use mini_database_v.Btree.Tree.Holds.{pairs, IsNode, Reaches}
use mini_database_v.Btree.Tree.Found.{
  find-position, other_key, at_position, some_below, pairs-KeysSorted,
}

not_before : (a b : Bytes) → is_lt b a ≡ false → eq_bytes b a ≡ false → is_lt a b ≡ true
not_before [] [] h k = cc
not_before [] (y ∷ b) h k = refl
not_before (x ∷ a) [] h k = cc
not_before (x ∷ a) (y ∷ b) h k = ground (arith, not_before a b)

module _ (key val : Bytes) where
  -- A new key stands behind the keys that are not above it.
  pub around-insert :
      (kvs : List Entry)
      → KvsSorted kvs
      → find key (pairs kvs) ≡ none
      → pairs (around kvs (count_le kvs key) (leaf_entry key val) (count_le kvs key))
        ≡ add key val (pairs kvs)
  around-insert [] s h = refl
  around-insert (e ∷ kvs) (s, ss) h =
      ground (arith, around-insert kvs ss, eq_bytes_iff key e.key, is_lt_irrefl key)

  pub around-update :
      (kvs : List Entry) (i : ℕ) (e : Entry)
      → KvsSorted kvs
      → get_elem? kvs i ≡ some e
      → e.key ≡ key
      → pairs (around kvs i (leaf_entry key val) (i + 1)) ≡ add key val (pairs kvs)
  around-update [] i e s h same = cc
  around-update (x ∷ kvs) zero e s h same =
      let equal : x.key ≡ key = ground (arith, h) in rw (equal, eq_bytes_refl key)
  around-update (x ∷ kvs) (suc i) e (s, ss) h same =
      let next : suc i + 1 ≡ suc (i + 1) = omega arith in
      let below : is_lt x.key key ≡ true =
        subst (λ k. is_lt x.key k ≡ true) same
          (All-get (λ f. is_lt x.key f.key ≡ true) kvs i s h) in
      rw (next, other_key x.key key below, is_lt_asym x.key key below)
        (ap (λ l. (x.key, x.val) ∷ l) (around-update kvs i e ss h same))

  pub around-delete :
      (kvs : List Entry) (i : ℕ) (e : Entry)
      → KvsSorted kvs
      → get_elem? kvs i ≡ some e
      → e.key ≡ key
      → pairs (take i kvs ++ drop (i + 1) kvs) ≡ drop_key key (pairs kvs)
  around-delete [] i e s h same = cc
  around-delete (x ∷ kvs) zero e s h same =
      let equal : x.key ≡ key = ground (arith, h) in rw (equal, eq_bytes_refl key)
  around-delete (x ∷ kvs) (suc i) e (s, ss) h same =
      let next : suc i + 1 ≡ suc (i + 1) = omega arith in
      let below : is_lt x.key key ≡ true =
        subst (λ k. is_lt x.key k ≡ true) same
          (All-get (λ f. is_lt x.key f.key ≡ true) kvs i s h) in
      rw (next, other_key x.key key below)
        (ap (λ l. (x.key, x.val) ∷ l) (around-delete kvs i e ss h same))

pub KvsSorted-pairs : (kvs : List Entry) → KeysSorted (pairs kvs) → KvsSorted kvs
KvsSorted-pairs [] h = tt
KvsSorted-pairs (e ∷ kvs) (h, hs) = (kvs-of-Above e.key kvs h, KvsSorted-pairs kvs hs)
  where
    kvs-of-Above :
        (a : Bytes) (fs : List Entry) → Above a (pairs fs) → All (λ f. is_lt a f.key ≡ true) fs
    kvs-of-Above a [] k = tt
    kvs-of-Above a (f ∷ fs) (k, ks) = (k, kvs-of-Above a fs ks)

pub by_type-leaf {ℓ} :
    {A : Type ℓ} (node : Node) (leaf internal : Option A)
    → node.btype ≡ bnode_leaf
    → by_type node leaf internal ≡ leaf
by_type-leaf node leaf internal h =
    let test : (node.btype == bnode_leaf) ≡ true = ground (arith, h) in rw (test, by_type)
