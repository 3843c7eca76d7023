-- ===== src/Btree/Tree/Leaf/Delete.antt =====
-- What `treeDelete` of btree.go does to a leaf.
use mini_database_v.Base.{
  of_some, length-append, length-take, length-drop, ◌≡◌, refl, sym, ◌∙◌, subst, ℕ, suc, ◌+◌, ◌-◌,
  ◌≤◌, ◌<◌, Option, none, some, List, [], ◌++◌, length, arith, inl, inr, Bool-cases, get_elem?,
  if◌then◌else◌, take, drop, ◌>>=◌,
}
use mini_database_v.Base.Bytes.{Bytes, eq_bytes, eq_bytes_iff}
use mini_database_v.Btree.Ops.{KeysSorted}
use mini_database_v.Btree.Sorted.{drop_key, find, KeysSorted-drop_key}
use mini_database_v.Btree.Node.{Entry, Node, page_size, bnode_leaf, get_kv}
use mini_database_v.Btree.Node.Build.{total, total-append, total-take-drop, total-drop_mono}
use mini_database_v.Btree.Node.Parts.{leaf_delete_lem}
use mini_database_v.Btree.Split.Point.{packed}
use mini_database_v.Btree.Search.{node_lookup_le}
use mini_database_v.Btree.Pages.{PageOps}
use mini_database_v.Btree.Search.Found.{count_le, count_le-le}
use mini_database_v.Btree.Tree.Remove.{delete_leaf, tree_delete}
use mini_database_v.Btree.Tree.Holds.{pairs, IsNode, Reaches}
use mini_database_v.Btree.Tree.Found.{find-position, at_position, some_below, pairs-KeysSorted}
use mini_database_v.Btree.Tree.Leaf.{around-delete, KvsSorted-pairs, by_type-leaf}

length-without :
    (kvs : List Entry) (i : ℕ)
    → i < length kvs
    → length (take i kvs ++ drop (i + 1) kvs) + 1 ≡ length kvs
length-without kvs i h = omega (
  arith,
  length-append (take i kvs) (drop (i + 1) kvs),
  length-take i kvs (omega arith),
  length-drop (i + 1) kvs,
)

total-without : (kvs : List Entry) (i : ℕ) → total (take i kvs ++ drop (i + 1) kvs) ≤ total kvs
total-without kvs i = omega (
  arith,
  total-append (take i kvs) (drop (i + 1) kvs),
  total-take-drop kvs i,
  total-drop_mono i (i + 1) kvs (omega arith),
)

module _ (ops : PageOps) (levels : ℕ) (key : Bytes) (node : Node) (s : ops.Pages)
    (is_leaf : IsNode bnode_leaf node) (reaches : Reaches key (pairs node.kvs)) where
  abbrev pub found : Option Bytes
  found = find key (pairs node.kvs)

  -- The leaf without the key, and the value that it had.
  abbrev pub Deletes : Bytes → Node → Type 0
  Deletes old new =
      (tree_delete ops (suc levels) key node s ≡ some (some new, old, s))
      × IsNode bnode_leaf new
      × (pairs new.kvs ≡ drop_key key (pairs node.kvs))

  module _ (i : ℕ) (e : Entry) (search : node_lookup_le node key ≡ some i)
      (count : count_le node.kvs key ≡ suc i) (at : get_elem? node.kvs i ≡ some e)
      (read_kv : get_kv node i ≡ some e) where
    decides : found ≡ (if eq_bytes key e.key then some e.val else none)
    decides = (find-position node.kvs key i e is_leaf.3 count at).1

    at_leaf :
        (r : Option Node × Bytes)
        → delete_leaf key node i ≡ some r
        → tree_delete ops (suc levels) key node s ≡ some (r.0, r.1, s)
    unfolding tree_delete
    at_leaf r h = rw search (
        by_type-leaf node (delete_leaf key node i >>= λ q. some (q.0, q.1, s)) _ is_leaf.0
        ∙ rw h refl)

    absent : found ≡ none → tree_delete ops (suc levels) key node s ≡ some (none, [], s)
    unfolding delete_leaf
    absent h = elim (Bool-cases (eq_bytes key e.key)) [
      | inl same ↦ let clash : some e.val ≡ none = (sym (decides ∙ rw same refl)) ∙ h in cc
      | inr other ↦ at_leaf (none, []) (rw (read_kv, other) refl)
    ]

    module _ (room : packed node.kvs ≤ page_size) where
      inside : i < node.nkeys
      inside = omega (arith, count_le-le node.kvs key, is_leaf.1)

      shorter_leaf : (v : Bytes) → found ≡ some v → (new : Node) × Deletes v new
      unfolding delete_leaf
      shorter_leaf v h = elim (Bool-cases (eq_bytes key e.key)) [
        | inr other ↦ let clash : none ≡ some v = (sym (decides ∙ rw other refl)) ∙ h in cc
        | inl same ↦
            let value : e.val ≡ v = of_some ((sym (decides ∙ rw same refl)) ∙ h) in
            let kvs = take i node.kvs ++ drop (i + 1) node.kvs in
            let new : Node = record {
              room = page_size;
              btype = bnode_leaf;
              nkeys = node.nkeys - 1;
              kvs = kvs;
            } in
            let made =
              leaf_delete_lem page_size node is_leaf.1 is_leaf.2 i inside
                (omega (arith, total-without node.kvs i, is_leaf.1)) in
            let content =
              around-delete key [] node.kvs i e is_leaf.3 at
                (sym ((eq_bytes_iff key e.key).0 same)) in
            (
              new,
              (
                at_leaf (some new, v) (rw (read_kv, same, made, value) refl),
                (
                  refl,
                  omega (
                    arith,
                    length-without node.kvs i (omega (arith, inside, is_leaf.1)),
                    inside,
                    is_leaf.1,
                  ),
                  omega (arith, is_leaf.2),
                  KvsSorted-pairs kvs (
                      subst KeysSorted (sym content) (
                        KeysSorted-drop_key key (pairs node.kvs)
                          (pairs-KeysSorted node.kvs is_leaf.3))),
                ),
                content,
              ),
            )
      ]

  -- At a leaf that fits a page and whose first key is not above the key, the deletion of a key that the leaf has not changes nothing, and that of a key with a value makes a leaf of the sorted pairs without the key, and gives the value.
  pub tree_delete_lem :
      packed node.kvs ≤ page_size
      → (found ≡ none → tree_delete ops (suc levels) key node s ≡ some (none, [], s))
        × ((v : Bytes) → found ≡ some v → (new : Node) × Deletes v new)
  tree_delete_lem room =
      let below = some_below node.kvs key reaches in
      let (i, e, search, count, at, read_kv) = at_position node bnode_leaf key is_leaf below in
      (absent i e search count at read_kv, shorter_leaf i e search count at read_kv room)
