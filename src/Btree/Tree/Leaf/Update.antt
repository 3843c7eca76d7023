-- ===== src/Btree/Tree/Leaf/Update.antt =====
-- What `treeUpdate` of btree.go does to a leaf.
use mini_database_v.Base.{
  ◌≡◌, refl, sym, ◌∙◌, subst, ℕ, suc, ◌+◌, ◌*◌, ◌≤◌, ◌<◌, Option, none, some, List, [], length,
  arith, true, false, inl, inr, Bool, Bool-cases, get_elem?, if◌then◌else◌, ◌>>=◌, ◌||◌,
}
use mini_database_v.Base.Bytes.{Bytes, eq_bytes, eq_bytes_iff}
use mini_database_v.Btree.Ops.{KeysSorted}
use mini_database_v.Btree.Sorted.{add, KeysSorted-add, find}
use mini_database_v.Btree.Node.{Entry, Node, page_size, bnode_leaf, get_kv, leaf_entry}
use mini_database_v.Btree.Node.Build.{around, total-around, length-around}
use mini_database_v.Btree.Node.Parts.{leaf_insert_lem, leaf_update_lem}
use mini_database_v.Btree.Split.Point.{packed}
use mini_database_v.Btree.Search.{node_lookup_le}
use mini_database_v.Btree.Pages.{PageOps}
use mini_database_v.Btree.Search.Found.{KvsSorted, count_le, count_le-le}
use mini_database_v.Btree.Tree.{
  UpdateReq, Reply, unchanged, insert_only, update_only, update_leaf, tree_update,
}
use mini_database_v.Btree.Tree.Holds.{pairs, IsNode, Reaches}
use mini_database_v.Btree.Tree.Found.{find-position, at_position, some_below, pairs-KeysSorted}
use mini_database_v.Btree.Tree.Leaf.{around-insert, around-update, KvsSorted-pairs, by_type-leaf}

-- Whether the mode or the stored value forbids the update.
abbrev pub refuses : UpdateReq → Option Bytes → Bool
refuses req none = update_only req.mode
refuses req (some v) = insert_only req.mode || eq_bytes req.val v

abbrev pub reply_to : Option Bytes → Reply
reply_to none = record { added = true; updated = true; old = [] }
reply_to (some v) = record { added = false; updated = true; old = v }

module _ (ops : PageOps) (levels : ℕ) (req : UpdateReq) (node : Node) (s : ops.Pages)
    (is_leaf : IsNode bnode_leaf node) (reaches : Reaches req.key (pairs node.kvs)) where
  abbrev pub found : Option Bytes
  found = find req.key (pairs node.kvs)

  -- The new leaf, with its pairs.
  abbrev pub Updates : Node → Type 0
  Updates new =
      (tree_update ops (suc levels) req node s ≡ some (some new, reply_to found, s))
      × IsNode bnode_leaf new
      × (pairs new.kvs ≡ add req.key req.val (pairs node.kvs))

  module _ (i : ℕ) (e : Entry) (search : node_lookup_le node req.key ≡ some i)
      (count : count_le node.kvs req.key ≡ suc i) (at : get_elem? node.kvs i ≡ some e)
      (read_kv : get_kv node i ≡ some e) where
    decides : found ≡ (if eq_bytes req.key e.key then some e.val else none)
    decides = (find-position node.kvs req.key i e is_leaf.3 count at).1

    stored : eq_bytes req.key e.key ≡ true → found ≡ some e.val
    stored h = decides ∙ rw h refl

    missing : eq_bytes req.key e.key ≡ false → found ≡ none
    missing h = decides ∙ rw h refl

    at_leaf :
        (r : Option Node × Reply)
        → update_leaf req node i ≡ some r
        → tree_update ops (suc levels) req node s ≡ some (r.0, r.1, s)
    unfolding tree_update
    at_leaf r h = rw search (
        by_type-leaf node (update_leaf req node i >>= λ q. some (q.0, q.1, s)) _ is_leaf.0
        ∙ rw h refl)

    refused :
        refuses req found ≡ true
        → tree_update ops (suc levels) req node s ≡ some (none, unchanged, s)
    unfolding update_leaf
    refused h = elim (Bool-cases (eq_bytes req.key e.key)) [
      | inl same ↦
          let why = subst (λ o. refuses req o ≡ true) (stored same) h in
          at_leaf (none, unchanged) (rw (read_kv, same) (ground (arith, why)))
      | inr other ↦
          let why = subst (λ o. refuses req o ≡ true) (missing other) h in
          at_leaf (none, unchanged) (rw (read_kv, other) (ground (arith, why)))
    ]

    module _ (room : packed node.kvs + 14 + length req.key + length req.val ≤ 2 * page_size) where
      inside : i < node.nkeys
      inside = omega (arith, count_le-le node.kvs req.key, is_leaf.1)

      new_kvs-KvsSorted :
          (kvs : List Entry) → pairs kvs ≡ add req.key req.val (pairs node.kvs) → KvsSorted kvs
      new_kvs-KvsSorted kvs content = KvsSorted-pairs kvs (
          subst KeysSorted (sym content)
            (KeysSorted-add req.key req.val (pairs node.kvs) (pairs-KeysSorted node.kvs is_leaf.3)))

      changed_leaf :
          eq_bytes req.key e.key ≡ true → refuses req found ≡ false → (new : Node) × Updates new
      unfolding update_leaf
      changed_leaf same allowed =
          let why = subst (λ o. refuses req o ≡ false) (stored same) allowed in
          let entry = leaf_entry req.key req.val in
          let kvs = around node.kvs i entry (i + 1) in
          let new : Node = record {
            room = 2 * page_size;
            btype = bnode_leaf;
            nkeys = node.nkeys;
            kvs = kvs;
          } in
          let made =
            leaf_update_lem (2 * page_size) node is_leaf.1 is_leaf.2 i req.key req.val inside
              (omega (arith, total-around node.kvs i entry (i + 1))) in
          let content =
            around-update req.key req.val node.kvs i e is_leaf.3 at
              (sym ((eq_bytes_iff req.key e.key).0 same)) in
          let count_new =
            length-around node.kvs i entry (i + 1) (omega (arith, inside, is_leaf.1)) in
          (
            new,
            (
              at_leaf (some new, reply_to found)
                  (rw (read_kv, same, made, stored same) (ground (arith, why))),
              (refl, omega (arith, count_new, inside), is_leaf.2, new_kvs-KvsSorted kvs content),
              content,
            ),
          )

      longer_leaf :
          eq_bytes req.key e.key ≡ false → refuses req found ≡ false → (new : Node) × Updates new
      unfolding update_leaf
      longer_leaf other allowed =
          let why = subst (λ o. refuses req o ≡ false) (missing other) allowed in
          let entry = leaf_entry req.key req.val in
          let kvs = around node.kvs (i + 1) entry (i + 1) in
          let new : Node = record {
            room = 2 * page_size;
            btype = bnode_leaf;
            nkeys = node.nkeys + 1;
            kvs = kvs;
          } in
          let made =
            leaf_insert_lem (2 * page_size) node is_leaf.1 is_leaf.2 (i + 1) req.key req.val
              (omega (arith, inside))
              (omega (arith, total-around node.kvs (i + 1) entry (i + 1))) in
          let next : i + 1 ≡ count_le node.kvs req.key = omega arith in
          let content =
            subst (λ n. pairs (around node.kvs n entry n) ≡ add req.key req.val (pairs node.kvs))
              (sym next) (around-insert req.key req.val node.kvs is_leaf.3 (missing other)) in
          let count_new =
            length-around node.kvs (i + 1) entry (i + 1) (omega (arith, inside, is_leaf.1)) in
          (
            new,
            (
              at_leaf (some new, reply_to found)
                  (rw (read_kv, other, made, missing other) (ground (arith, why))),
              (refl, omega (arith, count_new, inside), omega arith, new_kvs-KvsSorted kvs content),
              content,
            ),
          )

  -- At a leaf whose first key is not above the key, the update is refused and changes nothing if the mode or the stored value forbids it; else a leaf with room for the new KV in two pages becomes a leaf whose pairs are the sorted pairs with the new one, and the reply says whether the key was added and what it had.
  pub tree_update_lem :
      packed node.kvs + 14 + length req.key + length req.val ≤ 2 * page_size
      → (refuses req found ≡ true
          → tree_update ops (suc levels) req node s ≡ some (none, unchanged, s))
        × (refuses req found ≡ false → (new : Node) × Updates new)
  tree_update_lem room =
      let below = some_below node.kvs req.key reaches in
      let (i, e, search, count, at, read_kv) = at_position node bnode_leaf req.key is_leaf below in
      (
        refused i e search count at read_kv,
        λ allowed. elim (Bool-cases (eq_bytes req.key e.key)) [
          | inl same ↦ changed_leaf i e search count at read_kv room same allowed
          | inr other ↦ longer_leaf i e search count at read_kv room other allowed
        ],
      )
