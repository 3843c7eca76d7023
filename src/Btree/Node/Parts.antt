-- ===== src/Btree/Node/Parts.antt =====
-- What leafInsert, leafUpdate, leafDelete, nodeMerge and nodeReplace2Kids of btree.go make of the
-- KVs of a node.
use mini_database_v.Base.{
  ◌≡◌, refl, ap, sym, ℕ, ◌+◌, ◌-◌, ◌*◌, ◌≤◌, ◌<◌, some, [], ◌++◌, take, drop, arith, length-append,
  length-take,
}
use mini_database_v.Base.Bytes.{Bytes}
use mini_database_v.Btree.Node.{
  Node, page_size, set_header, sub16, bnode_leaf, bnode_node, leaf_entry, leaf_insert, leaf_update,
  leaf_delete, node_merge, assert_page, node_replace_2_kids,
}
use mini_database_v.Btree.Node.Build.{
  total, total-append, IsBuilt, nbytes_lem, around, build_around, take-drop_rest, take-length,
  node_append_range_lem,
}

module _ (room : ℕ) (old : Node) (b : IsBuilt old) (w : old.nkeys < 65536) where
  pub leaf_insert_lem :
      (idx : ℕ) (key val : Bytes)
      → idx ≤ old.nkeys
      → 4 + 10 * (old.nkeys + 1) + total (around old.kvs idx (leaf_entry key val) idx) ≤ room
      → leaf_insert room old idx key val
        ≡ some (record {
          room = room;
          btype = bnode_leaf;
          nkeys = old.nkeys + 1;
          kvs = around old.kvs idx (leaf_entry key val) idx;
        })
  unfolding leaf_insert
  leaf_insert_lem idx key val h fits =
      build_around room bnode_leaf (old.nkeys + 1) idx (leaf_entry key val) idx old b (omega arith)
        (omega arith) h w fits

  pub leaf_update_lem :
      (idx : ℕ) (key val : Bytes)
      → idx < old.nkeys
      → 4 + 10 * old.nkeys + total (around old.kvs idx (leaf_entry key val) (idx + 1)) ≤ room
      → leaf_update room old idx key val
        ≡ some (record {
          room = room;
          btype = bnode_leaf;
          nkeys = old.nkeys;
          kvs = around old.kvs idx (leaf_entry key val) (idx + 1);
        })
  unfolding leaf_update
  leaf_update_lem idx key val h fits =
      build_around room bnode_leaf old.nkeys idx (leaf_entry key val) (idx + 1) old b (omega arith)
        (omega arith) (omega arith) w fits

  pub node_replace_2_kids_lem :
      (idx ptr : ℕ) (key : Bytes)
      → idx + 2 ≤ old.nkeys
      → 4
          + 10 * (old.nkeys - 1)
          + total (around old.kvs idx (record { ptr = ptr; key = key; val = [] }) (idx + 2))
        ≤ room
      → node_replace_2_kids room old idx ptr key
        ≡ some (record {
          room = room;
          btype = bnode_node;
          nkeys = old.nkeys - 1;
          kvs = around old.kvs idx (record { ptr = ptr; key = key; val = [] }) (idx + 2);
        })
  unfolding node_replace_2_kids
  node_replace_2_kids_lem idx ptr key h fits =
      let count : sub16 old.nkeys 1 ≡ old.nkeys - 1 = omega arith in
      rw count (
        build_around room bnode_node (old.nkeys - 1) idx (record { ptr = ptr; key = key; val = [] })
          (idx + 2) old b (omega arith) (omega arith) (omega arith) w fits)

  pub leaf_delete_lem :
      (idx : ℕ)
      → idx < old.nkeys
      → 4 + 10 * (old.nkeys - 1) + total (take idx old.kvs ++ drop (idx + 1) old.kvs) ≤ room
      → leaf_delete room old idx
        ≡ some (record {
          room = room;
          btype = bnode_leaf;
          nkeys = old.nkeys - 1;
          kvs = take idx old.kvs ++ drop (idx + 1) old.kvs;
        })
  unfolding leaf_delete
  leaf_delete_lem idx h fits =
      let count : sub16 old.nkeys 1 ≡ old.nkeys - 1 = omega arith in
      let rounds : sub16 old.nkeys (idx + 1) ≡ old.nkeys - (idx + 1) = omega arith in
      let sizes = total-append (take idx old.kvs) (drop (idx + 1) old.kvs) in
      let rest = take-drop_rest old.kvs (idx + 1) (old.nkeys - (idx + 1)) (omega arith) in
      let front : Node = record {
        room = room;
        btype = bnode_leaf;
        nkeys = old.nkeys - 1;
        kvs = take idx old.kvs;
      } in
      rw (
        count,
        rounds,
        node_append_range_lem idx old 0 0 (set_header room bnode_leaf (old.nkeys - 1)) b refl
            (omega arith) (omega arith) (omega (arith, sizes)),
        node_append_range_lem (old.nkeys - (idx + 1)) old idx (idx + 1) front b
            (length-take idx old.kvs (omega arith)) (omega arith) (omega arith)
            (omega (arith, sizes, ap total rest)),
        rest,
      )

module _ (left right : Node) (b : IsBuilt left) (c : IsBuilt right) where
  pub node_merge_lem :
      4 + 10 * (left.nkeys + right.nkeys) + total left.kvs + total right.kvs ≤ page_size
      → node_merge page_size left right
        ≡ some (record {
          room = page_size;
          btype = left.btype;
          nkeys = left.nkeys + right.nkeys;
          kvs = left.kvs ++ right.kvs;
        })
  unfolding node_merge assert_page
  node_merge_lem fits =
      let first : Node = record {
        room = page_size;
        btype = left.btype;
        nkeys = left.nkeys + right.nkeys;
        kvs = left.kvs;
      } in
      let both : Node = record first { kvs = left.kvs ++ right.kvs } in
      let all_left = take-length left.kvs left.nkeys (sym b) in
      let all_right = take-length right.kvs right.nkeys (sym c) in
      let size = nbytes_lem both (omega (arith, length-append left.kvs right.kvs)) in
      rw
        (
          node_append_range_lem left.nkeys left 0 0
              (set_header page_size left.btype (left.nkeys + right.nkeys)) b refl (omega arith)
              (omega arith) (omega (arith, ap total all_left)),
          all_left,
          node_append_range_lem right.nkeys right left.nkeys 0 first c (omega arith) (omega arith)
              (omega arith) (omega (arith, ap total all_right)),
          all_right,
        )
        (ground (arith, size, total-append left.kvs right.kvs))
