-- ===== src/Btree/Split/Halves.antt =====
-- The two nodes that `nodeSplit2` of btree.go makes.
use mini_database_v.Base.{
  ◌≡◌, refl, ap, ℕ, suc, ◌-◌, ◌/◌, ◌≤◌, ◌<◌, lt→ltb, some, take, drop, arith, length-take,
  length-drop,
}
use mini_database_v.Btree.Node.{Node, page_size, set_header, assert_page}
use mini_database_v.Btree.Node.Build.{total, IsBuilt, node_append_range_lem, take-drop_rest}
use mini_database_v.Btree.Split.{split_loop, node_split2}
use mini_database_v.Btree.Split.Point.{packed, nbytes-packed, le→leb}

abbrev pub left_part : ℕ → Node → ℕ → Node
left_part room old p = record { room = room; btype = old.btype; nkeys = p; kvs = take p old.kvs }

abbrev pub right_part : ℕ → Node → ℕ → Node
right_part room old p = record {
  room = room;
  btype = old.btype;
  nkeys = old.nkeys - p;
  kvs = drop p old.kvs;
}

module _ (old : Node) (b : IsBuilt old) where
  pub left_part-IsBuilt : (room p : ℕ) → p ≤ old.nkeys → IsBuilt (left_part room old p)
  left_part-IsBuilt room p h = omega (arith, length-take p old.kvs (omega arith))

  pub right_part-IsBuilt : (room p : ℕ) → IsBuilt (right_part room old p)
  right_part-IsBuilt room p = omega (arith, length-drop p old.kvs)

  module _ (w : packed old.kvs < 65536) (room_left room_right : ℕ)
      (enough : page_size ≤ room_right) where
    pub node_split2_lem :
        (p : ℕ)
        → 2 ≤ old.nkeys
        → split_loop (suc old.nkeys) old (old.nkeys / 2) ≡ some p
        → p < old.nkeys
        → packed (drop p old.kvs) ≤ page_size
        → packed (take p old.kvs) ≤ room_left
        → node_split2 room_left room_right old
          ≡ some (left_part room_left old p, right_part room_right old p)
    unfolding node_split2 assert_page
    node_split2_lem p two found inside fit fits =
        let ll = length-take p old.kvs (omega arith) in
        let lr = length-drop p old.kvs in
        let rest = take-drop_rest old.kvs p (old.nkeys - p) (omega arith) in
        let size = nbytes-packed (right_part room_right old p) (right_part-IsBuilt room_right p) in
        rw
          (
            le→leb 2 old.nkeys two,
            found,
            lt→ltb p old.nkeys inside,
            node_append_range_lem p old 0 0 (set_header room_left old.btype p) b refl (omega arith)
                (omega arith) (omega (arith, ll)),
            node_append_range_lem (old.nkeys - p) old 0 p
                (set_header room_right old.btype (old.nkeys - p)) b refl (omega arith) (omega arith)
                (omega (arith, lr, ap total rest)),
            rest,
          )
          (ground (arith, size))
