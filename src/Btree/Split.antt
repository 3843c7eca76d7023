-- ===== src/Btree/Split.antt =====
-- `nodeSplit2` and `nodeSplit3` of btree.go.
pub mod Point
pub mod Halves
pub mod Pieces
pub mod Total
pub mod Fails
use mini_database_v.Base.{
  ℕ, zero, suc, ◌+◌, ◌-◌, ◌*◌, ◌/◌, ltb, leb, true, false, assert, if◌then◌else◌, Option, none,
  some, List, [], ◌∷◌, ◌>>=◌, ◌>>◌,
}
use mini_database_v.Btree.Node.{
  Node, page_size, set_header, sub16, offset, nbytes, node_append_range, assert_page,
}

-- the functions `left_bytes` and `right_bytes`
unfoldable pub left_bytes : Node → ℕ → ℕ
unfolding offset
left_bytes old nleft = 4 + 8 * nleft + 2 * nleft + offset old.kvs nleft

unfoldable pub right_bytes : Node → ℕ → ℕ
unfolding left_bytes nbytes
right_bytes old nleft = sub16 (nbytes old) (left_bytes old nleft) + 4

-- `for right_bytes() > BTREE_PAGE_SIZE`: the rounds left come first, and `getOffset` asserts that
-- the index is not past the end.
unfoldable pub split_loop : ℕ → Node → ℕ → Option ℕ
unfolding right_bytes
split_loop zero old nleft = none
split_loop (suc fuel) old nleft = do
  assert (leb nleft old.nkeys)
  elim (ltb page_size (right_bytes old nleft)) [
    | true ↦ split_loop fuel old (suc nleft)
    | false ↦ some nleft
  ]

-- The lengths of the two buffers come first.
unfoldable pub node_split2 : ℕ → ℕ → Node → Option (Node × Node)
unfolding split_loop node_append_range assert_page
node_split2 room_left room_right old = do
  assert (leb 2 old.nkeys)
  nleft ← split_loop (suc old.nkeys) old (old.nkeys / 2)
  assert (ltb nleft old.nkeys)
  let nright = old.nkeys - nleft
  left ← node_append_range nleft old 0 0 (set_header room_left old.btype nleft)
  right ← node_append_range nright old 0 nleft (set_header room_right old.btype nright)
  fitting ← assert_page right
  some (left, fitting)

-- The result is the nodes in use of the array.
unfoldable pub node_split3 : Node → Option (List Node)
unfolding node_split2 nbytes
node_split3 old =
    if leb (nbytes old) page_size
    then some (record old { room = page_size } ∷ [])
    else node_split2 (2 * page_size) page_size old >>= λ halves.
        if leb (nbytes halves.0) page_size
        then some (record halves.0 { room = page_size } ∷ halves.1 ∷ [])
        else node_split2 page_size page_size halves.0 >>= λ parts.
            if leb (nbytes parts.0) page_size
            then some (parts.0 ∷ parts.1 ∷ halves.1 ∷ [])
            else none
