-- ===== src/Btree/Search.antt =====
-- `nodeLookupLE` of btree.go.
pub mod Found
use mini_database_v.Base.{
  ℕ, zero, suc, ◌+◌, ◌-◌, ◌/◌, ◌%◌, ltb, true, false, Option, none, some, ◌>>=◌, Ordering,
}
use mini_database_v.Base.Bytes.{Bytes, compare_bytes}
use mini_database_v.Btree.Node.{Node, get_kv}

-- `right` of the code is one less, and may be -1. The rounds left come first.
unfoldable pub lookup_loop : ℕ → Node → Bytes → ℕ → ℕ → Option ℕ
unfolding get_kv
lookup_loop zero node key left right = none
lookup_loop (suc fuel) node key left right =
    let mid = (left + right - 1) / 2 in
    elim (ltb left right) [
      | true ↦ get_kv node mid >>= λ e. elim (compare_bytes e.key key) [
        | Ordering.eq ↦ some mid
        | Ordering.gt ↦ lookup_loop fuel node key left mid
        | Ordering.lt ↦ lookup_loop fuel node key (mid + 1) right
      ]
      | false ↦ some ((right + 65535) % 65536)
    ]

-- Each round leaves a smaller range of the keys.
unfoldable pub node_lookup_le : Node → Bytes → Option ℕ
unfolding lookup_loop
node_lookup_le node key = lookup_loop (suc node.nkeys) node key 0 node.nkeys
