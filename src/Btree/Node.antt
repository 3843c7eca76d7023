-- ===== src/Btree/Node.antt =====
-- The nodes of btree.go as their header and their KVs, and the functions that build a node from
-- the parts of another. Panics, such as a failed assertion, are `none`.
pub mod Build
pub mod Parts
use mini_database_v.Base.{
  ℕ, zero, suc, ◌+◌, ◌-◌, ◌*◌, ◌%◌, ltb, leb, ◌==◌, ◌&&◌, if◌then◌else◌, Option, none, some, List,
  [], ◌∷◌, ◌++◌, length, get_elem?, ◌>>=◌, Bool,
}
use mini_database_v.Base.Bytes.{Bytes}
pub use mini_database_v.Kv.Pages.{page_size}

-- BNODE_NODE and BNODE_LEAF
abbrev pub bnode_node : ℕ
bnode_node = 1

abbrev pub bnode_leaf : ℕ
bnode_leaf = 2

-- the difference of two `uint16`
abbrev pub sub16 : ℕ → ℕ → ℕ
sub16 a b = (a + 65536 - b) % 65536

-- A pointer with its KV.
pub record Entry : Type 0 where
  pub ptr : ℕ
  pub key : Bytes
  pub val : Bytes

abbrev pub kv_size : Entry → ℕ
kv_size e = 4 + length e.key + length e.val

-- A `BNode`: the length of its buffer, its header, and the KVs appended so far.
pub record Node : Type 0 where
  pub room : ℕ
  pub btype : ℕ
  pub nkeys : ℕ
  pub kvs : List Entry

-- `getOffset`: the sizes of the KVs before the index, as `nodeAppendKV` adds them up.
unfoldable pub offset : List Entry → ℕ → ℕ
offset kvs zero = 0
offset [] (suc i) = 0
offset (e ∷ kvs) (suc i) = kv_size e + offset kvs i

unfoldable pub kv_pos : Node → ℕ → ℕ
kv_pos node idx = 4 + 8 * node.nkeys + 2 * node.nkeys + offset node.kvs idx

unfoldable pub nbytes : Node → ℕ
unfolding kv_pos
nbytes node = kv_pos node node.nkeys

-- `make([]byte, room)` with `setHeader`
abbrev pub set_header : ℕ → ℕ → ℕ → Node
set_header room btype nkeys = record { room = room; btype = btype; nkeys = nkeys; kvs = [] }

-- `getPtr`, `getKey` and `getVal` assert that the index is below `nkeys`.
unfoldable pub get_kv : Node → ℕ → Option Entry
get_kv node idx = if ltb idx node.nkeys then get_elem? node.kvs idx else none

-- Keys are added in order: a call out of order is `none`. So is a KV that does not fit the buffer, where
-- the code writes its front and cuts the rest (`copy`), or panics where its length or the next offset
-- does not fit; the callers' assertions on `nbytes` refuse such a node afterwards.
unfoldable pub node_append_kv : Node → ℕ → Entry → Option Node
unfolding kv_pos
node_append_kv new idx e =
    if ltb idx new.nkeys && idx == length new.kvs && leb (kv_pos new idx + kv_size e) new.room
    then some (record new { kvs = new.kvs ++ e ∷ [] })
    else none

-- The rounds left come first.
unfoldable pub node_append_range : ℕ → Node → ℕ → ℕ → Node → Option Node
unfolding get_kv node_append_kv
node_append_range zero old dst src new = some new
node_append_range (suc n) old dst src new = do
  e ← get_kv old src
  next ← node_append_kv new dst e
  node_append_range n old (suc dst) (suc src) next

abbrev pub leaf_entry : Bytes → Bytes → Entry
leaf_entry key val = record { ptr = 0; key = key; val = val }

unfoldable pub leaf_insert : ℕ → Node → ℕ → Bytes → Bytes → Option Node
unfolding node_append_kv node_append_range
leaf_insert room old idx key val = do
  let new = set_header room bnode_leaf (old.nkeys + 1)
  front ← node_append_range idx old 0 0 new
  added ← node_append_kv front idx (leaf_entry key val)
  node_append_range (sub16 old.nkeys idx) old (idx + 1) idx added

unfoldable pub leaf_update : ℕ → Node → ℕ → Bytes → Bytes → Option Node
unfolding node_append_kv node_append_range
leaf_update room old idx key val = do
  let new = set_header room bnode_leaf old.nkeys
  front ← node_append_range idx old 0 0 new
  changed ← node_append_kv front idx (leaf_entry key val)
  node_append_range (sub16 old.nkeys (idx + 1)) old (idx + 1) (idx + 1) changed

unfoldable pub leaf_delete : ℕ → Node → ℕ → Option Node
unfolding node_append_range
leaf_delete room old idx = do
  let new = set_header room bnode_leaf (sub16 old.nkeys 1)
  front ← node_append_range idx old 0 0 new
  node_append_range (sub16 old.nkeys (idx + 1)) old idx (idx + 1) front

-- `assert(new.nbytes() <= BTREE_PAGE_SIZE)`
unfoldable pub assert_page : Node → Option Node
unfolding nbytes
assert_page new = if leb (nbytes new) page_size then some new else none

unfoldable pub node_merge : ℕ → Node → Node → Option Node
unfolding node_append_range assert_page
node_merge room left right = do
  let new = set_header room left.btype (left.nkeys + right.nkeys)
  first ← node_append_range left.nkeys left 0 0 new
  both ← node_append_range right.nkeys right left.nkeys 0 first
  assert_page both

unfoldable pub node_replace_2_kids : ℕ → Node → ℕ → ℕ → Bytes → Option Node
unfolding node_append_kv node_append_range
node_replace_2_kids room old idx ptr key = do
  let new = set_header room bnode_node (sub16 old.nkeys 1)
  front ← node_append_range idx old 0 0 new
  merged ← node_append_kv front idx (record { ptr = ptr; key = key; val = [] })
  node_append_range (sub16 old.nkeys (idx + 2)) old (idx + 1) (idx + 2) merged
