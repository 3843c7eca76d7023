-- ===== src/Btree/Tree/Remove.antt =====
-- `Delete` of the B+tree of btree.go.
use mini_database_v.Base.{
  ℕ, zero, suc, ◌+◌, ◌-◌, ◌/◌, ltb, leb, ◌==◌, ◌&&◌, Bool, true, false, if◌then◌else◌, Option, none,
  some, [], ◌∷◌, ◌>>=◌, ◌>>◌, assert,
}
use mini_database_v.Base.Bytes.{Bytes, eq_bytes}
use mini_database_v.Btree.Limit.{check_limit}
use mini_database_v.Btree.Ops.{Outcome, done, failed}
use mini_database_v.Btree.Node.{
  Node, page_size, bnode_node, set_header, sub16, nbytes, get_kv, leaf_delete, node_merge,
  node_replace_2_kids,
}
use mini_database_v.Btree.Pages.{PageOps}
use mini_database_v.Btree.Search.{node_lookup_le}
use mini_database_v.Btree.Tree.{BTree, by_type, node_replace_kid_n}

-- Which sibling an updated kid is merged with: -1, 1 and 0 of the code.
pub data Merge : Type 0 where
  left right : Node → Merge
  neither : Merge

-- `mergedSize <= BTREE_PAGE_SIZE`
abbrev pub merge_fits : Node → Node → Bool
unfolding nbytes
merge_fits sibling updated = leb (sub16 (nbytes sibling + nbytes updated) 4) page_size

-- The case of a leaf in `treeDelete`: the new leaf and the deleted value.
unfoldable pub delete_leaf : Bytes → Node → ℕ → Option (Option Node × Bytes)
delete_leaf key node idx = do
  e ← get_kv node idx
  if eq_bytes key e.key
      then (leaf_delete page_size node idx >>= λ new. some (some new, e.val))
      else some (none, [])

module _ (ops : PageOps) where
  open ops use {Pages, read, alloc, dealloc}

  try_right : Node → ℕ → Node → Pages → Option Merge
  unfolding get_kv
  try_right node idx updated s =
      if ltb idx (sub16 node.nkeys 1)
      then (get_kv node (idx + 1) >>= λ e. read s e.ptr >>= λ sibling.
          some (if merge_fits sibling updated then right sibling else neither))
      else some neither

  unfoldable pub should_merge : Node → ℕ → Node → Pages → Option Merge
  unfolding get_kv nbytes try_right
  should_merge node idx updated s =
      if ltb (page_size / 4) (nbytes updated)
      then some neither
      else if ltb 0 idx
      then (get_kv node (idx - 1) >>= λ e. read s e.ptr >>= λ sibling.
          if merge_fits sibling updated then some (left sibling) else try_right node idx updated s)
      else try_right node idx updated s

  -- The node with one kid in place of two, at the index.
  join_kids : Node → ℕ → Node → Pages → Option (Node × Pages)
  unfolding get_kv node_replace_2_kids
  join_kids node idx merged s = do
    let page = alloc merged s
    first ← get_kv merged 0
    new ← node_replace_2_kids page_size node idx page.0 first.key
    some (new, page.1)

  -- The cases of the `switch` in `nodeDelete`.
  unfoldable pub after_merge : Node → ℕ → Node → Merge → Pages → Option (Node × Pages)
  unfolding get_kv join_kids node_merge node_replace_kid_n
  after_merge node idx updated (left sibling) s = do
    merged ← node_merge page_size sibling updated
    e ← get_kv node (idx - 1)
    join_kids node (idx - 1) merged (dealloc e.ptr s)
  after_merge node idx updated (right sibling) s = do
    merged ← node_merge page_size updated sibling
    e ← get_kv node (idx + 1)
    join_kids node idx merged (dealloc e.ptr s)
  after_merge node idx updated neither s =
      if updated.nkeys == 0
      then (assert (node.nkeys == 1 && idx == 0) >> some (set_header page_size bnode_node 0, s))
      else node_replace_kid_n ops page_size node idx (updated ∷ []) s

  -- The deletion from a kid comes first.
  unfoldable pub node_delete :
      (Node → Pages → Option (Option Node × Bytes × Pages))
      → Node
      → ℕ
      → Pages
      → Option (Option Node × Bytes × Pages)
  unfolding get_kv should_merge after_merge
  node_delete delete_kid node idx s = do
    e ← get_kv node idx
    kid ← read s e.ptr
    result ← delete_kid kid s
    elim result.0 [
      | none ↦ some (none, result.1, result.2)
      | some updated ↦
          let freed = dealloc e.ptr result.2 in
          should_merge node idx updated freed >>= λ merge.
          after_merge node idx updated merge freed >>= λ made. some (some made.0, result.1, made.1)
    ]

  -- The levels left come first.
  unfoldable pub tree_delete : ℕ → Bytes → Node → Pages → Option (Option Node × Bytes × Pages)
  tree_delete zero key node s = none
  tree_delete (suc levels) key node s = do
    idx ← node_lookup_le node key
    by_type node (delete_leaf key node idx >>= λ r. some (r.0, r.1, s))
        (node_delete (tree_delete levels key) node idx s)

  -- A root with one kid gives way to the kid.
  unfoldable pub shrink : Node → Pages → Option (BTree Pages)
  unfolding get_kv
  shrink updated s =
      if updated.btype == bnode_node && updated.nkeys == 1
      then (get_kv updated 0 >>= λ e. some (record { root = e.ptr; pages = s }))
      else let page = alloc updated s in some (record { root = page.0; pages = page.1 })

  delete_root : ℕ → Bytes → BTree Pages → Option (Bool × Bytes × BTree Pages)
  unfolding tree_delete shrink
  delete_root levels key tree = do
    node ← read tree.pages tree.root
    result ← tree_delete levels key node tree.pages
    elim result.0 [
      | none ↦ some (false, result.1, record tree { pages = result.2 })
      | some updated ↦
          shrink updated (dealloc tree.root result.2) >>= λ shrunk. some (true, result.1, shrunk)
    ]

  unfoldable pub delete_tree :
      ℕ → Bytes → BTree Pages → Option (Outcome (Bool × Bytes × BTree Pages))
  unfolding delete_root
  delete_tree levels key tree = elim (check_limit key []) [
    | some e ↦ some (failed e)
    | none ↦
        if tree.root == 0
        then some (done (false, [], tree))
        else (delete_root levels key tree >>= λ r. some (done r))
  ]
