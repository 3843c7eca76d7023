-- ===== src/Btree/Tree.antt =====
-- The B+tree of btree.go over its pages: `Get`, `Update` and the parts that `Delete` shares.
pub mod Remove
pub mod Holds
pub mod Found
pub mod Leaf
use mini_database_v.Base.{
  ℕ, zero, suc, ◌+◌, ◌-◌, ◌*◌, ltb, leb, ◌==◌, Bool, true, false, not, if◌then◌else◌, Option, none,
  some, List, [], ◌∷◌, length, ◌>>=◌,
}
use mini_database_v.Base.Bytes.{Bytes, eq_bytes}
use mini_database_v.Btree.Limit.{LimitError, check_limit}
use mini_database_v.Btree.Ops.{Mode, Outcome, done, failed}
use mini_database_v.Btree.Node.{
  Entry, Node, page_size, bnode_node, bnode_leaf, set_header, sub16, get_kv, node_append_kv,
  node_append_range, leaf_insert, leaf_update,
}
use mini_database_v.Btree.Pages.{PageOps}
use mini_database_v.Btree.Search.{node_lookup_le}
use mini_database_v.Btree.Split.{node_split3}

-- The fields of `UpdateReq` that the caller sets, and those that the update sets.
pub record UpdateReq : Type 0 where
  pub key : Bytes
  pub val : Bytes
  pub mode : Mode

pub record Reply : Type 0 where
  pub added : Bool
  pub updated : Bool
  pub old : Bytes

abbrev pub unchanged : Reply
unchanged = record { added = false; updated = false; old = [] }

abbrev pub insert_only : Mode → Bool
insert_only Mode.insert_only = true
insert_only Mode.upsert = false
insert_only Mode.update_only = false

abbrev pub update_only : Mode → Bool
update_only Mode.update_only = true
update_only Mode.upsert = false
update_only Mode.insert_only = false

-- The case of a leaf in `treeUpdate`; no node stands for the empty node.
unfoldable pub update_leaf : UpdateReq → Node → ℕ → Option (Option Node × Reply)
update_leaf req node idx = do
  e ← get_kv node idx
  if eq_bytes req.key e.key
      then (if insert_only req.mode
          then some (none, unchanged)
          else if eq_bytes req.val e.val
          then some (none, unchanged)
          else leaf_update (2 * page_size) node idx req.key req.val >>= λ new.
              some (some new, record { added = false; updated = true; old = e.val }))
      else if update_only req.mode
      then some (none, unchanged)
      else leaf_insert (2 * page_size) node (idx + 1) req.key req.val >>= λ new.
          some (some new, record { added = true; updated = true; old = [] })

-- The `switch` on the type of a node.
abbrev pub by_type {ℓ} : {A : Type ℓ} → Node → Option A → Option A → Option A
by_type node leaf internal = elim (node.btype == bnode_leaf) [
  | true ↦ leaf
  | false ↦ elim (node.btype == bnode_node) [ true ↦ internal | false ↦ none ]
]

-- The root and the pages; the root 0 is the empty tree.
pub record BTree (Pages : Type 0) : Type 0 where
  pub root : ℕ
  pub pages : Pages

module _ (ops : PageOps) where
  open ops use {Pages, read, alloc, dealloc}

  -- The kids are written to new pages, and the node points to them from the index on.
  unfoldable pub append_kids : List Node → ℕ → Node → Pages → Option (Node × Pages)
  unfolding get_kv node_append_kv
  append_kids [] i new s = some (new, s)
  append_kids (kid ∷ kids) i new s = do
    let page = alloc kid s
    first ← get_kv kid 0
    next ← node_append_kv new i (record { ptr = page.0; key = first.key; val = [] })
    append_kids kids (suc i) next page.1

  unfoldable pub node_replace_kid_n : ℕ → Node → ℕ → List Node → Pages → Option (Node × Pages)
  unfolding append_kids node_append_range
  node_replace_kid_n room old idx kids s = do
    let new = set_header room bnode_node (old.nkeys + sub16 (length kids) 1)
    front ← node_append_range idx old 0 0 new
    added ← append_kids kids idx front s
    whole ← node_append_range (sub16 old.nkeys (idx + 1)) old (idx + length kids) (idx + 1) added.0
    some (whole, added.1)

  -- The update of a kid comes first.
  unfoldable pub node_update :
      (Node → Pages → Option (Option Node × Reply × Pages))
      → Node
      → ℕ
      → Pages
      → Option (Option Node × Reply × Pages)
  node_update update_kid node idx s = do
    e ← get_kv node idx
    kid ← read s e.ptr
    result ← update_kid kid s
    elim result.0 [
      | none ↦ some (none, result.1, result.2)
      | some updated ↦ node_split3 updated >>= λ split.
          node_replace_kid_n (2 * page_size) node idx split (dealloc e.ptr result.2) >>= λ made.
          some (some made.0, result.1, made.1)
    ]

  -- The levels left come first.
  unfoldable pub tree_update : ℕ → UpdateReq → Node → Pages → Option (Option Node × Reply × Pages)
  tree_update zero req node s = none
  tree_update (suc levels) req node s = do
    idx ← node_lookup_le node req.key
    by_type node (update_leaf req node idx >>= λ r. some (r.0, r.1, s))
        (node_update (tree_update levels req) node idx s)

  unfoldable pub node_get_key : ℕ → Node → Bytes → Pages → Option (Option Bytes)
  unfolding node_lookup_le get_kv
  node_get_key zero node key s = none
  node_get_key (suc levels) node key s = do
    idx ← node_lookup_le node key
    by_type node (get_kv node idx >>= λ e. some (if eq_bytes key e.key then some e.val else none))
        (get_kv node idx >>= λ e. read s e.ptr >>= λ kid. node_get_key levels kid key s)

  -- `Get`
  unfoldable pub tree_get : ℕ → BTree Pages → Bytes → Option (Option Bytes)
  unfolding node_get_key
  tree_get levels tree key =
      if tree.root == 0
      then some none
      else read tree.pages tree.root >>= λ node. node_get_key levels node key tree.pages

  -- `Update`: the root that two KVs start, the second after the sentinel.
  unfoldable pub first_root : UpdateReq → Option Node
  unfolding node_append_kv
  first_root req = do
    sentinel ←
        node_append_kv (set_header page_size bnode_leaf 2) 0
          (record { ptr = 0; key = []; val = [] })
    node_append_kv sentinel 1 (record { ptr = 0; key = req.key; val = req.val })

  abbrev pub new_tree : Node → Pages → Bool × Reply × BTree Pages
  new_tree node s =
      let page = alloc node s in
      (
        true,
        record { added = true; updated = true; old = [] },
        record { root = page.0; pages = page.1 },
      )

  -- A root that was split gets a level above it.
  unfoldable pub grow : List Node → Pages → Option (BTree Pages)
  unfolding append_kids
  grow [] s = none
  grow (node ∷ []) s = let page = alloc node s in some (record { root = page.0; pages = page.1 })
  grow (node ∷ second ∷ rest) s =
      append_kids (node ∷ second ∷ rest) 0
        (set_header page_size bnode_node (length (node ∷ second ∷ rest))) s
      >>= λ made. let page = alloc made.0 made.1 in some (record { root = page.0; pages = page.1 })

  unfoldable pub update_root : ℕ → UpdateReq → BTree Pages → Option (Bool × Reply × BTree Pages)
  unfolding tree_update grow node_split3
  update_root levels req tree = do
    node ← read tree.pages tree.root
    result ← tree_update levels req node tree.pages
    elim result.0 [
      | none ↦ some (false, result.1, record tree { pages = result.2 })
      | some updated ↦ node_split3 updated >>= λ split.
          grow split (dealloc tree.root result.2) >>= λ grown. some (true, result.1, grown)
    ]

  unfoldable pub update_tree :
      ℕ → UpdateReq → BTree Pages → Option (Outcome (Bool × Reply × BTree Pages))
  unfolding update_root first_root
  update_tree levels req tree = elim (check_limit req.key req.val) [
    | some e ↦ some (failed e)
    | none ↦
        if tree.root == 0
        then (first_root req >>= λ node. some (done (new_tree node tree.pages)))
        else update_root levels req tree >>= λ r. some (done r)
  ]
