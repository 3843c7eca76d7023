-- ===== src/Examples/Nodes.antt =====
-- Nodes and trees of btree.go at concrete inputs.
use mini_database_v.Base.{
  ◌≡◌, true, refl, ℕ, zero, suc, ◌*◌, none, some, List, [], ◌∷◌, ◌++◌, arith, inr,
}
use mini_database_v.Base.Bytes.{Bytes}
use mini_database_v.Btree.Ops.{Mode, KeysSorted}
use mini_database_v.Btree.Sorted.{Entries}
use mini_database_v.Btree.Node.{Entry, Node, get_kv, page_size, bnode_leaf, bnode_node}
use mini_database_v.Btree.Pages.Memory.{memory}
use mini_database_v.Btree.Iter.{BIter, iter_valid}
use mini_database_v.Btree.Iter.Last.{next_times, next_never_ends}
use mini_database_v.Btree.Search.{node_lookup_le}
use mini_database_v.Btree.Search.Found.{node_lookup_le_lem}
use mini_database_v.Btree.Split.{node_split3}
use mini_database_v.Btree.Split.Fails.{node_split3-none}
use mini_database_v.Btree.Split.Pieces.{IsSplit}
use mini_database_v.Btree.Split.Total.{node_split3_lem}
use mini_database_v.Btree.Tree.{BTree, UpdateReq, tree_get}
use mini_database_v.Btree.Tree.Holds.{pairs, IsNode, Kids, Holds}
use mini_database_v.Btree.Tree.Found.{IsTree, tree_get_lem}
use mini_database_v.Btree.Tree.Leaf.Update.{tree_update_lem, Updates}
use mini_database_v.Btree.Tree.Leaf.Delete.{tree_delete_lem, Deletes}

abbrev kv : Bytes → Bytes → Entry
kv key val = record { ptr = 0; key = key; val = val }

abbrev small_leaf : Node
small_leaf = record {
  room = page_size;
  btype = bnode_leaf;
  nkeys = 3;
  kvs = kv [] [] ∷ kv (5 ∷ []) (50 ∷ []) ∷ kv (7 ∷ 1 ∷ []) (70 ∷ []) ∷ [];
}

small_leaf-IsNode : IsNode bnode_leaf small_leaf
small_leaf-IsNode = (refl, refl, omega arith, ((refl, (refl, tt)), ((refl, tt), (tt, tt))))

node_lookup_le_example : node_lookup_le small_leaf (6 ∷ []) ≡ some 1
node_lookup_le_example =
    node_lookup_le_lem (6 ∷ []) small_leaf refl ((refl, (refl, tt)), ((refl, tt), (tt, tt)))
      (omega arith)

abbrev request : UpdateReq
request = record { key = 6 ∷ []; val = 9 ∷ []; mode = Mode.upsert }

tree_update_example :
    (new : Node) × Updates memory 0 request small_leaf (small_leaf ∷ []) small_leaf-IsNode refl new
tree_update_example =
    (tree_update_lem memory 0 request small_leaf (small_leaf ∷ []) small_leaf-IsNode refl
        (omega arith)).1
      refl

tree_delete_example :
    (new : Node) × Deletes memory 0
      (5 ∷ [])
      small_leaf
      (small_leaf ∷ [])
      small_leaf-IsNode
      refl
      (50 ∷ [])
      new
tree_delete_example =
    (tree_delete_lem memory 0 (5 ∷ []) small_leaf (small_leaf ∷ []) small_leaf-IsNode refl
        (omega arith)).1
      (50 ∷ []) refl

-- Two leaves under a root.
abbrev second_leaf : Node
second_leaf = record {
  room = page_size;
  btype = bnode_leaf;
  nkeys = 2;
  kvs = kv (8 ∷ []) (80 ∷ []) ∷ kv (9 ∷ []) (90 ∷ []) ∷ [];
}

abbrev parent : Node
parent = record {
  room = page_size;
  btype = bnode_node;
  nkeys = 2;
  kvs = record { ptr = 1; key = []; val = [] } ∷ record { ptr = 2; key = 8 ∷ []; val = [] } ∷ [];
}

abbrev pub two_levels : BTree (List Node)
two_levels = record { root = 3; pages = small_leaf ∷ second_leaf ∷ parent ∷ [] }

abbrev pub both_leaves : Entries
both_leaves = pairs small_leaf.kvs ++ pairs second_leaf.kvs

both_leaves-KeysSorted : KeysSorted both_leaves
both_leaves-KeysSorted = (
  (refl, (refl, (refl, (refl, tt)))),
  ((refl, (refl, (refl, tt))), ((refl, (refl, tt)), ((refl, tt), (tt, tt)))),
)

second_leaf-IsNode : IsNode bnode_leaf second_leaf
second_leaf-IsNode = (refl, refl, omega arith, ((refl, tt), (tt, tt)))

parent-IsNode : IsNode bnode_node parent
parent-IsNode = (refl, refl, omega arith, ((refl, tt), (tt, tt)))

second_kid :
    Kids memory two_levels.pages
      (Holds memory two_levels.pages 0)
      (record { ptr = 2; key = 8 ∷ []; val = [] } ∷ [])
      (pairs second_leaf.kvs)
second_kid =
    (second_leaf, pairs second_leaf.kvs, [], refl, (second_leaf-IsNode, refl), refl, refl, refl)

two_levels-Holds : Holds memory two_levels.pages 1 parent both_leaves
two_levels-Holds = (
  parent-IsNode,
  (
    small_leaf,
    pairs small_leaf.kvs,
    pairs second_leaf.kvs,
    refl,
    (small_leaf-IsNode, refl),
    refl,
    refl,
    second_kid,
  ),
)

pub two_levels-IsTree : IsTree memory 1 two_levels both_leaves
two_levels-IsTree = inr (parent, omega arith, refl, two_levels-Holds, both_leaves-KeysSorted, refl)

tree_get_example : tree_get memory 2 two_levels (9 ∷ []) ≡ some (some (90 ∷ []))
tree_get_example =
    tree_get_lem memory 2 1 two_levels both_leaves (9 ∷ []) two_levels-IsTree (omega arith)

-- A tree of one leaf: the sentinel and a key.
abbrev pub leaf_of : Bytes → Bytes → BTree (List Node)
leaf_of key val = record {
  root = 1;
  pages =
      record { room = page_size; btype = bnode_leaf; nkeys = 2; kvs = kv [] [] ∷ kv key val ∷ [] }
      ∷ [];
}

pub leaf_of-IsTree :
    IsTree memory 0 (leaf_of (9 ∷ []) (2 ∷ 7 ∷ [])) (([], []) ∷ (9 ∷ [], 2 ∷ 7 ∷ []) ∷ [])
leaf_of-IsTree = inr (
  record {
    room = page_size;
    btype = bnode_leaf;
    nkeys = 2;
    kvs = kv [] [] ∷ kv (9 ∷ []) (2 ∷ 7 ∷ []) ∷ [];
  },
  omega arith,
  refl,
  ((refl, refl, omega arith, ((refl, tt), (tt, tt))), refl),
  ((refl, tt), (tt, tt)),
  refl,
)

-- Bytes of one value, as many as the number says.
abbrev repeat : ℕ → Bytes
repeat zero = []
repeat (suc n) = 1 ∷ repeat n

-- A leaf that takes two pages.
abbrev big_leaf : Node
big_leaf = record {
  room = 2 * page_size;
  btype = bnode_leaf;
  nkeys = 4;
  kvs =
      kv [] []
      ∷ kv (1 ∷ []) (repeat 1500)
      ∷ kv (2 ∷ []) (repeat 1500)
      ∷ kv (3 ∷ []) (repeat 1500)
      ∷ [];
}

node_split3_example : (parts : List Node) × IsSplit big_leaf parts
node_split3_example =
    node_split3_lem 1600 (omega arith) big_leaf refl (omega arith) (omega arith) (omega arith)
      (omega arith)

-- A leaf of a page, after the insertion of a value of 3000 bytes behind its second key.
abbrev uneven_leaf : Node
uneven_leaf = record {
  room = 2 * page_size;
  btype = bnode_leaf;
  nkeys = 6;
  kvs =
      kv (1 ∷ []) (repeat 1100)
      ∷ kv (2 ∷ []) (repeat 3000)
      ∷ kv (3 ∷ []) (repeat 1100)
      ∷ kv (4 ∷ []) (repeat 300)
      ∷ kv (5 ∷ []) (repeat 300)
      ∷ kv (6 ∷ []) (repeat 300)
      ∷ [];
}

node_split3-none_example : node_split3 uneven_leaf ≡ none
node_split3-none_example =
    node_split3-none uneven_leaf refl (omega arith) (omega arith) (omega arith) (omega arith) 2
      (omega arith) (omega arith) (inr (omega arith))

-- The last key of a tree of three levels, whose root and middle node have two kids.
abbrev last_iter : BIter
last_iter = record { path = parent ∷ parent ∷ second_leaf ∷ []; pos = 1 ∷ 1 ∷ 1 ∷ [] }

next_never_ends_example :
    (iter : BIter) × (next_times memory (small_leaf ∷ second_leaf ∷ parent ∷ []) 100 last_iter
      ≡ some iter)
    × (iter_valid iter ≡ some true)
unfolding get_kv
next_never_ends_example =
    next_never_ends memory (small_leaf ∷ second_leaf ∷ parent ∷ []) parent parent second_leaf 1 1
      (record { ptr = 2; key = 8 ∷ []; val = [] }) refl refl refl refl 100 1 (omega arith)
      (omega arith)
