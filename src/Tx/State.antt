-- ===== src/Tx/State.antt =====
-- The transaction of transaction.go, over the type of the trees of the file. The pending updates are
-- in a tree of its own, in memory.
use mini_database_v.Base.{ℕ, Bool, List, []}
use mini_database_v.Btree.Node.{Node}
use mini_database_v.Btree.Tree.{BTree}
use mini_database_v.Tx.Ranges.{KeyRange}

abbrev pub Pending : Type 0
Pending = BTree (List Node)

abbrev pub no_pending : Pending
no_pending = record { root = 0; pages = [] }

pub record Kvtx (T : Type 0) : Type 0 where
  pub snapshot : T
  pub version : ℕ
  pub pending : Pending
  pub reads : List KeyRange
  pub update_attempted : Bool
  pub done : Bool
