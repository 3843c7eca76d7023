-- ===== src/Kv/State.antt =====
-- The store of kv.go: what the root pointer, the pages, the free list and the transactions share.
use mini_database_v.Base.{ℕ, Bool, List}
use mini_database_v.Kv.Free.{Pager}
use mini_database_v.Tx.Ranges.{CommittedTx}

-- The tree is its root pointer next to the pages, and an ordered map for the transactions.
pub record Kv (T : Type 0) : Type 0 where
  pub tree : T
  pub pager : Pager
  pub open pager use *
  pub failed : Bool
  pub version : ℕ
  pub ongoing : List ℕ
  pub history : List CommittedTx

-- `db` with the persisted numbers of `saved`.
abbrev pub with_meta : {T : Type 0} → Kv T → Kv T → Kv T
with_meta db saved = record db {
  tree = saved.tree;
  pager = record {
    free = record db.free {
      head_page = saved.free.head_page;
      head_seq = saved.free.head_seq;
      tail_page = saved.free.tail_page;
      tail_seq = saved.free.tail_seq;
    };
    pages = record db.pages { flushed = saved.pages.flushed };
  };
  version = saved.version;
}
