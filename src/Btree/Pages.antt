-- ===== src/Btree/Pages.antt =====
-- The callbacks of `BTree` in btree.go: reading, allocating and deallocating pages of nodes.
pub mod Memory
pub mod Grown
pub mod Kept
use mini_database_v.Base.{◌≡◌, ℕ, ◌<◌, Option, some}
use mini_database_v.Btree.Node.{Node, page_size}

-- `get`, `new` and `del`. A page that the tree refers to is live. A page that was deallocated can
-- be read until the next transaction, and it is not allocated before.
pub record PageOps : Type 1 where
  pub Pages : Type 0
  pub read : Pages → ℕ → Option Node
  pub alloc : Node → Pages → ℕ × Pages
  pub dealloc : ℕ → Pages → Pages
  pub Live : Pages → ℕ → Type 0
  pub alloc_pos : (n : Node) (s : Pages) → 0 < (alloc n s).0
  pub alloc-Live : (n : Node) (s : Pages) → Live (alloc n s).1 (alloc n s).0
  pub read-alloc :
      (n : Node) (s : Pages) → n.room ≡ page_size → read (alloc n s).1 (alloc n s).0 ≡ some n
  pub alloc-keeps :
      (n : Node) (s : Pages) (p : ℕ)
      → Live s p
      → Live (alloc n s).1 p × (read (alloc n s).1 p ≡ read s p)
  pub dealloc-keeps :
      (q : ℕ) (s : Pages) (p : ℕ)
      → Live s p
      → Live (dealloc q s) p × (read (dealloc q s) p ≡ read s p)
