-- ===== src/Tx/Ops.antt =====
-- The reads and writes of a transaction: `KVTX` of transaction.go over its two trees.
pub mod Frame
pub mod Reads
pub mod Revert
use mini_database_v.Base.{
  ℕ, ◌≡◌, true, false, not, ◌&&◌, ◌||◌, Bool, List, [], ◌∷◌, ◌++◌, Option, none, some, ◌>>=◌, ◌>>◌,
  assert, ◌==◌, if◌then◌else◌,
}
use mini_database_v.Base.Bytes.{Bytes}
use mini_database_v.Cmp.{Cmp, cmp2dir}
use mini_database_v.Btree.Limit.{LimitError}
use mini_database_v.Btree.Ops.{Mode, Outcome, is_stored, is_some}
use mini_database_v.Tx.Ranges.{KeyRange}
use mini_database_v.Btree.Pages.{PageOps}
use mini_database_v.Btree.Pages.Memory.{memory}
use mini_database_v.Btree.Tree.{BTree, tree_get, update_tree}
use mini_database_v.Tx.State.{Kvtx}

-- FLAG_DELETED and FLAG_UPDATED, the first byte of a pending value
abbrev pub flag_deleted : ℕ
flag_deleted = 1

abbrev pub flag_updated : ℕ
flag_updated = 2

pub data TxError : Type 0 where
  duplicate_key : TxError
  limit : LimitError → TxError

-- The out fields of `UpdateReq`.
pub record Updated : Type 0 where
  pub updated : Bool
  pub added : Bool
  pub old : Option Bytes

pub data TxResult {ℓ} (A : Type ℓ) : Type ℓ where
  ok : A → TxResult A
  err : TxError → TxResult A

abbrev pub unchanged : Updated
unchanged = record { updated = false; added = false; old = none }

-- The value that a pending entry stands for; any other first byte is a panic.
unfoldable pub read_flagged : Bytes → Option (Option Bytes)
read_flagged [] = none
read_flagged (f ∷ v) =
    if f == flag_updated then some (some v) else if f == flag_deleted then some none else none

abbrev pub is_insert_only : Mode → Bool
is_insert_only Mode.upsert = false
is_insert_only Mode.update_only = false
is_insert_only Mode.insert_only = true

abbrev pub is_update_only : Mode → Bool
is_update_only Mode.upsert = false
is_update_only Mode.update_only = true
is_update_only Mode.insert_only = false

-- the dependency range of a point
abbrev pub add_read : {T : Type 0} → Bytes → Bytes → Kvtx T → Kvtx T
add_read start stop tx = record tx {
  reads = tx.reads ++ record { start = start; stop = stop } ∷ [];
}

-- `TXSaved`, what `Save` keeps for `Revert`
pub record TxSaved : Type 0 where
  pub root : ℕ
  pub reads : List KeyRange

unfoldable pub save : {T : Type 0} → Kvtx T → TxSaved
save tx = record { root = tx.pending.root; reads = tx.reads }

unfoldable pub revert : {T : Type 0} → TxSaved → Kvtx T → Kvtx T
revert saved tx = record tx {
  pending = record tx.pending { root = saved.root };
  reads = saved.reads;
}

-- The dependency range of `Seek`: from the lower to the higher key. The directions must differ.
unfoldable pub seek_range : {T : Type 0} → Bytes → Cmp → Bytes → Cmp → Kvtx T → Option (Kvtx T)
seek_range key1 cmp1 key2 cmp2 tx = do
  forward ← cmp2dir cmp1
  forward2 ← cmp2dir cmp2
  assert (if forward then not forward2 else forward2)
  some (if forward then add_read key1 key2 tx else add_read key2 key1 tx)

-- The levels that the operations of the trees may pass come with the pages of the file.
module _ (ops : PageOps) (levels : ℕ) where
  open ops use {Pages}

  abbrev pub Tree : Type 0
  Tree = BTree Pages

  -- pending updates first, then the snapshot
  unfoldable pub lookup : Bytes → Kvtx Tree → Option (Option Bytes)
  unfolding read_flagged tree_get
  lookup key tx = tree_get memory levels tx.pending key >>= λ found. elim found [
    | some entry ↦ read_flagged entry
    | none ↦ tree_get ops levels tx.snapshot key
  ]

  unfoldable pub tx_get : Bytes → Kvtx Tree → Option (Option Bytes × Kvtx Tree)
  unfolding lookup
  tx_get key tx = do val ← lookup key tx; some (val, add_read key key tx)

  -- Captures a pending entry; the tree must take it as an update.
  unfoldable pub capture :
      Bytes → Bytes → Updated → Kvtx Tree → Option (TxResult Updated × Kvtx Tree)
  unfolding update_tree
  capture key entry result tx =
      update_tree memory levels (record { key = key; val = entry; mode = Mode.upsert }) tx.pending
      >>= λ outcome. elim outcome [
        | Outcome.failed e ↦ some (err (limit e), tx)
        | Outcome.done (updated, reply, pending) ↦ do
          assert updated
          some (ok result, record tx { pending = pending })
      ]

  unfoldable pub tx_update :
      Bytes → Bytes → Mode → Kvtx Tree → Option (TxResult Updated × Kvtx Tree)
  unfolding tx_get capture
  tx_update key val mode tx = do
    (curr, tx1) ← tx_get key (record tx { update_attempted = true })
    if is_insert_only mode && is_some curr
        then some (err duplicate_key, tx1)
        else if is_update_only mode && not (is_some curr) || is_stored curr val
        then some (ok unchanged, tx1)
        else capture key (flag_updated ∷ val)
            (record { updated = true; added = not (is_some curr); old = curr }) tx1

  -- `Del`: the old value, if the key was there.
  unfoldable pub tx_del : Bytes → Kvtx Tree → Option (TxResult Updated × Kvtx Tree)
  unfolding tx_get capture
  tx_del key tx = do
    (curr, tx1) ← tx_get key (record tx { update_attempted = true })
    if not (is_some curr)
        then some (ok unchanged, tx1)
        else capture key (flag_deleted ∷ []) (record { updated = true; added = false; old = curr })
            tx1
