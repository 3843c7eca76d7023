-- ===== src/Tx/Commit.antt =====
-- `Begin`, `Commit` and `Abort` of transaction.go, and `updateOrRevert` of kv.go. What the system calls
-- answer is an argument. A tree carries its pages, which `get`, `new` and `del` of kv.go keep; what
-- these callbacks do to the free list and the page counters of the store is modelled in Kv, and the
-- loop of `Commit` does not write it back to them.
pub mod Ending
pub mod Conflicts
use mini_database_v.Base.{
  ℕ, zero, suc, ◌+◌, ◌≡◌, true, false, not, ◌&&◌, ◌||◌, Bool, List, [], ◌∷◌, ◌++◌, Option, none,
  some, ◌>>=◌, ◌>>◌, assert, ◌==◌, if◌then◌else◌, length, ltb,
}
use mini_database_v.Base.Bytes.{Bytes}
use mini_database_v.Btree.Limit.{LimitError}
use mini_database_v.Btree.Ops.{Mode, Outcome, is_stored, is_some}
use mini_database_v.Btree.Pages.{PageOps}
use mini_database_v.Btree.Pages.Memory.{memory}
use mini_database_v.Btree.Tree.{tree_get, update_tree}
use mini_database_v.Btree.Tree.Remove.{delete_tree}
use mini_database_v.Btree.Iter.{BIter, iter_valid, iter_deref, next, seek}
use mini_database_v.Cmp.{Cmp}
use mini_database_v.Btree.Node.{Node}
use mini_database_v.Kv.Pages.{Pages, u64}
use mini_database_v.Kv.Free.{Pager, FreeList}
use mini_database_v.Kv.State.{Kv, with_meta}
use mini_database_v.Tx.Ranges.{KeyRange, CommittedTx, sort_ranges}
use mini_database_v.Tx.State.{Kvtx, no_pending}
use mini_database_v.Tx.History.{detect_conflicts, tx_finalize}
use mini_database_v.Tx.Ops.{Tree, flag_deleted, flag_updated}

-- What the system calls of `updateOrRevert` answer: rewriting the meta page, and `updateFile`.
pub record Disk : Type 0 where
  pub rewritten : Bool
  pub updated : Bool

-- The pages after `updateFile`: everything is in the file.
abbrev pub after_flush : Pages → Pages
after_flush p = record p { flushed = u64 (p.flushed + p.nappend); nappend = 0; updates = [] }

abbrev pub discarded : Pages → Pages
discarded p = record p { nappend = 0; updates = [] }

-- The store behind an update of the file that failed.
abbrev pub reverted : {T : Type 0} → Kv T → Kv T → Kv T
reverted saved kv = record (with_meta kv saved) {
  failed = true;
  pager = record (with_meta kv saved).pager { pages = discarded (with_meta kv saved).pages };
}

-- `updateOrRevert`; `saved` is the state whose meta page was saved. Is there no error?
unfoldable pub update_or_revert : {T : Type 0} → Disk → Kv T → Kv T → Bool × Kv T
update_or_revert disk saved kv =
    if kv.failed && not disk.rewritten
    then (false, kv)
    else if disk.updated
    then (
      true,
      record kv { failed = false; pager = record kv.pager { pages = after_flush kv.pages } },
    )
    else (false, reverted saved kv)

pub data CommitResult : Type 0 where
  committed conflict write_failed : CommitResult
  refused : LimitError → CommitResult

-- The ranges that were written, or the error that ended the loop, and the tree so far.
pub data Transfer (T : Type 0) : Type 0 where
  moved : T → List KeyRange → Transfer T
  stopped : LimitError → T → Transfer T

abbrev same : Bool → Bool → Bool
same a b = if a then b else not b

module _ (ops : PageOps) (levels : ℕ) where
  abbrev Root : Type 0
  Root = Tree ops levels

  unfoldable pub begin_tx : Kv Root → Kvtx Root × Kv Root
  begin_tx kv = (
    record {
      snapshot = kv.tree;
      version = kv.version;
      pending = no_pending;
      reads = [];
      update_attempted = false;
      done = false;
    },
    record kv { ongoing = kv.ongoing ++ kv.version ∷ [] },
  )

  -- One round of the loop of `Commit`: whether the key was modified, and the tree.
  unfoldable pub apply_entry : Root → Bytes → Bytes → Root → Option (Outcome (Bool × Root))
  unfolding tree_get update_tree delete_tree
  apply_entry snapshot key [] t = none
  apply_entry snapshot key (f ∷ v) t = do
    old ← tree_get ops levels snapshot key
    if f == flag_deleted
        then (delete_tree ops levels key t >>= λ outcome. elim outcome [
          | Outcome.failed e ↦ some (Outcome.failed e)
          | Outcome.done (deleted, old_val, t') ↦ do
            assert (same deleted (is_some old))
            some (Outcome.done (is_some old, t'))
        ])
        else if f == flag_updated
        then (update_tree ops levels (record { key = key; val = v; mode = Mode.upsert }) t
            >>= λ outcome. elim outcome [
              | Outcome.failed e ↦ some (Outcome.failed e)
              | Outcome.done (updated, reply, t') ↦ do
                assert (same updated (not (is_stored old v)))
                some (Outcome.done (not (is_stored old v), t'))
            ])
        else none

  -- The loop over the pending updates, with the entries left first; `concurrent` is
  -- `len(kv.ongoing) > 1`, and `pending` the pages of the pending tree.
  unfoldable pub transfer :
      ℕ → List Node → Root → Bool → BIter → Root → List KeyRange → Option (Transfer Root)
  unfolding iter_valid iter_deref next apply_entry
  transfer zero pending snapshot concurrent iter t writes = none
  transfer (suc left) pending snapshot concurrent iter t writes = iter_valid iter >>= λ valid.
      elim valid [
        | false ↦ some (moved t writes)
        | true ↦ iter_deref iter >>= λ kv. apply_entry snapshot kv.0 kv.1 t >>= λ applied.
            elim applied [
              | Outcome.failed err ↦ some (stopped err t)
              | Outcome.done (modified, t') ↦ next memory pending iter >>= λ iter'.
                  transfer left pending snapshot concurrent iter' t' (
                    if modified && concurrent
                    then writes ++ record { start = kv.0; stop = kv.0 } ∷ []
                    else writes)
            ]
      ]

  -- The written ranges go to the history, if there is no error.
  unfoldable pub record_writes : List KeyRange → Bool × Kv Root → CommitResult × Kv Root
  record_writes writes (false, kv) = (write_failed, kv)
  record_writes writes (true, kv) =
      if ltb 0 (length writes)
      then (
        committed,
        record kv {
          history = kv.history ++ record { version = kv.version; writes = sort_ranges writes } ∷ [];
        },
      )
      else (committed, kv)

  -- What `Commit` does behind the loop, up to `txFinalize`.
  unfoldable pub publish : Disk → Kv Root → List KeyRange → Kv Root → CommitResult × Kv Root
  unfolding update_or_revert record_writes
  publish disk saved writes kv = record_writes writes (
      if kv.tree.root == saved.tree.root
      then (true, kv)
      else update_or_revert disk saved (record kv { version = u64 (kv.version + 1) }))

  unfoldable pub after_loop : Disk → Kv Root → Kv Root → Transfer Root → CommitResult × Kv Root
  unfolding publish
  after_loop disk saved kv (stopped e t) = (refused e, record kv { tree = t })
  after_loop disk saved kv (moved t writes) = publish disk saved writes (record kv { tree = t })

  -- `Commit`: `none` is a panic. The pending entries that the loop may pass come first.
  unfoldable pub commit : ℕ → Disk → Kv Root → Kvtx Root → Option (CommitResult × Kv Root)
  unfolding seek transfer after_loop
  commit entries disk kv tx0 = do
    assert (not tx0.done)
    let tx : Kvtx Root = record tx0 { done = true }
    let (sorted, clash) = detect_conflicts kv tx
    if tx.update_attempted && clash
        then (do kv1 ← tx_finalize kv sorted; some (conflict, kv1))
        else (do
          let free : FreeList = record kv.free { cur_ver = u64 (kv.version + 1) }
          let kv1 : Kv Root = record kv { pager = record kv.pager { free = free } }
          start ← seek memory tx.pending.pages levels tx.pending.root [] Cmp.gt
          done ←
              transfer entries tx.pending.pages tx.snapshot (ltb 1 (length kv.ongoing)) start
                kv.tree []
          let (result, kv2) = after_loop disk kv kv1 done
          kv3 ← tx_finalize kv2 tx
          some (result, kv3))

  unfoldable pub abort : Kv Root → Kvtx Root → Option (Kv Root)
  abort kv tx = do assert (not tx.done); tx_finalize kv (record tx { done = true })
