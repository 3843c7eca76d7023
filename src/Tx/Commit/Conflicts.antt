-- ===== src/Tx/Commit/Conflicts.antt =====
-- When `Commit` of transaction.go answers a conflict.
use mini_database_v.Base.{
  ℕ, ◌+◌, ◌≡◌, refl, subst, true, false, ◌&&◌, Bool, List, [], Option, some, Bool-cases, inl, inr,
  Any, ltb, length, ◌↔◌,
}
use mini_database_v.Btree.Pages.{PageOps}
use mini_database_v.Btree.Pages.Memory.{memory}
use mini_database_v.Btree.Iter.{seek}
use mini_database_v.Cmp.{Cmp}
use mini_database_v.Btree.Pages.Grown.{On, On-bind, On-some}
use mini_database_v.Kv.State.{Kv}
use mini_database_v.Kv.Pages.{u64}
use mini_database_v.Tx.Ranges.{KeyRange, sort_ranges}
use mini_database_v.Tx.State.{Kvtx}
use mini_database_v.Tx.Ops.{Tree}
use mini_database_v.Tx.History.{detect_conflicts, tx_finalize}
use mini_database_v.Tx.Conflict.{VersionsSorted, WritesSorted, Clash, detect_conflicts_iff}
use mini_database_v.Tx.Finalize.{Holds}
use mini_database_v.Tx.Commit.{
  Disk, CommitResult, committed, conflict, write_failed, refused, Transfer, moved, stopped,
  record_writes, publish, after_loop, transfer, commit,
}
use mini_database_v.Tx.Commit.Ending.{tx_finalize-Holds}

abbrev is_conflict : CommitResult → Bool
is_conflict committed = false
is_conflict conflict = true
is_conflict write_failed = false
is_conflict (refused e) = false

both_true : (a b : Bool) → a && b ≡ true → (a ≡ true) × (b ≡ true)
both_true true b h = (refl, h)
both_true false b h = cc

and_true : (a b : Bool) → a ≡ true → b ≡ true → a && b ≡ true
and_true a b h k = rw (h, k)

module _ (ops : PageOps) (levels : ℕ) where
  abbrev Root : Type 0
  Root = Tree ops levels

  -- The answer is another one.
  abbrev IsOther : CommitResult × Kv Root → Type 0
  IsOther r = is_conflict r.0 ≡ false

  record_writes-IsOther :
      (ws : List KeyRange) (b : Bool) (kv : Kv Root) → IsOther (record_writes ops levels ws (b, kv))
  unfolding record_writes
  record_writes-IsOther ws false kv = refl
  record_writes-IsOther ws true kv = elim (Bool-cases (ltb 0 (length ws))) [
    | inl more ↦ rw more refl
    | inr nothing ↦ rw nothing refl
  ]

  publish-IsOther :
      (disk : Disk) (saved : Kv Root) (ws : List KeyRange) (kv : Kv Root)
      → IsOther (publish ops levels disk saved ws kv)
  unfolding publish
  publish-IsOther disk saved ws kv = record_writes-IsOther ws _ _

  after_loop-IsOther :
      (disk : Disk) (saved kv : Kv Root) (done : Transfer Root)
      → IsOther (after_loop ops levels disk saved kv done)
  unfolding after_loop
  after_loop-IsOther disk saved kv (stopped e t) = refl
  after_loop-IsOther disk saved kv (moved t ws) =
      publish-IsOther disk saved ws (record kv { tree = t })

  -- Without a conflict no way through the commit answers one.
  commit-IsOther :
      (entries : ℕ) (disk : Disk) (kv : Kv Root) (tx : Kvtx Root)
      → tx.done ≡ false
      → tx.update_attempted && (detect_conflicts kv tx).1 ≡ false
      → On IsOther (commit ops levels entries disk kv tx)
  unfolding commit detect_conflicts
  commit-IsOther entries disk kv tx running none_found =
      let kv1 : Kv Root = record kv {
        pager = record kv.pager { free = record kv.free { cur_ver = u64 (kv.version + 1) } };
      } in
      rw (running, none_found)
        (On-bind (seek memory tx.pending.pages levels tx.pending.root [] Cmp.gt) λ start.
          On-bind
            (transfer ops levels entries tx.pending.pages tx.snapshot (ltb 1 (length kv.ongoing))
              start kv.tree [])
            λ done.
              On-bind
                (tx_finalize (after_loop ops levels disk kv kv1 done).1 (record tx { done = true }))
                λ kv3. On-some (after_loop-IsOther disk kv kv1 done))

  not_conflict :
      (o : Option (CommitResult × Kv Root)) (kv' : Kv Root)
      → On IsOther o
      → ¬ (o ≡ some (conflict, kv'))
  not_conflict o kv' other h = let wrong : true ≡ false = (subst (On IsOther) h other).value in cc

  conflict_answer :
      (entries : ℕ) (disk : Disk) (kv : Kv Root) (tx : Kvtx Root)
      → tx.done ≡ false
      → Holds tx.version kv.ongoing
      → tx.update_attempted && (detect_conflicts kv tx).1 ≡ true
      → (kv' : Kv Root) × (commit ops levels entries disk kv tx ≡ some (conflict, kv'))
        × (kv'.tree ≡ kv.tree)
        × (kv'.version ≡ kv.version)
  unfolding commit detect_conflicts
  conflict_answer entries disk kv tx running present both =
      let (kv', ended, tree, version, failed) =
        tx_finalize-Holds kv (record tx { done = true; reads = sort_ranges tx.reads }) present in
      (kv', rw (running, both, ended), tree, version)

  -- `Commit` of a running transaction answers a conflict, and leaves the tree and its version as they were, exactly if the transaction has tried an update and a range that it read overlaps one that an entry of the history newer than its snapshot wrote. The history ascends in its versions, and the writes of each entry are sorted.
  pub commit_conflict_iff :
      (entries : ℕ) (disk : Disk) (kv : Kv Root) (tx : Kvtx Root)
      → tx.done ≡ false
      → Holds tx.version kv.ongoing
      → VersionsSorted kv.history
      → WritesSorted kv.history
      → ((kv' : Kv Root) × (commit ops levels entries disk kv tx ≡ some (conflict, kv'))
          × (kv'.tree ≡ kv.tree)
          × (kv'.version ≡ kv.version))
        ↔ (tx.update_attempted ≡ true) × Any (Clash tx.version tx.reads) kv.history
  commit_conflict_iff entries disk kv tx running present versions writes =
      let (seen, found) = detect_conflicts_iff kv tx versions writes in
      (
        λ (kv', answer, tree, version).
            elim (Bool-cases (tx.update_attempted && (detect_conflicts kv tx).1)) [
              | inl both ↦
                  let (attempted, clash) = both_true tx.update_attempted _ both in
                  (attempted, seen clash)
              | inr none_found ↦ absurd (
                  not_conflict (commit ops levels entries disk kv tx) kv'
                    (commit-IsOther entries disk kv tx running none_found) answer)
            ],
        λ (attempted, clash).
            conflict_answer entries disk kv tx running present
              (and_true tx.update_attempted _ attempted (found clash)),
      )
