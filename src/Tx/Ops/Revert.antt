-- ===== src/Tx/Ops/Revert.antt =====
-- What a transaction sees behind `Revert` of transaction.go.
use mini_database_v.Base.{
  ◌≡◌, refl, sym, ◌∙◌, ap, subst, ℕ, Option, none, some, ◌>>=◌, Option-cases, inl, inr,
}
use mini_database_v.Base.Bytes.{Bytes}
use mini_database_v.Btree.Ops.{Mode}
use mini_database_v.Btree.Pages.{PageOps}
use mini_database_v.Btree.Pages.Memory.{memory}
use mini_database_v.Btree.Pages.Kept.{tree_get-kept}
use mini_database_v.Btree.Tree.{tree_get}
use mini_database_v.Tx.State.{Kvtx}
use mini_database_v.Tx.Ops.{
  Tree, Updated, TxResult, read_flagged, save, revert, lookup, tx_get, tx_update, tx_del,
}
use mini_database_v.Tx.Ops.Frame.{
  Frame, Frame-refl, Frame-trans, Framed, tx_get-Framed, tx_update-Framed, tx_del-Framed,
}

-- The transaction is as before, but for pages behind those of its pending tree and for having tried
-- an update.
pub record Restored {T : Type 0} (tx tx' : Kvtx T) : Type 0 where
  pub frame : Frame tx tx'
  pub root : tx'.pending.root ≡ tx.pending.root
  pub reads : tx'.reads ≡ tx.reads

module _ {T : Type 0} where
  pub revert-Restored : (tx tx' : Kvtx T) → Frame tx tx' → Restored tx (revert (save tx) tx')
  unfolding save revert
  revert-Restored tx tx' kept = record {
    frame = record {
      snapshot = kept.snapshot;
      version = kept.version;
      done = kept.done;
      pages = kept.pages;
    };
    root = refl;
    reads = refl;
  }

module _ (ops : PageOps) (levels : ℕ) where
  abbrev Tx : Type 0
  Tx = Kvtx (Tree ops levels)

  pending-Restored :
      (tx tx' : Tx) (key : Bytes) (found : Option Bytes)
      → Restored tx tx'
      → tree_get memory levels tx.pending key ≡ some found
      → tree_get memory levels tx'.pending key ≡ some found
  pending-Restored tx tx' key found same h =
      let (more, grown) = same.frame.pages in
      let kept = tree_get-kept levels tx.pending.root tx.pending.pages more key found h in
      subst
        (λ r.
          tree_get memory levels (record { root = r; pages = tx'.pending.pages }) key ≡ some found)
        (sym same.root)
        (subst
          (λ s.
            tree_get memory levels (record { root = tx.pending.root; pages = s }) key ≡ some found)
          (sym grown) kept)

  -- What could be read is read as before.
  pub lookup-Restored :
      (tx tx' : Tx) (key : Bytes) (v : Option Bytes)
      → Restored tx tx'
      → lookup ops levels key tx ≡ some v
      → lookup ops levels key tx' ≡ some v
  unfolding lookup
  lookup-Restored tx tx' key v same h =
      elim (Option-cases (tree_get memory levels tx.pending key)) [
        | inl fails ↦ absurd (no_answer fails h)
        | inr (found, at) ↦
            let at' = pending-Restored tx tx' key found same at in
            rw at'
              (subst (λ t. below t found ≡ some v) (sym same.frame.snapshot) (by_found found at h))
      ]
    where
      below : Tree ops levels → Option Bytes → Option (Option Bytes)
      below t found = elim found [
        | some entry ↦ read_flagged entry
        | none ↦ tree_get ops levels t key
      ]

      no_answer :
          tree_get memory levels tx.pending key ≡ none
          → ((tree_get memory levels tx.pending key >>= below tx.snapshot) ≡ some v)
          → ⊥
      no_answer fails h =
          let clash : none ≡ some v = ap (λ o. o >>= below tx.snapshot) (sym fails) ∙ h in cc

      by_found :
          (found : Option Bytes)
          → tree_get memory levels tx.pending key ≡ some found
          → ((tree_get memory levels tx.pending key >>= below tx.snapshot) ≡ some v)
          → below tx.snapshot found ≡ some v
      by_found found at h = ap (λ o. o >>= below tx.snapshot) (sym at) ∙ h

  -- The steps of a transaction: what it reads, updates and deletes, whatever the answers are.
  pub data Steps (tx : Tx) : Tx → Type 0 where
    none_yet : Steps tx tx
    read :
        (tx1 tx2 : Tx) (key : Bytes) (found : Option Bytes)
        → Steps tx tx1
        → tx_get ops levels key tx1 ≡ some (found, tx2)
        → Steps tx tx2
    updated :
        (tx1 tx2 : Tx) (key val : Bytes) (mode : Mode) (result : TxResult Updated)
        → Steps tx tx1
        → tx_update ops levels key val mode tx1 ≡ some (result, tx2)
        → Steps tx tx2
    deleted :
        (tx1 tx2 : Tx) (key : Bytes) (result : TxResult Updated)
        → Steps tx tx1
        → tx_del ops levels key tx1 ≡ some (result, tx2)
        → Steps tx tx2

  Steps-Frame : (tx tx' : Tx) → Steps tx tx' → Frame tx tx'
  Steps-Frame tx _ none_yet = Frame-refl tx
  Steps-Frame tx tx2 (read tx1 _ key found before step) =
      Frame-trans tx tx1 tx2 (Steps-Frame tx tx1 before)
        (subst (Framed tx1) step (tx_get-Framed ops levels key tx1))
  Steps-Frame tx tx2 (updated tx1 _ key val mode result before step) =
      Frame-trans tx tx1 tx2 (Steps-Frame tx tx1 before)
        (subst (Framed tx1) step (tx_update-Framed ops levels key val mode tx1))
  Steps-Frame tx tx2 (deleted tx1 _ key result before step) =
      Frame-trans tx tx1 tx2 (Steps-Frame tx tx1 before)
        (subst (Framed tx1) step (tx_del-Framed ops levels key tx1))

  -- After any reads, updates and deletions of a transaction, with whatever answers, reverting to what was saved before them restores the dependencies, and a key that could be read reads as before, although the pages that were written stay.
  pub revert-save :
      (tx tx' : Tx) (key : Bytes) (v : Option Bytes)
      → Steps tx tx'
      → lookup ops levels key tx ≡ some v
      → (lookup ops levels key (revert (save tx) tx') ≡ some v)
        × ((revert (save tx) tx').reads ≡ tx.reads)
  revert-save tx tx' key v steps h =
      let same = revert-Restored tx tx' (Steps-Frame tx tx' steps) in
      (lookup-Restored tx (revert (save tx) tx') key v same h, same.reads)
