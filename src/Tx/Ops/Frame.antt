-- ===== src/Tx/Ops/Frame.antt =====
-- What the reads and writes of transaction.go leave alone in the transaction.
use mini_database_v.Base.{
  ℕ, ◌≡◌, refl, ◌>>=◌, ◌∙◌, Bool, true, false, Option, none, some, [], ◌∷◌, not, ◌&&◌, ◌||◌, inl,
  inr, Option-cases, Option-cases, if◌then◌else◌, ◌>>◌, assert,
}
use mini_database_v.Base.Bytes.{Bytes}
use mini_database_v.Btree.Ops.{Mode, Outcome, is_some, is_stored}
use mini_database_v.Btree.Pages.{PageOps}
use mini_database_v.Btree.Pages.Memory.{memory}
use mini_database_v.Btree.Pages.Grown.{
  Grows, Grows-refl, Grows-trans, On, OutcomeGrows, update_tree-OutcomeGrows,
}
use mini_database_v.Btree.Tree.{UpdateReq, Reply, update_tree}
use mini_database_v.Tx.State.{Kvtx, Pending}
use mini_database_v.Tx.Ops.{
  Tree, TxError, ok, err, Updated, unchanged, flag_updated, flag_deleted, lookup, tx_update, tx_del,
  tx_get, capture, add_read, is_insert_only, is_update_only,
}

-- The snapshot, its version and the state of a transaction are as before, and the pages of the pending
-- tree are still there.
pub record Frame {T : Type 0} (tx tx' : Kvtx T) : Type 0 where
  pub snapshot : tx'.snapshot ≡ tx.snapshot
  pub version : tx'.version ≡ tx.version
  pub done : tx'.done ≡ tx.done
  pub pages : Grows tx.pending.pages tx'.pending.pages

pub Frame-refl : {T : Type 0} (tx : Kvtx T) → Frame tx tx
Frame-refl tx = record {
  snapshot = refl;
  version = refl;
  done = refl;
  pages = Grows-refl tx.pending.pages;
}

pub Frame-trans : {T : Type 0} (a b c : Kvtx T) → Frame a b → Frame b c → Frame a c
Frame-trans a b c p q = record {
  snapshot = q.snapshot ∙ p.snapshot;
  version = q.version ∙ p.version;
  done = q.done ∙ p.done;
  pages = Grows-trans a.pending.pages b.pending.pages c.pending.pages p.pages q.pages;
}

module _ {T : Type 0} where
  -- Of an outcome, its state.
  abbrev pub Framed : {A : Type 0} → Kvtx T → Option (A × Kvtx T) → Type 0
  Framed tx none = Unit
  Framed tx (some (a, tx')) = Frame tx tx'

  pub Framed-trans :
      {A : Type 0} (a b : Kvtx T) (o : Option (A × Kvtx T)) → Frame a b → Framed b o → Framed a o
  Framed-trans a b none p q = tt
  Framed-trans a b (some (r, c)) p q = Frame-trans a b c p q

module _ (ops : PageOps) (levels : ℕ) where
  captured :
      (result : Updated) (tx tx' : Kvtx (Tree ops levels)) (o : Outcome (Bool × Reply × Pending))
      → Frame tx tx'
      → OutcomeGrows tx'.pending.pages o
      → Framed tx (elim o [
        | Outcome.failed e ↦ some (err (TxError.limit e), tx')
        | Outcome.done (updated, reply, pending) ↦ do
          assert updated
          some (ok result, record tx' { pending = pending })
      ])
  captured result tx tx' (Outcome.failed e) kept g = kept
  captured result tx tx' (Outcome.done (true, reply, pending)) kept g = record {
    snapshot = kept.snapshot;
    version = kept.version;
    done = kept.done;
    pages = Grows-trans tx.pending.pages tx'.pending.pages pending.pages kept.pages g;
  }
  captured result tx tx' (Outcome.done (false, reply, pending)) kept g = tt

  capture-Framed :
      (key entry : Bytes) (result : Updated) (tx tx' : Kvtx (Tree ops levels))
      → Frame tx tx'
      → Framed tx (capture ops levels key entry result tx')
  unfolding capture
  capture-Framed key entry result tx tx' kept =
      by_outcome (update_tree memory levels req tx'.pending)
        (update_tree-OutcomeGrows levels req tx'.pending)
    where
      req : UpdateReq
      req = record { key = key; val = entry; mode = Mode.upsert }

      by_outcome :
          (o : Option (Outcome (Bool × Reply × Pending)))
          → On (OutcomeGrows tx'.pending.pages) o
          → Framed tx (
              o >>= λ outcome. elim outcome [
                | Outcome.failed e ↦ some (err (TxError.limit e), tx')
                | Outcome.done (updated, reply, pending) ↦ do
                  assert updated
                  some (ok result, record tx' { pending = pending })
              ])
      by_outcome none g = tt
      by_outcome (some outcome) g = captured result tx tx' outcome kept g.value

  -- the state behind the read of a key
  abbrev read_state : Bytes → Kvtx (Tree ops levels) → Kvtx (Tree ops levels)
  read_state key tx = add_read key key (record tx { update_attempted = true })

  read_state-Frame : (key : Bytes) (tx : Kvtx (Tree ops levels)) → Frame tx (read_state key tx)
  read_state-Frame key tx = record {
    snapshot = refl;
    version = refl;
    done = refl;
    pages = Grows-refl tx.pending.pages;
  }

  pub tx_get-Framed :
      (key : Bytes) (tx : Kvtx (Tree ops levels)) → Framed tx (tx_get ops levels key tx)
  unfolding tx_get
  tx_get-Framed key tx = elim (Option-cases (lookup ops levels key tx)) [
    | inl fails ↦ rw fails tt
    | inr (found, at) ↦ rw at (record {
      snapshot = refl;
      version = refl;
      done = refl;
      pages = Grows-refl tx.pending.pages;
    })
  ]

  pub tx_update-Framed :
      (key val : Bytes) (mode : Mode) (tx : Kvtx (Tree ops levels))
      → Framed tx (tx_update ops levels key val mode tx)
  unfolding tx_update tx_get
  tx_update-Framed key val mode tx =
      elim (Option-cases (lookup ops levels key (record tx { update_attempted = true }))) [
        | inl fails ↦ rw fails tt
        | inr (curr, found) ↦ rw found (
            chosen (is_insert_only mode && is_some curr)
              (is_update_only mode && not (is_some curr) || is_stored curr val) curr)
      ]
    where
      kept : Frame tx (read_state key tx)
      kept = read_state-Frame key tx

      chosen :
          (refused same : Bool) (curr : Option Bytes)
          → Framed tx (
              if refused
              then some (err TxError.duplicate_key, read_state key tx)
              else if same
              then some (ok unchanged, read_state key tx)
              else capture ops levels key
                  (flag_updated ∷ val)
                  (record { updated = true; added = not (is_some curr); old = curr })
                  (read_state key tx))
      chosen true same curr = kept
      chosen false true curr = kept
      chosen false false curr =
          capture-Framed key (flag_updated ∷ val)
            (record { updated = true; added = not (is_some curr); old = curr }) tx
            (read_state key tx) kept

  pub tx_del-Framed :
      (key : Bytes) (tx : Kvtx (Tree ops levels)) → Framed tx (tx_del ops levels key tx)
  unfolding tx_del tx_get
  tx_del-Framed key tx =
      elim (Option-cases (lookup ops levels key (record tx { update_attempted = true }))) [
        | inl fails ↦ rw fails tt
        | inr (curr, found) ↦ rw found (chosen (not (is_some curr)) curr)
      ]
    where
      kept : Frame tx (read_state key tx)
      kept = read_state-Frame key tx

      chosen :
          (missing : Bool) (curr : Option Bytes)
          → Framed tx (
              if missing
              then some (ok unchanged, read_state key tx)
              else capture ops levels key
                  (flag_deleted ∷ [])
                  (record { updated = true; added = false; old = curr })
                  (read_state key tx))
      chosen true curr = kept
      chosen false curr =
          capture-Framed key (flag_deleted ∷ [])
            (record { updated = true; added = false; old = curr }) tx (read_state key tx) kept
