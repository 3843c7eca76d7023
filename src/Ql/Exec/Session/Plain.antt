-- ===== src/Ql/Exec/Session/Plain.antt =====
-- How a statement ends, within a transaction and outside, in ql_exec.go.
use mini_database_v.Base.{
  ◌≡◌, refl, sym, subst, ℕ, Bool, true, false, Option, none, some, List, [], ◌∷◌, ◌++◌, ◌⊎◌, ◌>>=◌,
  inl, inr,
}
use mini_database_v.Base.Bytes.{Bytes}
use mini_database_v.Kv.State.{Kv}
use mini_database_v.Tx.State.{Kvtx}
use mini_database_v.Tx.Ops.{Tree, save, revert, lookup}
use mini_database_v.Tx.Ops.Revert.{Restored, revert-Restored, lookup-Restored}
use mini_database_v.Tx.Ops.Frame.{Frame}
use mini_database_v.Tx.Finalize.{Holds}
use mini_database_v.Tx.Commit.{Disk, begin_tx, abort, commit}
use mini_database_v.Tx.Commit.Ending.{tx_finalize-Holds}
use mini_database_v.Ql.Ast.{Stmt}
use mini_database_v.Ql.Stmt.{p_stmt}
use mini_database_v.Ql.Exec.{ExecError, DbOps, Tx}
use mini_database_v.Ql.Exec.Frame.{FramedTx}
use mini_database_v.Ql.Exec.Frame.Statement.{run_stmt-Leaves}
use mini_database_v.Ql.Exec.Statement.{Result, run_stmt, exec_stmt}
use mini_database_v.Ql.Exec.Session.{
  SessionError, Session, Answered, commit_answer, exec_within, exec_single, end_single, dispatch,
  exec_str,
}

-- A statement that is none of BEGIN, COMMIT and ROLLBACK.
abbrev pub is_plain : Stmt → Bool
is_plain Stmt.begin_tx = false
is_plain Stmt.commit_tx = false
is_plain Stmt.rollback_tx = false
is_plain stmt = true

pub Holds-last : (v : ℕ) (os : List ℕ) → Holds v (os ++ v ∷ [])
Holds-last v [] = inl refl
Holds-last v (o ∷ os) = inr (Holds-last v os)

module _ (ops : DbOps) where
  abbrev Root : Type 0
  Root = Tree ops.pages ops.levels

  -- the transaction of a statement that failed
  abbrev pub after_failure : Tx ops → Tx ops → Tx ops
  after_failure tx t = record t { kv = revert (save tx.kv) t.kv }

  Restored-after_failure :
      (rows : ℕ) (stmt : Stmt) (tx t : Tx ops) (e : ExecError)
      → run_stmt ops rows stmt tx ≡ some (inl e, t)
      → Restored tx.kv (after_failure tx t).kv
  Restored-after_failure rows stmt tx t e h =
      revert-Restored tx.kv t.kv (subst (FramedTx tx) h ((run_stmt-Leaves ops rows stmt).framed tx))

  exec_stmt-failure :
      (rows : ℕ) (stmt : Stmt) (tx t : Tx ops) (e : ExecError)
      → run_stmt ops rows stmt tx ≡ some (inl e, t)
      → exec_stmt ops rows stmt tx ≡ some (inl e, after_failure tx t)
  unfolding exec_stmt
  exec_stmt-failure rows stmt tx t e h = rw (h, exec_stmt) refl

  -- Aborting a running transaction works, and leaves the tree and its version.
  pub abort-Holds :
      (kv : Kv Root) (tx : Kvtx Root)
      → tx.done ≡ false
      → Holds tx.version kv.ongoing
      → (kv' : Kv Root) × (abort ops.pages ops.levels kv tx ≡ some kv')
        × (kv'.tree ≡ kv.tree)
        × (kv'.version ≡ kv.version)
        × (kv'.failed ≡ kv.failed)
  unfolding abort
  abort-Holds kv tx running present =
      let (kv', ended, tree, version, failed) =
        tx_finalize-Holds kv (record tx { done = true }) present in
      (kv', rw running ended, tree, version, failed)

  -- The transaction that a statement outside gets, with the cache of definitions.
  abbrev pub single : Session Root → Tx ops
  unfolding begin_tx
  single s = record { kv = (begin_tx ops.pages ops.levels s.db).0; tables = s.tables }

  -- Nothing of the statement is left, and the error is given.
  abbrev pub LeftOutside : Session Root → ExecError → Answered ops → Type 0
  LeftOutside s e r =
      (r.result ≡ inl (SessionError.exec e))
      × (r.in_tx ≡ false)
      × (r.session.active ≡ none)
      × (r.session.db.tree ≡ s.db.tree)
      × (r.session.db.version ≡ s.db.version)

  -- The transaction is still active, with its reads, and every key that it could read reads as before.
  abbrev pub LeftWithin : Session Root → Kvtx Root → ExecError → Answered ops → Type 0
  LeftWithin s tx e r =
      (r.result ≡ inl (SessionError.exec e))
      × (r.in_tx ≡ true)
      × (r.session.db ≡ s.db)
      × (tx' : Kvtx Root) × (r.session.active ≡ some tx')
      × Frame tx tx'
      × (tx'.reads ≡ tx.reads)
      × ((key : Bytes) (v : Option Bytes)
          → lookup ops.pages ops.levels key tx ≡ some v
          → lookup ops.pages ops.levels key tx' ≡ some v)

  failed_outside :
      (rows : ℕ) (disk : Disk) (stmt : Stmt) (s : Session Root) (t : Tx ops) (e : ExecError)
      → s.active ≡ none
      → run_stmt ops rows stmt (single s) ≡ some (inl e, t)
      → (r : Answered ops) × (exec_single ops rows disk stmt s ≡ some r) × LeftOutside s e r
  unfolding exec_single end_single begin_tx save revert
  failed_outside rows disk stmt s t e free fails =
      let restored = Restored-after_failure rows stmt (single s) t e fails in
      let db = (begin_tx ops.pages ops.levels s.db).1 in
      let present : Holds t.kv.version db.ongoing =
        subst (λ v. Holds v db.ongoing) (sym restored.frame.version)
          (Holds-last s.db.version s.db.ongoing) in
      let (kv', ended, tree, version, failed) =
        abort-Holds db (after_failure (single s) t).kv restored.frame.done present in
      (
        record {
          result = inl (SessionError.exec e);
          in_tx = false;
          session = record s { db = kv'; tables = t.tables };
        },
        rw (exec_stmt-failure rows stmt (single s) t e fails, ended) refl,
        (refl, refl, free, tree, version),
      )

  failed_within :
      (rows : ℕ) (stmt : Stmt) (s : Session Root) (tx : Kvtx Root) (t : Tx ops) (e : ExecError)
      → run_stmt ops rows stmt (record { kv = tx; tables = s.tables }) ≡ some (inl e, t)
      → (r : Answered ops) × (exec_within ops rows stmt tx s ≡ some r) × LeftWithin s tx e r
  unfolding exec_within
  failed_within rows stmt s tx t e fails =
      let start : Tx ops = record { kv = tx; tables = s.tables } in
      let same = Restored-after_failure rows stmt start t e fails in
      (
        record {
          result = inl (SessionError.exec e);
          in_tx = true;
          session = record s { tables = t.tables; active = some (after_failure start t).kv };
        },
        rw (exec_stmt-failure rows stmt start t e fails) refl,
        (
          refl,
          refl,
          refl,
          (after_failure start t).kv,
          refl,
          same.frame,
          same.reads,
          λ key v h.
              lookup-Restored ops.pages ops.levels tx (after_failure start t).kv key v same h,
        ),
      )

  dispatch-plain :
      (rows : ℕ) (disk : Disk) (stmt : Stmt) (s : Session Root)
      → is_plain stmt ≡ true
      → dispatch ops rows disk stmt s ≡ elim s.active [
        | some tx ↦ exec_within ops rows stmt tx s
        | none ↦ exec_single ops rows disk stmt s
      ]
  unfolding dispatch
  dispatch-plain rows disk (Stmt.create_table req) s h = refl
  dispatch-plain rows disk (Stmt.select req) s h = refl
  dispatch-plain rows disk (Stmt.insert req) s h = refl
  dispatch-plain rows disk (Stmt.update req) s h = refl
  dispatch-plain rows disk (Stmt.delete req) s h = refl
  dispatch-plain rows disk Stmt.begin_tx s h = cc
  dispatch-plain rows disk Stmt.commit_tx s h = cc
  dispatch-plain rows disk Stmt.rollback_tx s h = cc

  -- The transaction that a statement runs in: the active one, or one of its own.
  abbrev pub tx_for : Option (Kvtx Root) → Session Root → Tx ops
  tx_for none s = single s
  tx_for (some tx) s = record { kv = tx; tables = s.tables }

  -- The store in which the statement outside runs.
  abbrev pub begun : Session Root → Kv Root
  unfolding begin_tx
  begun s = (begin_tx ops.pages ops.levels s.db).1

  abbrev pub Outcome : Type 0
  Outcome = Option ((ExecError ⊎ Result ops) × Tx ops)

  -- How the session goes on, by what the statement does in its transaction.
  abbrev pub Ends :
      ℕ → Disk → Session Root → Option (Kvtx Root) → Outcome → Option (Answered ops) → Type 0
  Ends rows disk s a none o = o ≡ none
  Ends rows disk s none (some (inl e, t)) o = (r : Answered ops) × (o ≡ some r) × LeftOutside s e r
  Ends rows disk s (some tx) (some (inl e, t)) o =
      (r : Answered ops) × (o ≡ some r) × LeftWithin s tx e r
  Ends rows disk s none (some (inr res, t)) o =
      Frame (single s).kv t.kv
      × (o ≡ (
          commit ops.pages ops.levels rows disk (begun s) t.kv >>= λ done. some (record {
            result = commit_answer ops res done.0;
            in_tx = false;
            session = record s { db = done.1; tables = t.tables };
          })))
  Ends rows disk s (some tx) (some (inr res, t)) o =
      Frame tx t.kv
      × (o
          ≡ some (record {
            result = inr res;
            in_tx = true;
            session = record s { tables = t.tables; active = some t.kv };
          }))

  ends :
      (rows : ℕ) (disk : Disk) (stmt : Stmt) (s : Session Root) (a : Option (Kvtx Root))
      (outcome : Outcome)
      → s.active ≡ a
      → run_stmt ops rows stmt (tx_for a s) ≡ outcome
      → Ends rows disk s a outcome (elim a [
        | some tx ↦ exec_within ops rows stmt tx s
        | none ↦ exec_single ops rows disk stmt s
      ])
  unfolding exec_single exec_within exec_stmt end_single begin_tx
  ends rows disk stmt s none none active h = rw (h, exec_stmt) refl
  ends rows disk stmt s (some tx) none active h = rw (h, exec_stmt) refl
  ends rows disk stmt s none (some (inl e, t)) active h =
      failed_outside rows disk stmt s t e active h
  ends rows disk stmt s (some tx) (some (inl e, t)) active h = failed_within rows stmt s tx t e h
  ends rows disk stmt s none (some (inr res, t)) active h = (
    subst (FramedTx (single s)) h ((run_stmt-Leaves ops rows stmt).framed (single s)),
    rw (h, exec_stmt) refl,
  )
  ends rows disk stmt s (some tx) (some (inr res, t)) active h = (
    subst (FramedTx (tx_for (some tx) s)) h
        ((run_stmt-Leaves ops rows stmt).framed (tx_for (some tx) s)),
    rw (h, exec_stmt) refl,
  )

  -- How a statement that is none of BEGIN, COMMIT and ROLLBACK ends, by what it does in its transaction, which is the active one or one of its own. There is no answer (a panic, or more rows than the number given) exactly if the statement gives none, or the commit of a transaction of its own. When it fails, the error is returned with no panic on the way: within a transaction the store is as before, the transaction stays active with its snapshot and its dependencies, and every key that it could read reads as before, whatever the statement wrote in front of the error; outside none is active afterwards, and the tree of the store and its version are as before. When it succeeds, within a transaction its result is returned, the snapshot and the version of the transaction stay, and the store is as before; outside the answer is that of the commit.
  pub exec_str_lem :
      (rows : ℕ) (disk : Disk) (text : Bytes) (stmt : Stmt) (s : Session Root)
      → p_stmt text ≡ some (inl stmt)
      → is_plain stmt ≡ true
      → Ends rows disk s s.active
          (run_stmt ops rows stmt (tx_for s.active s))
          (exec_str ops rows disk text s)
  unfolding exec_str
  exec_str_lem rows disk text stmt s parsed plain =
      rw (parsed, dispatch-plain rows disk stmt s plain)
        (ends rows disk stmt s s.active (run_stmt ops rows stmt (tx_for s.active s)) refl refl)
