-- ===== src/Ql/Exec/Session/Reached.antt =====
-- The sessions that ql_exec.go comes to, one statement after the other.
use mini_database_v.Base.{
  ◌≡◌, refl, sym, ◌∙◌, ap, subst, ℕ, true, false, Option, none, some, List, inl, inr, ◌⊎◌, ◌>>=◌,
}
use mini_database_v.Base.Bytes.{Bytes}
use mini_database_v.Kv.State.{Kv}
use mini_database_v.Tx.State.{Kvtx}
use mini_database_v.Tx.Ops.{Tree}
use mini_database_v.Tx.Ops.Frame.{Frame}
use mini_database_v.Tx.Finalize.{Holds}
use mini_database_v.Tx.Commit.{Disk, begin_tx, abort, commit}
use mini_database_v.Table.Schema.{TableDef}
use mini_database_v.Ql.Ast.{Stmt}
use mini_database_v.Ql.Lex.{ParseError}
use mini_database_v.Ql.Stmt.{p_stmt}
use mini_database_v.Ql.Exec.{ExecError, DbOps, Tx}
use mini_database_v.Ql.Exec.Statement.{Result, no_result, run_stmt}
use mini_database_v.Ql.Exec.Session.{
  SessionError, Session, Answered, exec_begin, exec_commit, exec_rollback, dispatch, exec_str,
  refuse,
}
use mini_database_v.Ql.Exec.Session.Plain.{
  is_plain, Holds-last, tx_for, Ends, abort-Holds, exec_str_lem,
}

module _ (ops : DbOps) where
  abbrev Root : Type 0
  Root = Tree ops.pages ops.levels

  -- The active transaction is running, and its version is among those of the running ones.
  abbrev pub IsRunning : Kv Root → Option (Kvtx Root) → Type 0
  IsRunning db none = Unit
  IsRunning db (some tx) = (tx.done ≡ false) × Holds tx.version db.ongoing

  -- An executor starts without a transaction, on a store as it is opened. A statement that returns an answer leads on.
  pub data Reached : Session Root → Type 0 where
    opened :
        (db : Kv Root) (tables : List (Bytes × TableDef))
        → Reached (record { db = db; tables = tables; active = none })
    ran :
        (rows : ℕ) (disk : Disk) (text : Bytes) (s : Session Root) (r : Answered ops)
        → Reached s
        → exec_str ops rows disk text s ≡ some r
        → Reached r.session

  -- of an answer, if there is one
  abbrev Good : Option (Answered ops) → Type 0
  Good none = Unit
  Good (some r) = IsRunning r.session.db r.session.active

  begin-Good :
      (s : Session Root) (a : Option (Kvtx Root))
      → s.active ≡ a
      → IsRunning s.db a
      → Good (some (exec_begin ops s))
  unfolding exec_begin begin_tx
  begin-Good s none free h = rw (free, exec_begin) (refl, Holds-last s.db.version s.db.ongoing)
  begin-Good s (some tx) active h = rw (active, exec_begin) (subst (IsRunning s.db) (sym active) h)

  -- No transaction is active behind an answer that is made of a result.
  map-Good :
      {A : Type 0} (o : Option A) (f : A → Answered ops)
      → ((x : A) → (f x).session.active ≡ none)
      → Good (o >>= λ x. some (f x))
  map-Good none f free = tt
  map-Good (some x) f free = subst (IsRunning (f x).session.db) (sym (free x)) tt

  commit-Good :
      (rows : ℕ) (disk : Disk) (s : Session Root) (a : Option (Kvtx Root))
      → s.active ≡ a
      → Good (exec_commit ops rows disk s)
  unfolding exec_commit
  commit-Good rows disk s none free = rw (free, exec_commit) (subst (IsRunning s.db) (sym free) tt)
  commit-Good rows disk s (some tx) active =
      rw (active, exec_commit)
        (map-Good (commit ops.pages ops.levels rows disk s.db tx) _ (λ x. refl))

  rollback-Good :
      (s : Session Root) (a : Option (Kvtx Root)) → s.active ≡ a → Good (exec_rollback ops s)
  unfolding exec_rollback
  rollback-Good s none free = rw (free, exec_rollback) (subst (IsRunning s.db) (sym free) tt)
  rollback-Good s (some tx) active =
      rw (active, exec_rollback) (map-Good (abort ops.pages ops.levels s.db tx) _ (λ x. refl))

  Frame-IsRunning :
      (db db' : Kv Root) (tx tx' : Kvtx Root)
      → db' ≡ db
      → Frame tx tx'
      → IsRunning db (some tx)
      → IsRunning db' (some tx')
  Frame-IsRunning db db' tx tx' same kept (going, present) = (
    kept.done ∙ going,
    subst (λ d. Holds tx'.version d.ongoing) (sym same)
        (subst (λ v. Holds v db.ongoing) (sym kept.version) present),
  )

  Ends-Good :
      (rows : ℕ) (disk : Disk) (s : Session Root) (a : Option (Kvtx Root))
      (outcome : Option ((ExecError ⊎ Result ops) × Tx ops)) (o : Option (Answered ops))
      → s.active ≡ a
      → IsRunning s.db a
      → Ends ops rows disk s a outcome o
      → Good o
  Ends-Good rows disk s none none o active h ends = subst Good (sym ends) tt
  Ends-Good rows disk s (some tx) none o active h ends = subst Good (sym ends) tt
  Ends-Good rows disk s none (some (inl e, t)) o active h
        (r, ok, (result, in_tx, free, tree, version)) =
      subst Good (sym ok) (subst (IsRunning r.session.db) (sym free) tt)
  Ends-Good rows disk s (some tx) (some (inl e, t)) o active h
        (r, ok, (result, in_tx, db, tx', act, kept, reads, same)) =
      subst Good (sym ok) (
        subst (IsRunning r.session.db) (sym act)
          (Frame-IsRunning s.db r.session.db tx tx' db kept h))
  Ends-Good rows disk s none (some (inr res, t)) o active h (kept, ok) =
      subst Good (sym ok) (map-Good (commit ops.pages ops.levels rows disk _ t.kv) _ (λ x. active))
  Ends-Good rows disk s (some tx) (some (inr res, t)) o active h (kept, ok) =
      subst Good (sym ok) (Frame-IsRunning s.db s.db tx t.kv refl kept h)

  exec_str-Good :
      (rows : ℕ) (disk : Disk) (text : Bytes) (s : Session Root)
      → IsRunning s.db s.active
      → Good (exec_str ops rows disk text s)
  unfolding exec_str dispatch
  exec_str-Good rows disk text s h = by_parse (p_stmt text) refl
    where
      plain :
          (stmt : Stmt)
          → is_plain stmt ≡ true
          → p_stmt text ≡ some (inl stmt)
          → Good (exec_str ops rows disk text s)
      plain stmt only parsed =
          Ends-Good rows disk s s.active (run_stmt ops rows stmt (tx_for ops s.active s)) _ refl h
            (exec_str_lem ops rows disk text stmt s parsed only)

      by_stmt : (stmt : Stmt) → p_stmt text ≡ some (inl stmt) → Good (exec_str ops rows disk text s)
      by_stmt Stmt.begin_tx parsed = rw (parsed, exec_str) (begin-Good s s.active refl h)
      by_stmt Stmt.commit_tx parsed = rw (parsed, exec_str) (commit-Good rows disk s s.active refl)
      by_stmt Stmt.rollback_tx parsed = rw (parsed, exec_str) (rollback-Good s s.active refl)
      by_stmt (Stmt.create_table req) parsed = plain (Stmt.create_table req) refl parsed
      by_stmt (Stmt.select req) parsed = plain (Stmt.select req) refl parsed
      by_stmt (Stmt.insert req) parsed = plain (Stmt.insert req) refl parsed
      by_stmt (Stmt.update req) parsed = plain (Stmt.update req) refl parsed
      by_stmt (Stmt.delete req) parsed = plain (Stmt.delete req) refl parsed

      by_parse :
          (o : Option (Stmt ⊎ ParseError)) → p_stmt text ≡ o → Good (exec_str ops rows disk text s)
      by_parse none parsed = rw (parsed, exec_str) tt
      by_parse (some (inr e)) parsed = rw (parsed, exec_str) h
      by_parse (some (inl stmt)) parsed = by_stmt stmt parsed

  Reached-IsRunning : (s : Session Root) → Reached s → IsRunning s.db s.active
  Reached-IsRunning _ (opened db tables) = tt
  Reached-IsRunning _ (ran rows disk text s r before step) =
      subst Good step (exec_str-Good rows disk text s (Reached-IsRunning s before))

  -- What ROLLBACK answers, by whether a transaction is active.
  abbrev pub RolledBack : Session Root → Option (Kvtx Root) → Answered ops → Type 0
  RolledBack s none r = r ≡ refuse ops SessionError.no_tx_to_rollback s
  RolledBack s (some tx) r =
      (r.result ≡ inr (no_result ops))
      × (r.in_tx ≡ false)
      × (r.session.active ≡ none)
      × (r.session.db.tree ≡ s.db.tree)
      × (r.session.db.version ≡ s.db.version)

  rolled_back :
      (s : Session Root) (a : Option (Kvtx Root))
      → s.active ≡ a
      → IsRunning s.db a
      → (r : Answered ops) × (exec_rollback ops s ≡ some r) × RolledBack s a r
  unfolding exec_rollback
  rolled_back s none free h = (
    refuse ops SessionError.no_tx_to_rollback s,
    ap
        (λ o. elim o [
          | none ↦ some (refuse ops SessionError.no_tx_to_rollback s)
          | some tx ↦ abort ops.pages ops.levels s.db tx >>= λ db. some (record {
            result = inr (no_result ops);
            in_tx = false;
            session = record s { db = db; active = none };
          })
        ])
        free,
    refl,
  )
  rolled_back s (some tx) active (going, present) =
      let (db, aborted, tree, version, failed) = abort-Holds ops s.db tx going present in
      (
        record {
          result = inr (no_result ops);
          in_tx = false;
          session = record s { db = db; active = none };
        },
        rw (active, exec_rollback, aborted) refl,
        (refl, refl, refl, tree, version),
      )

  -- From an opened store on, whatever statements were executed and whatever they answered, ROLLBACK never panics: without an active transaction it is refused and changes nothing, and else none is active afterwards, and the tree of the store and its version are as before.
  pub exec_rollback_lem :
      (rows : ℕ) (disk : Disk) (text : Bytes) (s : Session Root)
      → Reached s
      → p_stmt text ≡ some (inl Stmt.rollback_tx)
      → (r : Answered ops) × (exec_str ops rows disk text s ≡ some r) × RolledBack s s.active r
  unfolding exec_str dispatch
  exec_rollback_lem rows disk text s reached parsed =
      let (r, ok, done) = rolled_back s s.active refl (Reached-IsRunning s reached) in
      (r, rw (parsed, exec_str) ok, done)
