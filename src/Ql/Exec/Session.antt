-- ===== src/Ql/Exec/Session.antt =====
-- `Executor` of ql_exec.go: statements outside and within explicit transactions.
pub mod Plain
pub mod Reached
use mini_database_v.Base.{ℕ, Bool, true, false, Option, none, some, List, [], ◌∷◌, ◌⊎◌, inl, inr}
use mini_database_v.Base
use mini_database_v.Base.Bytes.{Bytes}
use mini_database_v.Kv.State.{Kv}
use mini_database_v.Tx.State.{Kvtx}
use mini_database_v.Tx.Ops.{Tree}
use mini_database_v.Tx.Commit.{Disk, CommitResult, begin_tx, commit, abort}
use mini_database_v.Table.Schema.{TableDef}
use mini_database_v.Ql.Ast.{Stmt}
use mini_database_v.Ql.Lex.{ParseError}
use mini_database_v.Ql.Stmt.{p_stmt}
use mini_database_v.Ql.Exec.{ExecError, DbOps, Tx}
use mini_database_v.Ql.Exec.Statement.{QlResult, no_result, exec_stmt, Result}

pub data SessionError : Type 0 where
  parse : ParseError → SessionError
  already_in_tx no_tx_to_commit no_tx_to_rollback : SessionError
  exec : ExecError → SessionError
  commit_failed : CommitResult → SessionError

-- The database with its cache of table definitions, and the active transaction.
pub record Session (T : Type 0) : Type 0 where
  pub db : Kv T
  pub tables : List (Bytes × TableDef)
  pub active : Option (Kvtx T)

-- What `ExecStr` returns; `inTX` is whether a transaction is active afterwards.
pub record Answer (I : Type 0) (T : Type 0) : Type 0 where
  pub result : SessionError ⊎ QlResult I
  pub in_tx : Bool
  pub session : Session T

module _ (ops : DbOps) where
  abbrev Root : Type 0
  Root = Tree ops.pages ops.levels

  abbrev pub Answered : Type 0
  Answered = Answer ops.pages.Pages Root

  abbrev in_active : Session Root → Bool
  in_active s = elim s.active [ none ↦ false | some tx ↦ true ]

  -- an error that leaves the session as it is
  abbrev pub refuse : SessionError → Session Root → Answered
  refuse e s = record { result = inl e; in_tx = in_active s; session = s }

  unfoldable pub exec_begin : Session Root → Answered
  unfolding begin_tx
  exec_begin s = elim s.active [
    | some tx ↦ refuse SessionError.already_in_tx s
    | none ↦
        let (tx, db) = begin_tx ops.pages ops.levels s.db in
        record {
          result = inr (no_result ops);
          in_tx = true;
          session = record s { db = db; active = some tx };
        }
  ]

  -- an answer of a commit
  abbrev pub commit_answer : {A : Type 0} → A → CommitResult → SessionError ⊎ A
  commit_answer a CommitResult.committed = inr a
  commit_answer a r = inl (SessionError.commit_failed r)

  unfoldable pub exec_commit : ℕ → Disk → Session Root → Option Answered
  unfolding commit
  exec_commit rows disk s = elim s.active [
    | none ↦ some (refuse SessionError.no_tx_to_commit s)
    | some tx ↦ Base.◌>>=◌ (commit ops.pages ops.levels rows disk s.db tx) λ done. some (record {
      result = commit_answer (no_result ops) done.0;
      in_tx = false;
      session = record s { db = done.1; active = none };
    })
  ]

  unfoldable pub exec_rollback : Session Root → Option Answered
  unfolding abort
  exec_rollback s = elim s.active [
    | none ↦ some (refuse SessionError.no_tx_to_rollback s)
    | some tx ↦ Base.◌>>=◌ (abort ops.pages ops.levels s.db tx) λ db. some (record {
      result = inr (no_result ops);
      in_tx = false;
      session = record s { db = db; active = none };
    })
  ]

  -- within the active transaction
  unfoldable pub exec_within : ℕ → Stmt → Kvtx Root → Session Root → Option Answered
  unfolding exec_stmt
  exec_within rows stmt tx s =
      Base.◌>>=◌ (exec_stmt ops rows stmt (record { kv = tx; tables = s.tables })) λ done.
        some (record {
          result = elim done.0 [ inl e ↦ inl (SessionError.exec e) | inr res ↦ inr res ];
          in_tx = true;
          session = record s { tables = done.1.tables; active = some done.1.kv };
        })

  -- A statement that failed is aborted, and else it is committed.
  unfoldable pub end_single :
      ℕ → Disk → (ExecError ⊎ Result ops) × Tx ops → Session Root → Option Answered
  unfolding abort commit
  end_single rows disk (inl e, tx) s = Base.◌>>=◌ (abort ops.pages ops.levels s.db tx.kv) λ db.
      some (record {
        result = inl (SessionError.exec e);
        in_tx = false;
        session = record s { db = db; tables = tx.tables };
      })
  end_single rows disk (inr res, tx) s =
      Base.◌>>=◌ (commit ops.pages ops.levels rows disk s.db tx.kv) λ done. some (record {
        result = commit_answer res done.0;
        in_tx = false;
        session = record s { db = done.1; tables = tx.tables };
      })

  -- a transaction of the statement alone
  unfoldable pub exec_single : ℕ → Disk → Stmt → Session Root → Option Answered
  unfolding begin_tx exec_stmt end_single
  exec_single rows disk stmt s =
      let (tx, db) = begin_tx ops.pages ops.levels s.db in
      Base.◌>>=◌ (exec_stmt ops rows stmt (record { kv = tx; tables = s.tables }))
        λ done. end_single rows disk done (record s { db = db })

  unfoldable pub dispatch : ℕ → Disk → Stmt → Session Root → Option Answered
  unfolding exec_begin exec_commit exec_rollback exec_within exec_single
  dispatch rows disk Stmt.begin_tx s = some (exec_begin s)
  dispatch rows disk Stmt.commit_tx s = exec_commit rows disk s
  dispatch rows disk Stmt.rollback_tx s = exec_rollback s
  dispatch rows disk stmt s = elim s.active [
    | some tx ↦ exec_within rows stmt tx s
    | none ↦ exec_single rows disk stmt s
  ]

  -- `ExecStr`; the rows that a query may pass at most, as the pending entries of a commit, come first.
  unfoldable pub exec_str : ℕ → Disk → Bytes → Session Root → Option Answered
  unfolding p_stmt dispatch
  exec_str rows disk text s = Base.◌>>=◌ (p_stmt text) λ parsed. elim parsed [
    | inr e ↦ some (refuse (SessionError.parse e) s)
    | inl stmt ↦ dispatch rows disk stmt s
  ]
