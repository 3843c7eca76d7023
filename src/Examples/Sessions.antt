-- ===== src/Examples/Sessions.antt =====
-- Sessions over small trees in memory.
use mini_database_v.Base.{subst, ◌≡◌, refl, true, false, List, [], ◌∷◌, none, some, inl, inr}
use mini_database_v.Base.Bytes.{Bytes, codes, put_be}
use mini_database_v.Btree.Node.{Entry, Node, page_size, bnode_leaf}
use mini_database_v.Btree.Ops.{Mode}
use mini_database_v.Btree.Pages.Memory.{memory}
use mini_database_v.Btree.Tree.{BTree}
use mini_database_v.Kv.State.{Kv}
use mini_database_v.Tx.State.{Kvtx}
use mini_database_v.Tx.Commit.{Disk}
use mini_database_v.Ql.Ast.{Stmt, node, nil, ql_i64}
use mini_database_v.Ql.Stmt.{p_stmt}
use mini_database_v.Table.Escape.{escape_string}
use mini_database_v.Table.Result
use mini_database_v.Table.Rows.{never_fails}
use mini_database_v.Ql.Eval.{eval_expr, eval_op}
use mini_database_v.Ql.Exec
use mini_database_v.Ql.Exec.{ExecError, DbTx, DbOps}
use mini_database_v.Ql.Exec.Statement.{run_stmt, no_result}
use mini_database_v.Ql.Exec.Session.{Session, Answered, exec_str, dispatch, exec_begin}
use mini_database_v.Ql.Exec.Session.Plain.{LeftWithin, Ends, exec_str_lem}
use mini_database_v.Ql.Exec.Session.Reached.{Reached, opened, ran, RolledBack, exec_rollback_lem}

abbrev small_ops : DbOps
small_ops = record {
  pages = memory;
  levels = 3;
  marshal = λ tdef. tdef.name;
  unmarshal = λ text. none;
}

abbrev entry : Bytes → Bytes → Entry
entry key val = record { ptr = 0; key = key; val = val }

-- A tree of one leaf: the sentinel and a key.
abbrev one_leaf : Bytes → BTree (List Node)
one_leaf val = record {
  root = 1;
  pages =
      record {
        room = page_size;
        btype = bnode_leaf;
        nkeys = 2;
        kvs = entry [] [] ∷ entry (107 ∷ []) val ∷ [];
      }
      ∷ [];
}

abbrev writer : Kvtx (BTree (List Node))
writer = record {
  snapshot = one_leaf (1 ∷ []);
  version = 3;
  pending = one_leaf (2 ∷ 9 ∷ []);
  reads = record { start = 107 ∷ []; stop = 107 ∷ [] } ∷ [];
  update_attempted = true;
  done = false;
}

abbrev pub store : Kv (BTree (List Node))
store = record {
  tree = one_leaf (1 ∷ []);
  pager = record {
    free = record {
      head_page = 1;
      head_seq = 0;
      tail_page = 1;
      tail_seq = 4;
      max_seq = 2;
      max_ver = 1;
      cur_ver = 3;
    };
    pages = record { flushed = 3; nappend = 1; updates = []; total = 1; chunks = [] };
  };
  failed = false;
  version = 3;
  ongoing = 3 ∷ 3 ∷ [];
  history = [];
}

abbrev text : Bytes
text = codes "insert into t (a) values (1);"

abbrev inserting : Stmt
inserting = Stmt.insert (record {
  table = codes "t";
  mode = Mode.insert_only;
  names = codes "a" ∷ [];
  values = (node ql_i64 1 [] nil ∷ []) ∷ [];
})

abbrev session : Session (BTree (List Node))
session = record { db = store; tables = []; active = some writer }

abbrev disk : Disk
disk = record { rewritten = true; updated = true }

text_parsed : p_stmt text ≡ some (inl inserting)
unfolding p_stmt
text_parsed = refl

-- The transaction behind the search of the table.
abbrev looked_up : DbTx (BTree (List Node))
looked_up = record {
  kv = record writer {
    reads =
        record { start = 107 ∷ []; stop = 107 ∷ [] }
        ∷ record {
          start = 0 ∷ 0 ∷ 0 ∷ 2 ∷ 1 ∷ 116 ∷ 0 ∷ [];
          stop = 0 ∷ 0 ∷ 0 ∷ 2 ∷ 1 ∷ 116 ∷ 0 ∷ 255 ∷ [];
        }
        ∷ [];
  };
  tables = [];
}

table_missing :
    run_stmt small_ops 9 inserting (record { kv = writer; tables = [] })
    ≡ some (inl ExecError.table_not_found, looked_up)
unfolding run_stmt Exec.give Exec.fail Exec.sure Exec.evaluated Exec.on_kv Exec.◌>>=◌ Result.◌>>=◌
    Result.total Result.check Result.pure never_fails eval_expr eval_op put_be escape_string
table_missing = refl

-- The table is missing.
exec_str_example :
    (r : Answered small_ops) × (exec_str small_ops 9 disk text session ≡ some r)
    × LeftWithin small_ops session writer ExecError.table_not_found r
exec_str_example =
    subst
      (λ o. Ends small_ops 9 disk session (some writer) o (exec_str small_ops 9 disk text session))
      table_missing (exec_str_lem small_ops 9 disk text inserting session text_parsed refl)

abbrev start : Session (BTree (List Node))
start = record { db = store; tables = []; active = none }

abbrev begun : Answered small_ops
begun = record {
  result = inr (no_result small_ops);
  in_tx = true;
  session = record {
    db = record store { ongoing = 3 ∷ 3 ∷ 3 ∷ [] };
    tables = [];
    active = some (record writer {
      pending = record { root = 0; pages = [] };
      reads = [];
      update_attempted = false;
    });
  };
}

begin_answer : exec_str small_ops 9 disk (codes "begin;") start ≡ some begun
unfolding exec_str dispatch exec_begin p_stmt
begin_answer = refl

begun-Reached : Reached small_ops begun.session
begun-Reached = ran 9 disk (codes "begin;") start begun (opened store []) begin_answer

rollback_parsed : p_stmt (codes "rollback;") ≡ some (inl Stmt.rollback_tx)
unfolding p_stmt
rollback_parsed = refl

exec_rollback_example :
    (r : Answered small_ops) × (exec_str small_ops 9 disk (codes "rollback;") begun.session
      ≡ some r)
    × RolledBack small_ops begun.session begun.session.active r
exec_rollback_example =
    exec_rollback_lem small_ops 9 disk (codes "rollback;") begun.session begun-Reached
      rollback_parsed
