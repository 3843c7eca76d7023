-- ===== src/Table/Rows/Write/Frame.antt =====
-- The writes of rows and the new tables of table.go leave the snapshot of their transaction alone.
use mini_database_v.Base.{
  ℕ, suc, Bool, true, false, Option, none, some, List, [], ◌∷◌, ◌++◌, length, take, drop, not, ◌&&◌,
  ◌+◌, ◌%◌, ◌^◌,
}
use mini_database_v.Base.Bytes.{Bytes, codes}
use mini_database_v.Base.Buffer.{put_le}
use mini_database_v.Btree.Pages.{PageOps}
use mini_database_v.Btree.Ops.{Mode}
use mini_database_v.Tx.State.{Kvtx}
use mini_database_v.Tx.Ops.{Tree, Updated, tx_update, tx_del}
use mini_database_v.Tx.Ops.Frame.{Frame-refl, tx_update-Framed, tx_del-Framed}
use mini_database_v.Table.Value.{Value, Record, add_str}
use mini_database_v.Table.Result
use mini_database_v.Table.Result.{M, Res, ok, err}
use mini_database_v.Table.Result.Keeps.{
  Keeps, pure-Keeps, check-Keeps, total-Keeps, assert_that-Keeps, bind-Keeps, of_tx-Keeps,
}
use mini_database_v.Table.Schema.{TableDef}
use mini_database_v.Table.Rows.Frame.{
  if-Keeps, bool-Keeps, option-Keeps, never_fails-Keeps, db_get-Keeps,
}
use mini_database_v.Table.Rows.Write.{
  no_columns, IndexOp, must, index_key, index_loop, index_op, drop_old_keys, old_value,
  update_indexes, db_update, delete_indexes, delete_row, db_delete, must_get, next_prefix,
  table_new, tdef_meta, tdef_table, prefixes_from,
}

must-Keeps : {T A : Type 0} (r : Option (Res A)) → Keeps (must {S = Kvtx T} r)
unfolding must
must-Keeps none = record { framed = λ tx. tt }
must-Keeps (some (err e)) = record { framed = λ tx. tt }
must-Keeps (some (ok a)) = record { framed = λ tx. Frame-refl tx }

module _ (ops : PageOps) (levels : ℕ) where
  abbrev Root : Type 0
  Root = Tree ops levels

  index_key-Keeps : (op : IndexOp) (key : Bytes) → Keeps (index_key ops levels op key)
  unfolding index_key
  index_key-Keeps IndexOp.index_add key =
      bind-Keeps
        (of_tx-Keeps (tx_update ops levels key [] Mode.upsert)
          (tx_update-Framed ops levels key [] Mode.upsert))
        λ req. assert_that-Keeps req.added
  index_key-Keeps IndexOp.index_del key =
      bind-Keeps (of_tx-Keeps (tx_del ops levels key) (tx_del-Framed ops levels key))
        λ req. assert_that-Keeps req.updated

  index_loop-Keeps :
      (op : IndexOp) (tdef : TableDef) (rec : Record) (i : ℕ) (indexes : List (List Bytes))
      → Keeps (index_loop ops levels op tdef rec i indexes)
  unfolding index_loop
  index_loop-Keeps op tdef rec i [] = pure-Keeps tt
  index_loop-Keeps op tdef rec i (index ∷ indexes) = bind-Keeps (must-Keeps _) λ values.
      bind-Keeps (total-Keeps _) λ prefix. bind-Keeps (total-Keeps _) λ key.
        bind-Keeps (index_key-Keeps op key) λ done. index_loop-Keeps op tdef rec (suc i) indexes

  index_op-Keeps :
      (op : IndexOp) (tdef : TableDef) (rec : Record) → Keeps (index_op ops levels op tdef rec)
  unfolding index_op
  index_op-Keeps op tdef rec = index_loop-Keeps op tdef rec 1 (drop 1 tdef.indexes)

  drop_old_keys-Keeps :
      (tdef : TableDef) (cols : List Bytes) (values : List Value) (npk : ℕ) (old : Bytes)
      → Keeps (drop_old_keys ops levels tdef cols values npk old)
  unfolding drop_old_keys
  drop_old_keys-Keeps tdef cols values npk old = bind-Keeps (total-Keeps _) λ olds.
      index_op-Keeps IndexOp.index_del tdef (record { cols = cols; vals = take npk values ++ olds })

  update_indexes-Keeps :
      (tdef : TableDef) (rec : Record) (cols : List Bytes) (values : List Value) (npk : ℕ)
      (req : Updated)
      → Keeps (update_indexes ops levels tdef rec cols values npk req)
  unfolding update_indexes
  update_indexes-Keeps tdef rec cols values npk req =
      bind-Keeps
        (if-Keeps (req.updated && not req.added)
          (drop_old_keys-Keeps tdef cols values npk (old_value req)) (pure-Keeps tt))
        λ dropped. if-Keeps req.updated (index_op-Keeps IndexOp.index_add tdef rec) (pure-Keeps tt)

  pub db_update-Keeps :
      (tdef : TableDef) (rec : Record) (mode : Mode) → Keeps (db_update ops levels tdef rec mode)
  unfolding db_update
  db_update-Keeps tdef rec mode = bind-Keeps (total-Keeps _) λ cols.
      bind-Keeps (check-Keeps _) λ values. bind-Keeps (total-Keeps _) λ pk.
        bind-Keeps (total-Keeps _) λ prefix. bind-Keeps (total-Keeps _) λ key.
          bind-Keeps (total-Keeps _) λ val.
            bind-Keeps
              (of_tx-Keeps (tx_update ops levels key val mode)
                (tx_update-Framed ops levels key val mode))
              λ req.
                bind-Keeps (update_indexes-Keeps tdef rec cols values (length pk) req)
                  λ done. pure-Keeps req

  delete_indexes-Keeps :
      (tdef : TableDef) (keys : List Value) (req : Updated)
      → Keeps (delete_indexes ops levels tdef keys req)
  unfolding delete_indexes
  delete_indexes-Keeps tdef keys req = bind-Keeps (total-Keeps _) λ rest.
      bind-Keeps (total-Keeps _) λ blanks. bind-Keeps (total-Keeps _) λ olds.
        index_op-Keeps IndexOp.index_del tdef (record { cols = tdef.cols; vals = keys ++ olds })

  delete_row-Keeps : (tdef : TableDef) (keys : List Value) → Keeps (delete_row ops levels tdef keys)
  unfolding delete_row
  delete_row-Keeps tdef keys = bind-Keeps (total-Keeps _) λ prefix.
      bind-Keeps (total-Keeps _) λ key.
        bind-Keeps (of_tx-Keeps (tx_del ops levels key) (tx_del-Framed ops levels key)) λ req.
          bool-Keeps req.updated
            (bind-Keeps (delete_indexes-Keeps tdef keys req) λ done. pure-Keeps true)
            (pure-Keeps false)

  pub db_delete-Keeps : (tdef : TableDef) (rec : Record) → Keeps (db_delete ops levels tdef rec)
  unfolding db_delete
  db_delete-Keeps tdef rec =
      bind-Keeps (total-Keeps _) λ pk. bind-Keeps (total-Keeps _) λ found. keyed found
    where
      keyed :
          (found : Res (List Value))
          → Keeps {A = Bool} (elim found [
            | err e ↦ Result.pure {S = Kvtx Root} {A = Bool} false
            | ok keys ↦ delete_row ops levels tdef keys
          ])
      keyed (err e) = pure-Keeps false
      keyed (ok keys) = delete_row-Keeps tdef keys

module _ (ops : PageOps) (levels : ℕ) (marshal : TableDef → Bytes) where
  abbrev Db : Type 0
  Db = Tree ops levels

  must_get-Keeps : (tdef : TableDef) (rec : Record) → Keeps (must_get ops levels marshal tdef rec)
  unfolding must_get
  must_get-Keeps tdef rec = never_fails-Keeps (db_get-Keeps ops levels 1 tdef rec)

  next_prefix-Keeps : Keeps (next_prefix ops levels marshal)
  unfolding next_prefix
  next_prefix-Keeps =
      bind-Keeps (must_get-Keeps tdef_meta (add_str no_columns (codes "key") (codes "next_prefix")))
        λ row. option-Keeps row (pure-Keeps _) λ rec. total-Keeps _

  abbrev counter_row : TableDef → ℕ → Bytes → Record
  counter_row tdef prefix behind =
      add_str (add_str no_columns (codes "key") (codes "next_prefix")) (codes "val")
        (put_le 4 ((prefix + length tdef.indexes) % 2 ^ 32) ++ behind)

  pub table_new-Keeps : (given : TableDef) → Keeps (table_new ops levels marshal given)
  unfolding table_new
  table_new-Keeps given = bind-Keeps (check-Keeps _) λ tdef.
      bind-Keeps (must_get-Keeps tdef_table (add_str no_columns (codes "name") tdef.name)) λ known.
        bind-Keeps (check-Keeps _) λ fresh. bind-Keeps next_prefix-Keeps λ next.
          bind-Keeps (assert_that-Keeps _) λ none_yet.
            bind-Keeps
              (db_update-Keeps ops levels tdef_meta (counter_row tdef next.0 next.1) Mode.upsert)
              λ counted.
                bind-Keeps
                  (db_update-Keeps ops levels tdef_table
                    (add_str (add_str no_columns (codes "name") tdef.name) (codes "def")
                      (marshal (record tdef { prefixes = prefixes_from next.0 tdef.indexes })))
                    Mode.upsert)
                  λ stored. pure-Keeps tt
