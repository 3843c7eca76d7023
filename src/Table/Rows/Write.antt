-- ===== src/Table/Rows/Write.antt =====
-- Insertions, updates and deletions of rows, and new tables, of table.go.
pub mod Frame
use mini_database_v.Base.{
  ℕ, zero, suc, ◌+◌, ◌%◌, ◌^◌, ltb, ◌==◌, ◌&&◌, not, Bool, true, false, if◌then◌else◌, Option, none,
  some, List, [], ◌∷◌, ◌++◌, length, get_elem?, take, drop,
}
use mini_database_v.Base
use mini_database_v.Base.Bytes.{Bytes, codes}
use mini_database_v.Base.Buffer.{put_le, get_le}
use mini_database_v.Btree.Pages.{PageOps}
use mini_database_v.Btree.Ops.{Mode, is_some}
use mini_database_v.Cmp.{Cmp}
use mini_database_v.Tx.State.{Kvtx}
use mini_database_v.Tx.Ops.{Tree, Updated, tx_update, tx_del}
use mini_database_v.Table.Value.{Value, Record, type_bytes, add_str, get}
use mini_database_v.Table.Encode.{encode_key, encode_values, decode_values}
use mini_database_v.Table.Result.{
  DbError, Res, ok, err, M, pure, check, total, assert_that, ◌>>=◌, ◌>>◌, of_tx,
}
use mini_database_v.Table.Schema.{
  TableDef, get_values, primary_key, ordered_cols, non_primary_key_cols, table_def_check,
}
use mini_database_v.Table.Rows.{blank_values, db_get, never_fails}

-- INDEX_ADD and INDEX_DEL
pub data IndexOp : Type 0 where
  index_add index_del : IndexOp

-- `nil` is the empty value
abbrev pub old_value : Updated → Bytes
old_value u = elim u.old [ none ↦ [] | some v ↦ v ]

-- A full record has every column, so an error is a failed assertion.
unfoldable pub must : {S A : Type 0} → Option (Res A) → M S A
must none s = none
must (some (err e)) s = none
must (some (ok a)) s = some (ok a, s)

module _ (ops : PageOps) (levels : ℕ) where
  abbrev Root : Type 0
  Root = Tree ops levels

  -- one round of `indexOp`
  unfoldable pub index_key : IndexOp → Bytes → M (Kvtx Root) (Unit {0})
  unfolding tx_update tx_del
  index_key IndexOp.index_add key = do
    req ← of_tx (tx_update ops levels key [] Mode.upsert)
    assert_that req.added
  index_key IndexOp.index_del key = do req ← of_tx (tx_del ops levels key); assert_that req.updated

  -- The loop over the indexes behind the primary key, from a position on.
  unfoldable pub index_loop :
      IndexOp → TableDef → Record → ℕ → List (List Bytes) → M (Kvtx Root) (Unit {0})
  unfolding index_key get_values encode_key
  index_loop op tdef rec i [] = pure tt
  index_loop op tdef rec i (index ∷ indexes) = do
    values ← must (get_values tdef rec index)
    prefix ← total (get_elem? tdef.prefixes i)
    key ← total (encode_key [] prefix values)
    index_key op key
    index_loop op tdef rec (suc i) indexes

  unfoldable pub index_op : IndexOp → TableDef → Record → M (Kvtx Root) (Unit {0})
  unfolding index_loop
  index_op op tdef rec = index_loop op tdef rec 1 (drop 1 tdef.indexes)

  -- The index keys of the row before the update.
  drop_old_keys : TableDef → List Bytes → List Value → ℕ → Bytes → M (Kvtx Root) (Unit {0})
  unfolding index_op decode_values
  drop_old_keys tdef cols values npk old = do
    olds ← total (decode_values old (drop npk values))
    index_op IndexOp.index_del tdef (record { cols = cols; vals = take npk values ++ olds })

  -- The secondary indexes after the update of a row: the old keys go, the new ones come.
  update_indexes :
      TableDef → Record → List Bytes → List Value → ℕ → Updated → M (Kvtx Root) (Unit {0})
  unfolding index_op drop_old_keys
  update_indexes tdef rec cols values npk req = do
    if req.updated && not req.added
        then drop_old_keys tdef cols values npk (old_value req)
        else pure tt
    if req.updated then index_op IndexOp.index_add tdef rec else pure tt

  -- `dbUpdate`: whether the row was updated, and whether it was added.
  unfoldable pub db_update : TableDef → Record → Mode → M (Kvtx Root) Updated
  unfolding ordered_cols primary_key get_values encode_key encode_values tx_update update_indexes
  db_update tdef rec mode = do
    cols ← total (ordered_cols tdef)
    values ← check (get_values tdef rec cols)
    pk ← total (primary_key tdef)
    let npk = length pk
    prefix ← total (get_elem? tdef.prefixes 0)
    key ← total (encode_key [] prefix (take npk values))
    val ← total (encode_values [] (drop npk values))
    req ← of_tx (tx_update ops levels key val mode)
    update_indexes tdef rec cols values npk req
    pure req

  -- The columns of the old record are those of the table, in the order of their definition, and its
  -- values start with the primary key.
  delete_indexes : TableDef → List Value → Updated → M (Kvtx Root) (Unit {0})
  unfolding index_op decode_values blank_values non_primary_key_cols
  delete_indexes tdef keys req = do
    rest ← total (non_primary_key_cols tdef)
    blanks ← total (blank_values tdef rest)
    olds ← total (decode_values (old_value req) blanks)
    index_op IndexOp.index_del tdef (record { cols = tdef.cols; vals = keys ++ olds })

  delete_row : TableDef → List Value → M (Kvtx Root) Bool
  unfolding encode_key tx_del delete_indexes
  delete_row tdef keys = do
    prefix ← total (get_elem? tdef.prefixes 0)
    key ← total (encode_key [] prefix keys)
    req ← of_tx (tx_del ops levels key)
    elim req.updated [ false ↦ pure false | true ↦ delete_indexes tdef keys req >> pure true ]

  -- `dbDelete`: a record without the primary key deletes nothing, and is no error.
  unfoldable pub db_delete : TableDef → Record → M (Kvtx Root) Bool
  unfolding primary_key get_values delete_row
  db_delete tdef rec = do
    pk ← total (primary_key tdef)
    found ← total (get_values tdef rec pk)
    elim found [ err e ↦ pure false | ok keys ↦ delete_row tdef keys ]

-- TDEF_META and TDEF_TABLE
abbrev pub tdef_meta : TableDef
tdef_meta = record {
  name = codes "@meta";
  types = type_bytes ∷ type_bytes ∷ [];
  cols = codes "key" ∷ codes "val" ∷ [];
  indexes = (codes "key" ∷ []) ∷ [];
  prefixes = 1 ∷ [];
}

abbrev pub tdef_table : TableDef
tdef_table = record {
  name = codes "@table";
  types = type_bytes ∷ type_bytes ∷ [];
  cols = codes "name" ∷ codes "def" ∷ [];
  indexes = (codes "name" ∷ []) ∷ [];
  prefixes = 2 ∷ [];
}

-- TABLE_PREFIX_MIN
abbrev pub table_prefix_min : ℕ
table_prefix_min = 100

abbrev pub no_columns : Record
no_columns = record { cols = []; vals = [] }

-- the prefixes from the first one on, as `uint32`
unfoldable pub prefixes_from : ℕ → List (List Bytes) → List ℕ
prefixes_from p [] = []
prefixes_from p (index ∷ indexes) = p % 2 ^ 32 ∷ prefixes_from (suc p) indexes

-- `Get("val").Str` of the counter: its value, with the assertion on it, and the bytes behind it.
unfoldable pub counter_value : Record → Option (ℕ × Bytes)
unfolding get get_le
counter_value rec = Base.◌>>=◌ (get rec (codes "val")) λ found. elim found [
  | none ↦ none
  | some v ↦
      if ltb (length v.str) 4
      then none
      else let prefix = get_le (take 4 v.str) in
        if ltb table_prefix_min prefix then some (prefix, drop 4 v.str) else none
]

-- The encoding of a table definition, by `encoding/json`, is a parameter.
module _ (ops : PageOps) (levels : ℕ) (marshal : TableDef → Bytes) where
  abbrev Db : Type 0
  Db = Tree ops levels

  -- an error of reading an internal table is a failed assertion
  must_get : TableDef → Record → M (Kvtx Db) (Option Record)
  unfolding db_get never_fails
  must_get tdef rec = never_fails (db_get ops levels 1 tdef rec)

  -- The next prefix, with the least one where the counter is missing.
  unfoldable pub next_prefix : M (Kvtx Db) (ℕ × Bytes)
  unfolding must_get counter_value add_str
  next_prefix = do
    row ← must_get tdef_meta (add_str no_columns (codes "key") (codes "next_prefix"))
    elim row [ none ↦ pure (table_prefix_min, []) | some rec ↦ total (counter_value rec) ]

  unfoldable pub table_new : TableDef → M (Kvtx Db) (Unit {0})
  unfolding table_def_check must_get next_prefix prefixes_from db_update add_str
  table_new given = do
    tdef ← check (table_def_check given)
    let name = add_str no_columns (codes "name") tdef.name
    known ← must_get tdef_table name
    check (some (if is_some known then err DbError.table_exists else ok tt))
    (prefix, behind) ← next_prefix
    assert_that (length tdef.prefixes == 0)
    let full = record tdef { prefixes = prefixes_from prefix tdef.indexes }
    let counter =
        add_str (add_str no_columns (codes "key") (codes "next_prefix")) (codes "val")
          (put_le 4 ((prefix + length tdef.indexes) % 2 ^ 32) ++ behind)
    _ ← db_update ops levels tdef_meta counter Mode.upsert
    _ ← db_update ops levels tdef_table (add_str name (codes "def") (marshal full)) Mode.upsert
    pure tt
