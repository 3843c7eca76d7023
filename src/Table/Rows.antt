-- ===== src/Table/Rows.antt =====
-- Reading and writing rows: the scans, updates and deletions of table.go over a transaction.
pub mod Write
pub mod Frame
use mini_database_v.Base.{
  ℕ, zero, suc, ◌+◌, ◌==◌, ◌&&◌, ◌||◌, not, Bool, true, false, if◌then◌else◌, Option, none, some,
  List, [], ◌∷◌, ◌++◌, length, get_elem?, take, drop,
}
use mini_database_v.Base
use mini_database_v.Base.Bytes.{Bytes}
use mini_database_v.Cmp.{Cmp, is_positive, is_negative, cmp2dir}
use mini_database_v.Btree.Pages.{PageOps}
use mini_database_v.Btree.Pages.Memory.{memory}
use mini_database_v.Btree.Iter.{seek}
use mini_database_v.Tx.State.{Kvtx}
use mini_database_v.Tx.Ops.{Tree, seek_range}
use mini_database_v.Tx.Combined.{CombinedIter, combined_deref, combined_valid, combined_next}
use mini_database_v.Table.Value.{Value, Record, get}
use mini_database_v.Table.Encode.{encode_key_partial, decode_key, decode_values}
use mini_database_v.Table.Result.{
  DbError, Res, ok, err, and_check, M, pure, panic, check, total, assert_that, ◌>>=◌, ◌>>◌,
}
use mini_database_v.Table.Schema.{
  TableDef, get_values, primary_key, ordered_cols, type_of_col, check_types, select_index,
}

-- The internal fields of `Scanner`; the transaction is the state.
pub record Scanner (Pages : Type 0) : Type 0 where
  pub tdef : TableDef
  pub index : ℕ
  pub iter : CombinedIter Pages

-- the empty values of the columns, `Value{Type: type_}`
unfoldable pub blank_values : TableDef → List Bytes → Option (List Value)
unfolding type_of_col
blank_values tdef [] = some []
blank_values tdef (c ∷ cols) = Base.◌>>=◌ (type_of_col tdef c) λ t.
    Base.◌>>=◌ (blank_values tdef cols) λ rest. some (record { type = t; i64 = 0; str = [] } ∷ rest)

-- `*idxRec.Get(c)` for each column: a missing column is a panic.
unfoldable pub pick_values : Record → List Bytes → Option (List Value)
unfolding get
pick_values rec [] = some []
pick_values rec (c ∷ cols) = Base.◌>>=◌ (get rec c) λ found. elim found [
  | none ↦ none
  | some v ↦ Base.◌>>=◌ (pick_values rec cols) λ rest. some (v ∷ rest)
]

-- `assert(err == nil)`
unfoldable pub never_fails : {S A : Type 0} → M S A → M S A
never_fails m s = elim (m s) [
  | none ↦ none
  | some (err e, s') ↦ none
  | some (ok a, s') ↦ some (ok a, s')
]

-- The two cases of the range check: forward, and backward.
unfoldable pub is_range : Cmp → Cmp → Bool
is_range cmp1 cmp2 = is_positive cmp1 && is_negative cmp2 || is_positive cmp2 && is_negative cmp1

module _ (ops : PageOps) (levels : ℕ) where
  open ops use {Pages}

  abbrev Root : Type 0
  Root = Tree ops levels

  -- `KVTX.Seek`
  unfoldable pub kv_seek : Bytes → Cmp → Bytes → Cmp → M (Kvtx Root) (CombinedIter Pages)
  unfolding seek_range cmp2dir seek
  kv_seek key1 cmp1 key2 cmp2 tx = Base.◌>>=◌ (seek_range key1 cmp1 key2 cmp2 tx) λ tx'.
      Base.◌>>=◌ (cmp2dir cmp1) λ direction.
        Base.◌>>=◌ (seek memory tx.pending.pages levels tx.pending.root key1 cmp1) λ top.
          Base.◌>>=◌ (seek ops tx.snapshot.pages levels tx.snapshot.root key1 cmp1) λ bottom. some (
            ok (record {
              top = top;
              top_pages = tx.pending.pages;
              bottom = bottom;
              bottom_pages = tx.snapshot.pages;
              direction = direction;
              end_key = key2;
              end_cmp = cmp2;
            }),
            tx',
          )

  scan_at : TableDef → Record → Cmp → Record → Cmp → ℕ → M (Kvtx Root) (Scanner Pages)
  unfolding kv_seek encode_key_partial
  scan_at tdef key1 cmp1 key2 cmp2 i = do
    prefix ← total (get_elem? tdef.prefixes i)
    start ← total (encode_key_partial [] prefix key1.vals cmp1)
    stop ← total (encode_key_partial [] prefix key2.vals cmp2)
    iter ← kv_seek start cmp1 stop cmp2
    pure (record { tdef = tdef; index = i; iter = iter })

  unfoldable pub db_scan : TableDef → Record → Cmp → Record → Cmp → M (Kvtx Root) (Scanner Pages)
  unfolding is_range check_types select_index scan_at
  db_scan tdef key1 cmp1 key2 cmp2 = do
    check (some (if is_range cmp1 cmp2 then ok tt else err DbError.bad_range))
    check (check_types tdef key1)
    check (check_types tdef key2)
    elim (select_index key1.cols key2.cols tdef.indexes) [
      | none ↦ check (some (err DbError.no_index))
      | some i ↦ scan_at tdef key1 cmp1 key2 cmp2 i
    ]

  -- `Deref` at the primary key: the whole row.
  unfoldable pub whole_row : TableDef → Bytes → Bytes → Option Record
  unfolding ordered_cols primary_key blank_values decode_key decode_values
  whole_row tdef key val = Base.◌>>=◌ (ordered_cols tdef) λ cols.
      Base.◌>>=◌ (primary_key tdef) λ pk. Base.◌>>=◌ (blank_values tdef cols) λ blanks.
        Base.◌>>=◌ (decode_key key (take (length pk) blanks)) λ keys.
          Base.◌>>=◌ (decode_values val (drop (length pk) blanks))
            λ rest. some (record { cols = cols; vals = keys ++ rest })

  -- The record with the primary key that an index key holds.
  unfoldable pub key_of_index : TableDef → ℕ → Bytes → Option Record
  unfolding ordered_cols primary_key blank_values decode_key pick_values
  key_of_index tdef i key = Base.◌>>=◌ (get_elem? tdef.indexes i) λ index.
      Base.◌>>=◌ (blank_values tdef index) λ blanks. Base.◌>>=◌ (decode_key key blanks) λ vals.
        Base.◌>>=◌ (primary_key tdef) λ pk.
          Base.◌>>=◌ (pick_values (record { cols = index; vals = vals }) pk) λ keys.
            Base.◌>>=◌ (ordered_cols tdef) λ cols.
              Base.◌>>=◌ (blank_values tdef cols) λ all_blank.
                some (record { cols = cols; vals = keys ++ drop (length pk) all_blank })

  -- `Deref`, with the read of a row by its primary key.
  unfoldable pub deref_with :
      (TableDef → Record → M (Kvtx Root) (Option Record)) → Scanner Pages → M (Kvtx Root) Record
  unfolding combined_valid combined_deref whole_row key_of_index
  deref_with get_row sc = do
    valid ← total (combined_valid ops sc.iter)
    assert_that valid
    kv ← total (combined_deref ops sc.iter)
    if sc.index == 0
        then total (whole_row sc.tdef kv.0 kv.1)
        else assert_that (length kv.1 == 0) >> total (key_of_index sc.tdef sc.index kv.0) >>= λ rec.
            never_fails (get_row sc.tdef rec) >>= λ row. elim row [
              | none ↦ panic
              | some found ↦ pure found
            ]

  -- `dbGet`: no row, or the row. A read by an index reads by the primary key in turn; the reads
  -- that may follow one another come first.
  unfoldable pub db_get : ℕ → TableDef → Record → M (Kvtx Root) (Option Record)
  unfolding get_values primary_key db_scan combined_valid deref_with
  db_get zero tdef rec = panic
  db_get (suc reads) tdef rec = do
    pk ← total (primary_key tdef)
    values ← check (get_values tdef rec pk)
    let key : Record = record { cols = pk; vals = values }
    sc ← db_scan tdef key Cmp.ge key Cmp.le
    valid ← total (combined_valid ops sc.iter)
    elim valid [
      | false ↦ pure none
      | true ↦ deref_with (db_get reads) sc >>= λ row. pure (some row)
    ]

  -- `Scanner.Valid`, `Next` and `Deref`
  unfoldable pub scan_valid : Scanner Pages → Option Bool
  unfolding combined_valid
  scan_valid sc = combined_valid ops sc.iter

  unfoldable pub scan_next : Scanner Pages → Option (Scanner Pages)
  unfolding combined_next
  scan_next sc = Base.◌>>=◌ (combined_next ops sc.iter) λ iter. some (record sc { iter = iter })

  -- The row of an index key is read at the primary key, which the first index covers.
  unfoldable pub scan_deref : Scanner Pages → M (Kvtx Root) Record
  unfolding deref_with db_get
  scan_deref = deref_with (db_get 1)
