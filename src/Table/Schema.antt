-- ===== src/Table/Schema.antt =====
-- The table definitions of table.go, and what reads the columns of a row by them.
pub mod Columns
pub mod Check
pub mod Choice
use mini_database_v.Base.{
  ℕ, zero, suc, ◌+◌, ltb, leb, ◌==◌, ◌&&◌, ◌||◌, not, Bool, true, false, if◌then◌else◌, Option,
  none, some, List, [], ◌∷◌, ◌++◌, length, get_elem?, take, ◌>>=◌,
}
use mini_database_v.Base.Bytes.{Bytes, eq_bytes}
use mini_database_v.Table.Value.{Value, Record, get}
use mini_database_v.Table.Result.{DbError, Res, ok, err, and_check}

pub record TableDef : Type 0 where
  pub name : Bytes
  pub types : List ℕ
  pub cols : List Bytes
  pub indexes : List (List Bytes)
  pub prefixes : List ℕ

-- `slices.Index`; `none` is -1.
unfoldable pub slices_index : List Bytes → Bytes → Option ℕ
slices_index [] c = none
slices_index (d ∷ ds) c =
    let rest = slices_index ds c in
    if eq_bytes d c then some 0 else elim rest [ none ↦ none | some i ↦ some (suc i) ]

abbrev pub is_in : List Bytes → Bytes → Bool
is_in cols c = elim (slices_index cols c) [ none ↦ false | some i ↦ true ]

-- `tdef.Types[slices.Index(tdef.Cols, c)]`
unfoldable pub type_of_col : TableDef → Bytes → Option ℕ
unfolding slices_index
type_of_col tdef c = slices_index tdef.cols c >>= get_elem? tdef.types

-- `tdef.Indexes[0]`
unfoldable pub primary_key : TableDef → Option (List Bytes)
primary_key tdef = get_elem? tdef.indexes 0

-- one round of `getValues`
unfoldable pub get_value : TableDef → Record → Bytes → Option (Res Value)
unfolding get type_of_col
get_value tdef rec c = get rec c >>= λ found. elim found [
  | none ↦ some (err (DbError.missing_column c))
  | some v ↦ type_of_col tdef c >>= λ t.
      some (if v.type == t then ok v else err (DbError.bad_column_type c))
]

unfoldable pub get_values : TableDef → Record → List Bytes → Option (Res (List Value))
unfolding get_value
get_values tdef rec [] = some (ok [])
get_values tdef rec (c ∷ cols) =
    and_check (get_value tdef rec c)
      λ v. and_check (get_values tdef rec cols) λ vs. some (ok (v ∷ vs))

-- the loop of `nonPrimaryKeyCols`
unfoldable pub cols_outside : List Bytes → List Bytes → List Bytes
unfolding slices_index
cols_outside pk [] = []
cols_outside pk (c ∷ cols) =
    let rest = cols_outside pk cols in if is_in pk c then rest else c ∷ rest

unfoldable pub non_primary_key_cols : TableDef → Option (List Bytes)
unfolding cols_outside primary_key
non_primary_key_cols tdef = primary_key tdef >>= λ pk. some (cols_outside pk tdef.cols)

-- the columns with the primary key first
unfoldable pub ordered_cols : TableDef → Option (List Bytes)
unfolding primary_key non_primary_key_cols
ordered_cols tdef =
    primary_key tdef >>= λ pk. non_primary_key_cols tdef >>= λ rest. some (pk ++ rest)

-- The loop of `checkIndexCols` over the columns, with those seen.
unfoldable pub check_cols : TableDef → List Bytes → List Bytes → Option (Res (List Bytes))
unfolding slices_index
check_cols tdef seen [] = some (ok seen)
check_cols tdef seen (c ∷ cols) =
    let rest = check_cols tdef (c ∷ seen) cols in
    if not (is_in tdef.cols c)
    then some (err (DbError.unknown_index_column c))
    else if is_in seen c
    then some (err (DbError.duplicate_index_column c))
    else rest

-- the primary key columns that were not seen
unfoldable pub unseen : List Bytes → List Bytes → List Bytes
unfolding slices_index
unseen seen [] = []
unseen seen (c ∷ pk) = let rest = unseen seen pk in if is_in seen c then rest else c ∷ rest

unfoldable pub check_index_cols : TableDef → List Bytes → Option (Res (List Bytes))
check_index_cols tdef [] = some (err DbError.empty_index)
check_index_cols tdef (c ∷ index) = and_check (check_cols tdef [] (c ∷ index)) λ seen.
    primary_key tdef >>= λ pk.
    let whole = (c ∷ index) ++ unseen seen pk in
    if leb (length whole) (length tdef.cols) then some (ok whole) else none

-- The loop of `tableDefChecK`: an index is replaced before the next one is checked.
unfoldable pub check_indexes :
    TableDef → List (List Bytes) → List (List Bytes) → Option (Res TableDef)
unfolding check_index_cols
check_indexes tdef before [] = some (ok (record tdef { indexes = before }))
check_indexes tdef before (index ∷ rest) =
    and_check (check_index_cols (record tdef { indexes = before ++ index ∷ rest }) index)
      λ whole. check_indexes tdef (before ++ whole ∷ []) rest

unfoldable pub table_def_check : TableDef → Option (Res TableDef)
unfolding check_indexes
table_def_check tdef =
    if length tdef.name == 0
      || length tdef.cols == 0
      || length tdef.indexes == 0
      || not (length tdef.cols == length tdef.types)
    then some (err DbError.bad_schema)
    else check_indexes tdef [] tdef.indexes

-- `checkTypes`
unfoldable pub check_columns : TableDef → List Bytes → List Value → Option (Res (Unit {0}))
unfolding slices_index
check_columns tdef [] vals = some (ok tt)
check_columns tdef (c ∷ cols) [] = none
check_columns tdef (c ∷ cols) (v ∷ vals) =
    let rest = check_columns tdef cols vals in
    elim (slices_index tdef.cols c) [
      | none ↦ some (err (DbError.bad_column c))
      | some j ↦ get_elem? tdef.types j >>= λ t.
          if t == v.type then rest else some (err (DbError.bad_column c))
    ]

unfoldable pub check_types : TableDef → Record → Option (Res (Unit {0}))
unfolding check_columns
check_types tdef rec =
    if length rec.cols == length rec.vals
    then check_columns tdef rec.cols rec.vals
    else some (err DbError.bad_record)

-- `slices.Equal`
unfoldable pub slices_equal : List Bytes → List Bytes → Bool
slices_equal [] [] = true
slices_equal [] (y ∷ ys) = false
slices_equal (x ∷ xs) [] = false
slices_equal (x ∷ xs) (y ∷ ys) = eq_bytes x y && slices_equal xs ys

unfoldable pub covered : List Bytes → List Bytes → Bool
unfolding slices_equal
covered key index = leb (length key) (length index) && slices_equal (take (length key) index) key

-- `slices.IndexFunc`: the first index that covers both keys.
unfoldable pub select_index : List Bytes → List Bytes → List (List Bytes) → Option ℕ
unfolding covered
select_index key1 key2 [] = none
select_index key1 key2 (index ∷ indexes) =
    let rest = select_index key1 key2 indexes in
    if covered key1 index && covered key2 index
    then some 0
    else elim rest [ none ↦ none | some i ↦ some (suc i) ]
