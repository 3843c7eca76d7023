-- ===== src/Examples/Schemas.antt =====
-- The theorems on table definitions of table.go at a small table.
use mini_database_v.Base.{◌≡◌, refl, true, some, [], ◌∷◌, ◌&&◌}
use mini_database_v.Base.Bytes.{Bytes, codes}
use mini_database_v.Table.Schema.{TableDef, slices_index, select_index, primary_key}
use mini_database_v.Table.Schema.Choice.{Chosen, select_index_lem}
use mini_database_v.Table.Schema.Columns.{all_in, no_duplicates}
use mini_database_v.Table.Schema.Check.{Checked, check_index_cols_lem}

abbrev id_col : Bytes
id_col = codes "id"

abbrev name_col : Bytes
name_col = codes "name"

abbrev age_col : Bytes
age_col = codes "age"

abbrev people : TableDef
people = record {
  name = codes "people";
  types = 2 ∷ 1 ∷ 2 ∷ [];
  cols = id_col ∷ name_col ∷ age_col ∷ [];
  indexes = (id_col ∷ []) ∷ (age_col ∷ name_col ∷ id_col ∷ []) ∷ [];
  prefixes = [];
}

select_index_example :
    Chosen
      (age_col ∷ [])
      (age_col ∷ name_col ∷ [])
      people.indexes
      (select_index (age_col ∷ []) (age_col ∷ name_col ∷ []) people.indexes)
select_index_example = select_index_lem (age_col ∷ []) (age_col ∷ name_col ∷ []) people.indexes

primary_key-people : primary_key people ≡ some (id_col ∷ [])
unfolding primary_key
primary_key-people = refl

id_unique : no_duplicates (id_col ∷ []) ≡ true
unfolding slices_index
id_unique = refl

id_known : all_in people.cols (id_col ∷ []) ≡ true
unfolding slices_index
id_known = refl

check_index_cols_example :
    Checked people
      (id_col ∷ [])
      (age_col ∷ name_col ∷ [])
      (all_in people.cols (age_col ∷ name_col ∷ []) && no_duplicates (age_col ∷ name_col ∷ []))
check_index_cols_example =
    check_index_cols_lem people (id_col ∷ []) age_col (name_col ∷ []) primary_key-people id_unique
      id_known
