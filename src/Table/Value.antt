-- ===== src/Table/Value.antt =====
-- Cells and rows of table.go. A Go `string` is its bytes, and an `int64` is its 64-bit pattern.
use mini_database_v.Base.{
  ℕ, ◌^◌, ◌<◌, Bool, List, [], ◌∷◌, ◌++◌, Option, none, some, leb, if◌then◌else◌, compare, Ordering,
}
use mini_database_v.Base.Bytes.{Bytes, IsBytes, eq_bytes, compare_bytes, and_then}

-- TYPE_BYTES and TYPE_INT64
abbrev pub type_bytes : ℕ
type_bytes = 1

abbrev pub type_int64 : ℕ
type_int64 = 2

-- The table cell: the type says which of the other two fields counts.
pub record Value : Type 0 where
  pub type : ℕ
  pub i64 : ℕ
  pub str : Bytes

pub record Record : Type 0 where
  pub cols : List Bytes
  pub vals : List Value

unfoldable pub add_str : Record → Bytes → Bytes → Record
add_str rec col v = record {
  cols = rec.cols ++ col ∷ [];
  vals = rec.vals ++ record { type = type_bytes; i64 = 0; str = v } ∷ [];
}

unfoldable pub add_int64 : Record → Bytes → ℕ → Record
add_int64 rec col v = record {
  cols = rec.cols ++ col ∷ [];
  vals = rec.vals ++ record { type = type_int64; i64 = v; str = [] } ∷ [];
}

-- The loop of `Record.Get`: `some none` is `nil`, and a column with no value behind it is out of range.
unfoldable pub get_from : List Bytes → List Value → Bytes → Option (Option Value)
get_from [] vals col = some none
get_from (c ∷ cols) [] col = if eq_bytes c col then none else get_from cols [] col
get_from (c ∷ cols) (v ∷ vals) col =
    if eq_bytes c col then some (some v) else get_from cols vals col

unfoldable pub get : Record → Bytes → Option (Option Value)
unfolding get_from
get rec col = get_from rec.cols rec.vals col

-- A cell of a known type: what a `Value` of that type stands for.
pub data Cell : Type 0 where
  int64 : ℕ → Cell
  bytes : Bytes → Cell

abbrev pub to_value : Cell → Value
to_value (int64 n) = record { type = type_int64; i64 = n; str = [] }
to_value (bytes s) = record { type = type_bytes; i64 = 0; str = s }

-- The empty cell of the same type, `Value{Type: type_}`.
abbrev pub blank : Cell → Value
blank (int64 n) = record { type = type_int64; i64 = 0; str = [] }
blank (bytes s) = record { type = type_bytes; i64 = 0; str = [] }

abbrev pub InRange : Cell → Type 0
InRange (int64 n) = n < 2 ^ 64
InRange (bytes s) = IsBytes s

-- The sign bit of a 64-bit pattern.
abbrev pub is_negative : ℕ → Bool
is_negative n = leb (2 ^ 63) n

-- The order of the integers that two 64-bit patterns stand for in two's complement.
abbrev pub compare_int64 : ℕ → ℕ → Ordering
compare_int64 m n =
    if is_negative m
    then (if is_negative n then compare m n else Ordering.lt)
    else (if is_negative n then Ordering.gt else compare m n)

-- The order of two cells of one type.
abbrev pub compare_cell : Cell → Cell → Ordering
compare_cell (int64 m) (int64 n) = compare_int64 m n
compare_cell (bytes s) (bytes t) = compare_bytes s t
compare_cell (int64 m) (bytes t) = Ordering.gt
compare_cell (bytes s) (int64 n) = Ordering.lt

-- Rows are compared column by column, and a row that is a proper prefix is smaller.
abbrev pub compare_cells : List Cell → List Cell → Ordering
compare_cells [] [] = Ordering.eq
compare_cells [] (d ∷ ds) = Ordering.lt
compare_cells (c ∷ cs) [] = Ordering.gt
compare_cells (c ∷ cs) (d ∷ ds) = and_then (compare_cell c d) (compare_cells cs ds)
