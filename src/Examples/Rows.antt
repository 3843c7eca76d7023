-- ===== src/Examples/Rows.antt =====
-- The encodings of table.go at two rows.
use mini_database_v.Base.{
  ◌+◌, ◌-◌, ◌^◌, ◌≡◌, arith, false, List, [], ◌∷◌, some, All, ◌>>=◌, map, Ordering, length,
}
use mini_database_v.Base.Bytes.{compare_bytes}
use mini_database_v.Cmp.{Cmp, cmp_ok}
use mini_database_v.Table.Value.{Cell, int64, bytes, to_value, blank, InRange}
use mini_database_v.Table.Escape.{
  count_byte, escape_string, unescape_string, length-escape_string, unescape_string-escape_string,
}
use mini_database_v.Table.Encode.{
  encode_key, encode_key_partial, encode_values, decode_values, decode_key,
}
use mini_database_v.Table.Encode.Order.{encode_key_order, encode_key_partial_bound}
use mini_database_v.Table.Encode.RoundTrip.{decode_values-encode_values, decode_key-encode_key}

abbrev row : List Cell
row = int64 7 ∷ bytes (97 ∷ 98 ∷ []) ∷ []

-- -1 and a text of bytes that are escaped
abbrev lower_row : List Cell
lower_row = int64 (2 ^ 64 - 1) ∷ bytes (0 ∷ 1 ∷ []) ∷ []

row-InRange : All InRange row
row-InRange = (omega arith, ((omega arith, (omega arith, tt)), tt))

lower_row-InRange : All InRange lower_row
lower_row-InRange = (omega arith, ((omega arith, (omega arith, tt)), tt))

encode_key_order_example :
    (do
      a ← encode_key [] 100 (map to_value lower_row)
      b ← encode_key [] 100 (map to_value row)
      some (compare_bytes a b))
    ≡ some Ordering.lt
encode_key_order_example =
    encode_key_order 100 100 lower_row row (omega arith) (omega arith) lower_row-InRange row-InRange

-- A row that shares the prefix is not above it.
encode_key_partial_bound_example :
    (do
      key ← encode_key [] 100 (map to_value row)
      bound ← encode_key_partial [] 100 (map to_value (int64 7 ∷ [])) Cmp.gt
      cmp_ok key Cmp.gt bound)
    ≡ some false
encode_key_partial_bound_example =
    encode_key_partial_bound 100 row (int64 7 ∷ []) Cmp.gt row-InRange (omega arith, tt)
      (omega arith)

decode_values-encode_values_example :
    (do code ← encode_values [] (map to_value lower_row); decode_values code (map blank lower_row))
    ≡ some (map to_value lower_row)
decode_values-encode_values_example = decode_values-encode_values lower_row lower_row-InRange

decode_key-encode_key_example :
    (do key ← encode_key [] 100 (map to_value lower_row); decode_key key (map blank lower_row))
    ≡ some (map to_value lower_row)
decode_key-encode_key_example = decode_key-encode_key 100 lower_row lower_row-InRange

unescape_string-escape_string_example :
    unescape_string (escape_string (0 ∷ 97 ∷ 1 ∷ [])) ≡ some (0 ∷ 97 ∷ 1 ∷ [])
unescape_string-escape_string_example = unescape_string-escape_string (0 ∷ 97 ∷ 1 ∷ [])

length-escape_string_example : length (escape_string (0 ∷ 97 ∷ 1 ∷ [])) ≡ 3 + (1 + 1)
unfolding count_byte
length-escape_string_example = length-escape_string (0 ∷ 97 ∷ 1 ∷ [])
