-- ===== src/Table/Encode.antt =====
-- The order-preserving encoding of table.go: rows to keys and values, and back.
pub mod RoundTrip
pub mod Order
use mini_database_v.Base.{
  ℕ, zero, suc, ◌+◌, ◌-◌, ◌*◌, ◌/◌, ◌%◌, ◌^◌, ◌≤◌, ◌<◌, ◌≡◌, refl, Bool, true, false, List, [], ◌∷◌,
  ◌++◌, Option, none, some, arith, ltb, leb, ◌==◌, if◌then◌else◌, ◌>>=◌, ◌>>◌, assert, length, take,
  drop, map, append_assoc, append-nil,
}
use mini_database_v.Base.Bytes.{Bytes, put_be, get_be}
use mini_database_v.Cmp.{Cmp}
use mini_database_v.Table.Value.{
  Value, Cell, int64, bytes, to_value, InRange, type_bytes, type_int64,
}
use mini_database_v.Table.Escape.{escape_string, unescape_string, escaped, escape_string-eq}

-- `u ^ (1 << 63)`
abbrev pub flip_sign : ℕ → ℕ
flip_sign u = if leb (2 ^ 63) u then u - 2 ^ 63 else u + 2 ^ 63

-- what one round of `encodeValues` appends
unfoldable pub encode_value : Value → Option Bytes
encode_value v =
    if v.type == type_int64
    then some (v.type % 256 ∷ put_be 8 (flip_sign v.i64))
    else if v.type == type_bytes
    then some (v.type % 256 ∷ escape_string v.str ++ 0 ∷ [])
    else none

unfoldable pub encode_values : Bytes → List Value → Option Bytes
unfolding encode_value
encode_values out [] = some out
encode_values out (v ∷ vs) = do b ← encode_value v; encode_values (out ++ b) vs

unfoldable pub encode_key : Bytes → ℕ → List Value → Option Bytes
encode_key out prefix vals = encode_values (out ++ put_be 4 prefix) vals

-- 0xff is behind every encoded column, and the empty text is before
abbrev pub infinity : Cmp → Bytes
infinity Cmp.gt = 255 ∷ []
infinity Cmp.le = 255 ∷ []
infinity Cmp.ge = []
infinity Cmp.lt = []
infinity Cmp.unset = []

unfoldable pub encode_key_partial : Bytes → ℕ → List Value → Cmp → Option Bytes
encode_key_partial out prefix vals cmp = do
  key ← encode_key out prefix vals
  some (key ++ infinity cmp)

-- `bytes.IndexByte` of a text with one byte; `none` is -1
unfoldable pub index_byte : Bytes → ℕ → Option ℕ
index_byte [] b = none
index_byte (c ∷ cs) b =
    let rest = index_byte cs b in
    if c == b then some 0 else elim rest [ none ↦ none | some i ↦ some (suc i) ]

-- the two cases of a round of `decodeValues`, behind the type byte
unfoldable pub decode_int64 : Value → Bytes → Option (Value × Bytes)
decode_int64 t rest =
    if ltb (length rest) 8
    then none
    else some (record t { i64 = flip_sign (get_be (take 8 rest)) }, drop 8 rest)

unfoldable pub decode_bytes : Value → Bytes → Option (Value × Bytes)
unfolding index_byte
decode_bytes t rest = do
  idx ← index_byte rest 0
  s ← unescape_string (take idx rest)
  some (record t { str = s }, drop (idx + 1) rest)

unfoldable pub decode_value : Value → Bytes → Option (Value × Bytes)
unfolding decode_int64 decode_bytes
decode_value t [] = none
decode_value t (b ∷ rest) =
    if t.type == b
    then if t.type == type_int64
      then decode_int64 t rest
      else if t.type == type_bytes
      then decode_bytes t rest
      else none
    else none

-- The targets hold the types; the result holds the targets after the loop.
unfoldable pub decode_values : Bytes → List Value → Option (List Value)
unfolding decode_value
decode_values [] [] = some []
decode_values (b ∷ rest) [] = none
decode_values input (t ∷ ts) = do
  (v, rest) ← decode_value t input
  vs ← decode_values rest ts
  some (v ∷ vs)

unfoldable pub decode_key : Bytes → List Value → Option (List Value)
decode_key input out = if ltb (length input) 4 then none else decode_values (drop 4 input) out

-- The encoding of a cell and of a row as a plain recursion.
pub cell_code : Cell → Bytes
cell_code (int64 n) = type_int64 ∷ put_be 8 (flip_sign n)
cell_code (bytes s) = type_bytes ∷ escaped s ++ 0 ∷ []

pub row_code : List Cell → Bytes
row_code [] = []
row_code (c ∷ cs) = cell_code c ++ row_code cs

encode_value-cell_code : (c : Cell) → encode_value (to_value c) ≡ some (cell_code c)
unfolding encode_value cell_code
encode_value-cell_code (int64 n) = refl
encode_value-cell_code (bytes s) = rw escape_string-eq

pub encode_values-row_code :
    (out : Bytes) (cs : List Cell) → encode_values out (map to_value cs) ≡ some (out ++ row_code cs)
unfolding encode_values row_code
encode_values-row_code out [] = rw append-nil
encode_values-row_code out (c ∷ cs) =
    rw (encode_value-cell_code c, encode_values-row_code (out ++ cell_code c) cs, append_assoc)

pub encode_key-row_code :
    (prefix : ℕ) (cs : List Cell)
    → encode_key [] prefix (map to_value cs) ≡ some (put_be 4 prefix ++ row_code cs)
unfolding encode_key
encode_key-row_code prefix cs = encode_values-row_code (put_be 4 prefix) cs
