-- ===== src/Table/Encode/RoundTrip.antt =====
-- `encodeValues` and `encodeKey` of table.go against `decodeValues` and `decodeKey`.
use mini_database_v.Base.{
  ℕ, ◌+◌, ◌^◌, ◌<◌, ◌≡◌, refl, false, List, [], ◌∷◌, ◌++◌, some, arith, ltb, ◌>>=◌, length, drop,
  map, append_assoc, All, length-append, take-append, drop-append,
}
use mini_database_v.Base.Bytes.{Bytes, put_be, length-put_be, get_be-put_be}
use mini_database_v.Table.Value.{Value, Cell, int64, bytes, to_value, blank, InRange}
use mini_database_v.Table.Escape.{
  escaped, escaped-ne-zero, unescape_string-escape_string, escape_string-eq,
}
use mini_database_v.Table.Encode.{
  encode_values, encode_key, decode_int64, decode_bytes, decode_value, decode_values, decode_key,
  index_byte, flip_sign, cell_code, row_code, encode_values-row_code, encode_key-row_code,
}

flip_sign_twice : (m : ℕ) → m < 2 ^ 64 → flip_sign (flip_sign m) ≡ m
flip_sign_twice m h = ground arith

flip_sign-lt : (m : ℕ) → m < 2 ^ 64 → flip_sign m < 256 ^ 8
flip_sign-lt m h = ground arith

index_byte-append : (s q : Bytes) → All (λ b. 0 < b) s → index_byte (s ++ 0 ∷ q) 0 ≡ some (length s)
unfolding index_byte
index_byte-append [] q h = refl
index_byte-append (c ∷ s) q (hc, hs) = ground (arith, index_byte-append s q hs)

drop_past : (s : Bytes) (c : ℕ) (q : Bytes) → drop (length s + 1) (s ++ c ∷ q) ≡ q
drop_past s c q =
    rw (← append_assoc s (c ∷ []) q)
      (drop-append (length s + 1) (s ++ c ∷ []) q (length-append s (c ∷ [])))

long_enough : (n u : ℕ) (q : Bytes) → ltb (length (put_be n u ++ q)) n ≡ false
long_enough n u q = ground (arith, length-append (put_be n u) q, length-put_be n u)

decode_int64-put_be :
    (t : Value) (u : ℕ) (q : Bytes)
    → u < 256 ^ 8
    → decode_int64 t (put_be 8 u ++ q) ≡ some (record t { i64 = flip_sign u }, q)
unfolding decode_int64
decode_int64-put_be t u q h = rw (
  long_enough 8 u q,
  take-append 8 (put_be 8 u) q (length-put_be 8 u),
  drop-append 8 (put_be 8 u) q (length-put_be 8 u),
  get_be-put_be 8 u h,
)

decode_bytes-escaped :
    (t : Value) (s q : Bytes) → decode_bytes t (escaped s ++ 0 ∷ q) ≡ some (record t { str = s }, q)
unfolding decode_bytes
decode_bytes-escaped t s q = rw (
  index_byte-append (escaped s) q (escaped-ne-zero s),
  take-append (length (escaped s)) (escaped s) (0 ∷ q) refl,
  drop_past (escaped s) 0 q,
  ← escape_string-eq s,
  unescape_string-escape_string s,
)

decode_value-cell_code :
    (c : Cell) (q : Bytes)
    → InRange c
    → decode_value (blank c) (cell_code c ++ q) ≡ some (to_value c, q)
unfolding decode_value cell_code
decode_value-cell_code (int64 n) q h =
    rw (
      decode_int64-put_be (blank (int64 n)) (flip_sign n) q (flip_sign-lt n h),
      flip_sign_twice n h,
    )
decode_value-cell_code (bytes s) q h = rw append_assoc (decode_bytes-escaped (blank (bytes s)) s q)

decode_values-row_code :
    (cs : List Cell)
    → All InRange cs
    → decode_values (row_code cs) (map blank cs) ≡ some (map to_value cs)
unfolding decode_values row_code
decode_values-row_code [] h = refl
decode_values-row_code (c ∷ cs) (hc, hs) =
    rw (decode_value-cell_code c (row_code cs) hc, decode_values-row_code cs hs)

-- A row that is encoded, as a value or behind nothing, is decoded to itself with no panic: the
-- targets are the empty cells of the row's types, the integers 64-bit patterns and the texts bytes.
pub decode_values-encode_values :
    (cs : List Cell)
    → All InRange cs
    → (do code ← encode_values [] (map to_value cs); decode_values code (map blank cs))
      ≡ some (map to_value cs)
decode_values-encode_values cs h = rw (encode_values-row_code [] cs) (decode_values-row_code cs h)

-- The same of a key, behind any table prefix.
pub decode_key-encode_key :
    (prefix : ℕ) (cs : List Cell)
    → All InRange cs
    → (do key ← encode_key [] prefix (map to_value cs); decode_key key (map blank cs))
      ≡ some (map to_value cs)
unfolding decode_key
decode_key-encode_key prefix cs h =
    rw
      (
        encode_key-row_code prefix cs,
        long_enough 4 prefix (row_code cs),
        drop-append 4 (put_be 4 prefix) (row_code cs) (length-put_be 4 prefix),
      )
      (decode_values-row_code cs h)
