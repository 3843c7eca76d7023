-- ===== src/Table/Encode/Order.antt =====
-- `encodeKey` and `encodeKeyPartial` of table.go: the order of keys, and the bounds of scans.
use mini_database_v.Base.{
  ℕ, ◌^◌, ◌≤◌, ◌<◌, ◌≡◌, refl, List, [], ◌∷◌, ◌++◌, some, arith, ◌>>=◌, length, take, drop, map,
  append_assoc, ◌⊎◌, inl, inr, compare, Ordering, All,
}
use mini_database_v.Base.Bytes.{
  Bytes, put_be, length-put_be, compare_bytes, compare_bytes-append, compare_bytes-append_self,
  compare_bytes-put_be, and_then,
}
use mini_database_v.Cmp.{Cmp, holds, cmp_ok}
use mini_database_v.Table.Value.{
  Cell, int64, bytes, to_value, InRange, compare_cell, compare_cells, compare_int64,
}
use mini_database_v.Table.Escape.{compare_bytes-escaped}
use mini_database_v.Table.Encode.{
  encode_key, encode_key_partial, infinity, flip_sign, cell_code, row_code, encode_key-row_code,
}

compare-flip_sign :
    (m n : ℕ) → m < 2 ^ 64 → n < 2 ^ 64 → compare (flip_sign m) (flip_sign n) ≡ compare_int64 m n
compare-flip_sign m n h k = ground arith

flip_sign-lt : (m : ℕ) → m < 2 ^ 64 → flip_sign m < 256 ^ 8
flip_sign-lt m h = ground arith

compare_bytes-cell_code :
    (c d : Cell) (q r : Bytes)
    → InRange c
    → InRange d
    → compare_bytes (cell_code c ++ q) (cell_code d ++ r)
      ≡ and_then (compare_cell c d) (compare_bytes q r)
unfolding cell_code
compare_bytes-cell_code (int64 m) (int64 n) q r h k = rw (
  compare_bytes-append (put_be 8 (flip_sign m)) (put_be 8 (flip_sign n)) q r
      (omega (arith, length-put_be 8 (flip_sign m), length-put_be 8 (flip_sign n))),
  compare_bytes-put_be 8 _ _ (flip_sign-lt m h) (flip_sign-lt n k),
  compare-flip_sign m n h k,
)
compare_bytes-cell_code (int64 m) (bytes t) q r h k = refl
compare_bytes-cell_code (bytes s) (int64 n) q r h k = refl
compare_bytes-cell_code (bytes s) (bytes t) q r h k = simp (append_assoc, compare_bytes-escaped)

row_code-ne-nil : (c : Cell) (q : Bytes) → compare_bytes [] (cell_code c ++ q) ≡ Ordering.lt
unfolding cell_code
row_code-ne-nil (int64 n) q = refl
row_code-ne-nil (bytes s) q = refl

ne-nil-row_code : (c : Cell) (q : Bytes) → compare_bytes (cell_code c ++ q) [] ≡ Ordering.gt
unfolding cell_code
ne-nil-row_code (int64 n) q = refl
ne-nil-row_code (bytes s) q = refl

and_then_assoc : (a b c : Ordering) → and_then (and_then a b) c ≡ and_then a (and_then b c)
and_then_assoc Ordering.lt b c = refl
and_then_assoc Ordering.eq b c = refl
and_then_assoc Ordering.gt b c = refl

compare_bytes-row_code :
    (cs ds : List Cell)
    → All InRange cs
    → All InRange ds
    → compare_bytes (row_code cs) (row_code ds) ≡ compare_cells cs ds
unfolding row_code
compare_bytes-row_code [] [] h k = refl
compare_bytes-row_code [] (d ∷ ds) h k = row_code-ne-nil d (row_code ds)
compare_bytes-row_code (c ∷ cs) [] h k = ne-nil-row_code c (row_code cs)
compare_bytes-row_code (c ∷ cs) (d ∷ ds) (hc, hs) (kd, ks) = rw (
  compare_bytes-cell_code c d (row_code cs) (row_code ds) hc kd,
  compare_bytes-row_code cs ds hs ks,
)

-- A row against a bound of fewer columns: what follows counts only behind equal columns.
compare_bytes_prefix :
    (row q : List Cell) (r : Bytes)
    → All InRange row
    → All InRange q
    → length q ≤ length row
    → compare_bytes (row_code row) (row_code q ++ r)
      ≡ and_then
          (compare_cells (take (length q) row) q)
          (compare_bytes (row_code (drop (length q) row)) r)
unfolding row_code
compare_bytes_prefix row [] r h k le = refl
compare_bytes_prefix [] (d ∷ q) r h k le = absurd (omega arith)
compare_bytes_prefix (c ∷ row) (d ∷ q) r (hc, hs) (kd, ks) le = rw (
  append_assoc,
  compare_bytes-cell_code c d (row_code row) (row_code q ++ r) hc kd,
  compare_bytes_prefix row q r hs ks (omega arith),
  and_then_assoc,
)

-- No row reaches the byte 0xff, and no row is below the empty text.
row_code-infinity : (row : List Cell) → compare_bytes (row_code row) (255 ∷ []) ≡ Ordering.lt
unfolding row_code cell_code
row_code-infinity [] = refl
row_code-infinity (int64 n ∷ row) = refl
row_code-infinity (bytes s ∷ row) = refl

row_code-nil :
    (row : List Cell)
    → (compare_bytes (row_code row) [] ≡ Ordering.eq)
      ⊎ (compare_bytes (row_code row) [] ≡ Ordering.gt)
unfolding row_code cell_code
row_code-nil [] = inl refl
row_code-nil (int64 n ∷ row) = inr refl
row_code-nil (bytes s ∷ row) = inr refl

holds-infinity :
    (cmp : Cmp) (o : Ordering) (row : List Cell)
    → holds cmp (and_then o (compare_bytes (row_code row) (infinity cmp))) ≡ holds cmp o
holds-infinity Cmp.ge o row = ground (arith, row_code-nil row)
holds-infinity Cmp.gt o row = ground (arith, row_code-infinity row)
holds-infinity Cmp.lt o row = ground (arith, row_code-nil row)
holds-infinity Cmp.le o row = ground (arith, row_code-infinity row)
holds-infinity Cmp.unset o row = refl

-- Two keys compare as their table prefixes and then as their rows: column by column, integers by
-- their signed value, texts by their bytes. So every index occupies one interval of the keys. The
-- prefixes are uint32, and the cells are int64 patterns and bytes.
pub encode_key_order :
    (p q : ℕ) (cs ds : List Cell)
    → p < 2 ^ 32
    → q < 2 ^ 32
    → All InRange cs
    → All InRange ds
    → (do
      a ← encode_key [] p (map to_value cs)
      b ← encode_key [] q (map to_value ds)
      some (compare_bytes a b))
      ≡ some (and_then (compare p q) (compare_cells cs ds))
encode_key_order p q cs ds hp hq h k = rw (
  encode_key-row_code p cs,
  encode_key-row_code q ds,
  compare_bytes-append (put_be 4 p) (put_be 4 q) (row_code cs) (row_code ds)
      (omega (arith, length-put_be 4 p, length-put_be 4 q)),
  compare_bytes-put_be 4 p q hp hq,
  compare_bytes-row_code cs ds h k,
)

-- A bound of a scan that gives values for the first columns of an index alone: the key of a row
-- satisfies the bound exactly when the row's first columns stand in that comparison to the values.
-- So `>` and `<=` by a prefix leave out, or take in, all rows that share it.
pub encode_key_partial_bound :
    (prefix : ℕ) (row q : List Cell) (cmp : Cmp)
    → All InRange row
    → All InRange q
    → length q ≤ length row
    → (do
      key ← encode_key [] prefix (map to_value row)
      bound ← encode_key_partial [] prefix (map to_value q) cmp
      cmp_ok key cmp bound)
      ≡ holds cmp (compare_cells (take (length q) row) q)
unfolding encode_key_partial cmp_ok
encode_key_partial_bound prefix row q cmp h k le = rw (
  encode_key-row_code prefix row,
  encode_key-row_code prefix q,
  append_assoc,
  compare_bytes-append_self (put_be 4 prefix),
  compare_bytes_prefix row q (infinity cmp) h k le,
  holds-infinity cmp,
)
