-- ===== src/Kv/Free/Node.antt =====
-- The node of the free list, byte by byte: a pointer to the next node, then pairs of a pointer and a
-- version.
use mini_database_v.Base.{
  ℕ, ◌+◌, ◌-◌, ◌*◌, ◌/◌, ◌^◌, ◌<◌, ◌≤◌, ◌≢◌, ◌≡◌, arith, Option, some, inl, inr, ◌⊎◌, ◌∙◌, ltb,
  lt→ltb, ◌>>=◌, ◌>>◌, assert, length,
}
use mini_database_v.Base.Bytes.{Bytes}
use mini_database_v.Base.Buffer.{
  slice, put_at, splice, put_le, get_le, length-put_le, get_le-put_le, put_at-splice, length-splice,
  slice-splice_self, slice-splice_other,
}
use mini_database_v.Kv.Pages.{page_size}

abbrev pub free_list_header : ℕ
free_list_header = 8

abbrev pub free_list_cap : ℕ
free_list_cap = (page_size - free_list_header) / 16

-- `LittleEndian.Uint64(node[off:])`
abbrev pub read_u64 : ℕ → Bytes → Option ℕ
read_u64 off node = do bs ← slice off 8 node; some (get_le bs)

abbrev pub write_u64 : ℕ → ℕ → Bytes → Option Bytes
write_u64 off v node = put_at off (put_le 8 v) node

unfoldable pub get_next : Bytes → Option ℕ
get_next node = read_u64 0 node

unfoldable pub set_next : ℕ → Bytes → Option Bytes
set_next next node = write_u64 0 next node

unfoldable pub get_item : Bytes → ℕ → Option (ℕ × ℕ)
get_item node idx = do
  ptr ← read_u64 (free_list_header + idx * 16) node
  version ← read_u64 (free_list_header + idx * 16 + 8) node
  some (ptr, version)

unfoldable pub set_item : ℕ → ℕ → ℕ → Bytes → Option Bytes
set_item idx ptr version node = do
  assert (ltb idx free_list_cap)
  node1 ← write_u64 (free_list_header + idx * 16) ptr node
  write_u64 (free_list_header + idx * 16 + 8) version node1

module _ (off v : ℕ) (node : Bytes) (fits : off + 8 ≤ length node) where
  width : off + length (put_le 8 v) ≤ length node
  width = omega (arith, length-put_le 8 v)

  write_u64_lem : write_u64 off v node ≡ some (splice off (put_le 8 v) node)
  write_u64_lem = put_at-splice off (put_le 8 v) node width

  length-write_u64 : length (splice off (put_le 8 v) node) ≡ length node
  length-write_u64 = length-splice off (put_le 8 v) node width

  read_u64_self : v < 2 ^ 64 → read_u64 off (splice off (put_le 8 v) node) ≡ some v
  read_u64_self h =
      let same = rw length-put_le at (slice-splice_self off (put_le 8 v) node width) in
      rw (same, get_le-put_le 8 v h)

  read_u64_other :
      (o : ℕ)
      → (o + 8 ≤ off) ⊎ (off + 8 ≤ o)
      → read_u64 o (splice off (put_le 8 v) node) ≡ read_u64 o node
  read_u64_other o (inl h) = rw (slice-splice_other off (put_le 8 v) node width o 8 (inl h))
  read_u64_other o (inr h) =
      rw (
        slice-splice_other off (put_le 8 v) node width o 8 (inr (omega (arith, length-put_le 8 v))))

-- The node after an item is written.
abbrev with_item : ℕ → ℕ → ℕ → Bytes → Bytes
with_item idx ptr version node =
    splice (free_list_header + idx * 16 + 8) (put_le 8 version)
      (splice (free_list_header + idx * 16) (put_le 8 ptr) node)

module _ (idx ptr version : ℕ) (node : Bytes) (page : length node ≡ page_size)
    (small : idx < free_list_cap) where
  start : ℕ
  start = free_list_header + idx * 16

  half : Bytes
  unfolding start
  half = splice start (put_le 8 ptr) node

  fits_ptr : start + 8 ≤ length node
  unfolding start
  fits_ptr = omega arith

  length-half : length half ≡ page_size
  unfolding half
  length-half = omega (arith, length-write_u64 start ptr node fits_ptr)

  fits_version : start + 8 + 8 ≤ length half
  unfolding start
  fits_version = omega (arith, length-half)

  set_item_writes : set_item idx ptr version node ≡ some (with_item idx ptr version node)
  unfolding set_item half start
  set_item_writes = rw (
    lt→ltb idx free_list_cap small,
    write_u64_lem start ptr node fits_ptr,
    write_u64_lem (start + 8) version half fits_version,
  )

  length-with_item : length (with_item idx ptr version node) ≡ page_size
  unfolding half start
  length-with_item =
      omega (arith, length-write_u64 (start + 8) version half fits_version, length-half)

  -- Eight bytes that lie apart from the item's sixteen are read as before.
  read_apart :
      (o : ℕ)
      → (o + 8 ≤ start) ⊎ (start + 16 ≤ o)
      → read_u64 o (with_item idx ptr version node) ≡ read_u64 o node
  unfolding half start
  read_apart o apart =
      read_u64_other (start + 8) version half fits_version o (grind arith)
      ∙ read_u64_other start ptr node fits_ptr o (grind arith)

  read_ptr : ptr < 2 ^ 64 → read_u64 start (with_item idx ptr version node) ≡ some ptr
  unfolding half start
  read_ptr h =
      read_u64_other (start + 8) version half fits_version start (inl (omega arith))
      ∙ read_u64_self start ptr node fits_ptr h

  read_version :
      version < 2 ^ 64 → read_u64 (start + 8) (with_item idx ptr version node) ≡ some version
  unfolding half start
  read_version h = read_u64_self (start + 8) version half fits_version h

  get_item_other : (j : ℕ) → j ≢ idx → get_item (with_item idx ptr version node) j ≡ get_item node j
  unfolding get_item start
  get_item_other j ne = rw (
    read_apart (free_list_header + j * 16) (grind arith),
    read_apart (free_list_header + j * 16 + 8) (grind arith),
  )

  get_next_other : get_next (with_item idx ptr version node) ≡ get_next node
  unfolding get_next start
  get_next_other = read_apart 0 (inl (omega arith))

  get_item_self :
      ptr < 2 ^ 64
      → version < 2 ^ 64
      → get_item (with_item idx ptr version node) idx ≡ some (ptr, version)
  unfolding get_item start
  get_item_self hp hv = rw (read_ptr hp, read_version hv)

  -- `setItem` on a page writes within the page for every index below the capacity, keeps its size,
  -- and afterwards the item is read back, while every other item and the pointer to the next node
  -- are read as before. The pointer and the version are uint64.
  pub set_item_lem :
      ptr < 2 ^ 64
      → version < 2 ^ 64
      → (node' : Bytes) × (set_item idx ptr version node ≡ some node')
        × (length node' ≡ page_size)
        × (get_item node' idx ≡ some (ptr, version))
        × ((j : ℕ) → j ≢ idx → get_item node' j ≡ get_item node j)
        × (get_next node' ≡ get_next node)
  set_item_lem hp hv = (
    with_item idx ptr version node,
    set_item_writes,
    length-with_item,
    get_item_self hp hv,
    get_item_other,
    get_next_other,
  )
