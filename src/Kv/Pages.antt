-- ===== src/Kv/Pages.antt =====
-- The pages of the store: reads through the mappings of the file, pages that are appended, and
-- pages that are rewritten, all captured in `updates` until the next commit writes them.
use mini_database_v.Base.{
  ℕ, zero, suc, ◌+◌, ◌-◌, ◌*◌, ◌/◌, ◌%◌, ◌^◌, Bool, true, false, ◌&&◌, List, [], ◌∷◌, Option, none,
  some, ltb, ◌==◌, if◌then◌else◌, ◌>>=◌, ◌>>◌, assert, length,
}
use mini_database_v.Base.Bytes.{Bytes}
use mini_database_v.Base.Buffer.{slice}
use mini_database_v.Base.Assoc.{lookup, insert}

-- BTREE_PAGE_SIZE
abbrev pub page_size : ℕ
page_size = 4096

-- arithmetic of `uint64`
abbrev pub u64 : ℕ → ℕ
u64 n = n % 2 ^ 64

-- `make([]byte, n)`
abbrev pub zeros : ℕ → Bytes
zeros zero = []
zeros (suc n) = 0 ∷ zeros n

-- The fields `page` and `mmap` of KV. A mapping is the bytes of the file behind it.
pub record Pages : Type 0 where
  pub flushed : ℕ
  pub nappend : ℕ
  pub updates : List (ℕ × Bytes)
  pub total : ℕ
  pub chunks : List Bytes

unfoldable pub mmap_from : ℕ → ℕ → List Bytes → Option Bytes
mmap_from start ptr [] = none
mmap_from start ptr (chunk ∷ chunks) =
    let stop = start + length chunk / page_size in
    let rest = mmap_from stop ptr chunks in
    if ltb ptr stop then slice (page_size * (ptr - start)) page_size chunk else rest

unfoldable pub mmap_read : ℕ → List Bytes → Option Bytes
unfolding mmap_from
mmap_read = mmap_from 0

unfoldable pub page_read : ℕ → Pages → Option Bytes
page_read ptr p = do
  assert (ltb ptr (u64 (p.flushed + p.nappend)))
  elim (lookup ptr p.updates) [ some node ↦ some node | none ↦ mmap_read ptr p.chunks ]

-- `updates[ptr] == nil`
abbrev pub is_free : ℕ → Pages → Bool
is_free ptr p = elim (lookup ptr p.updates) [ some node ↦ false | none ↦ true ]

abbrev pub put_page : ℕ → Bytes → Pages → Pages
put_page ptr node p = record p { updates = insert ptr node p.updates }

unfoldable pub page_append : Bytes → Pages → Option (ℕ × Pages)
page_append node p = do
  assert (length node == page_size)
  let ptr = u64 (p.flushed + p.nappend)
  assert (is_free ptr p)
  some (ptr, record p { nappend = u64 (p.nappend + 1); updates = insert ptr node p.updates })

-- The buffer behind a page that is to be rewritten. Page 1 of a new database is not in the file yet.
unfoldable pub writable : ℕ → Pages → Option Bytes
writable ptr p = elim (lookup ptr p.updates) [
  | some node ↦ some node
  | none ↦ if p.flushed == 2 && ptr == 1 then some (zeros page_size) else mmap_read ptr p.chunks
]

-- `pageWrite`, and the change that its caller makes to the buffer that it returns.
unfoldable pub page_write : ℕ → (Bytes → Option Bytes) → Pages → Option Pages
unfolding writable
page_write ptr change p = do
  assert (ltb ptr (u64 (p.flushed + p.nappend)))
  node ← writable ptr p
  node' ← change node
  some (put_page ptr node' p)
