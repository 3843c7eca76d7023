-- ===== src/Kv/Meta/RoundTrip.antt =====
-- `saveMeta` of kv.go against `loadMeta` and `readRoot`.
use mini_database_v.Base.{
  ℕ, zero, suc, ◌+◌, ◌*◌, ◌/◌, ◌%◌, ◌^◌, ◌<◌, ◌≤◌, ◌≡◌, ◌≢◌, refl, ◌∙◌, arith, true, List, [], ◌∷◌,
  ◌++◌, append_assoc, none, some, leb, length, length-append, take-append, drop-append, get_elem?,
  All,
}
use mini_database_v.Base.Bytes.{Bytes}
use mini_database_v.Base.Buffer.{slice, put_le, length-put_le, get_le-put_le}
use mini_database_v.Kv.Pages.{page_size}
use mini_database_v.Kv.Free.{set_max_ver}
use mini_database_v.Kv.State.{Kv, with_meta}
use mini_database_v.Kv.Meta.{
  db_sig, meta_fields, fields_code, save_meta, meta_u64, load_meta, meta_ok, read_meta, read_root,
}

leb-append : (n : ℕ) (xs ys : Bytes) → n ≤ length xs → leb n (length (xs ++ ys)) ≡ true
leb-append n xs ys h = ground (arith, length-append xs ys)

-- A number of the page, behind `k` bytes.
meta_u64-append :
    (lo n : ℕ) (before after : Bytes)
    → length before ≡ lo
    → n < 2 ^ 64
    → meta_u64 lo (before ++ (put_le 8 n ++ after)) ≡ some n
unfolding meta_u64 slice
meta_u64-append lo n before after h fits = rw (
  ← append_assoc before (put_le 8 n) after,
  leb-append (lo + 8) (before ++ put_le 8 n) after
      (omega (arith, length-append before (put_le 8 n), length-put_le 8 n)),
  append_assoc before (put_le 8 n) after,
  drop-append lo before (put_le 8 n ++ after) h,
  take-append 8 (put_le 8 n) after (length-put_le 8 n),
  get_le-put_le 8 n fits,
)

field_at :
    (before : Bytes) (ns : List ℕ) (rest : Bytes) (k lo : ℕ) {n : ℕ}
    → length before + 8 * k ≡ lo
    → All (λ m. m < 2 ^ 64) ns
    → get_elem? ns k ≡ some n
    → meta_u64 lo (before ++ (fields_code ns ++ rest)) ≡ some n
unfolding fields_code
field_at before [] rest k lo h fits e = cc
field_at before (m ∷ ns) rest zero lo h (fit, fits) e =
    rw append_assoc (meta_u64-append lo m before (fields_code ns ++ rest) (omega arith) fit ∙ e)
field_at before (m ∷ ns) rest (suc k) lo {n} h (fit, fits) e =
    rw (append_assoc, ← append_assoc before (put_le 8 m) (fields_code ns ++ rest))
      (field_at (before ++ put_le 8 m) ns rest k lo
        (omega (arith, length-append before (put_le 8 m), length-put_le 8 m)) fits e)

-- The numbers that the meta page holds are uint64.
abbrev pub MetaInRange : Kv ℕ → Type 0
MetaInRange db = All (λ n. n < 2 ^ 64) (meta_fields db)

-- Loading what was saved, whatever follows it on the page, restores the root, the number of pages,
-- the four positions of the free list and the version, and leaves the rest of the store alone. The
-- saved numbers are uint64.
pub load_meta-save_meta :
    (db saved : Kv ℕ) (rest : Bytes)
    → MetaInRange saved
    → load_meta db (save_meta saved ++ rest) ≡ some (with_meta db saved)
unfolding load_meta save_meta meta_fields
load_meta-save_meta db saved rest fits = rw (
  append_assoc,
  field_at db_sig (meta_fields saved) rest 0 16 refl fits refl,
  field_at db_sig (meta_fields saved) rest 1 24 refl fits refl,
  field_at db_sig (meta_fields saved) rest 2 32 refl fits refl,
  field_at db_sig (meta_fields saved) rest 3 40 refl fits refl,
  field_at db_sig (meta_fields saved) rest 4 48 refl fits refl,
  field_at db_sig (meta_fields saved) rest 5 56 refl fits refl,
  field_at db_sig (meta_fields saved) rest 6 64 refl fits refl,
)

-- What a committed store keeps: its pages lie in the file, and its pointers lie in its pages.
pub record IsStored (saved : Kv ℕ) (file_size : ℕ) : Type 0 where
  pub whole : file_size % page_size ≡ 0
  pub pages : 0 < saved.pages.flushed
  pub room : saved.pages.flushed ≤ file_size / page_size
  pub root : (0 < saved.tree) × (saved.tree < saved.pages.flushed)
  pub head : (0 < saved.free.head_page) × (saved.free.head_page < saved.pages.flushed)
  pub tail : (0 < saved.free.tail_page) × (saved.free.tail_page < saved.pages.flushed)

sig_at_front : (saved : Kv ℕ) (rest : Bytes) → slice 0 16 (save_meta saved ++ rest) ≡ some db_sig
unfolding slice save_meta
sig_at_front saved rest = ground arith

-- The state after opening the file of a store: its numbers, every free page of the list available.
abbrev pub reopened : Kv ℕ → Kv ℕ → Kv ℕ
reopened db saved = record (with_meta db saved) {
  pager = record (with_meta db saved).pager {
    free = set_max_ver saved.version (with_meta db saved).free;
  };
}

meta_ok-IsStored :
    (db saved : Kv ℕ) (file_size : ℕ)
    → IsStored saved file_size
    → meta_ok (reopened db saved) db_sig file_size ≡ true
unfolding meta_ok set_max_ver
meta_ok-IsStored db saved file_size h = ground arith

read_meta-save_meta :
    (db saved : Kv ℕ) (rest : Bytes) (file_size : ℕ)
    → MetaInRange saved
    → IsStored saved file_size
    → read_meta db (save_meta saved ++ rest) file_size ≡ some (reopened db saved, none)
unfolding read_meta
read_meta-save_meta db saved rest file_size fits stored = rw (
  load_meta-save_meta db saved rest fits,
  sig_at_front saved rest,
  meta_ok-IsStored db saved file_size stored,
)

read_root-read_meta :
    (db : Kv ℕ) (chunk : Bytes) (others : List Bytes) (file_size : ℕ)
    → db.pages.chunks ≡ chunk ∷ others
    → file_size % page_size ≡ 0
    → file_size ≢ 0
    → read_root db file_size ≡ read_meta db chunk file_size
unfolding read_root
read_root-read_meta db chunk others file_size mapped whole nonempty = ground arith

not_empty : (file_size : ℕ) {saved : Kv ℕ} → IsStored saved file_size → file_size ≢ 0
not_empty file_size h = ground arith

-- Opening a file whose meta page was saved by a store that keeps its pointers within its pages
-- reports no error and restores the store's numbers.
pub read_root-save_meta :
    (db saved : Kv ℕ) (rest : Bytes) (others : List Bytes) (file_size : ℕ)
    → db.pages.chunks ≡ (save_meta saved ++ rest) ∷ others
    → MetaInRange saved
    → IsStored saved file_size
    → read_root db file_size ≡ some (reopened db saved, none)
read_root-save_meta db saved rest others file_size mapped fits stored =
    read_root-read_meta db _ others file_size mapped stored.whole (not_empty file_size stored)
    ∙ read_meta-save_meta db saved rest file_size fits stored
