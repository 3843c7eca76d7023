-- ===== src/Kv/Meta.antt =====
-- The meta page: `saveMeta`, `loadMeta` and `readRoot` of kv.go.
pub mod RoundTrip
use mini_database_v.Base.{
  ℕ, zero, suc, ◌+◌, ◌-◌, ◌*◌, ◌/◌, ◌%◌, ◌^◌, ◌<◌, ◌≤◌, ◌≡◌, refl, sym, ap, ◌∙◌, arith, Bool, true,
  false, not, ◌&&◌, ◌||◌, List, [], ◌∷◌, ◌++◌, append_assoc, Option, none, some, inl, inr, ltb, leb,
  lt→ltb, ◌==◌, if◌then◌else◌, ◌>>=◌, ◌>>◌, assert, length, length-append, take-append, drop-append,
  drop-append_right,
}
use mini_database_v.Base.Bytes.{Bytes, codes, eq_bytes, eq_bytes_refl}
use mini_database_v.Base.Buffer.{slice, put_le, get_le, length-put_le, get_le-put_le}
use mini_database_v.Kv.Pages.{page_size, Pages}
use mini_database_v.Kv.Free.{FreeList, Pager, set_max_ver}
use mini_database_v.Kv.State.{Kv}

-- DB_SIG
abbrev pub db_sig : Bytes
db_sig = codes "RelationalDB0123"

-- The numbers of the meta page, in its order: root_ptr, page_used, head_page, head_seq, tail_page,
-- tail_seq, ver.
unfoldable pub meta_fields : Kv ℕ → List ℕ
meta_fields db =
    db.tree ∷ db.pages.flushed ∷ db.free.head_page ∷ db.free.head_seq ∷ db.free.tail_page
    ∷ db.free.tail_seq ∷ db.version ∷ []

pub fields_code : List ℕ → Bytes
fields_code [] = []
fields_code (n ∷ ns) = put_le 8 n ++ fields_code ns

-- The signature and the numbers fill the 72 bytes one behind the other.
unfoldable pub save_meta : Kv ℕ → Bytes
unfolding meta_fields fields_code
save_meta db = db_sig ++ fields_code (meta_fields db)

-- `LittleEndian.Uint64(data[lo:lo+8])`
unfoldable pub meta_u64 : ℕ → Bytes → Option ℕ
meta_u64 lo page = do bs ← slice lo 8 page; some (get_le bs)

unfoldable pub load_meta : Kv ℕ → Bytes → Option (Kv ℕ)
unfolding meta_u64
load_meta db page = do
  root ← meta_u64 16 page
  flushed ← meta_u64 24 page
  head_page ← meta_u64 32 page
  head_seq ← meta_u64 40 page
  tail_page ← meta_u64 48 page
  tail_seq ← meta_u64 56 page
  version ← meta_u64 64 page
  some (record db {
    tree = root;
    pager = record {
      free = record db.free {
        head_page = head_page;
        head_seq = head_seq;
        tail_page = tail_page;
        tail_seq = tail_seq;
      };
      pages = record db.pages { flushed = flushed };
    };
    version = version;
  })

pub data OpenError : Type 0 where
  not_pages bad_meta : OpenError

-- `0 < ptr && ptr < flushed`
abbrev in_file : ℕ → ℕ → Bool
in_file ptr flushed = ltb 0 ptr && ltb ptr flushed

-- The checks of `readRoot` behind `loadMeta`.
unfoldable pub meta_ok : Kv ℕ → Bytes → ℕ → Bool
meta_ok db sig file_size =
    eq_bytes db_sig sig
    && (ltb 0 db.pages.flushed && leb db.pages.flushed (file_size / page_size))
    && in_file db.tree db.pages.flushed
    && in_file db.free.head_page db.pages.flushed
    && in_file db.free.tail_page db.pages.flushed

-- `loadMeta`, `SetMaxVer` and the checks, in their order.
unfoldable pub read_meta : Kv ℕ → Bytes → ℕ → Option (Kv ℕ × Option OpenError)
unfolding load_meta meta_ok
read_meta db chunk file_size = do
  loaded ← load_meta db chunk
  sig ← slice 0 16 chunk
  let db' = record loaded {
    pager = record loaded.pager { free = set_max_ver loaded.version loaded.free };
  }
  some (db', if meta_ok db' sig file_size then none else some bad_meta)

-- The data of a file that is not empty is its first mapping.
unfoldable pub read_root : Kv ℕ → ℕ → Option (Kv ℕ × Option OpenError)
unfolding read_meta
read_root db file_size =
    if file_size == 0
    then some (
      record db {
        pager = record {
          free = record db.free { head_page = 1; tail_page = 1 };
          pages = record db.pages { flushed = 2 };
        };
      },
      none,
    )
    else if not (file_size % page_size == 0)
    then some (db, some not_pages)
    else elim db.pages.chunks [ [] ↦ none | chunk ∷ _ ↦ read_meta db chunk file_size ]
