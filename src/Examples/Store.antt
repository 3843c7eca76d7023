-- ===== src/Examples/Store.antt =====
-- The free list and the meta page of a small store.
use mini_database_v.Base.{
  ℕ, zero, suc, ◌*◌, ◌≡◌, ◌≢◌, refl, arith, false, [], ◌∷◌, ◌++◌, none, some, ◌⊎◌, length,
}
use mini_database_v.Base.Bytes.{Bytes}
use mini_database_v.Base.Assoc.{lookup}
use mini_database_v.Base.Buffer.{slice, get_le}
use mini_database_v.Kv.Pages.{page_size, zeros, page_read}
use mini_database_v.Kv.Free.{FreeList, Pager, pop}
use mini_database_v.Kv.Free.Node.{get_item, set_item, get_next, set_item_lem}
use mini_database_v.Kv.Free.Pop.{Popped, HeadKept, pop_safe}
use mini_database_v.Kv.State.{Kv, with_meta}
use mini_database_v.Kv.Meta.{meta_fields, save_meta, load_meta, read_root}
use mini_database_v.Kv.Meta.RoundTrip.{
  MetaInRange, IsStored, reopened, load_meta-save_meta, read_root-save_meta,
}

abbrev positions : FreeList
positions = record {
  head_page = 1;
  head_seq = 0;
  tail_page = 1;
  tail_seq = 2;
  max_seq = 1;
  max_ver = 7;
  cur_ver = 8;
}

-- A node with page 9, freed in version 5, at its front.
abbrev node : Bytes
node = zeros 8 ++ 9 ∷ (zeros 7 ++ 5 ∷ (zeros 7 ++ zeros 16))

abbrev pager : Pager
pager = record {
  free = positions;
  pages = record { flushed = 10; nappend = 0; updates = (1, node) ∷ []; total = 0; chunks = [] };
}

abbrev popped : Pager
popped = record pager { free = record positions { head_seq = 1 } }

popped_first : pop pager ≡ some ((9, 0), popped)
unfolding pop page_read lookup get_item slice get_le
popped_first = refl

pop_safe_example :
    (◌≡◌ {A = ℕ} 9 0) × (◌≡◌ {A = ℕ} 0 0) × (popped ≡ pager)
    ⊎ Popped pager 9 popped × HeadKept pager 0 popped
pop_safe_example = pop_safe pager popped_first

length-zeros : (n : ℕ) → length (zeros n) ≡ n
length-zeros zero = refl
length-zeros (suc n) = omega (arith, length-zeros n)

set_item_example :
    (node' : Bytes) × (set_item 254 9 5 (zeros page_size) ≡ some node')
    × (length node' ≡ page_size)
    × (get_item node' 254 ≡ some (9, 5))
    × ((j : ℕ) → j ≢ 254 → get_item node' j ≡ get_item (zeros page_size) j)
    × (get_next node' ≡ get_next (zeros page_size))
set_item_example =
    set_item_lem 254 9 5 (zeros page_size) (length-zeros page_size) (omega arith) (omega arith)
      (omega arith)

abbrev saved : Kv ℕ
saved = record {
  tree = 2;
  pager = record {
    free = positions;
    pages = record { flushed = 10; nappend = 0; updates = []; total = 0; chunks = [] };
  };
  failed = false;
  version = 8;
  ongoing = [];
  history = [];
}

saved-MetaInRange : MetaInRange saved
unfolding meta_fields
saved-MetaInRange = (
  omega arith,
  (omega arith, (omega arith, (omega arith, (omega arith, (omega arith, (omega arith, tt)))))),
)

opened : Bytes → Kv ℕ
opened page = record saved {
  tree = 0;
  version = 0;
  pager = record {
    free = positions;
    pages = record { flushed = 0; nappend = 0; updates = []; total = 0; chunks = page ∷ [] };
  };
}

load_meta-save_meta_example :
    load_meta saved (save_meta saved ++ 0 ∷ []) ≡ some (with_meta saved saved)
load_meta-save_meta_example = load_meta-save_meta saved saved (0 ∷ []) saved-MetaInRange

saved-IsStored : IsStored saved (10 * page_size)
saved-IsStored = record {
  whole = refl;
  pages = omega arith;
  room = omega arith;
  root = (omega arith, omega arith);
  head = (omega arith, omega arith);
  tail = (omega arith, omega arith);
}

read_root-save_meta_example :
    read_root (opened (save_meta saved ++ [])) (10 * page_size)
    ≡ some (reopened (opened (save_meta saved ++ [])) saved, none)
unfolding opened
read_root-save_meta_example =
    read_root-save_meta (opened (save_meta saved ++ [])) saved [] [] (10 * page_size) refl
      saved-MetaInRange saved-IsStored
