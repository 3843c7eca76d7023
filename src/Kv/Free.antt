-- ===== src/Kv/Free.antt =====
-- free_list.go: a queue of free pages, kept in pages of its own.
pub mod Node
pub mod Pop
use mini_database_v.Base.{
  ℕ, zero, suc, ◌+◌, ◌-◌, ◌*◌, ◌/◌, ◌%◌, ◌^◌, ◌<◌, ◌≡◌, refl, Bool, true, false, not, ◌&&◌, ◌||◌,
  List, [], ◌∷◌, ◌++◌, Option, none, some, ltb, leb, ◌==◌, if◌then◌else◌, ◌>>=◌, ◌>>◌, assert,
  length,
}
use mini_database_v.Base.Bytes.{Bytes}
use mini_database_v.Kv.Pages.{
  Pages, page_size, u64, zeros, is_free, put_page, page_read, page_append, page_write,
}
use Node.{free_list_cap, get_next, set_next, get_item, set_item}

pub record FreeList : Type 0 where
  pub head_page : ℕ
  pub head_seq : ℕ
  pub tail_page : ℕ
  pub tail_seq : ℕ
  pub max_seq : ℕ
  pub max_ver : ℕ
  pub cur_ver : ℕ

-- The list and the pages that its callbacks reach.
pub record Pager : Type 0 where
  pub free : FreeList
  pub pages : Pages

-- `versionBefore` of transaction.go
abbrev pub version_before : ℕ → ℕ → Bool
version_before a b = ltb a b

unfoldable pub seq2idx : ℕ → ℕ
seq2idx seq = seq % free_list_cap

unfoldable pub check : FreeList → Option (Unit {0})
check fl = do
  assert (not (fl.head_page == 0) && not (fl.tail_page == 0))
  assert (not (fl.head_seq == fl.tail_seq) || fl.head_page == fl.tail_page)

-- The last steps of `flPop`: the sequence number moves on, and a head that became empty is left.
unfoldable pub advance_head : Bytes → ℕ → Pager → Option ((ℕ × ℕ) × Pager)
unfolding seq2idx
advance_head node ptr pg =
    let fl = pg.free in
    let head_seq = u64 (fl.head_seq + 1) in
    if seq2idx head_seq == 0
    then (do
      next ← get_next node
      assert (not (next == 0))
      some (
        (ptr, fl.head_page),
        record pg { free = record fl { head_seq = head_seq; head_page = next } },
      ))
    else some ((ptr, 0), record pg { free = record fl { head_seq = head_seq } })

-- `flPop`: a free page and a head node that became empty, 0 for none.
unfoldable pub pop : Pager → Option ((ℕ × ℕ) × Pager)
unfolding advance_head check
pop pg =
    let fl = pg.free in
    do
      check fl
      if fl.head_seq == fl.max_seq then some ((0, 0), pg) else do
        node ← page_read fl.head_page pg.pages
        (ptr, version) ← get_item node (seq2idx fl.head_seq)
        if version_before fl.max_ver version then some ((0, 0), pg) else advance_head node ptr pg

-- `LNode(fl.set(fl.tailPage)).setItem(idx, ptr, fl.curVer); fl.tailSeq++`
unfoldable pub add_item : ℕ → ℕ → Pager → Option Pager
add_item idx ptr pg =
    let fl = pg.free in
    do
      pages ← page_write fl.tail_page (set_item idx ptr fl.cur_ver) pg.pages
      some (record { free = record fl { tail_seq = u64 (fl.tail_seq + 1) }; pages = pages })

-- A page for the new tail node: the one that was popped, or an appended one.
unfoldable pub tail_node : ℕ → Pager → Option (ℕ × Pager)
tail_node next pg =
    if next == 0
    then (do
      (ptr, pages) ← page_append (zeros page_size) pg.pages
      some (ptr, record pg { pages = pages }))
    else some (next, pg)

-- `LNode(fl.set(fl.tailPage)).setNext(next); fl.tailPage = next`
unfoldable pub link_tail : ℕ → Pager → Option Pager
link_tail next pg =
    let fl = pg.free in
    do
      pages ← page_write fl.tail_page (set_next next) pg.pages
      some (record { free = record fl { tail_page = next }; pages = pages })

-- What `PushTail` does when the tail node is full.
unfoldable pub grow_tail : Pager → Option Pager
unfolding pop tail_node link_tail add_item
grow_tail pg = do
  ((popped, head), pg1) ← pop pg
  (next, pg2) ← tail_node popped pg1
  pg3 ← link_tail next pg2
  if head == 0 then some pg3 else add_item 0 head pg3

unfoldable pub push_tail : ℕ → Pager → Option Pager
unfolding grow_tail
push_tail ptr pg = do
  check pg.free
  pg1 ← add_item (seq2idx pg.free.tail_seq) ptr pg
  if seq2idx pg1.free.tail_seq == 0 then grow_tail pg1 else some pg1

unfoldable pub pop_head : Pager → Option (ℕ × Pager)
unfolding push_tail
pop_head pg = do
  ((ptr, head), pg1) ← pop pg
  if head == 0 then some (ptr, pg1) else do pg2 ← push_tail head pg1; some (ptr, pg2)

-- `pageAlloc` of kv.go, `BTree.new`: a page of the free list, or a new one.
unfoldable pub page_alloc : Bytes → Pager → Option (ℕ × Pager)
unfolding pop_head page_append
page_alloc node pg = do
  (ptr, pg1) ← pop_head pg
  if not (ptr == 0)
      then (do
        assert (is_free ptr pg1.pages)
        some (ptr, record pg1 { pages = put_page ptr node pg1.pages }))
      else (do (new, pages) ← page_append node pg1.pages; some (new, record pg1 { pages = pages }))

unfoldable pub set_max_ver : ℕ → FreeList → FreeList
set_max_ver max_ver fl = record fl { max_seq = fl.tail_seq; max_ver = max_ver }
