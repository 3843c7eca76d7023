-- ===== src/Kv/Free/Pop.antt =====
-- What `flPop` may hand out.
use mini_database_v.Base.{
  ℕ, ◌+◌, ◌≤◌, ◌≢◌, ◌≡◌, arith, some, inl, inr, ◌⊎◌, ◌==◌, bind_some, bound, Bool-cases,
  if◌then◌else◌,
}
use mini_database_v.Base.Bytes.{Bytes}
use mini_database_v.Kv.Pages.{u64, page_read}
use mini_database_v.Kv.Free.{Pager, seq2idx, check, advance_head, pop, version_before}
use mini_database_v.Kv.Free.Node.{get_item}

-- What `flPop` hands out: an item of the head page at the head sequence number, which is not `max_seq`,
-- and the item's version is not newer than the oldest reader.
pub record Popped (pg : Pager) (ptr : ℕ) (pg' : Pager) : Type 0 where
  pub node : Bytes
  pub version : ℕ
  pub available : pg.free.head_seq ≢ pg.free.max_seq
  pub read : page_read pg.free.head_page pg.pages ≡ some node
  pub item : get_item node (seq2idx pg.free.head_seq) ≡ some (ptr, version)
  pub unused : version ≤ pg.free.max_ver
  pub moved : pg'.free.head_seq ≡ u64 (pg.free.head_seq + 1)
  pub tail : pg'.free.tail_seq ≡ pg.free.tail_seq
  pub pages : pg'.pages ≡ pg.pages

-- The head node stays, or its number is handed out too and the next node, which exists, is the head.
abbrev pub HeadKept : Pager → ℕ → Pager → Type 0
HeadKept pg head pg' =
    (head ≡ 0) × (pg'.free.head_page ≡ pg.free.head_page) × (seq2idx pg'.free.head_seq ≢ 0)
    ⊎ (head ≡ pg.free.head_page) × (pg'.free.head_page ≢ 0) × (seq2idx pg'.free.head_seq ≡ 0)

advance_head_lem :
    (node : Bytes) (p : ℕ) (pg : Pager) {ptr head : ℕ} {pg' : Pager}
    → advance_head node p pg ≡ some ((ptr, head), pg')
    → (ptr ≡ p)
      × (pg'.free.head_seq ≡ u64 (pg.free.head_seq + 1))
      × (pg'.free.tail_seq ≡ pg.free.tail_seq)
      × (pg'.pages ≡ pg.pages)
unfolding advance_head
advance_head_lem node p pg h = ground arith

advance_head-HeadKept :
    (node : Bytes) (p : ℕ) (pg : Pager) {ptr head : ℕ} {pg' : Pager}
    → advance_head node p pg ≡ some ((ptr, head), pg')
    → HeadKept pg head pg'
unfolding advance_head
advance_head-HeadKept node p pg h = ground arith

abbrev Outcome : Pager → ℕ → ℕ → Pager → Type 0
Outcome pg ptr head pg' =
    (ptr ≡ 0) × (head ≡ 0) × (pg' ≡ pg) ⊎ Popped pg ptr pg' × HeadKept pg head pg'

module _ (pg : Pager) {ptr head : ℕ} {pg' : Pager} where
  behind_item :
      (node : Bytes) (p version : ℕ)
      → pg.free.head_seq ≢ pg.free.max_seq
      → page_read pg.free.head_page pg.pages ≡ some node
      → get_item node (seq2idx pg.free.head_seq) ≡ some (p, version)
      → (if version_before pg.free.max_ver version
          then some ((0, 0), pg)
          else advance_head node p pg)
        ≡ some ((ptr, head), pg')
      → Outcome pg ptr head pg'
  behind_item node p version available read item h =
      elim (Bool-cases (version_before pg.free.max_ver version)) [
        | inl used ↦ let same = rw used at h in inl (ground arith)
        | inr unused ↦
            let moved = rw unused at h in
            let (at, seq, tail, pages) = advance_head_lem node p pg moved in
            inr (
              record {
                node = node;
                version = version;
                available = available;
                read = read;
                item = rw at item;
                unused = ground arith;
                moved = seq;
                tail = tail;
                pages = pages;
              },
              advance_head-HeadKept node p pg moved,
            )
      ]

  -- When `flPop` returns, it has either changed nothing and handed out nothing, or handed out the
  -- item at the head, which no reader can need: its version is at most the oldest reader's.
  pub pop_safe :
      pop pg ≡ some ((ptr, head), pg')
      → (ptr ≡ 0) × (head ≡ 0) × (pg' ≡ pg) ⊎ Popped pg ptr pg' × HeadKept pg head pg'
  unfolding pop
  pop_safe h = elim (bind_some (check pg.free) _ h) [
    | bound _ _ h1 ↦ elim (Bool-cases (pg.free.head_seq == pg.free.max_seq)) [
      | inl e ↦ let same = rw e at h1 in inl (ground arith)
      | inr e ↦ elim (bind_some (page_read pg.free.head_page pg.pages) _ (rw e at h1)) [
        | bound node read h2 ↦ elim (bind_some (get_item node (seq2idx pg.free.head_seq)) _ h2) [
          | bound (p, version) item h3 ↦ behind_item node p version (ground arith) read item h3
        ]
      ]
    ]
  ]
