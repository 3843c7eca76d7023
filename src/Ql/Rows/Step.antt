-- ===== src/Ql/Rows/Step.antt =====
-- One call of `Next` of `qlScanIter` in ql_exec.go.
use mini_database_v.Base.{
  All, ℕ, zero, suc, ◌+◌, ◌-◌, ◌<◌, ◌≤◌, Bool, true, false, List, [], ◌∷◌, none, some, ◌==◌, leb,
  if◌then◌else◌, ◌≡◌, refl, arith, inl, inr, length, drop, Bool-cases, ◌∙◌, sym,
}
use mini_database_v.Table.Value.{Record}
use mini_database_v.Ql.Ast.{QlScan}
use mini_database_v.Ql.Rows.{pull, ScanIter, next_rows, next}

-- The rows that satisfy a test.
abbrev pub matching : (Record → Bool) → List Record → List Record
matching p [] = []
matching p (r ∷ rs) = if p r then r ∷ matching p rs else matching p rs

-- The filter answers on these rows as the test does.
abbrev pub Filters : QlScan → (Record → Bool) → List Record → Type 0
Filters req p = All (λ r. pull req r ≡ some (inr (p r)))

-- How the iterator stands behind `Next`, by the matching rows that are to come.
pub data Moved (req : QlScan) (p : Record → Bool) (n size : ℕ) (it : ScanIter)
    : List Record → Type 0 where
  none_left : it.ended ≡ true → Moved req p n size it []
  at_row :
      (ms : List Record)
      → it.ended ≡ false
      → it.err ≡ none
      → it.count ≡ n
      → matching p it.rows ≡ ms
      → Filters req p it.rows
      → length it.rows < size
      → Moved req p n size it (it.rec ∷ ms)

Moved-weaken :
    (req : QlScan) (p : Record → Bool) (n m k : ℕ) (it : ScanIter) (ms : List Record)
    → m ≤ k
    → Moved req p n m it ms
    → Moved req p n k it ms
Moved-weaken req p n m k it _ h (none_left e) = none_left e
Moved-weaken req p n m k it _ h (at_row ms going clean count left fit size) =
    at_row ms going clean count left fit (omega arith)

module _ (req : QlScan) (p : Record → Bool) where
  passed :
      (r : Record) (rs : List Record) (it : ScanIter)
      → pull req r ≡ some (inr (p r))
      → p r ≡ false
      → next_rows req (r ∷ rs) it
        ≡ next_rows req rs
            (record { rows = rs; count = it.count; ended = it.ended; rec = r; err = it.err })
  unfolding next_rows
  passed r rs it filters h = rw (filters, h)

  skipped :
      (r : Record) (rs : List Record) (it : ScanIter)
      → pull req r ≡ some (inr (p r))
      → p r ≡ true
      → suc it.count ≤ req.offset
      → next_rows req (r ∷ rs) it
        ≡ next_rows req rs
            (record { rows = rs; count = suc it.count; ended = it.ended; rec = r; err = it.err })
  unfolding next_rows
  skipped r rs it filters h less =
      let test : leb (suc it.count) req.offset ≡ true = ground arith in rw (filters, h, test)

  kept :
      (r : Record) (rs : List Record) (it : ScanIter)
      → pull req r ≡ some (inr (p r))
      → p r ≡ true
      → req.offset ≤ it.count
      → next_rows req (r ∷ rs) it
        ≡ some (record { rows = rs; count = suc it.count; ended = it.ended; rec = r; err = it.err })
  unfolding next_rows
  kept r rs it filters h more =
      let test : leb (suc it.count) req.offset ≡ false = ground arith in rw (filters, h, test)

  abbrev Moves : List Record → ScanIter → ℕ → Type 0
  Moves rows it skip =
      (it' : ScanIter) × ((next_rows req rows it ≡ some it')
        × Moved req p (suc (it.count + skip)) (length rows) it' (drop skip (matching p rows)))

  fitting :
      (r : Record) (rs : List Record) (it : ScanIter) (skip : ℕ)
      → it.ended ≡ false
      → it.err ≡ none
      → skip ≡ req.offset - it.count
      → pull req r ≡ some (inr (p r))
      → Filters req p rs
      → p r ≡ true
      → ((it : ScanIter) (skip : ℕ)
          → it.ended ≡ false
          → it.err ≡ none
          → skip ≡ req.offset - it.count
          → Moves rs it skip)
      → Moves (r ∷ rs) it skip
  fitting r rs it zero going clean h filter rest fits ih =
      let it1 : ScanIter = record {
        rows = rs;
        count = suc it.count;
        ended = it.ended;
        rec = r;
        err = it.err;
      } in
      let more : req.offset ≤ it.count = omega arith in
      (
        it1,
        (
          kept r rs it filter fits more,
          rw fits (at_row (matching p rs) going clean (omega arith) refl rest (omega arith)),
        ),
      )
  fitting r rs it (suc k) going clean h filter rest fits ih =
      let it1 : ScanIter = record {
        rows = rs;
        count = suc it.count;
        ended = it.ended;
        rec = r;
        err = it.err;
      } in
      let less : suc it.count ≤ req.offset = omega arith in
      let (it', (next, moved)) = ih it1 k going clean (omega arith) in
      let count : suc (suc it.count + k) ≡ suc (it.count + suc k) = omega arith in
      let sized =
        Moved-weaken req p (suc (suc it.count + k)) (length rs) (suc (length rs)) it'
          (drop k (matching p rs)) (omega arith) moved in
      (it', (skipped r rs it filter fits less ∙ next, rw (fits, sym count) sized))

  next_rows-Moved :
      (rows : List Record) (it : ScanIter) (skip : ℕ)
      → Filters req p rows
      → it.ended ≡ false
      → it.err ≡ none
      → skip ≡ req.offset - it.count
      → Moves rows it skip
  unfolding next_rows
  next_rows-Moved [] it zero none_there going clean h = (
    record { rows = []; count = it.count; ended = true; rec = it.rec; err = it.err },
    (refl, none_left refl),
  )
  next_rows-Moved [] it (suc k) none_there going clean h = (
    record { rows = []; count = it.count; ended = true; rec = it.rec; err = it.err },
    (refl, none_left refl),
  )
  next_rows-Moved (r ∷ rs) it skip (filter, rest) going clean h = elim (Bool-cases (p r)) [
    | inl fits ↦
        fitting r rs it skip going clean h filter rest fits
          (λ it2 skip2. next_rows-Moved rs it2 skip2 rest)
    | inr fails ↦
        let it1 : ScanIter = record {
          rows = rs;
          count = it.count;
          ended = it.ended;
          rec = r;
          err = it.err;
        } in
        let (it', (next, moved)) = next_rows-Moved rs it1 skip rest going clean h in
        let less =
          Moved-weaken req p (suc (it.count + skip)) (length rs) (suc (length rs)) it'
            (drop skip (matching p rs)) (omega arith) moved in
        (it', (passed r rs it filter fails ∙ next, rw fails less))
  ]

  pub next-Moves :
      (it : ScanIter)
      → Filters req p it.rows
      → it.ended ≡ false
      → it.err ≡ none
      → (it.count == req.limit) ≡ false
      → (it' : ScanIter) × ((next req it ≡ some it')
          × Moved req p
              (suc (it.count + (req.offset - it.count)))
              (length it.rows)
              it'
              (drop (req.offset - it.count) (matching p it.rows)))
  unfolding next
  next-Moves it filters going clean h =
      rw h (next_rows-Moved it.rows it (req.offset - it.count) filters going clean refl)
