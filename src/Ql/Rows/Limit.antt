-- ===== src/Ql/Rows/Limit.antt =====
-- Which rows `qlScanIter` of ql_exec.go gives.
use mini_database_v.Base.{
  All, ℕ, zero, suc, ◌+◌, ◌-◌, ◌<◌, Bool, true, false, List, [], ◌∷◌, none, some, ◌==◌, leb,
  if◌then◌else◌, ◌≡◌, refl, arith, inl, inr, length, take, drop, Bool-cases, subst, ap, ◌∙◌, sym,
  ◌>>=◌,
}
use mini_database_v.Table.Value.{Record}
use mini_database_v.Ql.Ast.{QlScan}
use mini_database_v.Ql.Rows.{pull, ScanIter, next, exec_scan, collect}
use mini_database_v.Ql.Rows.Step.{matching, Moved, none_left, at_row, next-Moves}

-- What is left of the matching rows behind OFFSET: LIMIT counts the rows in front as well, and a
-- limit that they have passed already is none.
abbrev pub selected : QlScan → List Record → List Record
selected req ms =
    if req.limit == 0
    then []
    else if leb (suc req.offset) req.limit
    then take (req.limit - req.offset) ms
    else ms

take_nil : (n : ℕ) → take {A = Record} n [] ≡ []
take_nil zero = refl
take_nil (suc n) = refl

module _ (req : QlScan) (p : Record → Bool) where
  -- The rows from a matching one on, which is the n-th.
  abbrev limited : ℕ → List Record → List Record
  limited n [] = []
  limited n (m ∷ ms) = m ∷ (if leb n req.limit then take (req.limit - n) ms else ms)

  limited_next :
      (n : ℕ) (ms : List Record)
      → (n == req.limit) ≡ false
      → limited (suc n) ms ≡ (if leb n req.limit then take (req.limit - n) ms else ms)
  limited_next n [] h = elim (Bool-cases (leb n req.limit)) [
    | inl le ↦ rw (le, take_nil (req.limit - n))
    | inr gt ↦ rw gt
  ]
  limited_next n (m ∷ ms) h = elim (Bool-cases (leb n req.limit)) [
    | inl le ↦
        let lt : leb (suc n) req.limit ≡ true = ground arith in
        let one : req.limit - n ≡ suc (req.limit - suc n) = ground arith in rw (le, lt, one)
    | inr gt ↦ let gt' : leb (suc n) req.limit ≡ false = ground arith in rw (gt, gt')
  ]

  -- One step of the loop, by what is behind the row.
  collect_row :
      (fuel : ℕ) (it it' : ScanIter) (ms : List Record)
      → it.ended ≡ false
      → it.err ≡ none
      → next req it ≡ some it'
      → collect req fuel it' ≡ some (inr ms)
      → collect req (suc fuel) it ≡ some (inr (it.rec ∷ ms))
  unfolding collect
  collect_row fuel it it' ms going clean step rest = rw (going, clean, step, rest)

  collect_ended :
      (fuel : ℕ) (it : ScanIter) → 0 < fuel → it.ended ≡ true → collect req fuel it ≡ some (inr [])
  unfolding collect
  collect_ended zero it h ended = absurd (omega arith)
  collect_ended (suc fuel) it h ended = rw ended

  next_full :
      (it : ScanIter)
      → (it.count == req.limit) ≡ true
      → next req it
        ≡ some
            (record { rows = it.rows; count = it.count; ended = true; rec = it.rec; err = it.err })
  unfolding next
  next_full it h = rw h

  limit_reached :
      (n : ℕ) (ms : List Record)
      → (n == req.limit) ≡ true
      → [] ≡ (if leb n req.limit then take (req.limit - n) ms else ms)
  limit_reached n ms h =
      let le : leb n req.limit ≡ true = ground arith in
      let none_more : req.limit - n ≡ 0 = ground arith in rw (le, none_more)

  collect-Moved :
      (fuel n size : ℕ) (it : ScanIter) (ms : List Record)
      → Moved req p n size it ms
      → req.offset < n
      → size < fuel
      → collect req fuel it ≡ some (inr (limited n ms))
  unfolding collect
  collect-Moved zero n size it ms moved from less = absurd (omega arith)
  collect-Moved (suc fuel) n size it _ (none_left ended) from less = rw ended
  collect-Moved (suc fuel) n size it _ (at_row ms going clean count left fit rows) from less =
      elim (Bool-cases (it.count == req.limit)) [
        | inl full ↦
            let it' : ScanIter = record {
              rows = it.rows;
              count = it.count;
              ended = true;
              rec = it.rec;
              err = it.err;
            } in
            let none_more = limit_reached n ms (rw (sym count) full) in
            let rest = collect_ended fuel it' (omega arith) refl in
            rw (sym none_more) (collect_row fuel it it' [] going clean (next_full it full) rest)
        | inr more ↦
            let (it', (step, moved)) = next-Moves req p it fit going clean more in
            let behind : req.offset - it.count ≡ 0 = omega arith in
            let rest =
              collect-Moved fuel (suc (it.count + (req.offset - it.count))) (length it.rows) it'
                (drop (req.offset - it.count) (matching p it.rows)) moved (omega arith)
                (omega arith) in
            let reached : it.count + (req.offset - it.count) ≡ n = omega arith in
            let same : limited (suc (it.count + (req.offset - it.count)))
                  (drop (req.offset - it.count) (matching p it.rows))
                ≡ (if leb n req.limit then take (req.limit - n) ms else ms) =
              rw (reached, behind, left) (limited_next n ms (rw (sym count) more)) in
            collect_row fuel it it' (if leb n req.limit then take (req.limit - n) ms else ms) going
              clean step (rest ∙ ap (λ x. some (inr x)) same)
      ]

  limited-selected :
      (ms : List Record) → (req.limit == 0) ≡ false → limited (suc req.offset) ms ≡ selected req ms
  limited-selected [] h = elim (Bool-cases (leb (suc req.offset) req.limit)) [
    | inl le ↦ rw (h, le, take_nil (req.limit - req.offset))
    | inr gt ↦ rw (h, gt)
  ]
  limited-selected (m ∷ ms) h = elim (Bool-cases (leb (suc req.offset) req.limit)) [
    | inl le ↦
        let one : req.limit - req.offset ≡ suc (req.limit - suc req.offset) = ground arith in
        rw (h, le, one)
    | inr gt ↦ rw (h, gt)
  ]

  -- When the filter answers on each of the rows at hand as a test does, the loop over `execScan` ends with fuel above the
  -- number of rows and gives the matching rows behind the first `offset`: none if the limit is 0,
  -- `limit - offset` of them if the limit is above the offset, and all of them otherwise.
  pub exec_scan_lem :
      (rows : List Record) (fuel : ℕ)
      → All (λ r. pull req r ≡ some (inr (p r))) rows
      → length rows < fuel
      → (exec_scan req rows >>= collect req fuel)
        ≡ some (inr (selected req (drop req.offset (matching p rows))))
  unfolding exec_scan
  exec_scan_lem rows fuel filters h =
      let it : ScanIter = record {
        rows = rows;
        count = 0;
        ended = false;
        rec = record { cols = []; vals = [] };
        err = none;
      } in
      elim (Bool-cases (0 == req.limit)) [
        | inl nothing ↦
            let no_rows : (req.limit == 0) ≡ true = ground arith in
            let it' : ScanIter = record {
              rows = rows;
              count = 0;
              ended = true;
              rec = it.rec;
              err = none;
            } in
            rw (next_full it nothing, no_rows) (collect_ended fuel it' (omega arith) refl)
        | inr some_rows ↦
            let (it', (step, moved)) = next-Moves req p it filters refl refl some_rows in
            let has_limit : (req.limit == 0) ≡ false = ground arith in
            let none_skipped : 0 + (req.offset - 0) ≡ req.offset = omega arith in
            let all_left : req.offset - 0 ≡ req.offset = omega arith in
            let at : Moved req p (suc req.offset) (length rows) it'
                (drop req.offset (matching p rows)) =
              subst (λ x. Moved req p (suc req.offset) (length rows) it' (drop x (matching p rows)))
                all_left
                (subst
                  (λ x.
                    Moved req p (suc x) (length rows) it' (drop (req.offset - 0) (matching p rows)))
                  none_skipped moved) in
            let rest =
              collect-Moved fuel (suc req.offset) (length rows) it'
                (drop req.offset (matching p rows)) at (omega arith) h in
            rw (step, sym (limited-selected (drop req.offset (matching p rows)) has_limit)) rest
      ]
