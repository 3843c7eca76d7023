-- ===== src/Ql/Scanner.antt =====
-- `StmtScanner` of ql_parse.go.
use mini_database_v.Base.{
  ℕ, ◌+◌, Bool, true, false, not, ◌&&◌, ◌||◌, List, [], ◌∷◌, ◌++◌, Option, none, some, ◌==◌,
  if◌then◌else◌, ◌≡◌, ◌≢◌, refl, sym, ◌∙◌, arith, length, inl, inr, ◌⊎◌, Bool-cases, Option-cases,
  append_assoc, ap, ◌<◌, ◌≤◌, length-append, subst,
}
use mini_database_v.Base.Bytes.{Bytes}
use mini_database_v.Ql.Lex.{is_space, drop_while}

-- The input that is not consumed yet.
pub record StmtScanner : Type 0 where
  pub rest : Bytes

unfoldable pub append : Bytes → StmtScanner → StmtScanner
append extra s = record { rest = s.rest ++ extra }

abbrev pub reset : StmtScanner
reset = record { rest = [] }

pub data ScanError : Type 0 where
  stmt_empty stmt_incomplete : ScanError

abbrev is_quote : ℕ → Bool
is_quote c = c == b'\'' || c == b'"'

abbrev pub semicolon : ℕ
semicolon = b';'

-- The quote that is open behind a byte, 0 outside a text.
unfoldable pub next_quote : ℕ → ℕ → ℕ
next_quote quote c =
    if not (quote == 0) then (if c == quote then 0 else quote) else (if is_quote c then c else 0)

-- The loop of `NextStmtStr`: the text up to the terminator and what is left from the terminator on,
-- `none` at the end of the input.
unfoldable pub scan : ℕ → Bytes → Option (Bytes × Bytes)
scan quote [] = none
scan quote (c ∷ cs) =
    let rest = scan (next_quote quote c) cs in
    if quote == 0 && c == semicolon
    then some ([], c ∷ cs)
    else elim rest [ none ↦ none | some (s, left) ↦ some (c ∷ s, left) ]

-- The result of `NextStmtStr`: nothing left, an error, or a statement with its terminator.
pub data Scanned : Type 0 where
  finished : Scanned
  failed : ScanError → Scanned
  found : Bytes → Scanned

-- what is behind the terminator
abbrev past : Bytes → Bytes
past [] = []
past (c ∷ cs) = cs

unfoldable pub next_stmt_str : StmtScanner → Scanned × StmtScanner
unfolding scan drop_while is_space
next_stmt_str s0 =
    let rest = drop_while is_space s0.rest in
    let s : StmtScanner = record { rest = rest } in
    elim rest [
      | [] ↦ (finished, s)
      | c ∷ cs ↦ elim (scan 0 (c ∷ cs)) [
        | none ↦ (failed stmt_incomplete, s)
        | some ([], left) ↦ (failed stmt_empty, s)
        | some (d ∷ ds, left) ↦ (found ((d ∷ ds) ++ semicolon ∷ []), record { rest = past left })
      ]
    ]

-- A terminator at the head, or a byte of the statement and the rest of it.
data Step (quote c : ℕ) (cs st left : Bytes) : Type 0 where
  ends : (quote == 0 && c == semicolon) ≡ true → st ≡ [] → left ≡ c ∷ cs → Step quote c cs st left
  goes :
      (quote == 0 && c == semicolon) ≡ false
      → (rest : Bytes) → st ≡ c ∷ rest
      → scan (next_quote quote c) cs ≡ some (rest, left)
      → Step quote c cs st left

step :
    (quote c : ℕ) (cs : Bytes) {st left : Bytes}
    → scan quote (c ∷ cs) ≡ some (st, left)
    → Step quote c cs st left
unfolding scan
step quote c cs {st} {left} h = elim (Bool-cases (quote == 0 && c == semicolon)) [
  | inl stop ↦
      let here : st ≡ [] = ground arith in
      let stays : left ≡ c ∷ cs = ground arith in ends stop here stays
  | inr on ↦ elim (Option-cases (scan (next_quote quote c) cs)) [
    | inl at_end ↦ ground arith
    | inr ((rest, l), ok) ↦
        let here : st ≡ c ∷ rest = cc in
        let more : scan (next_quote quote c) cs ≡ some (rest, left) = cc in goes on rest here more
  ]
]

scan-append :
    (quote : ℕ) (xs ys : Bytes) {st left : Bytes}
    → scan quote xs ≡ some (st, left)
    → scan quote (xs ++ ys) ≡ some (st, left ++ ys)
unfolding scan
scan-append quote [] ys h = cc
scan-append quote (c ∷ cs) ys {st} {left} h = elim (step quote c cs h) [
  | ends stop here stays ↦ rw (stop, here, stays)
  | goes on rest here more ↦ rw (on, scan-append (next_quote quote c) cs ys more, here)
]

scan_splits :
    (quote : ℕ) (xs : Bytes) {st left : Bytes}
    → scan quote xs ≡ some (st, left)
    → (xs ≡ st ++ left) × (left ≡ semicolon ∷ past left)
unfolding scan
scan_splits quote [] h = cc
scan_splits quote (c ∷ cs) h = elim (step quote c cs h) [
  | ends stop here stays ↦
      let is : c ≡ semicolon = ground arith in (rw (here, stays), rw (stays, is))
  | goes on rest here more ↦
      let (parts, from) = scan_splits (next_quote quote c) cs more in (rw (here, parts), from)
]

length-drop_while : (xs : Bytes) → length (drop_while is_space xs) ≤ length xs
unfolding drop_while
length-drop_while [] = ground arith
length-drop_while (x ∷ xs) = ground (arith, length-drop_while xs)

drop_while-append :
    (xs ys : Bytes) {c : ℕ} {cs : Bytes}
    → drop_while is_space xs ≡ c ∷ cs
    → drop_while is_space (xs ++ ys) ≡ c ∷ (cs ++ ys)
unfolding drop_while
drop_while-append [] ys h = cc
drop_while-append (x ∷ xs) ys {c} {cs} h = ground (arith, drop_while-append xs ys {c = c} {cs = cs})

-- How `next_stmt_str` comes to its result.
pub data Found (s : StmtScanner) (st : Bytes) (s' : StmtScanner) : Type 0 where
  found_at :
      (c : ℕ) (cs st' left : Bytes)
      → drop_while is_space s.rest ≡ c ∷ cs
      → scan 0 (c ∷ cs) ≡ some (st', left)
      → st' ≢ []
      → st ≡ st' ++ semicolon ∷ []
      → s'.rest ≡ past left
      → Found s st s'

pub list-cases {ℓ} :
    {A : Type ℓ} (xs : List A) → (xs ≡ []) ⊎ ((x : A) × ((t : List A) × (xs ≡ x ∷ t)))
list-cases [] = inl refl
list-cases (x ∷ t) = inr (x, (t, refl))

pub next_stmt_str-Found :
    (s s' : StmtScanner) (st : Bytes) → next_stmt_str s ≡ (found st, s') → Found s st s'
unfolding next_stmt_str
next_stmt_str-Found s s' st h = elim (list-cases (drop_while is_space s.rest)) [
  | inl at_end ↦ ground arith
  | inr (c, (cs, front)) ↦ elim (Option-cases (scan 0 (c ∷ cs))) [
    | inl unclosed ↦ ground arith
    | inr (([], left), ok) ↦ ground arith
    | inr ((d ∷ ds, left), ok) ↦
        let whole : st ≡ (d ∷ ds) ++ semicolon ∷ [] = ground arith in
        let behind : s'.rest ≡ past left = ground arith in
        found_at c cs (d ∷ ds) left front ok (λ e. ground arith) whole behind
  ]
]

-- A statement that is found is found as it is whatever input is appended behind it, and the appended
-- input is left: so it makes no difference how the input is split into lines.
pub next_stmt_str-append :
    (s s' : StmtScanner) (st more : Bytes)
    → next_stmt_str s ≡ (found st, s')
    → next_stmt_str (append more s) ≡ (found st, append more s')
unfolding next_stmt_str append
next_stmt_str-append s s' st more h = elim (next_stmt_str-Found s s' st h) [
  | found_at c cs [] left front ok full whole behind ↦ absurd (full refl)
  | found_at c cs (d ∷ ds) left front ok full whole behind ↦
      let (parts, from) = scan_splits 0 (c ∷ cs) ok in
      let longer : past (left ++ more) ≡ past left ++ more = rw (from, from) in
      let front' = drop_while-append s.rest more front in
      let ok' = scan-append 0 (c ∷ cs) more ok in
      let rest' : s'.rest ++ more ≡ past (left ++ more) = cc in ground arith
]

-- When a statement is found, the statement and what is left are together the input without the
-- spaces in front of it: no byte is lost or read twice.
pub next_stmt_str_splits :
    (s s' : StmtScanner) (st : Bytes)
    → next_stmt_str s ≡ (found st, s')
    → drop_while is_space s.rest ≡ st ++ s'.rest
next_stmt_str_splits s s' st h = elim (next_stmt_str-Found s s' st h) [
  | found_at c cs st' left front ok full whole behind ↦
      let (parts, from) = scan_splits 0 (c ∷ cs) ok in
      let glue : st' ++ left ≡ (st' ++ semicolon ∷ []) ++ past left = rw (append_assoc, sym from) in
      rw (front, parts, whole, behind, glue)
]

-- A statement is taken out of the input.
pub next_stmt_str_less :
    (s s' : StmtScanner) (st : Bytes)
    → next_stmt_str s ≡ (found st, s')
    → length s'.rest < length s.rest
next_stmt_str_less s s' st h = elim (next_stmt_str-Found s s' st h) [
  | found_at c cs [] left front ok full whole behind ↦ absurd (full refl)
  | found_at c cs (d ∷ ds) left front ok full whole behind ↦
      let split : drop_while is_space s.rest ≡ ((d ∷ ds) ++ semicolon ∷ []) ++ s'.rest =
        subst (λ x. drop_while is_space s.rest ≡ x ++ s'.rest) whole
          (next_stmt_str_splits s s' st h) in
      let size : length (drop_while is_space s.rest) ≡ length (d ∷ ds) + 1 + length s'.rest =
        rw (split, length-append, length-append) in
      let less = length-drop_while s.rest in omega arith
]

-- The results of `next_stmt_str`; an empty statement means that a terminator stands at the head.
pub data NextResult (s : StmtScanner) : Type 0 where
  finishes : (s1 : StmtScanner) → next_stmt_str s ≡ (finished, s1) → NextResult s
  is_cut : (s1 : StmtScanner) → next_stmt_str s ≡ (failed stmt_incomplete, s1) → NextResult s
  is_empty : (cs : Bytes) → drop_while is_space s.rest ≡ semicolon ∷ cs → NextResult s
  takes : (stmt : Bytes) (s1 : StmtScanner) → next_stmt_str s ≡ (found stmt, s1) → NextResult s

pub next_stmt_str-NextResult : (s : StmtScanner) → NextResult s
unfolding next_stmt_str
next_stmt_str-NextResult s = elim (list-cases (drop_while is_space s.rest)) [
  | inl at_end ↦ finishes (record { rest = drop_while is_space s.rest }) (ground arith)
  | inr (c, (cs, front)) ↦ elim (Option-cases (scan 0 (c ∷ cs))) [
    | inl unclosed ↦ is_cut (record { rest = c ∷ cs }) (ground arith)
    | inr (([], left), ok) ↦ elim (step 0 c cs ok) [
      | ends stop here stays ↦
          let semi : c ≡ semicolon = ground arith in is_empty cs (front ∙ ap (λ x. x ∷ cs) semi)
      | goes on rest here more ↦ absurd (cc)
    ]
    | inr ((d ∷ ds, left), ok) ↦
        takes ((d ∷ ds) ++ semicolon ∷ []) (record { rest = past left }) (ground arith)
  ]
]
