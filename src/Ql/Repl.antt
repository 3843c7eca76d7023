-- ===== src/Ql/Repl.antt =====
-- The loop of `repl` in cmd/ql.go that takes the statements out of the input, one line at a time.
use mini_database_v.Base.{
  ℕ, zero, suc, ◌<◌, Bool, true, false, List, [], ◌∷◌, ◌++◌, Option, none, some, ◌≡◌, refl, arith,
  length, inl, inr, ◌⊎◌, ap,
}
use mini_database_v.Base.Bytes.{Bytes}
use mini_database_v.Ql.Lex.{is_space, drop_while}
use mini_database_v.Ql.Scanner.{
  StmtScanner, finished, failed, found, stmt_empty, stmt_incomplete, next_stmt_str, semicolon,
  next_stmt_str_less, next_stmt_str-NextResult, finishes, is_cut, is_empty, takes, scan,
}

-- The inner loop of `repl`: the statements so far, and whether the input ends within one. After an
-- empty statement the loop goes on with the scanner as it is; `none` means that the fuel ran out.
unfoldable pub scan_all : ℕ → StmtScanner → List Bytes → Option (Bool × List Bytes × StmtScanner)
scan_all zero s stmts = none
scan_all (suc fuel) s stmts = elim (next_stmt_str s).0 [
  | finished ↦ some (false, stmts, (next_stmt_str s).1)
  | failed stmt_incomplete ↦ some (true, stmts, (next_stmt_str s).1)
  | failed stmt_empty ↦ scan_all fuel (next_stmt_str s).1 stmts
  | found stmt ↦ scan_all fuel (next_stmt_str s).1 (stmts ++ stmt ∷ [])
]

-- The loop comes to a terminator with no statement in front of it.
pub data ReachesEmpty : StmtScanner → Type 0 where
  at_empty :
      {s : StmtScanner} (cs : Bytes) → drop_while is_space s.rest ≡ semicolon ∷ cs → ReachesEmpty s
  behind :
      {s : StmtScanner} (s' : StmtScanner) (stmt : Bytes)
      → next_stmt_str s ≡ (found stmt, s')
      → ReachesEmpty s'
      → ReachesEmpty s

-- An empty statement is reported and not consumed.
at_empty_stays :
    (s : StmtScanner) (cs : Bytes)
    → drop_while is_space s.rest ≡ semicolon ∷ cs
    → next_stmt_str s ≡ (failed stmt_empty, record { rest = semicolon ∷ cs })
unfolding next_stmt_str scan
at_empty_stays s cs h = ground arith

-- When the loop comes to a terminator with no statement in front of it, it never ends: no fuel is
-- enough.
pub scan_all_hangs :
    (fuel : ℕ) (s : StmtScanner) (stmts : List Bytes)
    → ReachesEmpty s
    → scan_all fuel s stmts ≡ none
unfolding scan_all drop_while is_space
scan_all_hangs zero s stmts r = refl
scan_all_hangs (suc fuel) s stmts (at_empty cs h) =
    rw (ap (λ x. x.0) (at_empty_stays s cs h), ap (λ x. x.1) (at_empty_stays s cs h), scan_all)
      (scan_all_hangs fuel (record { rest = semicolon ∷ cs }) stmts (at_empty cs refl))
scan_all_hangs (suc fuel) s stmts (behind s' stmt h r) =
    rw (ap (λ x. x.0) h, ap (λ x. x.1) h, scan_all) (scan_all_hangs fuel s' (stmts ++ stmt ∷ []) r)

-- With fuel above the length of the input, the loop ends, unless it comes to a terminator with no
-- statement in front of it.
pub scan_all_ends :
    (fuel : ℕ) (s : StmtScanner) (stmts : List Bytes)
    → length s.rest < fuel
    → ReachesEmpty s
      ⊎ ((b : Bool) × ((l : List Bytes) × ((s' : StmtScanner) × (scan_all fuel s stmts
                ≡ some (b, l, s')))))
unfolding scan_all
scan_all_ends zero s stmts h = absurd (omega arith)
scan_all_ends (suc fuel) s stmts h = elim (next_stmt_str-NextResult s) [
  | finishes s1 next ↦
      inr (false, (stmts, (s1, rw (ap (λ x. x.0) next, ap (λ x. x.1) next, scan_all))))
  | is_cut s1 next ↦
      inr (true, (stmts, (s1, rw (ap (λ x. x.0) next, ap (λ x. x.1) next, scan_all))))
  | is_empty cs empty ↦ inl (at_empty cs empty)
  | takes stmt s1 next ↦
      let less = next_stmt_str_less s s1 stmt next in
      elim (scan_all_ends fuel s1 (stmts ++ stmt ∷ []) (omega arith)) [
        | inl hangs ↦ inl (behind s1 stmt next hangs)
        | inr (b, (l, (s', ends))) ↦
            inr (b, (l, (s', rw (ap (λ x. x.0) next, ap (λ x. x.1) next, scan_all) ends)))
      ]
]
