-- ===== src/Table/Schema/Choice.antt =====
-- Which index a scan of table.go takes.
use mini_database_v.Base.{
  ◌≡◌, refl, sym, subst, ap, ◌∙◌, ◌↔◌, ℕ, zero, suc, ◌+◌, ◌<◌, ◌&&◌, Bool, true, false, Bool-cases,
  inl, inr, Option, none, some, List, [], ◌∷◌, ◌++◌, length, get_elem?, take, drop,
  take-append-drop, take-append, length-append, arith,
}
use mini_database_v.Base.Bytes.{Bytes, eq_bytes_iff}
use mini_database_v.Table.Schema.{slices_equal, covered, select_index}

slices_equal_iff : (xs ys : List Bytes) → (slices_equal xs ys ≡ true) ↔ (xs ≡ ys)
unfolding slices_equal
slices_equal_iff [] [] = (λ _. refl, λ _. refl)
slices_equal_iff [] (y ∷ ys) = (λ h. cc, λ h. cc)
slices_equal_iff (x ∷ xs) [] = (λ h. cc, λ h. cc)
slices_equal_iff (x ∷ xs) (y ∷ ys) = ground (arith, slices_equal_iff xs ys, eq_bytes_iff x y)

-- The key is the front of the index.
abbrev pub Covers : List Bytes → List Bytes → Type 0
Covers key index = (rest : List Bytes) × (index ≡ key ++ rest)

covered-Covers : (key index : List Bytes) → covered key index ≡ true → Covers key index
unfolding covered
covered-Covers key index h =
    let same : slices_equal (take (length key) index) key ≡ true = ground (arith, h) in
    (
      drop (length key) index,
      sym (take-append-drop (length key) index)
          ∙ ap (λ l. l ++ drop (length key) index) ((slices_equal_iff _ key).0 same),
    )

Covers-covered : (key index : List Bytes) → Covers key index → covered key index ≡ true
unfolding covered
Covers-covered key index (rest, whole) =
    let front : take (length key) index ≡ key =
      ap (take (length key)) whole ∙ take-append (length key) key rest refl in
    let same = (slices_equal_iff (take (length key) index) key).1 front in
    let size : length index ≡ length key + length rest = ap length whole ∙ length-append key rest in
    ground (arith, same, size)

-- Both keys are fronts of the index.
abbrev pub Serves : List Bytes → List Bytes → List Bytes → Type 0
Serves key1 key2 index = Covers key1 index × Covers key2 index

module _ (key1 key2 : List Bytes) where
  abbrev serves : List Bytes → Bool
  serves index = covered key1 index && covered key2 index

  serves-Serves : (index : List Bytes) → serves index ≡ true → Serves key1 key2 index
  serves-Serves index h =
      (covered-Covers key1 index (ground (arith, h)), covered-Covers key2 index (ground (arith, h)))

  Serves-serves : (index : List Bytes) → Serves key1 key2 index → serves index ≡ true
  Serves-serves index (first, second) =
      ground (arith, Covers-covered key1 index first, Covers-covered key2 index second)

  abbrev pub Chosen : List (List Bytes) → Option ℕ → Type 0
  Chosen indexes none =
      (i : ℕ) (index : List Bytes) → get_elem? indexes i ≡ some index → ¬ Serves key1 key2 index
  Chosen indexes (some i) =
      (index : List Bytes) × (get_elem? indexes i ≡ some index)
      × Serves key1 key2 index
      × ((j : ℕ) (other : List Bytes)
          → j < i
          → get_elem? indexes j ≡ some other
          → ¬ Serves key1 key2 other)

  not_first :
      (index : List Bytes) (indexes : List (List Bytes)) (o : Option ℕ)
      → serves index ≡ false
      → Chosen indexes o
      → Chosen (index ∷ indexes) (elim o [ none ↦ none | some i ↦ some (suc i) ])
  not_first index indexes none h chosen = λ i other at served. later i other at served
    where
      later :
          (i : ℕ) (other : List Bytes)
          → get_elem? (index ∷ indexes) i ≡ some other
          → ¬ Serves key1 key2 other
      later zero other at served =
          let same : index ≡ other = ground (arith, at) in
          let yes_served = Serves-serves index (subst (Serves key1 key2) (sym same) served) in cc
      later (suc i) other at served = chosen i other at served
  not_first index indexes (some i) h (found, at, served, least) = (found, at, served, earlier)
    where
      earlier :
          (j : ℕ) (other : List Bytes)
          → j < suc i
          → get_elem? (index ∷ indexes) j ≡ some other
          → ¬ Serves key1 key2 other
      earlier zero other low there serving =
          let same : index ≡ other = ground (arith, there) in
          let yes_served = Serves-serves index (subst (Serves key1 key2) (sym same) serving) in cc
      earlier (suc j) other low there serving = least j other (omega arith) there serving

  -- The index that a scan takes is the first one of which both keys are fronts; without such an index there is none.
  pub select_index_lem :
      (indexes : List (List Bytes)) → Chosen indexes (select_index key1 key2 indexes)
  unfolding select_index
  select_index_lem [] = λ i index h served. cc
  select_index_lem (index ∷ indexes) = elim (Bool-cases (serves index)) [
    | inl first ↦
        rw first
          (index, refl, serves-Serves index first, λ j other low at served. absurd (omega arith))
    | inr later ↦ rw later (not_first index indexes _ later (select_index_lem indexes))
  ]
