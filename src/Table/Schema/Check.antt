-- ===== src/Table/Schema/Check.antt =====
-- The verification of an index of table.go.
use mini_database_v.Base.{
  subst, sym, ◌≡◌, refl, ap, ◌∙◌, ℕ, ◌≤◌, ◌&&◌, ◌||◌, not, leb, Bool, true, false, Bool-cases, inl,
  inr, some, List, [], ◌∷◌, ◌++◌, arith,
}
use mini_database_v.Base.Bytes.{Bytes, eq_bytes_iff, eq_bytes_refl}
use mini_database_v.Table.Result.{DbError, ok, err}
use mini_database_v.Table.Schema.{
  TableDef, slices_index, is_in, primary_key, check_cols, unseen, check_index_cols,
}
use mini_database_v.Table.Schema.Columns.{
  is_in-cons, is_in-append, all_in, no_duplicates, disjoint, no_duplicates-length,
}

disjoint-cons :
    (x : Bytes) (seen cols : List Bytes)
    → disjoint (x ∷ seen) cols ≡ (not (is_in cols x) && disjoint seen cols)
unfolding slices_index
disjoint-cons x seen [] = refl
disjoint-cons x seen (y ∷ cols) = ground (
  arith,
  disjoint-cons x seen cols,
  is_in-cons x seen y,
  is_in-cons y cols x,
  eq_bytes_iff x y,
  eq_bytes_iff y x,
)

or_false : (b : Bool) → b ≡ (b || false)
or_false true = refl
or_false false = refl

check_cols_accepts :
    (tdef : TableDef) (seen cols : List Bytes)
    → all_in tdef.cols cols ≡ true
    → no_duplicates cols ≡ true
    → disjoint seen cols ≡ true
    → (seen' : List Bytes) × (check_cols tdef seen cols ≡ some (ok seen'))
      × ((c : Bytes) → is_in seen' c ≡ (is_in seen c || is_in cols c))
unfolding check_cols
check_cols_accepts tdef seen [] h k d = (seen, refl, λ c. or_false (is_in seen c))
check_cols_accepts tdef seen (x ∷ cols) h k d =
    let known : is_in tdef.cols x ≡ true = ground (arith, h) in
    let fresh : is_in seen x ≡ false = ground (arith, d) in
    let (seen', found, same) =
      check_cols_accepts tdef (x ∷ seen) cols (ground (arith, h)) (ground (arith, k))
        (ground (arith, disjoint-cons x seen cols, d, k)) in
    (
      seen',
      rw (known, fresh) found,
      λ c. ground (arith, same c, is_in-cons x seen c, is_in-cons x cols c),
    )

check_cols_refuses :
    (tdef : TableDef) (seen cols : List Bytes)
    → (all_in tdef.cols cols && no_duplicates cols && disjoint seen cols) ≡ false
    → (e : DbError) × (check_cols tdef seen cols ≡ some (err e))
unfolding check_cols
check_cols_refuses tdef seen [] h = cc
check_cols_refuses tdef seen (x ∷ cols) h = elim (Bool-cases (is_in tdef.cols x)) [
  | inr unknown ↦ (DbError.unknown_index_column x, rw unknown refl)
  | inl known ↦ elim (Bool-cases (is_in seen x)) [
    | inl twice ↦ (DbError.duplicate_index_column x, rw (known, twice) refl)
    | inr fresh ↦
        let (e, refused) =
          check_cols_refuses tdef (x ∷ seen) cols
            (ground (arith, disjoint-cons x seen cols, h, known, fresh)) in
        (e, rw (known, fresh) refused)
  ]
]

is_in-unseen :
    (seen pk : List Bytes) (c : Bytes)
    → is_in (unseen seen pk) c ≡ (is_in pk c && not (is_in seen c))
unfolding unseen slices_index
is_in-unseen seen [] c = refl
is_in-unseen seen (x ∷ pk) c = ground (
  arith,
  is_in-unseen seen pk c,
  is_in-cons x pk c,
  is_in-cons x (unseen seen pk) c,
  eq_bytes_iff x c,
)

no_duplicates-unseen :
    (seen pk : List Bytes) → no_duplicates pk ≡ true → no_duplicates (unseen seen pk) ≡ true
unfolding unseen
no_duplicates-unseen seen [] h = refl
no_duplicates-unseen seen (x ∷ pk) h =
    ground (arith, no_duplicates-unseen seen pk, is_in-unseen seen pk x, h)

all_in-unseen :
    (cols seen pk : List Bytes) → all_in cols pk ≡ true → all_in cols (unseen seen pk) ≡ true
unfolding unseen
all_in-unseen cols seen [] h = refl
all_in-unseen cols seen (x ∷ pk) h = ground (arith, all_in-unseen cols seen pk, h)

all_in-append :
    (cols xs ys : List Bytes)
    → all_in cols xs ≡ true
    → all_in cols ys ≡ true
    → all_in cols (xs ++ ys) ≡ true
all_in-append cols [] ys h k = k
all_in-append cols (x ∷ xs) ys h k = ground (arith, all_in-append cols xs ys, h, k)

no_duplicates-append :
    (xs ys : List Bytes)
    → no_duplicates xs ≡ true
    → no_duplicates ys ≡ true
    → ((c : Bytes) → is_in xs c ≡ true → is_in ys c ≡ false)
    → no_duplicates (xs ++ ys) ≡ true
no_duplicates-append [] ys h k apart = k
no_duplicates-append (x ∷ xs) ys h k apart =
    let later : (c : Bytes) → is_in xs c ≡ true → is_in ys c ≡ false =
      λ c at. apart c (ground (arith, is_in-cons x xs c, at)) in
    let away : is_in ys x ≡ false = apart x (ground (arith, is_in-cons x xs x, eq_bytes_refl x)) in
    ground
      (arith, no_duplicates-append xs ys (ground (arith, h)) k later, is_in-append xs ys x, away, h)

-- Every column of the primary key is in the index.
all_in-whole :
    (index seen pk : List Bytes)
    → ((c : Bytes) → is_in seen c ≡ is_in index c)
    → (rest : List Bytes) → ((c : Bytes) → is_in rest c ≡ true → is_in pk c ≡ true)
    → all_in (index ++ unseen seen pk) rest ≡ true
all_in-whole index seen pk same [] within = refl
all_in-whole index seen pk same (c ∷ rest) within =
    let here : is_in pk c ≡ true =
      within c (ground (arith, is_in-cons c rest c, eq_bytes_refl c)) in
    ground (
      arith,
      all_in-whole index seen pk same rest
          (λ d at. within d (ground (arith, is_in-cons c rest d, at))),
      is_in-append index (unseen seen pk) c,
      is_in-unseen seen pk c,
      same c,
      here,
    )

not_unseen :
    (seen index pk : List Bytes)
    → ((c : Bytes) → is_in seen c ≡ is_in index c)
    → (c : Bytes) → is_in index c ≡ true
    → is_in (unseen seen pk) c ≡ false
not_unseen seen index pk same c at = ground (arith, same c, is_in-unseen seen pk c, at)

le→leb : (a b : ℕ) → a ≤ b → leb a b ≡ true
le→leb a b h = ground arith

-- An index as it is stored: it starts with the given one, has no column twice, and has known columns with all of the primary key.
abbrev pub IsIndex : TableDef → List Bytes → List Bytes → List Bytes → Type 0
IsIndex tdef pk index whole =
    ((rest : List Bytes) × (whole ≡ index ++ rest))
    × (no_duplicates whole ≡ true)
    × (all_in tdef.cols whole ≡ true)
    × (all_in whole pk ≡ true)

-- What the verification of an index answers, by whether its columns are known and no duplicates.
abbrev pub Checked : TableDef → List Bytes → List Bytes → Bool → Type 0
Checked tdef pk index true =
    (whole : List Bytes) × (check_index_cols tdef index ≡ some (ok whole))
    × IsIndex tdef pk index whole
Checked tdef pk index false = (e : DbError) × (check_index_cols tdef index ≡ some (err e))

disjoint-nil : (cols : List Bytes) → disjoint [] cols ≡ true
unfolding slices_index
disjoint-nil [] = refl
disjoint-nil (c ∷ cols) = disjoint-nil cols

is_in-nil : (c : Bytes) → is_in [] c ≡ false
unfolding slices_index
is_in-nil c = refl

module _ (tdef : TableDef) (pk : List Bytes) (c : Bytes) (cols : List Bytes)
    (key : primary_key tdef ≡ some pk) (unique : no_duplicates pk ≡ true)
    (known : all_in tdef.cols pk ≡ true) where
  accepted :
      (all_in tdef.cols (c ∷ cols) && no_duplicates (c ∷ cols)) ≡ true
      → (whole : List Bytes) × (check_index_cols tdef (c ∷ cols) ≡ some (ok whole))
        × IsIndex tdef pk (c ∷ cols) whole
  unfolding check_index_cols
  accepted h =
      let cols_known : all_in tdef.cols (c ∷ cols) ≡ true = ground (arith, h) in
      let cols_unique : no_duplicates (c ∷ cols) ≡ true = ground (arith, h) in
      let (seen, found, seen_in) =
        check_cols_accepts tdef [] (c ∷ cols) cols_known cols_unique (disjoint-nil (c ∷ cols)) in
      let same : (d : Bytes) → is_in seen d ≡ is_in (c ∷ cols) d =
        λ d. seen_in d ∙ ap (λ b. b || is_in (c ∷ cols) d) (is_in-nil d) in
      let whole = (c ∷ cols) ++ unseen seen pk in
      let whole_unique =
        no_duplicates-append (c ∷ cols) (unseen seen pk) cols_unique
          (no_duplicates-unseen seen pk unique) (not_unseen seen (c ∷ cols) pk same) in
      let whole_known =
        all_in-append tdef.cols (c ∷ cols) (unseen seen pk) cols_known
          (all_in-unseen tdef.cols seen pk known) in
      let fits = le→leb _ _ (no_duplicates-length tdef.cols whole whole_unique whole_known) in
      (
        whole,
        rw (found, key, fits) refl,
        (
          (unseen seen pk, refl),
          whole_unique,
          whole_known,
          all_in-whole (c ∷ cols) seen pk same pk (λ d at. at),
        ),
      )

  refused :
      (all_in tdef.cols (c ∷ cols) && no_duplicates (c ∷ cols)) ≡ false
      → (e : DbError) × (check_index_cols tdef (c ∷ cols) ≡ some (err e))
  unfolding check_index_cols
  refused h =
      let (e, stops) =
        check_cols_refuses tdef [] (c ∷ cols) (ground (arith, h, disjoint-nil (c ∷ cols))) in
      (e, rw stops refl)

-- Under a primary key of known columns without duplicates, an index that is not empty becomes an index that starts with it, has no column twice, and has known columns with all of the primary key, if its columns are known and without duplicates; else the answer is an error. It never panics.
pub check_index_cols_lem :
    (tdef : TableDef) (pk : List Bytes) (c : Bytes) (cols : List Bytes)
    → primary_key tdef ≡ some pk
    → no_duplicates pk ≡ true
    → all_in tdef.cols pk ≡ true
    → Checked tdef pk (c ∷ cols) (all_in tdef.cols (c ∷ cols) && no_duplicates (c ∷ cols))
check_index_cols_lem tdef pk c cols key unique known =
    elim (Bool-cases (all_in tdef.cols (c ∷ cols) && no_duplicates (c ∷ cols))) [
      | inl fine ↦
          subst (Checked tdef pk (c ∷ cols)) (sym fine)
            (accepted tdef pk c cols key unique known fine)
      | inr bad ↦
          subst (Checked tdef pk (c ∷ cols)) (sym bad) (refused tdef pk c cols key unique known bad)
    ]
