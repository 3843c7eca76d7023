-- ===== src/Table/Schema/Columns.antt =====
-- Lists of columns, as slices.Index of table.go finds them: none twice, and all in another list.
use mini_database_v.Base.{
  ◌≡◌, refl, ◌+◌, ◌≤◌, ◌&&◌, ◌||◌, not, Bool, true, false, List, [], ◌∷◌, ◌++◌, length, arith,
  if◌then◌else◌,
}
use mini_database_v.Base.Bytes.{Bytes, eq_bytes, eq_bytes_iff}
use mini_database_v.Table.Schema.{slices_index, is_in}

pub is_in-cons :
    (d : Bytes) (ds : List Bytes) (c : Bytes) → is_in (d ∷ ds) c ≡ (eq_bytes d c || is_in ds c)
unfolding slices_index
is_in-cons d ds c = ground arith

pub is_in-append :
    (xs ys : List Bytes) (c : Bytes) → is_in (xs ++ ys) c ≡ (is_in xs c || is_in ys c)
unfolding slices_index
is_in-append [] ys c = refl
is_in-append (x ∷ xs) ys c =
    ground (arith, is_in-append xs ys c, is_in-cons x (xs ++ ys) c, is_in-cons x xs c)

-- Every column is in the list.
abbrev pub all_in : List Bytes → List Bytes → Bool
all_in cols [] = true
all_in cols (x ∷ xs) = is_in cols x && all_in cols xs

abbrev pub no_duplicates : List Bytes → Bool
no_duplicates [] = true
no_duplicates (x ∷ xs) = not (is_in xs x) && no_duplicates xs

abbrev pub disjoint : List Bytes → List Bytes → Bool
disjoint seen [] = true
disjoint seen (x ∷ xs) = not (is_in seen x) && disjoint seen xs

remove : Bytes → List Bytes → List Bytes
remove c [] = []
remove c (x ∷ xs) = let rest = remove c xs in if eq_bytes x c then xs else x ∷ rest

length-remove :
    (c : Bytes) (xs : List Bytes) → is_in xs c ≡ true → length (remove c xs) + 1 ≡ length xs
unfolding remove slices_index
length-remove c [] h = cc
length-remove c (x ∷ xs) h = ground (arith, length-remove c xs, is_in-cons x xs c)

is_in-remove :
    (c d : Bytes) (xs : List Bytes)
    → eq_bytes c d ≡ false
    → is_in xs d ≡ true
    → is_in (remove c xs) d ≡ true
unfolding remove
is_in-remove c d [] h k = k
is_in-remove c d (x ∷ xs) h k = ground (
  arith,
  is_in-remove c d xs h,
  is_in-cons x xs d,
  is_in-cons x (remove c xs) d,
  eq_bytes_iff x c,
)

all_in-remove :
    (c : Bytes) (cols xs : List Bytes)
    → is_in xs c ≡ false
    → all_in cols xs ≡ true
    → all_in (remove c cols) xs ≡ true
all_in-remove c cols [] h k = refl
all_in-remove c cols (x ∷ xs) h k = ground (
  arith,
  is_in-cons x xs c,
  all_in-remove c cols xs,
  is_in-remove c x cols,
  eq_bytes_iff x c,
  eq_bytes_iff c x,
  h,
  k,
)

-- As many different columns as the table has, at most.
pub no_duplicates-length :
    (cols xs : List Bytes)
    → no_duplicates xs ≡ true
    → all_in cols xs ≡ true
    → length xs ≤ length cols
no_duplicates-length cols [] h k = omega arith
no_duplicates-length cols (x ∷ xs) h k =
    let fresh : is_in xs x ≡ false = ground (arith, h) in
    let here : is_in cols x ≡ true = ground (arith, k) in
    omega (
      arith,
      length-remove x cols here,
      no_duplicates-length (remove x cols) xs (ground (arith, h))
          (all_in-remove x cols xs fresh (ground (arith, k))),
    )
