-- ===== src/Btree/Sorted.antt =====
-- The sorted pairs that the trees of btree.go are compared with.
use mini_database_v.Base.{
  ◌≡◌, refl, Bool, true, false, List, [], ◌∷◌, Option, none, some, if◌then◌else◌, All, Any, arith,
  ◌&&◌, inl, inr, Bool-cases,
}
use mini_database_v.Base.Bytes.{Bytes, eq_bytes, eq_bytes_iff, eq_bytes_refl, compare_bytes_refl}
use mini_database_v.Tx.Ranges.{is_lt, is_lt-of_lt_of_le, is_lt_asym}
use mini_database_v.Btree.Ops.{KeysSorted}

abbrev pub Entries : Type 0
Entries = List (Bytes × Bytes)

abbrev pub find : Bytes → Entries → Option Bytes
find k [] = none
find k ((j, v) ∷ es) = if eq_bytes k j then some v else find k es

abbrev pub add : Bytes → Bytes → Entries → Entries
add k v [] = (k, v) ∷ []
add k v ((j, w) ∷ es) =
    let rest = add k v es in
    if eq_bytes k j then (k, v) ∷ es else if is_lt k j then (k, v) ∷ (j, w) ∷ es else (j, w) ∷ rest

abbrev pub drop_key : Bytes → Entries → Entries
drop_key k [] = []
drop_key k ((j, w) ∷ es) = let rest = drop_key k es in if eq_bytes k j then es else (j, w) ∷ rest

abbrev pub eq_entries : Entries → Entries → Bool
eq_entries [] [] = true
eq_entries [] (e ∷ es) = false
eq_entries (d ∷ ds) [] = false
eq_entries (d ∷ ds) (e ∷ es) = eq_bytes d.0 e.0 && eq_bytes d.1 e.1 && eq_entries ds es

pub is_lt_trans : (a b c : Bytes) → is_lt a b ≡ true → is_lt b c ≡ true → is_lt a c ≡ true
is_lt_trans a b c h k = is_lt-of_lt_of_le a b c h (is_lt_asym b c k)

is_lt_irrefl : (a : Bytes) → is_lt a a ≡ false
is_lt_irrefl a = ground (arith, compare_bytes_refl a)

is_lt-of_not : (a b : Bytes) → eq_bytes a b ≡ false → is_lt a b ≡ false → is_lt b a ≡ true
is_lt-of_not [] [] h k = cc
is_lt-of_not [] (y ∷ b) h k = cc
is_lt-of_not (x ∷ a) [] h k = refl
is_lt-of_not (x ∷ a) (y ∷ b) h k = ground (arith, is_lt-of_not a b)

pub eq_bytes-false_of_lt : (a b : Bytes) → is_lt a b ≡ true → eq_bytes a b ≡ false
eq_bytes-false_of_lt [] [] h = cc
eq_bytes-false_of_lt [] (y ∷ b) h = refl
eq_bytes-false_of_lt (x ∷ a) [] h = cc
eq_bytes-false_of_lt (x ∷ a) (y ∷ b) h = ground (arith, eq_bytes-false_of_lt a b)

abbrev pub Above : Bytes → Entries → Type 0
Above k = All (λ f. is_lt k f.0 ≡ true)

pub Above-trans : (a b : Bytes) (es : Entries) → is_lt a b ≡ true → Above b es → Above a es
Above-trans a b [] h k = tt
Above-trans a b (e ∷ es) h (k, ks) = (is_lt_trans a b e.0 h k, Above-trans a b es h ks)

Above-add : (a k v : Bytes) (es : Entries) → is_lt a k ≡ true → Above a es → Above a (add k v es)
Above-add a k v [] h b = (h, tt)
Above-add a k v ((j, w) ∷ es) h (b, bs) = ground (arith, Above-add a k v es h bs)

pub KeysSorted-add : (k v : Bytes) (es : Entries) → KeysSorted es → KeysSorted (add k v es)
KeysSorted-add k v [] h = (tt, tt)
KeysSorted-add k v ((j, w) ∷ es) (h, hs) = elim (Bool-cases (eq_bytes k j)) [
  | inl same ↦ let e : k ≡ j = (eq_bytes_iff k j).0 same in rw (same, e) (h, hs)
  | inr other ↦ elim (Bool-cases (is_lt k j)) [
    | inl before ↦ rw (other, before) ((before, Above-trans k j es before h), (h, hs))
    | inr after ↦
        rw (other, after)
          (Above-add j k v es (is_lt-of_not k j other after) h, KeysSorted-add k v es hs)
  ]
]

Above-drop_key : (a k : Bytes) (es : Entries) → Above a es → Above a (drop_key k es)
Above-drop_key a k [] b = tt
Above-drop_key a k ((j, w) ∷ es) (b, bs) = ground (arith, Above-drop_key a k es bs)

pub KeysSorted-drop_key : (k : Bytes) (es : Entries) → KeysSorted es → KeysSorted (drop_key k es)
KeysSorted-drop_key k [] h = tt
KeysSorted-drop_key k ((j, w) ∷ es) (h, hs) =
    ground (arith, KeysSorted-drop_key k es hs, Above-drop_key j k es h)

pub find-Above : (k : Bytes) (es : Entries) → Above k es → find k es ≡ none
find-Above k [] h = refl
find-Above k ((j, w) ∷ es) (h, hs) = rw (eq_bytes-false_of_lt k j h) (find-Above k es hs)

pub find-add :
    (k v j : Bytes) (es : Entries)
    → find j (add k v es) ≡ (if eq_bytes k j then some v else find j es)
find-add k v j [] = ground (arith, eq_bytes_iff j k, eq_bytes_iff k j)
find-add k v j ((i, w) ∷ es) = ground (
  arith,
  find-add k v j es,
  eq_bytes_iff j k,
  eq_bytes_iff k j,
  eq_bytes_iff k i,
  eq_bytes_iff j i,
)

pub find-drop_key :
    (k j : Bytes) (es : Entries)
    → KeysSorted es
    → find j (drop_key k es) ≡ (if eq_bytes k j then none else find j es)
find-drop_key k j [] h = ground arith
find-drop_key k j ((i, w) ∷ es) (h, hs) = elim (Bool-cases (eq_bytes k i)) [
  | inl same ↦
      let e : k ≡ i = (eq_bytes_iff k i).0 same in
      ground (arith, find-Above i es h, eq_bytes_iff k j, eq_bytes_iff j i, same)
  | inr other ↦
      ground (
        arith,
        other,
        find-drop_key k j es hs,
        eq_bytes_iff k j,
        eq_bytes_iff j i,
        eq_bytes_iff k i,
      )
]

module _ (j w : Bytes) (es : Entries) where
  find_behind :
      (fs : Entries)
      → Above j fs
      → All (λ f. find f.0 es ≡ some f.1) fs
      → All (λ f. find f.0 ((j, w) ∷ es) ≡ some f.1) fs
  find_behind [] b h = tt
  find_behind ((i, v) ∷ fs) (b, bs) (h, hs) =
      let differs : eq_bytes i j ≡ false =
        ground (arith, eq_bytes-false_of_lt j i b, eq_bytes_iff j i, eq_bytes_iff i j) in
      (rw differs h, find_behind fs bs hs)

pub find-All : (es : Entries) → KeysSorted es → All (λ e. find e.0 es ≡ some e.1) es
find-All [] h = tt
find-All ((j, w) ∷ es) (h, hs) = (rw (eq_bytes_refl j), find_behind j w es es h (find-All es hs))

pub find-mem : (es : Entries) (k v : Bytes) → find k es ≡ some v → Any (λ e. e ≡ (k, v)) es
find-mem [] k v h = cc
find-mem ((j, w) ∷ es) k v h = elim (Bool-cases (eq_bytes k j)) [
  | inl same ↦ inl (ground (arith, same, eq_bytes_iff k j))
  | inr other ↦ inr (find-mem es k v (rw other at h))
]

pub eq_entries_refl : (es : Entries) → eq_entries es es ≡ true
eq_entries_refl [] = refl
eq_entries_refl (e ∷ es) = rw (eq_bytes_refl e.0, eq_bytes_refl e.1) (eq_entries_refl es)

pub eq_entries_sound : (ds es : Entries) → eq_entries ds es ≡ true → ds ≡ es
eq_entries_sound [] [] h = refl
eq_entries_sound [] (e ∷ es) h = cc
eq_entries_sound (d ∷ ds) [] h = cc
eq_entries_sound (d ∷ ds) (e ∷ es) h =
    ground (arith, eq_entries_sound ds es, eq_bytes_iff d.0 e.0, eq_bytes_iff d.1 e.1)
