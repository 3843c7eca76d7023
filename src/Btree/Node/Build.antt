-- ===== src/Btree/Node/Build.antt =====
-- What the functions of btree.go that build a node make of its KVs.
use mini_database_v.Base.{
  ◌>>=◌, ◌≡◌, refl, ap, sym, ℕ, zero, suc, ◌+◌, ◌-◌, ◌*◌, ◌≤◌, ◌<◌, lt→ltb, some, List, [], ◌∷◌,
  ◌++◌, length, get_elem?, take, drop, arith, append_assoc, length-append, append-nil, length-take,
  length-drop, take-append-drop,
}
use mini_database_v.Btree.Node.{
  Entry, Node, set_header, sub16, kv_size, offset, kv_pos, nbytes, get_kv, node_append_kv,
  node_append_range,
}

abbrev pub total : List Entry → ℕ
total [] = 0
total (e ∷ kvs) = kv_size e + total kvs

pub total-append : (xs ys : List Entry) → total (xs ++ ys) ≡ total xs + total ys
total-append [] ys = omega arith
total-append (x ∷ xs) ys = omega (arith, total-append xs ys)

pub offset-total : (kvs : List Entry) (i : ℕ) → offset kvs i ≡ total (take i kvs)
unfolding offset
offset-total kvs zero = refl
offset-total [] (suc i) = refl
offset-total (e ∷ kvs) (suc i) = omega (arith, offset-total kvs i)

pub take-length {ℓ} : {A : Type ℓ} (xs : List A) (n : ℕ) → length xs ≡ n → take n xs ≡ xs
take-length [] zero h = refl
take-length [] (suc n) h = refl
take-length (x ∷ xs) zero h = absurd (omega arith)
take-length (x ∷ xs) (suc n) h = ap (λ l. x ∷ l) (take-length xs n (omega arith))

-- The header counts the KVs.
abbrev pub IsBuilt : Node → Type 0
IsBuilt node = node.nkeys ≡ length node.kvs

pub nbytes_lem : (node : Node) → IsBuilt node → nbytes node ≡ 4 + 10 * node.nkeys + total node.kvs
unfolding nbytes kv_pos
nbytes_lem node h =
    omega
      (arith, offset-total node.kvs node.nkeys, ap total (take-length node.kvs node.nkeys (sym h)))

pub drop-get_elem? {ℓ} :
    {A : Type ℓ} (xs : List A) (i : ℕ)
    → i < length xs
    → (x : A) × (get_elem? xs i ≡ some x) × (drop i xs ≡ x ∷ drop (suc i) xs)
drop-get_elem? [] i h = absurd (omega arith)
drop-get_elem? (x ∷ xs) zero h = (x, refl, refl)
drop-get_elem? (x ∷ xs) (suc i) h = drop-get_elem? xs i (omega arith)

pub node_append_kv_lem :
    (new : Node) (idx : ℕ) (e : Entry)
    → length new.kvs ≡ idx
    → idx < new.nkeys
    → 4 + 10 * new.nkeys + total new.kvs + kv_size e ≤ new.room
    → node_append_kv new idx e ≡ some (record new { kvs = new.kvs ++ e ∷ [] })
unfolding node_append_kv kv_pos
node_append_kv_lem new idx e h k fits =
    ground (arith, offset-total new.kvs idx, take-length new.kvs idx h)

pub get_kv_lem :
    (node : Node) (i : ℕ) (e : Entry)
    → i < node.nkeys
    → get_elem? node.kvs i ≡ some e
    → get_kv node i ≡ some e
unfolding get_kv
get_kv_lem node i e h k = rw (lt→ltb i node.nkeys h) k

append_step :
    (n : ℕ) (old : Node) (dst src : ℕ) (new : Node) (e : Entry)
    → drop src old.kvs ≡ e ∷ drop (suc src) old.kvs
    → length new.kvs ≡ dst
    → dst + suc n ≤ new.nkeys
    → 4 + 10 * new.nkeys + total new.kvs + total (take (suc n) (drop src old.kvs)) ≤ new.room
    → get_kv old src ≡ some e
    → (length (new.kvs ++ e ∷ []) ≡ suc dst
        → 4 + 10 * new.nkeys + total (new.kvs ++ e ∷ []) + total (take n (drop (suc src) old.kvs))
          ≤ new.room
        → node_append_range n old (suc dst) (suc src) (record new { kvs = new.kvs ++ e ∷ [] })
          ≡ some (record new { kvs = (new.kvs ++ e ∷ []) ++ take n (drop (suc src) old.kvs) }))
    → node_append_range (suc n) old dst src new
      ≡ some (record new { kvs = new.kvs ++ take (suc n) (drop src old.kvs) })
unfolding node_append_range
append_step n old dst src new e from h k fits at rest =
    let sizes = ap (λ (l : List Entry). total (take (suc n) l)) from in
    rw
      (
        at,
        node_append_kv_lem new dst e h (omega arith) (omega (arith, sizes)),
        rest (omega (arith, length-append new.kvs (e ∷ [])))
            (omega (arith, sizes, total-append new.kvs (e ∷ []))),
        from,
      )
      (ap (λ (l : List Entry). some (record new { kvs = l }))
        (append_assoc new.kvs (e ∷ []) (take n (drop (suc src) old.kvs))))

pub node_append_range_lem :
    (n : ℕ) (old : Node) (dst src : ℕ) (new : Node)
    → IsBuilt old
    → length new.kvs ≡ dst
    → dst + n ≤ new.nkeys
    → src + n ≤ old.nkeys
    → 4 + 10 * new.nkeys + total new.kvs + total (take n (drop src old.kvs)) ≤ new.room
    → node_append_range n old dst src new
      ≡ some (record new { kvs = new.kvs ++ take n (drop src old.kvs) })
unfolding node_append_range
node_append_range_lem zero old dst src new b h k l fits = rw (append-nil new.kvs)
node_append_range_lem (suc n) old dst src new b h k l fits =
    let (e, at, from) = drop-get_elem? old.kvs src (omega arith) in
    append_step n old dst src new e from h k fits (get_kv_lem old src e (omega arith) at) λ g f.
      node_append_range_lem n old (suc dst) (suc src) (record new { kvs = new.kvs ++ e ∷ [] }) b g
        (omega arith) (omega arith) f

-- The functions copy the KVs before the index, one KV, and those from a second index on.
abbrev pub around : List Entry → ℕ → Entry → ℕ → List Entry
around kvs i e j = take i kvs ++ e ∷ drop j kvs

pub take-drop_rest {ℓ} :
    {A : Type ℓ} (xs : List A) (i n : ℕ) → i + n ≡ length xs → take n (drop i xs) ≡ drop i xs
take-drop_rest xs i n h = take-length (drop i xs) n (omega (arith, length-drop i xs))

pub total-take-drop :
    (kvs : List Entry) (i : ℕ) → total (take i kvs) + total (drop i kvs) ≡ total kvs
total-take-drop kvs i =
    omega (arith, total-append (take i kvs) (drop i kvs), ap total (take-append-drop i kvs))

-- A node made of the first KVs of another, one KV, and the last ones.
module _ (room btype nkeys i : ℕ) (e : Entry) (j : ℕ) (old : Node) (b : IsBuilt old) where
  pub build_around :
      i + 1 + (old.nkeys - j) ≡ nkeys
      → i ≤ j
      → j ≤ old.nkeys
      → old.nkeys < 65536
      → 4 + 10 * nkeys + total (around old.kvs i e j) ≤ room
      → (do
        front ← node_append_range i old 0 0 (set_header room btype nkeys)
        added ← node_append_kv front i e
        node_append_range (sub16 old.nkeys j) old (i + 1) j added)
        ≡ some (record { room = room; btype = btype; nkeys = nkeys; kvs = around old.kvs i e j })
  build_around count le k w fits =
      let sizes = total-append (take i old.kvs) (e ∷ drop j old.kvs) in
      let lf = length-take i old.kvs (omega arith) in
      let rounds : sub16 old.nkeys j ≡ old.nkeys - j = omega arith in
      let front : Node = record {
        room = room;
        btype = btype;
        nkeys = nkeys;
        kvs = take i old.kvs;
      } in
      let rest = take-drop_rest old.kvs j (old.nkeys - j) (omega arith) in
      rw
        (
          node_append_range_lem i old 0 0 (set_header room btype nkeys) b refl (omega arith)
              (omega arith) (omega (arith, sizes)),
          node_append_kv_lem front i e lf (omega arith) (omega (arith, sizes)),
          rounds,
          node_append_range_lem (old.nkeys - j) old (i + 1) j
              (record front { kvs = take i old.kvs ++ e ∷ [] }) b
              (omega (arith, lf, length-append (take i old.kvs) (e ∷ []))) (omega arith)
              (omega arith)
              (omega (arith, sizes, total-append (take i old.kvs) (e ∷ []), ap total rest)),
          rest,
        )
        (ap (λ (l : List Entry). some (record front { kvs = l }))
          (append_assoc (take i old.kvs) (e ∷ []) (drop j old.kvs)))

pub total-drop_mono : (i j : ℕ) (kvs : List Entry) → i ≤ j → total (drop j kvs) ≤ total (drop i kvs)
total-drop_mono zero zero kvs h = omega arith
total-drop_mono zero (suc j) [] h = omega arith
total-drop_mono zero (suc j) (e ∷ kvs) h = omega (arith, total-drop_mono zero j kvs (omega arith))
total-drop_mono (suc i) zero kvs h = absurd (omega arith)
total-drop_mono (suc i) (suc j) [] h = omega arith
total-drop_mono (suc i) (suc j) (e ∷ kvs) h = total-drop_mono i j kvs (omega arith)

pub total-around :
    (kvs : List Entry) (i : ℕ) (e : Entry) (j : ℕ)
    → i ≤ j
    → total (around kvs i e j) ≤ total kvs + kv_size e
total-around kvs i e j h = omega (
  arith,
  total-append (take i kvs) (e ∷ drop j kvs),
  total-take-drop kvs i,
  total-drop_mono i j kvs h,
)

pub length-around :
    (kvs : List Entry) (i : ℕ) (e : Entry) (j : ℕ)
    → i ≤ length kvs
    → length (around kvs i e j) ≡ i + 1 + (length kvs - j)
length-around kvs i e j h =
    omega
      (arith, length-append (take i kvs) (e ∷ drop j kvs), length-take i kvs h, length-drop j kvs)
