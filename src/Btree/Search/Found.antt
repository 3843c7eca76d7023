-- ===== src/Btree/Search/Found.antt =====
-- Where `nodeLookupLE` of btree.go ends.
use mini_database_v.Base.{
  ◌≡◌, refl, ℕ, zero, suc, ◌+◌, ◌-◌, ◌/◌, ◌%◌, ◌≤◌, ◌<◌, ltb, if◌then◌else◌, true, false,
  Bool-cases, inl, inr, some, List, [], ◌∷◌, length, get_elem?, All, Ordering, arith, subst,
}
use mini_database_v.Base.Bytes.{Bytes, compare_bytes, compare_bytes_refl}
use mini_database_v.Tx.Ranges.{is_lt, is_lt-of_lt_of_le, is_lt_asym}
use mini_database_v.Btree.Node.{Entry, Node}
use mini_database_v.Btree.Node.Build.{IsBuilt, get_kv_lem, drop-get_elem?}
use mini_database_v.Btree.Search.{lookup_loop, node_lookup_le}

-- The keys increase.
abbrev pub KvsSorted : List Entry → Type 0
KvsSorted [] = Unit
KvsSorted (e ∷ kvs) = All (λ f. is_lt e.key f.key ≡ true) kvs × KvsSorted kvs

-- How many keys at the front are not above the key.
abbrev pub count_le : List Entry → Bytes → ℕ
count_le [] key = 0
count_le (e ∷ kvs) key = let rest = count_le kvs key in if is_lt key e.key then 0 else suc rest

pub count_le-le : (kvs : List Entry) (key : Bytes) → count_le kvs key ≤ length kvs
count_le-le [] key = omega arith
count_le-le (e ∷ kvs) key = ground (arith, count_le-le kvs key)

pub compare_flip : (a b : Bytes) → compare_bytes a b ≡ Ordering.gt → is_lt b a ≡ true
compare_flip [] [] h = cc
compare_flip [] (y ∷ b) h = cc
compare_flip (x ∷ a) [] h = refl
compare_flip (x ∷ a) (y ∷ b) h = ground (arith, compare_flip a b)

pub compare_eq : (a b : Bytes) → compare_bytes a b ≡ Ordering.eq → a ≡ b
compare_eq [] [] h = refl
compare_eq [] (y ∷ b) h = cc
compare_eq (x ∷ a) [] h = cc
compare_eq (x ∷ a) (y ∷ b) h = ground (arith, compare_eq a b)

abbrev pub AllAbove : Bytes → List Entry → Type 0
AllAbove key = All (λ f. is_lt key f.key ≡ true)

pub is_lt_irrefl : (a : Bytes) → is_lt a a ≡ false
is_lt_irrefl a = ground (arith, compare_bytes_refl a)

count_le_above : (kvs : List Entry) (key : Bytes) → AllAbove key kvs → count_le kvs key ≡ 0
count_le_above [] key h = refl
count_le_above (e ∷ kvs) key (h, _) = rw h

pub All-get {ℓ} :
    {A : Type ℓ} (P : A → Type 0) (xs : List A) (i : ℕ) {x : A}
    → All P xs
    → get_elem? xs i ≡ some x
    → P x
All-get P [] i h k = cc
All-get P (y ∷ xs) zero h k = subst P (cc) h.0
All-get P (y ∷ xs) (suc i) h k = All-get P xs i h.1 k

module _ (key : Bytes) where
  count_le-gt :
      (kvs : List Entry) (i : ℕ) (e : Entry)
      → get_elem? kvs i ≡ some e
      → is_lt key e.key ≡ true
      → count_le kvs key ≤ i
  count_le-gt [] i e h k = cc
  count_le-gt (x ∷ kvs) zero e h k = ground (arith, k)
  count_le-gt (x ∷ kvs) (suc i) e h k = ground (arith, count_le-gt kvs i e h k)

  count_le-lt :
      (kvs : List Entry) (i : ℕ) (e : Entry)
      → KvsSorted kvs
      → get_elem? kvs i ≡ some e
      → is_lt key e.key ≡ false
      → i < count_le kvs key
  count_le-lt [] i e s h k = cc
  count_le-lt (x ∷ kvs) zero e s h k = ground (arith, k)
  count_le-lt (x ∷ kvs) (suc i) e (s, ss) h k =
      let below = All-get (λ f. is_lt x.key f.key ≡ true) kvs i s h in
      ground (
        arith,
        count_le-lt kvs i e ss h k,
        is_lt_asym x.key key (is_lt-of_lt_of_le x.key e.key key below k),
      )

  count_le-eq :
      (kvs : List Entry) (i : ℕ) (e : Entry)
      → KvsSorted kvs
      → get_elem? kvs i ≡ some e
      → e.key ≡ key
      → count_le kvs key ≡ suc i
  count_le-eq [] i e s h k = cc
  count_le-eq (x ∷ kvs) zero e s h k =
      let same : x.key ≡ key = ground (arith, k) in
      let none_left = count_le_above kvs key (subst (λ a. AllAbove a kvs) same s.0) in
      rw (same, is_lt_irrefl key, none_left)
  count_le-eq (x ∷ kvs) (suc i) e s h k =
      let below = All-get (λ f. is_lt x.key f.key ≡ true) kvs i s.0 h in
      ground (arith, count_le-eq kvs i e s.1 h k, is_lt_asym x.key e.key below)

  module _ (node : Node) (b : IsBuilt node) (s : KvsSorted node.kvs) (w : node.nkeys < 65536) where
    lookup_loop_lem :
        (fuel left right : ℕ)
        → left ≤ count_le node.kvs key
        → count_le node.kvs key ≤ right
        → right ≤ node.nkeys
        → right - left < fuel
        → lookup_loop fuel node key left right ≡ some ((count_le node.kvs key + 65535) % 65536)
    unfolding lookup_loop
    lookup_loop_lem zero left right h k l f = absurd (omega arith)
    lookup_loop_lem (suc fuel) left right h k l f = elim (Bool-cases (ltb left right)) [
      | inl more ↦
          let mid = (left + right - 1) / 2 in
          let in_range : (left ≤ mid) × (mid < right) = ground (arith, more) in
          let (e, at, _) = drop-get_elem? node.kvs mid (omega arith) in
          rw (more, get_kv_lem node mid e (omega arith) at, lookup_loop)
            (ground (
              arith,
              compare_eq e.key key,
              compare_flip e.key key,
              is_lt_asym e.key key,
              count_le-eq node.kvs mid e s at,
              count_le-gt node.kvs mid e at,
              count_le-lt node.kvs mid e s at,
              count_le-le node.kvs key,
              lookup_loop_lem fuel left mid,
              lookup_loop_lem fuel (mid + 1) right,
            ))
      | inr done ↦
          let all_below : count_le node.kvs key ≡ right = ground (arith, done) in
          rw (done, all_below, lookup_loop)
    ]

-- Where the keys of a node increase, and its header counts them, the search of a key ends with the last position whose key is not above it, and with 65535, the wrapped -1, if there is none.
pub node_lookup_le_lem :
    (key : Bytes) (node : Node)
    → IsBuilt node
    → KvsSorted node.kvs
    → node.nkeys < 65536
    → node_lookup_le node key ≡ some ((count_le node.kvs key + 65535) % 65536)
unfolding node_lookup_le
node_lookup_le_lem key node b s w =
    lookup_loop_lem key node b s w (suc node.nkeys) 0 node.nkeys (omega arith)
      (omega (arith, count_le-le node.kvs key)) (omega arith) (omega arith)
