-- ===== src/Btree/Pages/Kept.antt =====
-- `Get` of btree.go answers as before when a tree in memory has more pages behind its own.
use mini_database_v.Base.{
  ◌≡◌, refl, ap, ◌∙◌, ℕ, zero, suc, ◌==◌, Bool, true, false, Bool-cases, inl, inr, if◌then◌else◌,
  Option, none, some, List, [], ◌∷◌, ◌++◌, get_elem?, ◌>>=◌,
}
use mini_database_v.Base.Bytes.{Bytes}
use mini_database_v.Btree.Node.{Node, bnode_leaf, bnode_node, get_kv}
use mini_database_v.Btree.Pages.Memory.{memory, read_page}
use mini_database_v.Btree.Search.{node_lookup_le}
use mini_database_v.Btree.Tree.{by_type, node_get_key, tree_get}

-- What the first one answers, the second one answers.
record Refines {A : Type 0} (m m' : Option A) : Type 0 where
  pub answers : (a : A) → m ≡ some a → m' ≡ some a

Refines-same : {A : Type 0} (m : Option A) → Refines m m
Refines-same m = record { answers = λ a h. h }

Refines-bind :
    {A B : Type 0} {f f' : A → Option B} (m m' : Option A)
    → Refines m m'
    → ((a : A) → Refines (f a) (f' a))
    → Refines (m >>= f) (m' >>= f')
Refines-bind none m' p q = record { answers = λ b h. cc }
Refines-bind {f' = f'} (some a) m' p q = record {
  answers = λ b h. ap (λ o. o >>= f') (p.answers a refl) ∙ (q a).answers b h;
}

get_elem?-Refines : (s more : List Node) (p : ℕ) → Refines (get_elem? s p) (get_elem? (s ++ more) p)
get_elem?-Refines [] more p = record { answers = λ a h. cc }
get_elem?-Refines (n ∷ s) more zero = Refines-same (some n)
get_elem?-Refines (n ∷ s) more (suc p) = get_elem?-Refines s more p

read-Refines : (s more : List Node) (p : ℕ) → Refines (read_page s p) (read_page (s ++ more) p)
read-Refines s more zero = Refines-same none
read-Refines s more (suc p) = get_elem?-Refines s more p

by_type-Refines :
    {A : Type 0} (node : Node) (leaf internal internal' : Option A)
    → Refines internal internal'
    → Refines (by_type node leaf internal) (by_type node leaf internal')
by_type-Refines node leaf internal internal' p = elim (Bool-cases (node.btype == bnode_leaf)) [
  | inl yes_leaf ↦ rw (yes_leaf, by_type) (Refines-same leaf)
  | inr no_leaf ↦ elim (Bool-cases (node.btype == bnode_node)) [
    | inl middle ↦ rw (no_leaf, middle, by_type) p
    | inr neither ↦ rw (no_leaf, neither, by_type) (Refines-same none)
  ]
]

node_get_key-Refines :
    (levels : ℕ) (node : Node) (key : Bytes) (s more : List Node)
    → Refines
        (node_get_key memory levels node key s)
        (node_get_key memory levels node key (s ++ more))
unfolding node_get_key
node_get_key-Refines zero node key s more = Refines-same none
node_get_key-Refines (suc levels) node key s more =
    Refines-bind (node_lookup_le node key) (node_lookup_le node key) (Refines-same _) λ idx.
      by_type-Refines node _ _ _ (
        Refines-bind (get_kv node idx) (get_kv node idx) (Refines-same _) λ e.
          Refines-bind (read_page s e.ptr) (read_page (s ++ more) e.ptr) (read-Refines s more e.ptr)
            λ kid. node_get_key-Refines levels kid key s more)

pub tree_get-kept :
    (levels root : ℕ) (s more : List Node) (key : Bytes) (found : Option Bytes)
    → tree_get memory levels (record { root = root; pages = s }) key ≡ some found
    → tree_get memory levels (record { root = root; pages = s ++ more }) key ≡ some found
unfolding tree_get
tree_get-kept levels root s more key found = by_root (root == 0)
  where
    by_root :
        (empty : Bool)
        → (if empty
            then some none
            else read_page s root >>= λ node. node_get_key memory levels node key s)
          ≡ some found
        → (if empty
            then some none
            else read_page (s ++ more) root >>= λ node.
                node_get_key memory levels node key (s ++ more))
          ≡ some found
    by_root true h = h
    by_root false h =
        (Refines-bind (read_page s root) (read_page (s ++ more) root) (read-Refines s more root)
            λ node. node_get_key-Refines levels node key s more).answers
          found h
