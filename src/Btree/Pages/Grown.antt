-- ===== src/Btree/Pages/Grown.antt =====
-- `Update` of btree.go only adds pages to a tree in memory.
use mini_database_v.Base.{
  ◌≡◌, refl, sym, ap, ◌∙◌, subst, ℕ, zero, suc, ◌+◌, ◌*◌, ◌==◌, Bool, true, false, if◌then◌else◌,
  Option, none, some, List, [], ◌∷◌, ◌++◌, length, append_assoc, append-nil, ◌>>=◌, Option-cases,
  inl, inr,
}
use mini_database_v.Base
use mini_database_v.Btree.Limit.{LimitError, check_limit}
use mini_database_v.Btree.Ops.{Outcome, done, failed}
use mini_database_v.Btree.Node.{
  Node, page_size, bnode_node, bnode_leaf, sub16, set_header, get_kv, node_append_kv,
  node_append_range,
}
use mini_database_v.Btree.Pages.Memory.{memory}
use mini_database_v.Btree.Search.{node_lookup_le}
use mini_database_v.Btree.Split.{node_split3}
use mini_database_v.Btree.Tree.{
  BTree, UpdateReq, Reply, by_type, update_leaf, append_kids, node_replace_kid_n, node_update,
  tree_update, first_root, new_tree, grow, update_root, update_tree,
}

-- The pages are as before, with more behind them.
abbrev pub Grows : List Node → List Node → Type 0
Grows s s' = (more : List Node) × (s' ≡ s ++ more)

pub Grows-refl : (s : List Node) → Grows s s
Grows-refl s = ([], sym (append-nil s))

pub Grows-trans : (a b c : List Node) → Grows a b → Grows b c → Grows a c
Grows-trans a b c (xs, h) (ys, k) = (xs ++ ys, k ∙ ap (λ l. l ++ ys) h ∙ append_assoc a xs ys)

Grows-alloc : (n : Node) (s : List Node) → Grows s (s ++ n ∷ [])
Grows-alloc n s = (n ∷ [], refl)

-- What holds of the result, if there is one.
abbrev pub OnValue : {A : Type 0} → (A → Type 0) → Option A → Type 0
OnValue P none = Unit
OnValue P (some a) = P a

pub record On {A : Type 0} (P : A → Type 0) (m : Option A) : Type 0 where
  pub value : OnValue P m

pub On-none : {A : Type 0} (P : A → Type 0) → On P none
On-none P = record { value = tt }

pub On-some : {A : Type 0} {P : A → Type 0} {a : A} → P a → On P (some a)
On-some p = record { value = p }

pub On-bind :
    {A B : Type 0} {P : B → Type 0} {f : A → Option B} (m : Option A)
    → ((a : A) → On P (f a))
    → On P (m >>= f)
On-bind none h = record { value = tt }
On-bind (some a) h = h a

On-then :
    {A B : Type 0} {Q : A → Type 0} {P : B → Type 0} {m : Option A} {f : A → Option B}
    → On Q m
    → ((a : A) → Q a → On P (f a))
    → On P (m >>= f)
On-then {m = none} {f = f} q h = record { value = tt }
On-then {m = some a} {f = f} q h = h a q.value

On-map : {A : Type 0} {Q P : A → Type 0} {m : Option A} → On Q m → ((a : A) → Q a → P a) → On P m
On-map {m = none} q h = record { value = tt }
On-map {m = some a} q h = record { value = h a q.value }

abbrev KidsGrow : List Node → Node × List Node → Type 0
KidsGrow s r = Grows s r.1

append_kids-KidsGrow :
    (kids : List Node) (i : ℕ) (new : Node) (s : List Node)
    → On (KidsGrow s) (append_kids memory kids i new s)
unfolding append_kids
append_kids-KidsGrow [] i new s = On-some (Grows-refl s)
append_kids-KidsGrow (kid ∷ kids) i new s = On-bind (get_kv kid 0) λ first.
    On-bind (node_append_kv new i (record { ptr = suc (length s); key = first.key; val = [] }))
      λ next.
        On-map (append_kids-KidsGrow kids (suc i) next (s ++ kid ∷ []))
          λ r g. Grows-trans s (s ++ kid ∷ []) r.1 (Grows-alloc kid s) g

replace-KidsGrow :
    (room : ℕ) (old : Node) (idx : ℕ) (kids : List Node) (s : List Node)
    → On (KidsGrow s) (node_replace_kid_n memory room old idx kids s)
unfolding node_replace_kid_n
replace-KidsGrow room old idx kids s =
    On-bind
      (node_append_range idx old 0 0
        (set_header room bnode_node (old.nkeys + sub16 (length kids) 1)))
      λ front. On-then (append_kids-KidsGrow kids idx front s) λ added g.
        On-bind
          (node_append_range (sub16 old.nkeys (idx + 1)) old (idx + length kids) (idx + 1) added.0)
          λ whole. On-some g

abbrev UpdateGrows : List Node → Option Node × Reply × List Node → Type 0
UpdateGrows s r = Grows s r.2

updated-UpdateGrows :
    (node : Node) (idx : ℕ) (s : List Node) (o : Option Node) (reply : Reply) (s' : List Node)
    → Grows s s'
    → On (UpdateGrows s) (elim o [
      | none ↦ some (none, reply, s')
      | some updated ↦ node_split3 updated >>= λ split.
          node_replace_kid_n memory (2 * page_size) node idx split s' >>= λ made.
          some (some made.0, reply, made.1)
    ])
updated-UpdateGrows node idx s none reply s' g = On-some g
updated-UpdateGrows node idx s (some updated) reply s' g = On-bind (node_split3 updated) λ split.
    On-then (replace-KidsGrow (2 * page_size) node idx split s')
      λ made k. On-some (Grows-trans s s' made.1 g k)

node_update-UpdateGrows :
    (update_kid : Node → List Node → Option (Option Node × Reply × List Node)) (node : Node)
    (idx : ℕ) (s : List Node)
    → ((kid : Node) → On (UpdateGrows s) (update_kid kid s))
    → On (UpdateGrows s) (node_update memory update_kid node idx s)
unfolding node_update
node_update-UpdateGrows update_kid node idx s h = On-bind (get_kv node idx) λ e.
    On-bind (memory.read s e.ptr)
      λ kid. On-then (h kid) λ r g. updated-UpdateGrows node idx s r.0 r.1 r.2 g

by_type-On :
    {A : Type 0} {P : A → Type 0} (node : Node) (leaf internal : Option A)
    → On P leaf
    → On P internal
    → On P (by_type node leaf internal)
by_type-On {P = P} node leaf internal p q = elim (Base.Bool-cases (node.btype == bnode_leaf)) [
  | inl yes_leaf ↦ rw (yes_leaf, by_type) p
  | inr no_leaf ↦ elim (Base.Bool-cases (node.btype == bnode_node)) [
    | inl internal_node ↦ rw (no_leaf, internal_node, by_type) q
    | inr neither ↦ rw (no_leaf, neither, by_type) (On-none P)
  ]
]

tree_update-UpdateGrows :
    (levels : ℕ) (req : UpdateReq) (node : Node) (s : List Node)
    → On (UpdateGrows s) (tree_update memory levels req node s)
unfolding tree_update
tree_update-UpdateGrows zero req node s = On-none _
tree_update-UpdateGrows (suc levels) req node s = On-bind (node_lookup_le node req.key) λ idx.
    by_type-On node _ _ (On-bind (update_leaf req node idx) λ r. On-some (Grows-refl s)) (
      node_update-UpdateGrows (tree_update memory levels req) node idx s
        λ kid. tree_update-UpdateGrows levels req kid s)

abbrev TreeGrows : List Node → BTree (List Node) → Type 0
TreeGrows s t = Grows s t.pages

grow-TreeGrows : (nodes : List Node) (s : List Node) → On (TreeGrows s) (grow memory nodes s)
unfolding grow
grow-TreeGrows [] s = On-none _
grow-TreeGrows (node ∷ []) s = On-some (Grows-alloc node s)
grow-TreeGrows (node ∷ second ∷ rest) s =
    On-then
      (append_kids-KidsGrow (node ∷ second ∷ rest) 0
        (set_header page_size bnode_node (length (node ∷ second ∷ rest))) s)
      λ made g. On-some (Grows-trans s made.1 (made.1 ++ made.0 ∷ []) g (Grows-alloc made.0 made.1))

abbrev ReplyGrows : List Node → Bool × Reply × BTree (List Node) → Type 0
ReplyGrows s r = Grows s r.2.pages

rooted-ReplyGrows :
    (tree : BTree (List Node)) (o : Option Node) (reply : Reply) (s' : List Node)
    → Grows tree.pages s'
    → On (ReplyGrows tree.pages) (elim o [
      | none ↦ some (false, reply, record tree { pages = s' })
      | some updated ↦ node_split3 updated >>= λ split.
          grow memory split s' >>= λ grown. some (true, reply, grown)
    ])
rooted-ReplyGrows tree none reply s' g = On-some g
rooted-ReplyGrows tree (some updated) reply s' g = On-bind (node_split3 updated) λ split.
    On-then (grow-TreeGrows split s') λ grown k. On-some (Grows-trans tree.pages s' grown.pages g k)

update_root-ReplyGrows :
    (levels : ℕ) (req : UpdateReq) (tree : BTree (List Node))
    → On (ReplyGrows tree.pages) (update_root memory levels req tree)
unfolding update_root
update_root-ReplyGrows levels req tree = On-bind (memory.read tree.pages tree.root) λ node.
    On-then (tree_update-UpdateGrows levels req node tree.pages)
      λ r g. rooted-ReplyGrows tree r.0 r.1 r.2 g

-- the pages behind an update, or behind one that was refused
abbrev pub OutcomeGrows : List Node → Outcome (Bool × Reply × BTree (List Node)) → Type 0
OutcomeGrows s (failed e) = Unit
OutcomeGrows s (done r) = Grows s r.2.pages

pub update_tree-OutcomeGrows :
    (levels : ℕ) (req : UpdateReq) (tree : BTree (List Node))
    → On (OutcomeGrows tree.pages) (update_tree memory levels req tree)
unfolding update_tree
update_tree-OutcomeGrows levels req tree = limited (check_limit req.key req.val) (tree.root == 0)
  where
    limited :
        (o : Option LimitError) (no_root : Bool)
        → On (OutcomeGrows tree.pages) (elim o [
          | some e ↦ some (failed e)
          | none ↦
              if no_root
              then (first_root memory req >>= λ node. some (done (new_tree memory node tree.pages)))
              else update_root memory levels req tree >>= λ r. some (done r)
        ])
    limited (some e) no_root = On-some tt
    limited none true =
        On-bind (first_root memory req) λ node. On-some (Grows-alloc node tree.pages)
    limited none false = On-then (update_root-ReplyGrows levels req tree) λ r g. On-some g
