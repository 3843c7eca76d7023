-- ===== src/Btree/Iter.antt =====
-- The iterator over the B+tree of btree_iter.go.
pub mod Last
use mini_database_v.Base.{
  ℕ, zero, suc, ◌+◌, ◌-◌, ltb, ◌==◌, ◌&&◌, ◌||◌, not, Bool, true, false, if◌then◌else◌, Option,
  none, some, List, [], ◌∷◌, ◌++◌, length, get_elem?, ◌>>=◌, ◌>>◌, assert,
}
use mini_database_v.Base.Bytes.{Bytes}
use mini_database_v.Cmp.{Cmp, cmp_ok, is_positive}
use mini_database_v.Btree.Node.{Node, sub16, get_kv}
use mini_database_v.Btree.Pages.{PageOps}
use mini_database_v.Btree.Search.{node_lookup_le}
use mini_database_v.Btree.Tree.{BTree}

-- The nodes from the root to the leaf, and the position in each.
pub record BIter : Type 0 where
  pub path : List Node
  pub pos : List ℕ

-- `xs[i] = x`
unfoldable pub set_elem {ℓ} : {A : Type ℓ} → List A → ℕ → A → Option (List A)
set_elem [] i x = none
set_elem (y ∷ ys) zero x = some (x ∷ ys)
set_elem (y ∷ ys) (suc i) x = set_elem ys i x >>= λ zs. some (y ∷ zs)

-- `iterIsFirst`: every position is 0.
unfoldable pub all_zero : List ℕ → Bool
all_zero [] = true
all_zero (p ∷ ps) = p == 0 && all_zero ps

unfoldable pub iter_is_first : BIter → Bool
unfolding all_zero
iter_is_first iter = all_zero iter.pos

unfoldable pub iter_is_end : BIter → Option Bool
iter_is_end iter =
    if length iter.path == 0
    then some true
    else (get_elem? iter.pos (length iter.path - 1) >>= λ p.
        get_elem? iter.path (length iter.path - 1) >>= λ node. some (p == node.nkeys))

unfoldable pub iter_valid : BIter → Option Bool
unfolding iter_is_first iter_is_end
iter_valid iter =
    if iter_is_first iter then some false else iter_is_end iter >>= λ at_end. some (not at_end)

unfoldable pub iter_deref : BIter → Option (Bytes × Bytes)
unfolding iter_valid get_kv
iter_deref iter = do
  valid ← iter_valid iter
  assert valid
  node ← get_elem? iter.path (length iter.path - 1)
  p ← get_elem? iter.pos (length iter.path - 1)
  e ← get_kv node p
  some (e.key, e.val)

module _ (ops : PageOps) (s : ops.Pages) where
  open ops use {read}

  -- The kid at the position replaces the node below on the path; its position comes from it.
  unfoldable pub enter_kid : (Node → ℕ) → ℕ → BIter → Option BIter
  unfolding get_kv set_elem
  enter_kid first level iter =
      if ltb level (length iter.pos - 1)
      then (get_elem? iter.path level >>= λ node. get_elem? iter.pos level >>= λ p.
          get_kv node p >>= λ e. read s e.ptr >>= λ kid.
          set_elem iter.path (suc level) kid >>= λ path.
          set_elem iter.pos (suc level) (first kid) >>= λ pos.
          some (record { path = path; pos = pos }))
      else some iter

  abbrev pub first_key : Node → ℕ
  first_key kid = 0

  abbrev pub last_key : Node → ℕ
  last_key kid = sub16 kid.nkeys 1

  -- `iter.pos[level] = p`
  unfoldable pub move_to : ℕ → ℕ → BIter → Option BIter
  unfolding set_elem
  move_to level p iter = set_elem iter.pos level p >>= λ pos. some (record iter { pos = pos })

  -- The root level, at its last key: past the last key of the leaf.
  unfoldable pub past_last : BIter → Option BIter
  unfolding move_to
  past_last iter = do
    let leaf = length iter.pos - 1
    p ← get_elem? iter.pos leaf
    node ← get_elem? iter.path leaf
    assert (p + 1 == node.nkeys)
    move_to leaf (p + 1) iter

  unfoldable pub iter_next : ℕ → BIter → Option BIter
  unfolding move_to enter_kid past_last
  iter_next zero iter = do
    p ← get_elem? iter.pos 0
    node ← get_elem? iter.path 0
    if ltb (p + 1) node.nkeys
        then (move_to 0 (p + 1) iter >>= enter_kid first_key 0)
        else past_last iter
  iter_next (suc level) iter = do
    p ← get_elem? iter.pos (suc level)
    node ← get_elem? iter.path (suc level)
    elim (ltb (p + 1) node.nkeys) [
      | true ↦ move_to (suc level) (p + 1) iter >>= enter_kid first_key (suc level)
      | false ↦ iter_next level iter >>= enter_kid first_key (suc level)
    ]

  unfoldable pub iter_prev : ℕ → BIter → Option BIter
  unfolding move_to enter_kid
  iter_prev zero iter = do
    p ← get_elem? iter.pos 0
    assert (ltb 0 p)
    moved ← move_to 0 (p - 1) iter
    enter_kid last_key 0 moved
  iter_prev (suc level) iter = do
    p ← get_elem? iter.pos (suc level)
    elim (ltb 0 p) [
      | true ↦ move_to (suc level) (p - 1) iter >>= enter_kid last_key (suc level)
      | false ↦ iter_prev level iter >>= enter_kid last_key (suc level)
    ]

  -- `Next` and `Prev`
  unfoldable pub next : BIter → Option BIter
  unfolding iter_is_end iter_next
  next iter = do
    at_end ← iter_is_end iter
    if at_end then some iter else iter_next (length iter.path - 1) iter

  unfoldable pub prev : BIter → Option BIter
  unfolding iter_is_first iter_prev
  prev iter = if iter_is_first iter then some iter else iter_prev (length iter.path - 1) iter

  -- `SeekLE`, with the levels left first; a pointer 0 is below a leaf.
  unfoldable pub seek_loop : ℕ → ℕ → Bytes → BIter → Option BIter
  unfolding node_lookup_le get_kv
  seek_loop zero ptr key iter = none
  seek_loop (suc levels) ptr key iter = elim (ptr == 0) [
    | true ↦ some iter
    | false ↦ read s ptr >>= λ node. node_lookup_le node key >>= λ idx. get_kv node idx >>= λ e.
        seek_loop levels e.ptr key
          (record { path = iter.path ++ node ∷ []; pos = iter.pos ++ idx ∷ [] })
  ]

  unfoldable pub seek_le : ℕ → ℕ → Bytes → Option BIter
  unfolding seek_loop
  seek_le levels root key = seek_loop levels root key (record { path = []; pos = [] })

  -- the key that `Seek` compares
  abbrev curr_key : BIter → Option Bytes
  unfolding iter_is_first iter_deref
  curr_key iter = if iter_is_first iter then some [] else iter_deref iter >>= λ kv. some kv.0

  -- One step to the key that satisfies the comparison.
  adjust : Cmp → Bytes → BIter → Option BIter
  unfolding curr_key next prev
  adjust Cmp.le key iter = some iter
  adjust cmp key iter = do
    curr ← curr_key iter
    fits ← cmp_ok curr cmp key
    if fits then some iter else if is_positive cmp then next iter else prev iter

  unfoldable pub seek : ℕ → ℕ → Bytes → Cmp → Option BIter
  unfolding seek_le iter_is_end iter_is_first adjust iter_valid iter_deref cmp_ok
  seek levels root key cmp = do
    found ← seek_le levels root key
    at_end ← iter_is_end found
    assert (iter_is_first found || not at_end)
    iter ← adjust cmp key found
    valid ← iter_valid iter
    if valid
        then (iter_deref iter >>= λ kv. cmp_ok kv.0 cmp key >>= λ fits. assert fits >> some iter)
        else some iter
