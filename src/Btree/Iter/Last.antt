-- ===== src/Btree/Iter/Last.antt =====
-- The step of the iterator of btree_iter.go behind the last key.
use mini_database_v.Base.{
  ◌≡◌, refl, ℕ, zero, suc, ◌+◌, ◌<◌, ltb, ltb→lt, true, Bool-cases, inl, inr, Option, some, [], ◌∷◌,
  ◌>>=◌, arith,
}
use mini_database_v.Btree.Node.{Entry, Node, get_kv}
use mini_database_v.Btree.Pages.{PageOps}
use mini_database_v.Btree.Iter.{
  BIter, set_elem, all_zero, iter_is_first, iter_is_end, iter_valid, enter_kid, move_to, past_last,
  iter_next, next,
}

module _ (ops : PageOps) (s : ops.Pages) where
  -- As many calls of `Next`.
  unfoldable pub next_times : ℕ → BIter → Option BIter
  next_times zero iter = some iter
  next_times (suc n) iter = next ops s iter >>= next_times n

  -- Two levels: the step behind the last key leaves the leaf.
  next_two_levels :
      (root leaf : Node) (a c : ℕ)
      → a + 1 ≡ root.nkeys
      → c + 1 ≡ leaf.nkeys
      → next ops s (record { path = root ∷ leaf ∷ []; pos = a ∷ c ∷ [] })
        ≡ some (record { path = root ∷ leaf ∷ []; pos = a ∷ (c + 1) ∷ [] })
  unfolding next iter_is_end iter_next past_last enter_kid move_to set_elem
  next_two_levels root leaf a c h k = ground (arith, h, k)

  module _ (root mid leaf : Node) (a b : ℕ) (e : Entry) where
    abbrev pub at_leaf : ℕ → BIter
    at_leaf c = record { path = root ∷ mid ∷ leaf ∷ []; pos = a ∷ b ∷ c ∷ [] }

    inside_leaf : (c : ℕ) → c + 1 < leaf.nkeys → next ops s (at_leaf c) ≡ some (at_leaf (c + 1))
    unfolding next iter_is_end iter_next enter_kid move_to set_elem
    inside_leaf c h = ground (arith, h)

    module _ (last_root : a + 1 ≡ root.nkeys) (last_mid : b + 1 ≡ mid.nkeys)
        (kv : get_kv mid b ≡ some e) (kid : ops.read s e.ptr ≡ some leaf) where
      behind_leaf : (c : ℕ) → c + 1 ≡ leaf.nkeys → next ops s (at_leaf c) ≡ some (at_leaf 0)
      unfolding next iter_is_end iter_next past_last enter_kid move_to set_elem
      behind_leaf c h = ground (arith, h, kv, kid)

      stays :
          (n c : ℕ)
          → c < leaf.nkeys
          → (d : ℕ) × (next_times n (at_leaf c) ≡ some (at_leaf d)) × (d < leaf.nkeys)
      unfolding next_times
      stays zero c h = (c, refl, h)
      stays (suc n) c h = elim (Bool-cases (ltb (c + 1) leaf.nkeys)) [
        | inl more ↦
            let inside : c + 1 < leaf.nkeys = ltb→lt (c + 1) leaf.nkeys more in
            let (d, run, low) = stays n (c + 1) inside in (d, rw (inside_leaf c inside) run, low)
        | inr last ↦
            let at_last : c + 1 ≡ leaf.nkeys = ground (arith, last, h) in
            let (d, run, low) = stays n 0 (omega arith) in (d, rw (behind_leaf c at_last) run, low)
      ]

      in_leaf-valid : (c : ℕ) → c < leaf.nkeys → 0 < a + b → iter_valid (at_leaf c) ≡ some true
      unfolding iter_valid iter_is_first iter_is_end all_zero
      in_leaf-valid c h k = ground (arith, h, k)

      -- In the last leaf of a tree of three levels that has another leaf, the iterator is valid after any number of calls of Next: behind the last key it goes back to the first key of the leaf, so a loop to the end of the keys never ends.
      pub next_never_ends :
          (n c : ℕ)
          → c < leaf.nkeys
          → 0 < a + b
          → (iter : BIter) × (next_times n (at_leaf c) ≡ some iter) × (iter_valid iter ≡ some true)
      next_never_ends n c h k =
          let (d, run, low) = stays n c h in (at_leaf d, run, in_leaf-valid d low k)
