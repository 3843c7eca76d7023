-- ===== src/Examples/Combined.antt =====
-- The iterator of a transaction over a leaf of pending entries and a leaf of the snapshot.
use mini_database_v.Base.{refl, arith, true, List, [], ◌∷◌}
use mini_database_v.Base.Bytes.{Bytes}
use mini_database_v.Cmp.{Cmp}
use mini_database_v.Btree.Node.{Entry, Node, page_size, bnode_leaf, get_kv}
use mini_database_v.Btree.Pages.Memory.{memory}
use mini_database_v.Btree.Iter.{
  iter_valid, iter_deref, next, iter_next, past_last, move_to, set_elem, iter_is_first, iter_is_end,
  all_zero, enter_kid,
}
use mini_database_v.Tx.Combined.{CombinedIter, advance}
use mini_database_v.Tx.Combined.Merged.{Pairs, Walks, Visits, merge, combined_iter_lem}

abbrev entry : Bytes → Bytes → Entry
entry key val = record { ptr = 0; key = key; val = val }

-- The key 5 was deleted.
abbrev pending_leaf : Node
pending_leaf = record {
  room = page_size;
  btype = bnode_leaf;
  nkeys = 2;
  kvs = entry [] [] ∷ entry (5 ∷ []) (1 ∷ []) ∷ [];
}

abbrev snapshot_leaf : Node
snapshot_leaf = record {
  room = page_size;
  btype = bnode_leaf;
  nkeys = 3;
  kvs = entry [] [] ∷ entry (5 ∷ []) (50 ∷ []) ∷ entry (6 ∷ []) (60 ∷ []) ∷ [];
}

-- Both iterators are at the key 5.
abbrev over_snapshot : CombinedIter (List Node)
over_snapshot = record {
  top = record { path = pending_leaf ∷ []; pos = 1 ∷ [] };
  top_pages = pending_leaf ∷ [];
  bottom = record { path = snapshot_leaf ∷ []; pos = 1 ∷ [] };
  bottom_pages = snapshot_leaf ∷ [];
  direction = true;
  end_key = 9 ∷ [];
  end_cmp = Cmp.le;
}

abbrev pending_pairs : Pairs
pending_pairs = (5 ∷ [], 1 ∷ []) ∷ []

abbrev snapshot_pairs : Pairs
snapshot_pairs = (5 ∷ [], 50 ∷ []) ∷ (6 ∷ [], 60 ∷ []) ∷ []

pending_leaf-Walks : Walks memory (pending_leaf ∷ []) true over_snapshot.top pending_pairs
unfolding Walks advance next iter_next past_last move_to set_elem iter_valid iter_deref
    iter_is_first iter_is_end all_zero get_kv
pending_leaf-Walks = (refl, refl, record { path = pending_leaf ∷ []; pos = 2 ∷ [] }, refl, refl)

snapshot_leaf-Walks : Walks memory (snapshot_leaf ∷ []) true over_snapshot.bottom snapshot_pairs
unfolding Walks advance next iter_next past_last move_to set_elem iter_valid iter_deref
    iter_is_first iter_is_end all_zero get_kv enter_kid
snapshot_leaf-Walks = (
  refl,
  refl,
  record { path = snapshot_leaf ∷ []; pos = 2 ∷ [] },
  refl,
  (refl, refl, record { path = snapshot_leaf ∷ []; pos = 3 ∷ [] }, refl, refl),
)

combined_iter_example : Visits memory over_snapshot ((5 ∷ [], []) ∷ (6 ∷ [], 60 ∷ []) ∷ [])
unfolding merge
combined_iter_example =
    combined_iter_lem memory over_snapshot pending_pairs snapshot_pairs pending_leaf-Walks
      snapshot_leaf-Walks (omega arith, tt)
