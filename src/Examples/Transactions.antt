-- ===== src/Examples/Transactions.antt =====
-- Transactions over small trees in memory.
use mini_database_v.Base.{
  inr, ◌≡◌, refl, arith, true, false, List, [], ◌∷◌, ◌++◌, some, Any, inl, ◌↔◌,
}
use mini_database_v.Base.Bytes.{Bytes}
use mini_database_v.Btree.Node.{Node, leaf_update}
use mini_database_v.Btree.Limit.{check_limit}
use mini_database_v.Btree.Pages.Memory.{memory}
use mini_database_v.Btree.Sorted.{Entries}
use mini_database_v.Btree.Tree.{BTree, tree_update, update_leaf, grow, append_kids}
use mini_database_v.Kv.Free.{set_max_ver}
use mini_database_v.Kv.State.{Kv}
use mini_database_v.Tx.Ranges.{KeyRange, Overlaps, sorted_ranges_overlap, sorted_ranges_overlap_iff}
use mini_database_v.Tx.State.{Kvtx}
use mini_database_v.Tx.History.{detect_conflicts, tx_finalize}
use mini_database_v.Tx.Conflict.{VersionsSorted, WritesSorted, Clash, detect_conflicts_iff}
use mini_database_v.Tx.Commit.{Disk, conflict, commit}
use mini_database_v.Tx.Commit.Conflicts.{commit_conflict_iff}
use mini_database_v.Tx.Finalize.{Keeps, tx_finalize-Keeps}
use mini_database_v.Tx.Ops.{ok, lookup, tx_get, tx_del, save, revert, add_read}
use mini_database_v.Tx.Ops.Reads.{IsFlagged, tx_get_lem}
use mini_database_v.Tx.Ops.Revert.{none_yet, deleted, revert-save}
use mini_database_v.Examples.Nodes.{
  two_levels, both_leaves, two_levels-IsTree, leaf_of, leaf_of-IsTree,
}

abbrev key : Bytes
key = 107 ∷ []

abbrev other_key : Bytes
other_key = 108 ∷ []

-- The transaction has given the key 9 a new value, over a snapshot of two levels.
abbrev fresh : Kvtx (BTree (List Node))
fresh = record {
  snapshot = two_levels;
  version = 1;
  pending = leaf_of (9 ∷ []) (2 ∷ 7 ∷ []);
  reads = [];
  update_attempted = true;
  done = false;
}

abbrev written : Entries
written = ([], []) ∷ (9 ∷ [], 2 ∷ 7 ∷ []) ∷ []

nine_there : (e : Bytes) → some (2 ∷ 7 ∷ []) ≡ some e → IsFlagged e
nine_there e h = inl (7 ∷ [], cc)

tx_get_example :
    tx_get memory 2 (9 ∷ []) fresh ≡ some (some (7 ∷ []), add_read (9 ∷ []) (9 ∷ []) fresh)
tx_get_example =
    tx_get_lem memory 2 0 1 fresh written both_leaves (9 ∷ []) leaf_of-IsTree two_levels-IsTree
      (omega arith) (omega arith) nine_there

-- The transaction behind the deletion of its own entry.
abbrev without : Kvtx (BTree (List Node))
without = record fresh {
  pending = record (leaf_of (9 ∷ []) (1 ∷ [])) {
    root = 2;
    pages = fresh.pending.pages ++ (leaf_of (9 ∷ []) (1 ∷ [])).pages;
  };
  reads = record { start = 9 ∷ []; stop = 9 ∷ [] } ∷ [];
}

nine_deleted :
    tx_del memory 2 (9 ∷ []) fresh
    ≡ some (ok (record { updated = true; added = false; old = some (7 ∷ []) }), without)
unfolding tx_del tree_update update_leaf grow append_kids check_limit leaf_update
nine_deleted = refl

nine_seen : lookup memory 2 (9 ∷ []) fresh ≡ some (some (7 ∷ []))
unfolding lookup
nine_seen = refl

-- The deleted key reads as before.
revert-save_example :
    (lookup memory 2 (9 ∷ []) (revert (save fresh) without) ≡ some (some (7 ∷ [])))
    × ((revert (save fresh) without).reads ≡ [])
revert-save_example =
    revert-save memory 2 fresh without (9 ∷ []) (some (7 ∷ []))
      (deleted fresh without (9 ∷ []) _ none_yet nine_deleted) nine_seen

abbrev point : Bytes → KeyRange
point k = record { start = k; stop = k }

abbrev wide : KeyRange
wide = record { start = key; stop = 109 ∷ [] }

sorted_ranges_overlap_example :
    (sorted_ranges_overlap (wide ∷ point other_key ∷ []) (point other_key ∷ []) ≡ true)
    ↔ Any (λ r. Any (Overlaps r) (point other_key ∷ [])) (wide ∷ point other_key ∷ [])
sorted_ranges_overlap_example =
    sorted_ranges_overlap_iff (wide ∷ point other_key ∷ []) (point other_key ∷ [])
      ((refl, tt), (tt, tt)) (tt, tt)

-- A store with one running reader at version 2 and a history of two entries.
abbrev store : Kv (BTree (List Node))
store = record {
  tree = fresh.snapshot;
  pager = record {
    free = record {
      head_page = 1;
      head_seq = 0;
      tail_page = 1;
      tail_seq = 4;
      max_seq = 2;
      max_ver = 1;
      cur_ver = 3;
    };
    pages = record { flushed = 3; nappend = 0; updates = []; total = 1; chunks = [] };
  };
  failed = false;
  version = 3;
  ongoing = 1 ∷ 2 ∷ [];
  history =
      record { version = 2; writes = point key ∷ [] }
      ∷ record { version = 3; writes = point key ∷ point other_key ∷ [] }
      ∷ [];
}

abbrev reader : Kvtx (BTree (List Node))
reader = record fresh { version = 2; reads = point other_key ∷ point key ∷ [] }

store-VersionsSorted : VersionsSorted store.history
store-VersionsSorted = ((omega arith, tt), (tt, tt))

store-WritesSorted : WritesSorted store.history
store-WritesSorted = ((tt, tt), (((refl, tt), (tt, tt)), tt))

detect_conflicts_example :
    ((detect_conflicts store reader).1 ≡ true) ↔ Any (Clash 2 reader.reads) store.history
detect_conflicts_example = detect_conflicts_iff store reader store-VersionsSorted store-WritesSorted

abbrev after_end : Kv (BTree (List Node))
after_end = record store {
  ongoing = 2 ∷ [];
  pager = record store.pager { free = record store.free { max_seq = 4; max_ver = 2 } };
  history = record { version = 3; writes = point key ∷ point other_key ∷ [] } ∷ [];
}

tx_finalize-Keeps_example : Keeps store reader after_end
unfolding set_max_ver
tx_finalize-Keeps_example =
    tx_finalize-Keeps store reader fresh (unfold tx_finalize in refl) (inl refl)
      store-VersionsSorted store-WritesSorted

abbrev disk : Disk
disk = record { rewritten = true; updated = true }

reader-Clash : Any (Clash 2 reader.reads) store.history
reader-Clash = inr (inl (omega arith, inl (inr (inl (refl, refl)))))

commit_conflict_example :
    (kv' : Kv (BTree (List Node))) × (commit memory 2 9 disk store reader ≡ some (conflict, kv'))
    × (kv'.tree ≡ two_levels)
    × (kv'.version ≡ store.version)
commit_conflict_example =
    (commit_conflict_iff memory 2 9 disk store reader refl (inr (inl refl)) store-VersionsSorted
        store-WritesSorted).1
      (refl, reader-Clash)
