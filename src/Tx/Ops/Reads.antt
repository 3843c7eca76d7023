-- ===== src/Tx/Ops/Reads.antt =====
-- What a transaction reads, from its pending tree and the tree of its snapshot.
use mini_database_v.Base.{
  ◌≡◌, ℕ, ◌<◌, Option, none, some, [], ◌∷◌, ◌==◌, if◌then◌else◌, refl, ◌⊎◌, inl, inr, Option-cases,
}
use mini_database_v.Base.Bytes.{Bytes}
use mini_database_v.Btree.Sorted.{Entries, find}
use mini_database_v.Btree.Pages.{PageOps}
use mini_database_v.Btree.Pages.Memory.{memory}
use mini_database_v.Btree.Tree.Found.{IsTree, tree_get_lem}
use mini_database_v.Tx.State.{Kvtx}
use mini_database_v.Tx.Ops.{Tree, flag_deleted, flag_updated, add_read, lookup, tx_get}

-- A pending entry is a flag, and behind the flag of an update the value.
abbrev pub IsFlagged : Bytes → Type 0
IsFlagged e = ((v : Bytes) × (e ≡ flag_updated ∷ v)) ⊎ (e ≡ flag_deleted ∷ [])

-- What the pairs of the two trees say of a key: the pending one counts, where there is one.
abbrev pub overlay : Option Bytes → Option Bytes → Option Bytes
overlay none below = below
overlay (some []) below = none
overlay (some (f ∷ v)) below = if f == flag_updated then some v else none

-- A read of a transaction never panics, whatever the depth of its trees, and gives what the pairs of the pending tree say of the key, without the flag, and where they say nothing what the pairs of the snapshot say; the key becomes a dependency. The levels exceed the depths of both trees, and the pending entry at the key, if there is one, carries its flag.
pub tx_get_lem :
    (ops : PageOps) (levels depth depth' : ℕ) (tx : Kvtx (Tree ops levels)) (es es' : Entries)
    (key : Bytes)
    → IsTree memory depth tx.pending es
    → IsTree ops depth' tx.snapshot es'
    → depth < levels
    → depth' < levels
    → ((e : Bytes) → find key es ≡ some e → IsFlagged e)
    → tx_get ops levels key tx ≡ some (overlay (find key es) (find key es'), add_read key key tx)
unfolding tx_get lookup
tx_get_lem ops levels depth depth' tx es es' key pending snapshot deep deep' flagged =
    let at = tree_get_lem memory levels depth tx.pending es key pending deep in
    let below = tree_get_lem ops levels depth' tx.snapshot es' key snapshot deep' in
    elim (Option-cases (find key es)) [
      | inl absent ↦ rw (at, absent, below) refl
      | inr (e, found) ↦ elim (flagged e found) [
        | inl (v, shape) ↦ rw (at, found, shape) refl
        | inr shape ↦ rw (at, found, shape) refl
      ]
    ]
