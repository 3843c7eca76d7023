-- ===== src/Tx/Commit/Ending.antt =====
-- How a running transaction ends: `txFinalize` of transaction.go.
use mini_database_v.Base.{
  ℕ, ◌≡◌, refl, arith, false, List, [], ◌∷◌, some, ◌==◌, Bool-cases, inl, inr,
}
use mini_database_v.Kv.Free.{set_max_ver}
use mini_database_v.Kv.State.{Kv}
use mini_database_v.Tx.State.{Kvtx}
use mini_database_v.Tx.History.{tx_finalize, remove_version, min_version, trim}
use mini_database_v.Tx.Finalize.{Holds}

pub remove_version-Holds :
    (v : ℕ) (ws : List ℕ) → Holds v ws → (os : List ℕ) × (remove_version v ws ≡ some os)
unfolding remove_version
remove_version-Holds v [] h = absurd h
remove_version-Holds v (w ∷ ws) h = elim (Bool-cases (w == v)) [
  | inl here ↦ (ws, rw here)
  | inr other ↦ let (os, e) = remove_version-Holds v ws (behind other h) in (w ∷ os, rw (other, e))
]
  where
    behind : (w == v) ≡ false → Holds v (w ∷ ws) → Holds v ws
    behind other (inl e) = absurd (ground arith)
    behind other (inr h) = h

module _ {T : Type 0} where
  -- The end of a transaction that is running leaves the tree and the version alone.
  pub tx_finalize-Holds :
      (kv : Kv T) (tx : Kvtx T)
      → Holds tx.version kv.ongoing
      → (kv' : Kv T) × (tx_finalize kv tx ≡ some kv')
        × (kv'.tree ≡ kv.tree)
        × (kv'.version ≡ kv.version)
        × (kv'.failed ≡ kv.failed)
  unfolding tx_finalize
  tx_finalize-Holds kv tx running =
      let (os, e) = remove_version-Holds tx.version kv.ongoing running in
      (
        record kv {
          ongoing = os;
          pager = record kv.pager { free = set_max_ver (min_version kv.version os) kv.free };
          history = trim (min_version kv.version os) kv.history;
        },
        rw e,
        refl,
        refl,
        refl,
      )
