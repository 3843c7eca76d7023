-- ===== src/Tx/History.antt =====
-- `detectConflicts` and `txFinalize` of transaction.go.
use mini_database_v.Base.{
  ℕ, true, false, Bool, List, [], ◌∷◌, ◌++◌, Option, none, some, ◌>>=◌, ◌==◌, if◌then◌else◌,
}
use mini_database_v.Kv.Free.{version_before, set_max_ver}
use mini_database_v.Kv.State.{Kv}
use mini_database_v.Tx.Ranges.{KeyRange, CommittedTx, sort_ranges, sorted_ranges_overlap}
use mini_database_v.Tx.State.{Kvtx}

-- The loop of `detectConflicts`, from the newest entry on.
unfoldable pub check_newer : ℕ → List KeyRange → List CommittedTx → Bool
check_newer version reads [] = false
check_newer version reads (h ∷ hs) =
    let older = check_newer version reads hs in
    if version_before version h.version
    then (if sorted_ranges_overlap reads h.writes then true else older)
    else false

-- The entries from the last one to the first one, as the loop index runs.
unfoldable pub backward {ℓ} : {A : Type ℓ} → List A → List A
backward [] = []
backward (h ∷ hs) = backward hs ++ h ∷ []

-- The ranges are sorted in place, so the transaction holds them sorted afterwards.
unfoldable pub detect_conflicts : {T : Type 0} → Kv T → Kvtx T → Kvtx T × Bool
unfolding check_newer backward
detect_conflicts kv tx =
    let reads = sort_ranges tx.reads in
    (record tx { reads = reads }, check_newer tx.version reads (backward kv.history))

-- `slices.Delete` at `slices.Index`; a version that is missing fails the assertion.
unfoldable pub remove_version : ℕ → List ℕ → Option (List ℕ)
remove_version v [] = none
remove_version v (w ∷ ws) =
    let rest = remove_version v ws in
    if w == v then some ws else (do others ← rest; some (w ∷ others))

-- the oldest version in use
unfoldable pub min_version : ℕ → List ℕ → ℕ
min_version m [] = m
min_version m (o ∷ os) = min_version (if version_before o m then o else m) os

-- `kv.history[idx:]` at the first entry that is newer
unfoldable pub trim : ℕ → List CommittedTx → List CommittedTx
trim m [] = []
trim m (h ∷ hs) = let rest = trim m hs in if version_before m h.version then h ∷ hs else rest

unfoldable pub tx_finalize : {T : Type 0} → Kv T → Kvtx T → Option (Kv T)
unfolding remove_version min_version trim
tx_finalize kv tx = do
  ongoing ← remove_version tx.version kv.ongoing
  let oldest = min_version kv.version ongoing
  some (record kv {
    ongoing = ongoing;
    pager = record kv.pager { free = set_max_ver oldest kv.free };
    history = trim oldest kv.history;
  })
