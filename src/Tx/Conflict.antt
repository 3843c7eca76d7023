-- ===== src/Tx/Conflict.antt =====
-- What `detectConflicts` decides, and what the trimming of the history leaves alone.
use mini_database_v.Base.{
  ℕ, ◌≤◌, ◌<◌, ◌≡◌, refl, true, List, [], ◌∷◌, ◌++◌, arith, inl, inr, ◌⊎◌, ◌↔◌, All, All-append,
  Any, Bool-cases, lt→ltb, ltb→lt,
}
use mini_database_v.Kv.Free.{version_before}
use mini_database_v.Kv.State.{Kv}
use mini_database_v.Tx.Ranges.{
  KeyRange, CommittedTx, Overlaps, StartsSorted, sort_ranges, sorted_ranges_overlap,
  sorted_ranges_overlap_iff,
}
use mini_database_v.Tx.Sort.{Any-sort_ranges, sort_ranges-StartsSorted}
use mini_database_v.Tx.State.{Kvtx}
use mini_database_v.Tx.History.{check_newer, backward, detect_conflicts}

-- The history is in ascending order of versions, and the writes of every entry are sorted.
abbrev pub VersionsSorted : List CommittedTx → Type 0
VersionsSorted [] = Unit
VersionsSorted (h ∷ hs) = All (λ g. h.version ≤ g.version) hs × VersionsSorted hs

abbrev pub WritesSorted : List CommittedTx → Type 0
WritesSorted = All (λ h. StartsSorted h.writes)

-- Some newer entry wrote a range that overlaps some range of the reads.
abbrev pub Clash : ℕ → List KeyRange → CommittedTx → Type 0
Clash version reads h = (version < h.version) × Any (λ r. Any (Overlaps r) h.writes) reads

-- The same lists from the newest entry on.
abbrev Descending : List CommittedTx → Type 0
Descending [] = Unit
Descending (h ∷ hs) = All (λ g. g.version ≤ h.version) hs × Descending hs

no_newer :
    (v : ℕ) (reads : List KeyRange) (m : ℕ) (hs : List CommittedTx)
    → m ≤ v
    → All (λ g. g.version ≤ m) hs
    → ¬ Any (Clash v reads) hs
no_newer v reads m [] le h k = k
no_newer v reads m (g ∷ hs) le (h, hs') (inl (newer, k)) = absurd (omega arith)
no_newer v reads m (g ∷ hs) le (h, hs') (inr k) = no_newer v reads m hs le hs' k

module _ (v : ℕ) (reads : List KeyRange) (sorted : StartsSorted reads) where
  check_newer_iff :
      (hs : List CommittedTx)
      → Descending hs
      → WritesSorted hs
      → (check_newer v reads hs ≡ true) ↔ Any (Clash v reads) hs
  unfolding check_newer
  check_newer_iff [] d w = (λ e. cc, λ k. absurd k)
  check_newer_iff (h ∷ hs) (d, ds) (w, ws) = elim (Bool-cases (version_before v h.version)) [
    | inl newer ↦
        let (hit, found) = sorted_ranges_overlap_iff reads h.writes sorted w in
        let (to, from) = check_newer_iff hs ds ws in
        elim (Bool-cases (sorted_ranges_overlap reads h.writes)) [
          | inl yes_overlap ↦
              rw (newer, yes_overlap)
                (λ _. inl (ltb→lt v h.version newer, hit yes_overlap), λ _. refl)
          | inr none_here ↦
              rw (newer, none_here)
                (λ e. inr (to e), elim [ inl k ↦ let clash = found k.1 in cc | inr k ↦ from k ])
        ]
    | inr older ↦ rw older (
      λ e. cc,
      elim [
        | inl k ↦ let before = lt→ltb v h.version k.0 in cc
        | inr k ↦ absurd (no_newer v reads h.version hs (ground arith) d k)
      ],
    )
  ]

module _ {A : Type 0} where
  Any-append : (P : A → Type 0) (xs ys : List A) → Any P (xs ++ ys) ↔ (Any P xs ⊎ Any P ys)
  Any-append P [] ys = (λ h. inr h, elim [ inl h ↦ absurd h | inr h ↦ h ])
  Any-append P (x ∷ xs) ys =
      let (to, from) = Any-append P xs ys in
      (
        elim [ inl p ↦ inl (inl p) | inr h ↦ elim (to h) [ inl k ↦ inl (inr k) | inr k ↦ inr k ] ],
        elim [
          | inl h ↦ elim h [ inl p ↦ inl p | inr k ↦ inr (from (inl k)) ]
          | inr k ↦ inr (from (inr k))
        ],
      )

  Any-backward : (P : A → Type 0) (xs : List A) → Any P (backward xs) ↔ Any P xs
  unfolding backward
  Any-backward P [] = (λ h. h, λ h. h)
  Any-backward P (x ∷ xs) =
      let (split, join) = Any-append P (backward xs) (x ∷ []) in
      let (to, from) = Any-backward P xs in
      (
        λ h. elim (split h) [
          | inl k ↦ inr (to k)
          | inr k ↦ elim k [ inl p ↦ inl p | inr n ↦ absurd n ]
        ],
        elim [ inl p ↦ join (inr (inl p)) | inr k ↦ join (inl (from k)) ],
      )

  All-backward : (P : A → Type 0) (xs : List A) → All P xs → All P (backward xs)
  unfolding backward
  All-backward P [] h = tt
  All-backward P (x ∷ xs) (h, hs) =
      All-append P (backward xs) (x ∷ []) (All-backward P xs hs) (h, tt)

  Any-map : (P Q : A → Type 0) → ((a : A) → P a → Q a) → (xs : List A) → Any P xs → Any Q xs
  Any-map P Q f [] h = h
  Any-map P Q f (x ∷ xs) (inl p) = inl (f x p)
  Any-map P Q f (x ∷ xs) (inr h) = inr (Any-map P Q f xs h)

Descending-append :
    (hs : List CommittedTx) (h : CommittedTx)
    → Descending hs
    → All (λ g. h.version ≤ g.version) hs
    → Descending (hs ++ h ∷ [])
Descending-append [] h d k = (tt, tt)
Descending-append (g ∷ hs) h (d, ds) (k, ks) =
    (All-append (λ f. f.version ≤ g.version) hs (h ∷ []) d (k, tt), Descending-append hs h ds ks)

Descending-backward : (hs : List CommittedTx) → VersionsSorted hs → Descending (backward hs)
unfolding backward
Descending-backward [] h = tt
Descending-backward (h ∷ hs) (v, vs) =
    Descending-append (backward hs) h (Descending-backward hs vs)
      (All-backward (λ g. h.version ≤ g.version) hs v)

module _ {T : Type 0} (kv : Kv T) where
  -- A transaction is in conflict exactly when a range that it read overlaps a range that some entry
  -- of the history with a newer version than its snapshot wrote. The history is in ascending order
  -- of versions, with the writes of every entry sorted by their starts; the reads may be in any
  -- order, and overlap.
  pub detect_conflicts_iff :
      (tx : Kvtx T)
      → VersionsSorted kv.history
      → WritesSorted kv.history
      → ((detect_conflicts kv tx).1 ≡ true) ↔ Any (Clash tx.version tx.reads) kv.history
  unfolding detect_conflicts
  detect_conflicts_iff tx sorted writes =
      let (to, from) =
        check_newer_iff tx.version (sort_ranges tx.reads) (sort_ranges-StartsSorted tx.reads)
          (backward kv.history) (Descending-backward kv.history sorted)
          (All-backward (λ h. StartsSorted h.writes) kv.history writes) in
      let (forth, back) = Any-backward (Clash tx.version (sort_ranges tx.reads)) kv.history in
      (
        λ e.
            Any-map _ _ (λ h k. (k.0, (Any-sort_ranges _ tx.reads).0 k.1)) kv.history
              (forth (to e)),
        λ k.
            from
              (back (Any-map _ _ (λ h c. (c.0, (Any-sort_ranges _ tx.reads).1 c.1)) kv.history k)),
      )
