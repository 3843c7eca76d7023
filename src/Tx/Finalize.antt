-- ===== src/Tx/Finalize.antt =====
-- The end of a transaction: what the other transactions keep.
use mini_database_v.Base.{
  ℕ, ◌≤◌, ◌<◌, ◌≡◌, refl, sym, true, false, Bool, List, [], ◌∷◌, arith, inl, inr, ◌↔◌, All, Any,
  some, if◌then◌else◌, Bool-cases, ltb→lt, bind_some, bound, of_some, subst,
}
use mini_database_v.Kv.Free.{version_before, set_max_ver}
use mini_database_v.Kv.State.{Kv}
use mini_database_v.Tx.Ranges.{KeyRange, CommittedTx, StartsSorted}
use mini_database_v.Tx.State.{Kvtx}
use mini_database_v.Tx.History.{detect_conflicts, remove_version, min_version, trim, tx_finalize}
use mini_database_v.Tx.Conflict.{VersionsSorted, WritesSorted, Clash, detect_conflicts_iff}

abbrev pub Holds : ℕ → List ℕ → Type 0
Holds v = Any (λ w. w ≡ v)

min_version-le_start : (m : ℕ) (os : List ℕ) → min_version m os ≤ m
unfolding min_version
min_version-le_start m [] = omega arith
min_version-le_start m (o ∷ os) = elim (Bool-cases (version_before o m)) [
  | inl newer ↦ rw newer (omega (arith, min_version-le_start o os, ltb→lt o m newer))
  | inr older ↦ rw older (min_version-le_start m os)
]

pub min_version-le : (m v : ℕ) (os : List ℕ) → Holds v os → min_version m os ≤ v
unfolding min_version
min_version-le m v [] h = absurd h
min_version-le m v (o ∷ os) (inl e) = elim (Bool-cases (version_before o m)) [
  | inl newer ↦ rw newer (omega (arith, min_version-le_start o os, e))
  | inr older ↦
      let le : m ≤ o = ground arith in rw older (omega (arith, min_version-le_start m os, le, e))
]
min_version-le m v (o ∷ os) (inr h) = min_version-le (if version_before o m then o else m) v os h

trim-Clash :
    (m v : ℕ) (reads : List KeyRange) (hs : List CommittedTx)
    → m ≤ v
    → Any (Clash v reads) (trim m hs) ↔ Any (Clash v reads) hs
unfolding trim
trim-Clash m v reads [] le = (λ h. h, λ h. h)
trim-Clash m v reads (h ∷ hs) le =
    let (to, from) = trim-Clash m v reads hs le in
    elim (Bool-cases (version_before m h.version)) [
      | inl newer ↦ rw newer (λ k. k, λ k. k)
      | inr older ↦
          rw older (λ k. inr (to k), elim [ inl k ↦ absurd (not_newer older k.0) | inr k ↦ from k ])
    ]
  where
    not_newer : version_before m h.version ≡ false → ¬ (v < h.version)
    not_newer older k = ground arith

trim-All : (P : CommittedTx → Type 0) (m : ℕ) (hs : List CommittedTx) → All P hs → All P (trim m hs)
unfolding trim
trim-All P m [] h = tt
trim-All P m (h ∷ hs) (p, ps) = elim (Bool-cases (version_before m h.version)) [
  | inl newer ↦ rw newer (p, ps)
  | inr older ↦ rw older (trim-All P m hs ps)
]

trim-VersionsSorted :
    (m : ℕ) (hs : List CommittedTx) → VersionsSorted hs → VersionsSorted (trim m hs)
unfolding trim
trim-VersionsSorted m [] h = tt
trim-VersionsSorted m (h ∷ hs) (v, vs) = elim (Bool-cases (version_before m h.version)) [
  | inl newer ↦ rw newer (v, vs)
  | inr older ↦ rw older (trim-VersionsSorted m hs vs)
]

eq_of_iff : (a b : Bool) → ((a ≡ true) ↔ (b ≡ true)) → a ≡ b
eq_of_iff true b (to, from) = sym (to refl)
eq_of_iff false true (to, from) = from refl
eq_of_iff false false _ = refl

module _ {T : Type 0} (kv : Kv T) (other : Kvtx T) where
  abbrev finished : ℕ → List ℕ → Kv T
  finished oldest ongoing = record kv {
    ongoing = ongoing;
    pager = record kv.pager { free = set_max_ver oldest kv.free };
    history = trim oldest kv.history;
  }

  -- What the running transaction `other` keeps in the store `kv'`.
  pub record Keeps (kv' : Kv T) : Type 0 where
    pub protected : kv'.free.max_ver ≤ other.version
    pub current : kv'.free.max_ver ≤ kv.version
    pub released : kv'.free.max_seq ≡ kv.free.tail_seq
    pub conflicts : (detect_conflicts kv' other).1 ≡ (detect_conflicts kv other).1

  finished-Keeps :
      (ongoing : List ℕ)
      → VersionsSorted kv.history
      → WritesSorted kv.history
      → Holds other.version ongoing
      → Keeps (finished (min_version kv.version ongoing) ongoing)
  unfolding set_max_ver
  finished-Keeps ongoing versions writes running =
      let oldest = min_version kv.version ongoing in
      let le = min_version-le kv.version other.version ongoing running in
      let now = detect_conflicts_iff kv other versions writes in
      let later =
        detect_conflicts_iff (finished oldest ongoing) other
          (trim-VersionsSorted oldest kv.history versions)
          (trim-All (λ h. StartsSorted h.writes) oldest kv.history writes) in
      let same = trim-Clash oldest other.version other.reads kv.history le in
      record {
        protected = le;
        current = min_version-le_start kv.version ongoing;
        released = refl;
        conflicts =
            eq_of_iff _ _ (λ e. now.1 (same.0 (later.0 e)), λ e. later.1 (same.1 (now.0 e)));
      }

  -- When a transaction ends, every transaction that is still running keeps what it needs: no page
  -- that was freed behind its snapshot becomes available (the oldest reader's version that the free
  -- list gets is at most its own), and dropping old history changes no answer to whether it is in
  -- conflict. The items that the free list got so far become available to the next writer. The
  -- history is in ascending order of versions and its writes are sorted.
  pub tx_finalize-Keeps :
      (tx : Kvtx T) {kv' : Kv T}
      → tx_finalize kv tx ≡ some kv'
      → Holds other.version kv'.ongoing
      → VersionsSorted kv.history
      → WritesSorted kv.history
      → Keeps kv'
  unfolding tx_finalize
  tx_finalize-Keeps tx h running versions writes =
      elim (bind_some (remove_version tx.version kv.ongoing) _ h) [
        | bound ongoing removed e ↦
            subst (λ k. Holds other.version k.ongoing → Keeps k) (of_some e)
              (finished-Keeps ongoing versions writes) running
      ]
