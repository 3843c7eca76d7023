-- ===== src/Base/Assoc.antt =====
-- A Go map from numbers: its entries, at most one for a number if the map was built by `insert`.
use package.mini_database_v.Base.Tests.{◌==◌, if◌then◌else◌}
use Prim.Native.Nat.{ℕ}
use mathlib.Core.Path.{◌≡◌, refl}
use mathlib.Core.List.{List, [], ◌∷◌}
use mathlib.Core.Option.{Option, none, some}
use native.Mathlib.Omega.{arith}

module _ {ℓ} {A : Type ℓ} where
  -- `m[key]`, with the second result of the comma form
  unfoldable pub lookup : ℕ → List (ℕ × A) → Option A
  lookup key [] = none
  lookup key (e ∷ es) = let behind = lookup key es in if e.0 == key then some e.1 else behind

  -- `m[key] = a`
  unfoldable pub insert : ℕ → A → List (ℕ × A) → List (ℕ × A)
  insert key a [] = (key, a) ∷ []
  insert key a (e ∷ es) =
      let behind = insert key a es in if e.0 == key then (key, a) ∷ es else e ∷ behind

  pub lookup-insert :
      (other key : ℕ) (a : A) (es : List (ℕ × A))
      → lookup other (insert key a es) ≡ (if key == other then some a else lookup other es)
  unfolding insert lookup
  lookup-insert other key a [] = refl
  lookup-insert other key a (e ∷ es) = ground (arith, lookup-insert other key a es)
