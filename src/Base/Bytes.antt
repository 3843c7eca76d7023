-- ===== src/Base/Bytes.antt =====
-- Byte strings as lists of numbers: `bytes.Compare` and the fixed-width numbers of
-- `encoding/binary`, as the program uses them.
use Prim.Native.Char.{code}
use Prim.Native.String.{String}
use native.Mathlib.Nat.{pow-suc}
use package.mini_database_v.Base.Tests.{◌==◌}
use package.mini_database_v.Base.Lists.{length, length-append, All}
use Prim.Native.Nat.{ℕ, zero, suc, ◌+◌, ◌*◌, ◌/◌, ◌%◌, ◌^◌, ◌<◌, compare, Ordering}
use mathlib.Core.Path.{◌≡◌, refl}
use mathlib.Core.Logic.{◌↔◌}
use mathlib.Core.Bool.{Bool, true, false, ◌&&◌}
use mathlib.Core.List.{List, [], ◌∷◌, ◌++◌}
use native.Mathlib.Omega.{arith}

abbrev pub Bytes : Type 0
Bytes = List ℕ

abbrev pub IsBytes : Bytes → Type 0
IsBytes = All (λ b. b < 256)

-- The code points of a literal: its bytes, as it is ASCII.
abbrev pub codes : String → Bytes
codes String.[] = []
codes (String.◌∷◌ c s) = code c ∷ codes s

-- `==` of strings and `bytes.Equal`.
abbrev pub eq_bytes : Bytes → Bytes → Bool
eq_bytes [] [] = true
eq_bytes [] (y ∷ ys) = false
eq_bytes (x ∷ xs) [] = false
eq_bytes (x ∷ xs) (y ∷ ys) = x == y && eq_bytes xs ys

pub eq_bytes_iff : (xs ys : Bytes) → (eq_bytes xs ys ≡ true) ↔ (xs ≡ ys)
eq_bytes_iff [] [] = (λ _. refl, λ _. refl)
eq_bytes_iff [] (y ∷ ys) = (λ h. cc, λ h. cc)
eq_bytes_iff (x ∷ xs) [] = (λ h. cc, λ h. cc)
eq_bytes_iff (x ∷ xs) (y ∷ ys) = ground (arith, eq_bytes_iff xs ys)

pub eq_bytes_refl : (xs : Bytes) → eq_bytes xs xs ≡ true
eq_bytes_refl xs = (eq_bytes_iff xs xs).1 refl

-- The first comparison that is not `eq` decides.
abbrev pub and_then : Ordering → Ordering → Ordering
and_then Ordering.eq o = o
and_then Ordering.lt o = Ordering.lt
and_then Ordering.gt o = Ordering.gt

-- `bytes.Compare`: lexicographic, and a proper prefix is smaller.
abbrev pub compare_bytes : Bytes → Bytes → Ordering
compare_bytes [] [] = Ordering.eq
compare_bytes [] (y ∷ ys) = Ordering.lt
compare_bytes (x ∷ xs) [] = Ordering.gt
compare_bytes (x ∷ xs) (y ∷ ys) = and_then (compare x y) (compare_bytes xs ys)

pub compare_bytes_refl : (xs : Bytes) → compare_bytes xs xs ≡ Ordering.eq
compare_bytes_refl [] = refl
compare_bytes_refl (x ∷ xs) = ground (arith, compare_bytes_refl xs)

-- Prefixes of one length are compared first.
pub compare_bytes-append :
    (xs ys r s : Bytes)
    → length xs ≡ length ys
    → compare_bytes (xs ++ r) (ys ++ s) ≡ and_then (compare_bytes xs ys) (compare_bytes r s)
compare_bytes-append [] [] r s h = refl
compare_bytes-append [] (y ∷ ys) r s h = absurd (omega arith)
compare_bytes-append (x ∷ xs) [] r s h = absurd (omega arith)
compare_bytes-append (x ∷ xs) (y ∷ ys) r s h =
    ground (arith, compare_bytes-append xs ys r s (omega arith))

pub compare_bytes-append_self :
    (xs r s : Bytes) → compare_bytes (xs ++ r) (xs ++ s) ≡ compare_bytes r s
compare_bytes-append_self [] r s = refl
compare_bytes-append_self (x ∷ xs) r s = ground (arith, compare_bytes-append_self xs r s)

-- `BigEndian.PutUint64` and `PutUint32`: the high byte comes first.
unfoldable pub put_be : ℕ → ℕ → Bytes
put_be zero u = []
put_be (suc n) u = put_be n (u / 256) ++ u % 256 ∷ []

from_be : ℕ → Bytes → ℕ
from_be acc [] = acc
from_be acc (b ∷ bs) = from_be (acc * 256 + b) bs

-- `BigEndian.Uint64` and `Uint32` of a slice of the right length.
pub get_be : Bytes → ℕ
unfolding from_be
get_be bs = from_be 0 bs

pub length-put_be : (n u : ℕ) → length (put_be n u) ≡ n
unfolding put_be
length-put_be zero u = refl
length-put_be (suc n) u =
    omega (arith, length-append (put_be n (u / 256)) (u % 256 ∷ []), length-put_be n (u / 256))

from_be-append : (acc b : ℕ) (xs : Bytes) → from_be acc (xs ++ b ∷ []) ≡ from_be acc xs * 256 + b
unfolding from_be
from_be-append acc b [] = refl
from_be-append acc b (x ∷ xs) = from_be-append (acc * 256 + x) b xs

pub get_be-put_be : (n u : ℕ) → u < 256 ^ n → get_be (put_be n u) ≡ u
unfolding get_be put_be
get_be-put_be zero u h = omega arith
get_be-put_be (suc n) u h = omega (
  arith,
  from_be-append 0 (u % 256) (put_be n (u / 256)),
  get_be-put_be n (u / 256) (omega (arith, pow-suc 256 n)),
)

-- Numbers of one width are ordered as their big-endian bytes.
pub compare_bytes-put_be :
    (n u v : ℕ) → u < 256 ^ n → v < 256 ^ n → compare_bytes (put_be n u) (put_be n v) ≡ compare u v
unfolding put_be
compare_bytes-put_be zero u v h k = ground arith
compare_bytes-put_be (suc n) u v h k = ground (
  arith,
  compare_bytes-append (put_be n (u / 256)) (put_be n (v / 256)) (u % 256 ∷ []) (v % 256 ∷ [])
      (omega (arith, length-put_be n (u / 256), length-put_be n (v / 256))),
  compare_bytes-put_be n (u / 256) (v / 256) (omega (arith, pow-suc 256 n))
      (omega (arith, pow-suc 256 n)),
)
