-- ===== src/Base/Buffer.antt =====
-- Buffers: the little-endian numbers of `encoding/binary`, and reads and writes at an offset.
use native.Mathlib.Nat.{pow-suc}
use package.mini_database_v.Base.Tests.{leb, if◌then◌else◌}
use package.mini_database_v.Base.Lists.{
  length, take, drop, length-append, take-append, drop-append, length-take, length-drop,
  take-append-drop, take-drop-append_left, drop-append_right,
}
use package.mini_database_v.Base.Bytes.{Bytes}
use Prim.Native.Nat.{ℕ, zero, suc, ◌+◌, ◌-◌, ◌*◌, ◌/◌, ◌%◌, ◌^◌, ◌≤◌, ◌<◌}
use mathlib.Core.Path.{◌≡◌, refl, sym, ap, ◌∙◌}
use mathlib.Core.Logic.{◌⊎◌, inl, inr}
use mathlib.Core.Option.{Option, none, some}
use mathlib.Core.List.{[], ◌∷◌, ◌++◌}
use native.Mathlib.Omega.{arith}

-- `LittleEndian.PutUint16` and `PutUint64`: the low byte comes first.
pub put_le : ℕ → ℕ → Bytes
put_le zero u = []
put_le (suc n) u = u % 256 ∷ put_le n (u / 256)

unfoldable pub get_le : Bytes → ℕ
get_le [] = 0
get_le (b ∷ bs) = b + 256 * get_le bs

pub length-put_le : (n u : ℕ) → length (put_le n u) ≡ n
unfolding put_le
length-put_le zero u = refl
length-put_le (suc n) u = ap suc (length-put_le n (u / 256))

pub get_le-put_le : (n u : ℕ) → u < 256 ^ n → get_le (put_le n u) ≡ u
unfolding get_le put_le
get_le-put_le zero u h = omega arith
get_le-put_le (suc n) u h = omega (arith, get_le-put_le n (u / 256) (omega (arith, pow-suc 256 n)))

-- `page[off : off+n]`, and `copy(page[off:], bs)` where `bs` has room; out of range is a panic.
unfoldable pub slice : ℕ → ℕ → Bytes → Option Bytes
slice off n page = if leb (off + n) (length page) then some (take n (drop off page)) else none

pub put_at : ℕ → Bytes → Bytes → Option Bytes
put_at off bs page =
    if leb (off + length bs) (length page)
    then some (take off page ++ (bs ++ drop (off + length bs) page))
    else none

-- A write within the buffer: the new buffer, and what is read from it.
pub splice : ℕ → Bytes → Bytes → Bytes
splice off bs page = take off page ++ (bs ++ drop (off + length bs) page)

module _ (off : ℕ) (bs page : Bytes) (fits : off + length bs ≤ length page) where
  pub put_at-splice : put_at off bs page ≡ some (splice off bs page)
  unfolding put_at splice
  put_at-splice = ground arith

  pub length-splice : length (splice off bs page) ≡ length page
  unfolding splice
  length-splice = omega (
    arith,
    length-append (take off page) (bs ++ drop (off + length bs) page),
    length-append bs (drop (off + length bs) page),
    length-take off page (omega arith),
    length-drop (off + length bs) page,
  )

  in_splice : take (length bs) (drop off (splice off bs page)) ≡ bs
  unfolding splice
  in_splice = rw (
    drop-append off (take off page) (bs ++ drop (off + length bs) page)
        (length-take off page (omega arith)),
    take-append (length bs) bs (drop (off + length bs) page) refl,
  )

  before_splice :
      (o n : ℕ) → o + n ≤ off → take n (drop o (splice off bs page)) ≡ take n (drop o page)
  unfolding splice
  before_splice o n h =
      let fit : o + n ≤ length (take off page) =
        omega (arith, length-take off page (omega arith)) in
      take-drop-append_left o n (take off page) (bs ++ drop (off + length bs) page) fit
      ∙ sym (take-drop-append_left o n (take off page) (drop off page) fit)
      ∙ ap (λ p. take n (drop o p)) (take-append-drop off page)

  behind_splice : (o : ℕ) → off + length bs ≤ o → drop o (splice off bs page) ≡ drop o page
  unfolding splice
  behind_splice o h =
      let start = length-take off page (omega arith) in
      let whole = length-take (off + length bs) page fits in
      let e : o - length (take off page) - length bs ≡ o - length (take (off + length bs) page) =
        omega (arith, start, whole) in
      drop-append_right o (take off page) (bs ++ drop (off + length bs) page) (omega (arith, start))
      ∙ drop-append_right (o - length (take off page)) bs (drop (off + length bs) page)
          (omega (arith, start))
      ∙ ap (λ k. drop k (drop (off + length bs) page)) e
      ∙ sym (
          drop-append_right o (take (off + length bs) page) (drop (off + length bs) page)
            (omega (arith, whole)))
      ∙ ap (drop o) (take-append-drop (off + length bs) page)

  pub slice-splice_self : slice off (length bs) (splice off bs page) ≡ some bs
  unfolding slice
  slice-splice_self = ground (arith, length-splice, in_splice)

  pub slice-splice_other :
      (o n : ℕ)
      → (o + n ≤ off) ⊎ (off + length bs ≤ o)
      → slice o n (splice off bs page) ≡ slice o n page
  unfolding slice
  slice-splice_other o n (inl h) = rw (length-splice, before_splice o n h)
  slice-splice_other o n (inr h) = rw (length-splice, behind_splice o h)
