-- ===== src/Table/Escape.antt =====
-- `escapeString` and `unescapeString` of table.go: the null byte is hidden from the encoded text.
use native.Mathlib.Omega.{arith}
use mini_database_v.Base.{
  ℕ, ◌+◌, ◌-◌, ◌<◌, ◌≡◌, refl, sym, false, ◌||◌, [], ◌∷◌, ◌++◌, append_assoc, append-nil, Option,
  none, some, leb, ◌==◌, if◌then◌else◌, length, All, Bool-cases, inl, inr,
}
use mini_database_v.Base.Bytes.{Bytes, compare_bytes, and_then}

-- `bytes.Count` of a text with one byte
unfoldable pub count_byte : ℕ → Bytes → ℕ
count_byte b [] = 0
count_byte b (c ∷ cs) = (if c == b then 1 else 0) + count_byte b cs

-- what a round of the loop writes
escape_byte : ℕ → Bytes
escape_byte ch = if leb ch 1 then 1 ∷ (ch + 1) ∷ [] else ch ∷ []

escape_loop : Bytes → Bytes → Bytes
escape_loop [] out = out
escape_loop (ch ∷ cs) out = escape_loop cs (out ++ escape_byte ch)

unfoldable pub escape_string : Bytes → Bytes
unfolding escape_loop escape_byte count_byte
escape_string s = if count_byte 0 s + count_byte 1 s == 0 then s else escape_loop s []

-- a text that ends within an escape is read out of range, and only 1 and 2 may follow the mark
unescape_loop : Bytes → Bytes → Option Bytes
unescape_loop [] out = some out
unescape_loop (c ∷ []) out = if c == 1 then none else some (out ++ c ∷ [])
unescape_loop (c ∷ d ∷ cs) out =
    let plain = unescape_loop (d ∷ cs) (out ++ c ∷ []) in
    let marked = unescape_loop cs (out ++ (d - 1) ∷ []) in
    if c == 1 then (if d == 1 || d == 2 then marked else none) else plain

unfoldable pub unescape_string : Bytes → Option Bytes
unfolding unescape_loop count_byte
unescape_string s = if count_byte 1 s == 0 then some s else unescape_loop s []

-- the escaped text as a plain recursion
pub escaped : Bytes → Bytes
escaped [] = []
escaped (ch ∷ cs) = escape_byte ch ++ escaped cs

escape_loop-escaped : (s out : Bytes) → escape_loop s out ≡ out ++ escaped s
unfolding escape_loop escaped
escape_loop-escaped [] out = sym (append-nil out)
escape_loop-escaped (c ∷ cs) out = simp (escape_loop-escaped cs, append_assoc)

escaped_plain : (s : Bytes) → count_byte 0 s + count_byte 1 s ≡ 0 → escaped s ≡ s
unfolding escaped escape_byte count_byte
escaped_plain [] h = refl
escaped_plain (c ∷ cs) h = ground (arith, escaped_plain cs)

pub escape_string-eq : (s : Bytes) → escape_string s ≡ escaped s
unfolding escape_string
escape_string-eq s = ground (arith, escaped_plain s, escape_loop-escaped s [])

length-escaped : (s : Bytes) → length (escaped s) ≡ length s + (count_byte 0 s + count_byte 1 s)
unfolding escaped escape_byte count_byte
length-escaped [] = refl
length-escaped (c ∷ cs) = ground (arith, length-escaped cs)

-- The loop fills exactly the buffer that `make` allocates, so no write is out of range.
pub length-escape_string :
    (s : Bytes) → length (escape_string s) ≡ length s + (count_byte 0 s + count_byte 1 s)
length-escape_string s = rw escape_string-eq (length-escaped s)

pub escaped-ne-zero : (s : Bytes) → All (λ b. 0 < b) (escaped s)
unfolding escaped escape_byte
escaped-ne-zero [] = tt
escaped-ne-zero (c ∷ cs) = ground (arith, escaped-ne-zero cs)

unescape_loop_plain :
    (c : ℕ) (cs out : Bytes)
    → (c == 1) ≡ false
    → unescape_loop (c ∷ cs) out ≡ unescape_loop cs (out ++ c ∷ [])
unfolding unescape_loop
unescape_loop_plain c [] out h = rw h
unescape_loop_plain c (d ∷ cs) out h = rw h

unescape_loop-escaped : (s out : Bytes) → unescape_loop (escaped s) out ≡ some (out ++ s)
unfolding escaped escape_byte unescape_loop
unescape_loop-escaped [] out = rw append-nil
unescape_loop-escaped (c ∷ cs) out = elim (Bool-cases (leb c 1)) [
  | inl special ↦
      ground (arith, unescape_loop-escaped cs (out ++ c ∷ []), append_assoc out (c ∷ []) cs)
  | inr plain ↦ ground (
    arith,
    unescape_loop_plain c (escaped cs) out (ground arith),
    unescape_loop-escaped cs (out ++ c ∷ []),
    append_assoc out (c ∷ []) cs,
  )
]

unescaped_plain : (s : Bytes) → count_byte 1 (escaped s) ≡ 0 → escaped s ≡ s
unfolding escaped escape_byte count_byte
unescaped_plain [] h = refl
unescaped_plain (c ∷ cs) h = ground (arith, unescaped_plain cs)

-- Unescaping an escaped text gives the text back, whatever bytes it holds.
pub unescape_string-escape_string : (s : Bytes) → unescape_string (escape_string s) ≡ some s
unescape_string-escape_string s =
    rw escape_string-eq
      (unfold unescape_string in ground (arith, unescaped_plain s, unescape_loop-escaped s []))

-- Terminated texts are ordered as the texts, and what follows counts only behind equal texts.
pub compare_bytes-escaped :
    (s t q r : Bytes)
    → compare_bytes (escaped s ++ 0 ∷ q) (escaped t ++ 0 ∷ r)
      ≡ and_then (compare_bytes s t) (compare_bytes q r)
unfolding escaped escape_byte
compare_bytes-escaped [] [] q r = refl
compare_bytes-escaped [] (y ∷ t) q r = ground arith
compare_bytes-escaped (x ∷ s) [] q r = ground arith
compare_bytes-escaped (x ∷ s) (y ∷ t) q r = ground (arith, compare_bytes-escaped s t q r)
