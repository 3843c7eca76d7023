-- ===== src/Btree/Pages/Memory.antt =====
-- The pages of the pending tree of a transaction, which `Begin` of transaction.go keeps in memory.
use mini_database_v.Base.{
  ◌≡◌, refl, ℕ, zero, suc, ◌≤◌, ◌<◌, Option, none, some, List, [], ◌∷◌, ◌++◌, length, get_elem?,
  arith, length-append,
}
use mini_database_v.Btree.Node.{Node}
use mini_database_v.Btree.Pages.{PageOps}

-- The page with the number n + 1 is the n-th of the list, and none is reused.
abbrev pub read_page : List Node → ℕ → Option Node
read_page s zero = none
read_page s (suc p) = get_elem? s p

get_elem?-append_left {ℓ} :
    {A : Type ℓ} (xs ys : List A) (i : ℕ) → i < length xs → get_elem? (xs ++ ys) i ≡ get_elem? xs i
get_elem?-append_left [] ys i h = absurd (omega arith)
get_elem?-append_left (x ∷ xs) ys zero h = refl
get_elem?-append_left (x ∷ xs) ys (suc i) h = get_elem?-append_left xs ys i (omega arith)

get_elem?-append_last {ℓ} :
    {A : Type ℓ} (xs : List A) (x : A) → get_elem? (xs ++ x ∷ []) (length xs) ≡ some x
get_elem?-append_last [] x = refl
get_elem?-append_last (y ∷ xs) x = get_elem?-append_last xs x

abbrev pub IsPageNumber : List Node → ℕ → Type 0
IsPageNumber s p = (0 < p) × (p ≤ length s)

pub memory-keeps :
    (n : Node) (s : List Node) (p : ℕ)
    → IsPageNumber s p
    → IsPageNumber (s ++ n ∷ []) p × (read_page (s ++ n ∷ []) p ≡ read_page s p)
memory-keeps n s zero (h, k) = absurd (omega arith)
memory-keeps n s (suc p) (h, k) =
    ((h, omega (arith, length-append s (n ∷ []))), get_elem?-append_left s (n ∷ []) p (omega arith))

pub memory-fresh : (n : Node) (s : List Node) → IsPageNumber (s ++ n ∷ []) (suc (length s))
memory-fresh n s = (omega arith, omega (arith, length-append s (n ∷ [])))

pub read_page-last : (n : Node) (s : List Node) → read_page (s ++ n ∷ []) (suc (length s)) ≡ some n
read_page-last n s = get_elem?-append_last s n

abbrev pub memory : PageOps
memory = record {
  Pages = List Node;
  read = read_page;
  alloc = λ n s. (suc (length s), s ++ n ∷ []);
  dealloc = λ p s. s;
  Live = IsPageNumber;
  alloc_pos = λ n s. omega arith;
  alloc-Live = memory-fresh;
  read-alloc = λ n s h. read_page-last n s;
  alloc-keeps = memory-keeps;
  dealloc-keeps = λ q s p h. (h, refl);
}
