-- ===== src/Ql/Lex.antt =====
-- The tokens of ql_parse.go: characters, keywords, names, numbers and texts. The parser's position
-- is what is left of the input.
use mini_database_v.Base.{
  ℕ, ◌+◌, ◌-◌, ◌*◌, ◌^◌, Bool, true, false, not, ◌&&◌, ◌||◌, List, [], ◌∷◌, ◌++◌, map, Option, none,
  some, ltb, leb, ◌==◌, if◌then◌else◌, length, take, drop, ◌⊎◌, inl, inr,
}
use mini_database_v.Base.Bytes.{Bytes, codes, eq_bytes}
use mini_database_v.Ql.Ast.{ql_str, ql_i64, ql_sym, QlNode, node, nil}

-- The messages of `pErr`.
pub data ParseError : Type 0 where
  expect_comma unknown_stmt expect_semicolon expect_paren duplicate_primary_key : ParseError
  bad_column_type expect_from single_eq ne_not_allowed expect_comparison : ParseError
  tuple_and_single count_mismatch expect_columns bad_limit expect_values : ParseError
  values_length expect_set expect_eq expect_atom expect_name : ParseError
  not_terminated unknown_escape : ParseError

pub record Parser : Type 0 where
  pub rest : Bytes
  pub err : Option ParseError

abbrev pub new_parser : Bytes → Parser
new_parser input = record { rest = input; err = none }

abbrev between : ℕ → ℕ → ℕ → Bool
between lo hi c = leb lo c && leb c hi

-- `unicode.IsSpace`, `IsLetter` and `IsNumber` of a single byte, which is a rune below 256.
unfoldable pub is_space : ℕ → Bool
is_space c = between 9 13 c || c == 32 || c == 133 || c == 160

unfoldable pub is_letter : ℕ → Bool
is_letter c =
    between b'a' b'z' c
    || between b'A' b'Z' c
    || c == 170
    || c == 181
    || c == 186
    || between 192 214 c
    || between 216 246 c
    || between 248 255 c

unfoldable pub is_number : ℕ → Bool
is_number c = between b'0' b'9' c || c == 178 || c == 179 || c == 185 || between 188 190 c

unfoldable pub is_sym : ℕ → Bool
unfolding is_letter is_number
is_sym c = is_letter c || is_number c || c == b'_'

unfoldable pub is_sym_start : ℕ → Bool
unfolding is_letter
is_sym_start c = is_letter c || c == b'_'

unfoldable pub drop_while : (ℕ → Bool) → Bytes → Bytes
drop_while p [] = []
drop_while p (c ∷ cs) = let rest = drop_while p cs in if p c then rest else c ∷ cs

unfoldable pub take_while : (ℕ → Bool) → Bytes → Bytes
take_while p [] = []
take_while p (c ∷ cs) = let rest = take_while p cs in if p c then c ∷ rest else []

unfoldable pub skip_spaces : Parser → Parser
unfolding drop_while is_space
skip_spaces p = record p { rest = drop_while is_space p.rest }

abbrev pub keywords : List Bytes
keywords =
    codes "create"
    ∷ codes "table"
    ∷ codes "primary"
    ∷ codes "key"
    ∷ codes "insert"
    ∷ codes "replace"
    ∷ codes "upsert"
    ∷ codes "into"
    ∷ codes "values"
    ∷ codes "update"
    ∷ codes "set"
    ∷ codes "delete"
    ∷ codes "select"
    ∷ codes "as"
    ∷ codes "from"
    ∷ codes "index"
    ∷ codes "by"
    ∷ codes "filter"
    ∷ codes "limit"
    ∷ codes "begin"
    ∷ codes "commit"
    ∷ codes "rollback"
    ∷ []

is_one_of : Bytes → List Bytes → Bool
is_one_of s [] = false
is_one_of s (k ∷ ks) = eq_bytes s k || is_one_of s ks

-- `keywordSet[s]`
unfoldable pub is_keyword : Bytes → Bool
unfolding is_one_of
is_keyword s = is_one_of s keywords

-- `strings.ToLower` of a byte: tokens and keywords are ASCII, so other letters match none of them.
unfoldable pub to_lower : ℕ → ℕ
to_lower c = if between b'A' b'Z' c then c + 32 else c

-- the test on the character behind a keyword
abbrev ends_word : Bytes → Bytes → Bool
ends_word tok [] = true
ends_word tok (c ∷ cs) = if is_keyword tok then not (is_sym c) else true

-- one round of `match`: what is left behind the token
unfoldable pub match_token : Bytes → Bytes → Option Bytes
unfolding drop_while is_space to_lower is_keyword is_sym
match_token tok input =
    let rest = drop_while is_space input in
    if ltb (length rest) (length tok)
    then none
    else if eq_bytes (map to_lower (take (length tok) rest)) tok
        && ends_word tok (drop (length tok) rest)
    then some (drop (length tok) rest)
    else none

match_tokens : List Bytes → Bytes → Option Bytes
match_tokens [] input = some input
match_tokens (tok ∷ toks) input = elim (match_token tok input) [
  | none ↦ none
  | some rest ↦ match_tokens toks rest
]

-- `match`: `none` is false, and the position is as it was.
unfoldable pub match : List Bytes → Parser → Option Parser
unfolding match_tokens match_token
match toks p = elim (match_tokens toks p.rest) [
  | none ↦ none
  | some rest ↦ some (record p { rest = rest })
]

-- `pErr`: the first error stays.
unfoldable pub p_err : ParseError → Parser → Parser
p_err e p = elim p.err [ none ↦ record p { err = some e } | some _ ↦ p ]

unfoldable pub consume : Bytes → ParseError → Parser → Parser
unfolding match p_err
consume tok e p = elim (match (tok ∷ []) p) [ some p' ↦ p' | none ↦ p_err e p ]

-- `trySym`: `none` is false. The spaces are skipped in any case.
unfoldable pub try_sym : Parser → Option QlNode × Parser
unfolding skip_spaces is_sym_start is_sym take_while drop_while is_keyword to_lower
try_sym p0 =
    let p = skip_spaces p0 in
    elim p.rest [
      | [] ↦ (none, p)
      | c ∷ cs ↦
          let name = c ∷ take_while is_sym cs in
          if not (is_sym_start c)
          then (none, p)
          else if is_keyword (map to_lower name)
          then (none, p)
          else (some (node ql_sym 0 name nil), record p { rest = drop_while is_sym cs })
    ]

-- `strconv.ParseInt` in base ten: only ASCII digits, and only what fits an int64.
parse_digits : ℕ → Bytes → Option ℕ
parse_digits n [] = some n
parse_digits n (c ∷ cs) =
    if between b'0' b'9' c then parse_digits (n * 10 + (c - b'0')) cs else none

unfoldable pub parse_int : Bytes → Option ℕ
unfolding parse_digits
parse_int [] = none
parse_int (c ∷ cs) = elim (parse_digits 0 (c ∷ cs)) [
  | none ↦ none
  | some n ↦ if ltb n (2 ^ 63) then some n else none
]

abbrev starts_sym : Bytes → Bool
starts_sym [] = false
starts_sym (c ∷ cs) = is_sym c

unfoldable pub try_num : Parser → Option QlNode × Parser
unfolding skip_spaces is_number is_sym take_while drop_while parse_int
try_num p0 =
    let p = skip_spaces p0 in
    let digits = take_while is_number p.rest in
    let rest = drop_while is_number p.rest in
    if length digits == 0 || starts_sym rest then (none, p) else elim (parse_int digits) [
      | none ↦ (none, p)
      | some n ↦ (some (node ql_i64 n [] nil), record p { rest = rest })
    ]

-- The loop of `tryStr` behind the opening quote: the text and what is left behind the closing quote.
unfoldable pub read_str : ℕ → Bytes → Bytes → Bytes × Bytes ⊎ ParseError
read_str quote [] s = inr not_terminated
read_str quote (c ∷ []) s = if c == quote then inl (s, []) else inr not_terminated
read_str quote (c ∷ d ∷ cs) s =
    let escaped = read_str quote cs (s ++ d ∷ []) in
    let plain = read_str quote (d ∷ cs) (s ++ c ∷ []) in
    if c == quote
    then inl (s, d ∷ cs)
    else if c == b'\\'
    then (if d == b'"' || d == b'\'' || d == b'\\' then escaped else inr unknown_escape)
    else plain

unfoldable pub try_str : Parser → Option QlNode × Parser
unfolding skip_spaces read_str p_err
try_str p0 =
    let p = skip_spaces p0 in
    elim p.rest [
      | [] ↦ (none, p)
      | c ∷ cs ↦ if not (c == b'"' || c == b'\'') then (none, p) else elim (read_str c cs []) [
        | inl (s, rest) ↦ (some (node ql_str 0 s nil), record p { rest = rest })
        | inr e ↦ (none, p_err e p)
      ]
    ]

-- `pSym`
unfoldable pub p_sym : Parser → Bytes × Parser
unfolding try_sym p_err
p_sym p =
    let (found, p') = try_sym p in
    elim found [ some (node t n s ks) ↦ (s, p') | none ↦ ([], p_err expect_name p') ]
