-- ===== src/Ql/Ast.antt =====
-- Expressions and statements of ql_parse.go.
use mini_database_v.Base.{ℕ, List, [], ◌∷◌}
use mini_database_v.Base.Bytes.{Bytes}
use mini_database_v.Btree.Ops.{Mode}

-- The types of expressions; `unset` is 0, an expression that is not there.
pub data QlType : Type 0 where
  unset ql_str ql_i64 : QlType
  ql_cmp_ge ql_cmp_gt ql_cmp_lt ql_cmp_le ql_cmp_eq ql_cmp_ne : QlType
  ql_add ql_sub ql_mul ql_div ql_mod ql_and ql_or ql_not ql_neg : QlType
  ql_sym ql_tup ql_star ql_err : QlType

-- QLNode: the type, the integer (a 64-bit pattern), the text and the operands.
mutual
  pub data QlNode : Type 0 where
    node : QlType → ℕ → Bytes → QlKids → QlNode

  pub data QlKids : Type 0 where
    nil : QlKids
    kid : QlNode → QlKids → QlKids

abbrev pub type_of : QlNode → QlType
type_of (node t n s ks) = t

abbrev pub i64_of : QlNode → ℕ
i64_of (node t n s ks) = n

abbrev pub str_of : QlNode → Bytes
str_of (node t n s ks) = s

abbrev pub kids_of : QlNode → QlKids
kids_of (node t n s ks) = ks

abbrev pub to_kids : List QlNode → QlKids
to_kids [] = nil
to_kids (k ∷ ks) = kid k (to_kids ks)

abbrev pub from_kids : QlKids → List QlNode
from_kids nil = []
from_kids (kid k ks) = k ∷ from_kids ks

-- QLNode{}
abbrev pub empty_node : QlNode
empty_node = node unset 0 [] nil

abbrev pub with_kids : QlType → List QlNode → QlNode
with_kids t ks = node t 0 [] (to_kids ks)

-- INDEX BY, FILTER and LIMIT
pub record QlScan : Type 0 where
  pub table : Bytes
  pub key1 : QlNode
  pub key2 : QlNode
  pub filter : QlNode
  pub offset : ℕ
  pub limit : ℕ

-- The table definition that a statement gives; the first index is the primary key, if there is one.
pub record CreateTable : Type 0 where
  pub name : Bytes
  pub cols : List Bytes
  pub types : List ℕ
  pub primary : List Bytes
  pub indexes : List (List Bytes)

pub record Select : Type 0 where
  pub scan : QlScan
  pub names : List Bytes
  pub output : List QlNode

pub record Update : Type 0 where
  pub scan : QlScan
  pub names : List Bytes
  pub values : List QlNode

pub record Insert : Type 0 where
  pub table : Bytes
  pub mode : Mode
  pub names : List Bytes
  pub values : List (List QlNode)

pub data Stmt : Type 0 where
  create_table : CreateTable → Stmt
  select : Select → Stmt
  update : Update → Stmt
  insert : Insert → Stmt
  delete : QlScan → Stmt
  begin_tx commit_tx rollback_tx : Stmt
