-- ===== src/Ql.antt =====
-- ql_parse.go and ql_exec.go: the query language, its statements and the evaluation of expressions.
pub mod Ast
pub mod Lex
pub mod Expr
pub mod Clause
pub mod Stmt
pub mod Scanner
pub mod Repl
pub mod Arith
pub mod Eval
pub mod Rows
pub mod Range
pub mod Display
pub mod Exec
