-- ===== src/Lib.antt =====
-- Mini Database: a relational database over a copy-on-write B+tree, with optimistic transactions and
-- a small query language (db/ and cmd/ql.go of the repository).
--
-- The parts, from the file up, and the files that model them:
-- * Kv models db/kv.go and db/free_list.go. The record `Kv` (Kv/State) is the struct KV: the root, the
--   pages (Kv/Pages: the mapped file, the pages appended and rewritten since the last commit), the
--   free list (Kv/Free, its node byte by byte in Kv/Free/Node), the versions of running transactions
--   and the history of commits. `page_read`, `page_append`, `page_alloc`, `page_write`, `pop`, `push_tail`,
--   `save_meta`, `load_meta` and `read_root` are the functions of these names. A Go callback is a call
--   on the record `Pager`. An operation that panics or fails an assertion is `none`.
-- * Btree models db/btree.go. Btree/Node has the nodes: the record `Node` is a `BNode` read as its
--   header and the KVs appended so far, with the length of its buffer, and `node_append_kv` refuses
--   what the code's assertions and buffer refuse. Btree/Search is `nodeLookupLE`, Btree/Split
--   `nodeSplit2` and `nodeSplit3`, Btree/Tree `Get` and `Update`, Btree/Tree/Remove `Delete`, over the
--   callbacks on pages (`PageOps`), and Btree/Iter the iterator of db/btree_iter.go on the path of
--   nodes. Btree/Pages/Memory is the pages in memory of a pending tree (`Begin`), to which an update
--   only adds (Btree/Pages/Grown, Kept). Btree/Sorted is the sorted pairs that trees are compared with.
-- * Tx models db/transaction.go over these trees, the tree of the file over its callbacks and the
--   tree of the pending updates in memory: `tx_get`, `tx_update`, `tx_del`, `save` and
--   `revert` (Tx/Ops), the ranges and their sweep (Tx/Ranges), `detect_conflicts` and `tx_finalize`
--   (Tx/History), `begin_tx`, `commit`, `abort` and `update_or_revert` (Tx/Commit). What the system
--   calls of a commit answer is the argument `Disk`, and the mutex makes each operation one step.
--   Tx/Combined is `CombinedIter` over the iterators of the two trees.
--   Versions are compared as numbers, which is `versionBefore` as long as 64 bits are not exhausted.
-- * Table models db/table.go: the cells, rows and key encoding (Table/Value, Table/Escape,
--   Table/Encode), the definitions of tables (Table/Schema), the scans and `dbGet` (Table/Rows), and
--   `dbUpdate`, `dbDelete` and `TableNew` (Table/Rows/Write), as operations on a transaction that
--   return an error, or `none` for a panic. The encoding of a definition in JSON is a parameter. An
--   int64 is its 64-bit pattern, and a Go string is its bytes.
-- * Ql models db/ql_parse.go (Ql/Lex, Ql/Expr, Ql/Clause, Ql/Stmt), the scanner of statements and
--   the loop of cmd/ql.go around it (Ql/Scanner, Ql/Repl), and the evaluation of expressions and the
--   iterator over matching rows of db/ql_exec.go (Ql/Arith, Ql/Eval, Ql/Range, Ql/Rows), which
--   Ql/Exec runs over a transaction with the cache of table definitions: Ql/Exec/Scan is `execScan`,
--   Ql/Exec/Statement `execStmt` and the statements, and Ql/Exec/Session `ExecStr` with its explicit
--   transactions. Ql/Display prints expressions and values.
-- * Cmp holds the comparison operators that all of them share, and Base the lists, bytes, buffers
--   and maps. Examples applies the theorems to small inputs.
--
-- Fuel: the parser recurses on fuel, one for each level of nesting and each further item, and the
-- length of the input is given; the loop of the prompt takes one for each statement, and the loop over
-- rows one for each row and one more. The search in a node takes one for each key and one more, the
-- loop of a split one for each key and one more, and the operations of the tree one for each level. A
-- scan by an index reads the row by its primary key, which takes one read. The statements of the
-- executor are given a number that exceeds the rows of every scan, for each step of its iterator, and
-- the pending entries of a commit. Where a loop of the program does not end, no fuel is enough.
--
-- Parameters: `PageOps`, the callbacks on the pages of the file, which must give back what was written
-- (`memory` satisfies the laws), the levels that an operation on a tree may pass, and the encoding in
-- JSON. Not modelled: what the callbacks do to the free list in the loop of `Commit`; the bytes of tree
-- nodes behind their accessors; the bytes of the file behind its mappings after a commit; and the file system, the mapping of files and the terminal, which are
-- input and output.
mod Base
pub mod Cmp
pub mod Table
pub mod Kv
pub mod Btree
pub mod Tx
pub mod Ql
mod Examples
