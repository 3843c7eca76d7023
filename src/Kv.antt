-- ===== src/Kv.antt =====
-- kv.go and free_list.go: the pages of the file, the list of free pages and the meta page.
pub mod Pages
pub mod Free
pub mod State
pub mod Meta
