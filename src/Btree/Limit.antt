-- ===== src/Btree/Limit.antt =====
-- `checkLimit` of btree.go.
use mini_database_v.Base.{ℕ, ◌==◌, ltb, if◌then◌else◌, Option, none, some, length}
use mini_database_v.Base.Bytes.{Bytes}

-- BTREE_MAX_KEY_SIZE and BTREE_MAX_VAL_SIZE
abbrev pub max_key_size : ℕ
max_key_size = 1000

abbrev pub max_val_size : ℕ
max_val_size = 3000

pub data LimitError : Type 0 where
  empty_key key_too_long val_too_long : LimitError

unfoldable pub check_limit : Bytes → Bytes → Option LimitError
check_limit key val =
    if length key == 0
    then some LimitError.empty_key
    else if ltb max_key_size (length key)
    then some LimitError.key_too_long
    else if ltb max_val_size (length val)
    then some LimitError.val_too_long
    else none
