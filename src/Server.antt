-- ===== src/Server.antt =====
-- The permissions of the server: src/server/authz.cpp, with `UserPerms` of src/server/config.hpp.
pub mod Patterns
use rtdb_common.Common.{
  ℕ, ◌+◌, ◌-◌, ◌==◌, List, [], ◌∷◌, Bool, true, false, ◌&&◌, ◌||◌, length, take, get_or, bytes_eq,
  leb, if◌then◌else◌,
}
use rtdb_common.Types.{Bytes}

abbrev pub star : ℕ
star = b'*'

-- `pattern.back()`
abbrev pub back : Bytes → ℕ
back s = get_or s (length s - 1) 0

unfoldable pub table_pattern_matches : Bytes → Bytes → Bool
table_pattern_matches pattern table =
    let prefix = take (length pattern - 1) pattern in
    if length pattern == 0
    then false
    else if bytes_eq pattern (star ∷ [])
    then true
    else if back pattern == star
    then (if length prefix == 0
        then true
        else leb (length prefix) (length table) && bytes_eq (take (length prefix) table) prefix)
    else bytes_eq pattern table

unfoldable pub table_list_allows : List Bytes → Bytes → Bool
table_list_allows [] table = false
table_list_allows (p ∷ ps) table =
    if table_pattern_matches p table then true else table_list_allows ps table

pub record UserPerms : Type 0 where
  pub is_legacy : Bool
  pub admin : Bool
  pub ddl : Bool
  pub read_tables : List Bytes
  pub write_tables : List Bytes

unfoldable pub can_read : UserPerms → Bytes → Bool
can_read perms table =
    if perms.is_legacy || perms.admin then true else table_list_allows perms.read_tables table

unfoldable pub can_write : UserPerms → Bytes → Bool
can_write perms table =
    if perms.is_legacy || perms.admin then true else table_list_allows perms.write_tables table

unfoldable pub can_ddl : UserPerms → Bool
can_ddl perms = perms.is_legacy || perms.admin || perms.ddl

unfoldable pub can_admin : UserPerms → Bool
can_admin perms = perms.is_legacy || perms.admin
