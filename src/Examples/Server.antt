-- ===== src/Examples/Server.antt =====
-- Instances for the permissions of src/server/authz.cpp.
use rtdb_common.Common.{[], ◌∷◌, ◌≡◌, ◌↔◌, refl, true, false, bytes_eq}
use rtdb_common.Types.{Bytes}
use rtdb_common.Server.{table_pattern_matches, table_list_allows, can_write, UserPerms}
use rtdb_common.Server.Patterns.{Covers, table_pattern_matches_iff}

abbrev pt_star : Bytes
pt_star = b'p' ∷ b't' ∷ b'*' ∷ []

table_pattern_matches_iff_example :
    (table_pattern_matches pt_star (b'p' ∷ b't' ∷ b'1' ∷ []) ≡ true)
    ↔ Covers pt_star (b'p' ∷ b't' ∷ b'1' ∷ [])
table_pattern_matches_iff_example = table_pattern_matches_iff pt_star (b'p' ∷ b't' ∷ b'1' ∷ [])

match_test : table_pattern_matches pt_star (b'p' ∷ b'x' ∷ []) ≡ false
unfolding table_pattern_matches bytes_eq
match_test = refl

abbrev writer : UserPerms
writer = record {
  is_legacy = false;
  admin = false;
  ddl = false;
  read_tables = [];
  write_tables = (b'x' ∷ []) ∷ pt_star ∷ [];
}

can_write_test : can_write writer (b'p' ∷ b't' ∷ []) ≡ true
unfolding can_write table_list_allows table_pattern_matches bytes_eq
can_write_test = refl
