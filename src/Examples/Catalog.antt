-- ===== src/Examples/Catalog.antt =====
-- A catalog without tables and one with a table of the name "t".
use rtdb_common.Common.{
  ℕ, ◌≤◌, ◌<◌, ◌≡◌, refl, sym, ◌∙◌, arith, [], ◌∷◌, true, false, ◌==◌, Bool-cases, inl, inr, none,
  some,
}
use mathlib.Core.Path.{subst}
use rtdb_common.Types.{ok, k_ok, k_int64}
use rtdb_common.Infra.BTree.{leaf, Tree}
use rtdb_common.Infra.BTree.Contents.{lookup}
use rtdb_common.Infra.BTree.Invariant.{contents}
use rtdb_common.Infra.BTree.Refinement.{entries}
use rtdb_common.Storage.Catalog.{
  Catalog, Limits, Descriptor, TableDef, Answers, active, table_desc_magic, name_key, id_key,
  create_table, drop_table, no_nul, is_valid_table_name, descriptor,
}
use rtdb_common.Storage.Catalog.Keys.{name_key_lt, id_key-number}
use rtdb_common.Storage.Catalog.Tables.{Good, Active}
use rtdb_common.Storage.Catalog.Create.{Made}
use rtdb_common.Storage.Catalog.Creation.{create_table-Made}
use rtdb_common.Storage.Catalog.Drop.{Dropped, drop_table-Dropped}

abbrev some_limits : Limits
some_limits = record { max_tables = 64; max_cols_per_table = 16; max_size_bytes = 1048576 }

abbrev no_desc : Descriptor
no_desc = record {
  magic = 0;
  table_id = 0;
  name = [];
  state = active;
  rec_fixed_len = 0;
  row_cap = 0;
  cols = [];
}

abbrev no_tree : Tree
no_tree = record { root = none; count = 0 }

abbrev no_tables : Catalog
no_tables = record {
  available = true;
  writable = true;
  next_table_id = 1;
  table_count = 0;
  names = no_tree;
  ids = no_tree;
  descs = λ o. no_desc;
}

no_tables-Good : Good some_limits 0 0 no_tables
no_tables-Good = record {
  ready = refl;
  names_stand = (refl, refl);
  ids_stand = (refl, refl);
  known = λ key id there. absurd (cc there);
  once = λ key key' id there there'. absurd (cc there);
  unused = λ id from below. refl;
  small = omega arith;
  started = omega arith;
}

abbrev table_t : TableDef
table_t = record {
  name = 116 ∷ [];
  columns = record { name = 105 ∷ []; type = k_int64; len = 0; nullable = false } ∷ [];
  primary_key = [];
  max_rows_hint = 0;
  row_cap = 100;
}

abbrev some_memory : Answers
some_memory = record { desc = ok 4096; format = k_ok; nodes = 4 }

create_table-Made_example :
    Made some_limits 0 0 no_tables
      (116 ∷ [])
      4096
      (create_table some_limits no_tables table_t some_memory)
create_table-Made_example =
    create_table-Made some_limits 0 0 no_tables table_t some_memory 4096 no_tables-Good
      (omega arith) (omega arith, tt) (omega arith) refl (omega arith)
      (λ k o there. absurd (cc there))

abbrev one_table : Catalog
one_table = record {
  available = true;
  writable = true;
  next_table_id = 2;
  table_count = 1;
  names = record {
    root = some (
        leaf (record { off = 9; next_leaf = 0 })
          (record { key = name_key (116 ∷ []); value = 1 } ∷ []));
    count = 1;
  };
  ids = record {
    root =
        some
          (leaf (record { off = 8; next_leaf = 0 }) (record { key = id_key 1; value = 4096 } ∷ []));
    count = 1;
  };
  descs = λ o. record no_desc { magic = table_desc_magic; table_id = 1 };
}

t_valid : is_valid_table_name (116 ∷ []) ≡ true
unfolding is_valid_table_name no_nul
t_valid = refl

t_named :
    (key id : ℕ)
    → lookup (record { key = name_key (116 ∷ []); value = 1 } ∷ []) key ≡ some id
    → (name_key (116 ∷ []) ≡ key) × (1 ≡ id)
t_named key id there = elim (Bool-cases (name_key (116 ∷ []) == key)) [
  | inl eq ↦
      let here : lookup (record { key = name_key (116 ∷ []); value = 1 } ∷ []) key ≡ some 1 =
        rw eq refl in
      (ground (arith, eq), cc (here, there))
  | inr ne ↦ absurd (ground (arith, ne, there))
]

one_table-Good : Good some_limits 0 0 one_table
unfolding contents descriptor
one_table-Good = record {
  ready = refl;
  names_stand = (
    refl,
    ((omega arith, omega (arith, name_key_lt (116 ∷ []) t_valid (omega arith, tt))), omega arith),
  );
  ids_stand = (refl, ((omega arith, omega (arith, id_key-number 1 (omega arith))), omega arith));
  known = λ key id there.
      subst
        (λ i.
          (1 ≤ i)
          × (i < 2)
          × ((off : ℕ) × (lookup (entries one_table.ids) (id_key i) ≡ some off)
              × Active some_limits one_table i off))
        (t_named key id there).1
        (
          omega arith,
          omega arith,
          (
            4096,
            ground arith,
            record { inside = refl; magic = refl; numbered = refl; alive = refl },
          ),
        );
  once = λ key key' id there there'. sym (t_named key id there).0 ∙ (t_named key' id there').0;
  unused =
      λ id from below. ground (arith, from, id_key-number 1 (omega arith), id_key-number id below);
  small = omega arith;
  started = omega arith;
}

drop_table-Dropped_example :
    Dropped some_limits 0 0 one_table (116 ∷ []) (drop_table one_table (116 ∷ []))
drop_table-Dropped_example =
    drop_table-Dropped some_limits 0 0 one_table (116 ∷ []) one_table-Good (omega arith) refl
      t_valid (omega arith, tt)
