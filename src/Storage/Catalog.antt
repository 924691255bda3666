-- ===== src/Storage/Catalog.antt =====
-- The catalog of tables: src/storage/catalog.cpp. Its two trees are those of Infra.BTree, the memory of
-- the descriptors is a function of their offsets. What the allocator and `TableStore::Format` answer
-- while a table is made is an argument of the call.
pub mod Keys
pub mod Tables
pub mod Create
pub mod Hang
pub mod Creation
pub mod Drop
use rtdb_common.Common.{
  ℕ, ◌+◌, ◌-◌, ◌^◌, List, [], ◌∷◌, ◌++◌, Bool, true, false, not, ◌&&◌, ◌||◌, ltb, leb, ◌==◌, length,
  if◌then◌else◌, Option, none, some, replicate, bytes_eq, pos,
}
use rtdb_common.Types.{
  Bytes, Err, k_ok, k_invalid_argument, k_unsupported, k_read_only_handle, k_limit_exceeded,
  k_table_exists, k_table_not_found, k_corruption, k_internal, k_not_found, Result, ok, err, ◌>>=◌,
  ◌>>◌, guard, is_int_class, is_var_class, is_ok,
}
use rtdb_common.Infra.BTree.{Tree, Capacity, Found, found, absent, too_deep, find}
use rtdb_common.Infra.BTree.Update.{insert, remove}
use rtdb_common.Infra.BTree.OrderedInt.{encode_ordered_int64, number}
use rtdb_common.Storage.Layout.{ColumnDef, ColDef, RowLayoutPlan, plan_row_layout, describe}

pub data TableState : Type 0 where
  active tombstone : TableState

-- `shm_TableDescriptor`, as far as the catalog reads and writes it.
pub record Descriptor : Type 0 where
  pub magic : ℕ
  pub table_id : ℕ
  pub name : Bytes
  pub state : TableState
  pub rec_fixed_len : ℕ
  pub row_cap : ℕ
  pub cols : List ColDef

-- `TableDef`, without the secondary indexes, which the engine creates afterwards.
pub record TableDef : Type 0 where
  pub name : Bytes
  pub columns : List ColumnDef
  pub primary_key : List Bytes
  pub max_rows_hint : ℕ
  pub row_cap : ℕ

-- The members of the super block that the catalog reads.
pub record Limits : Type 0 where
  pub max_tables : ℕ
  pub max_cols_per_table : ℕ
  pub max_size_bytes : ℕ

-- `shm_CatalogRoot` with the trees at its anchors, the descriptors, and whether the handle has a root and
-- an allocator.
pub record Catalog : Type 0 where
  pub available : Bool
  pub writable : Bool
  pub next_table_id : ℕ
  pub table_count : ℕ
  pub names : Tree
  pub ids : Tree
  pub descs : ℕ → Descriptor

-- What the memory answers to `CreateTable`: the offset of a descriptor, whether the table's regions could
-- be made, and how many nodes the trees can have.
pub record Answers : Type 0 where
  pub desc : Result ℕ
  pub format : Err
  pub nodes : ℕ

abbrev pub table_desc_magic : ℕ
table_desc_magic = 5932441660825947185

abbrev pub name_capacity : Capacity
name_capacity = record { leaf = 56; inner = 56 }

abbrev pub id_capacity : Capacity
id_capacity = record { leaf = 255; inner = 254 }

-- `EncodeTableNameKey`, as the number of its 64 bytes.
unfoldable pub name_key : Bytes → ℕ
name_key name = number 0 (name ++ replicate (64 - length name) 0)

-- The key of a table's number in the tree.
unfoldable pub id_key : ℕ → ℕ
id_key id = number 0 (encode_ordered_int64 (pos id))

-- `name.find('\0') == npos`
unfoldable pub no_nul : Bytes → Bool
no_nul [] = true
no_nul (b ∷ bs) = not (b == 0) && no_nul bs

unfoldable pub is_valid_table_name : Bytes → Bool
is_valid_table_name name = not (length name == 0) && not (ltb 63 (length name)) && no_nul name

unfoldable pub is_valid_column_name : Bytes → Bool
is_valid_column_name name = not (length name == 0) && not (ltb 31 (length name)) && no_nul name

unfoldable pub named : Bytes → List Bytes → Bool
named name [] = false
named name (other ∷ rest) = bytes_eq other name || named name rest

-- The loop over the columns, with the names of the earlier ones.
unfoldable pub check_columns : List ColumnDef → List Bytes → Result (Unit {0})
check_columns [] seen = ok tt
check_columns (c ∷ cs) seen =
    guard (is_valid_column_name c.name) k_invalid_argument
    >> guard (not (is_var_class c.type && not (c.len == 0))) k_invalid_argument
    >> guard (not (named c.name seen)) k_invalid_argument
    >> check_columns cs (c.name ∷ seen)

-- The tests on the primary key, which is the first column.
unfoldable pub check_primary : List Bytes → List ColumnDef → Result (Unit {0})
check_primary key [] = err k_invalid_argument
check_primary key (c ∷ cs) =
    guard (not (ltb 1 (length key))) k_unsupported
    >> guard (not (not (length key == 0) && not (named c.name key))) k_unsupported
    >> guard (is_int_class c.type) k_unsupported
    >> guard (not c.nullable) k_invalid_argument

unfoldable pub choose_row_cap : TableDef → Result ℕ
choose_row_cap def =
    guard
      (not (
        not (def.row_cap == 0)
        && not (def.max_rows_hint == 0)
        && not (def.row_cap == def.max_rows_hint)))
      k_invalid_argument
    >> guard (not (def.row_cap == 0 && not (def.max_rows_hint == 0) && ltb 8192 def.max_rows_hint))
        k_limit_exceeded
    >> (let cap = if def.row_cap == 0 then def.max_rows_hint else def.row_cap in
        let cap' = if cap == 0 then 1024 else cap in
        guard (not (ltb 8192 cap')) k_limit_exceeded >> ok cap')

-- The tests on the columns and on the number of tables.
unfoldable pub check_shape : Limits → Catalog → TableDef → Result (Unit {0})
check_shape lim c def =
    let max_cols = if ltb lim.max_cols_per_table 16 then lim.max_cols_per_table else 16 in
    guard (not (length def.columns == 0)) k_invalid_argument
    >> guard (not (ltb max_cols (length def.columns))) k_limit_exceeded
    >> check_columns def.columns []
    >> guard (not (leb lim.max_tables c.table_count)) k_limit_exceeded
    >> check_primary def.primary_key def.columns

abbrev pub is_absent : Found → Bool
is_absent absent = true
is_absent _ = false

unfoldable pub choose_layout : TableDef → Result (ℕ × RowLayoutPlan)
choose_layout def =
    choose_row_cap def >>= λ cap. plan_row_layout def.columns cap >>= λ plan. ok (cap, plan)

-- Everything that `CreateTable` tests before it allocates, and the layout.
unfoldable pub check_table : Limits → Catalog → TableDef → Result (ℕ × RowLayoutPlan)
check_table lim c def =
    guard c.available k_unsupported
    >> guard c.writable k_read_only_handle
    >> guard (is_valid_table_name def.name) k_invalid_argument
    >> check_shape lim c def
    >> guard (is_absent (find 64 c.names (name_key def.name))) k_table_exists
    >> choose_layout def

-- `reinterpret_cast` of an offset and a write there.
abbrev pub write_desc : (ℕ → Descriptor) → ℕ → Descriptor → ℕ → Descriptor
write_desc descs off d o = if o == off then d else descs o

-- The descriptor of a table that is made.
unfoldable pub new_desc : Catalog → TableDef → ℕ → RowLayoutPlan → Descriptor
new_desc c def cap plan = record {
  magic = table_desc_magic;
  table_id = c.next_table_id;
  name = def.name;
  state = active;
  rec_fixed_len = plan.rec_fixed_len;
  row_cap = cap;
  cols = describe def.columns plan.offsets;
}

-- What is left when both trees have answered; where the second fails, the first gives the name up.
unfoldable pub hung : Catalog → Bytes → ℕ → Tree → Tree → Err → Err → Result ℕ × Catalog
hung c name off names' ids' e e' =
    if not (is_ok e)
    then (err e, record c { names = names' })
    else if not (is_ok e')
    then (err e', record c { names = (remove 64 names' (name_key name)).1; ids = ids' })
    else (
      ok off,
      record c {
        names = names';
        ids = ids';
        next_table_id = c.next_table_id + 1;
        table_count = c.table_count + 1;
      },
    )

-- The two trees take the table in.
unfoldable pub hang_table : Catalog → Bytes → ℕ → ℕ → Result ℕ × Catalog
hang_table c name off nodes =
    let (e, names', left) = insert name_capacity nodes c.names (name_key name) c.next_table_id in
    let (e', ids', left') = insert id_capacity left c.ids (id_key c.next_table_id) off in
    hung c name off names' ids' e e'

unfoldable pub formatted : Catalog → Bytes → ℕ → ℕ → Err → Result ℕ × Catalog
formatted c name off nodes e = if not (is_ok e) then (err e, c) else hang_table c name off nodes

unfoldable pub allocated :
    Catalog → TableDef → Answers → ℕ × RowLayoutPlan → Result ℕ → Result ℕ × Catalog
allocated c def memory plan (err e) = (err e, c)
allocated c def memory plan (ok off) =
    let d = new_desc c def plan.0 plan.1 in
    formatted (record c { descs = write_desc c.descs off d }) def.name off memory.nodes
      memory.format

-- `CreateTable`, once the table is tested.
unfoldable pub make_table :
    Catalog → TableDef → Answers → Result (ℕ × RowLayoutPlan) → Result ℕ × Catalog
make_table c def memory (err e) = (err e, c)
make_table c def memory (ok plan) = allocated c def memory plan memory.desc

unfoldable pub create_table : Limits → Catalog → TableDef → Answers → Result ℕ × Catalog
create_table lim c def memory = make_table c def memory (check_table lim c def)

-- `Descriptor`, which is null for an offset outside of the image.
unfoldable pub descriptor : Limits → Catalog → ℕ → Option Descriptor
descriptor lim c off =
    if off == 0 || ltb lim.max_size_bytes (off + 1280) then none else some (c.descs off)

unfoldable pub found_desc : ℕ → ℕ → Option Descriptor → Result ℕ
found_desc id off none = err k_corruption
found_desc id off (some d) =
    guard ((d.magic == table_desc_magic) && (d.table_id == id)) k_corruption >> ok off

unfoldable pub by_id : Limits → Catalog → ℕ → Found → Result ℕ
by_id lim c id (found off) = found_desc id off (descriptor lim c off)
by_id lim c id _ = err k_table_not_found

unfoldable pub find_by_id : Limits → Catalog → ℕ → Result ℕ
find_by_id lim c id =
    guard c.available k_unsupported
    >> guard (not (id == 0)) k_invalid_argument
    >> by_id lim c id (find 64 c.ids (id_key id))

unfoldable pub opened_desc : ℕ → Option Descriptor → Result ℕ
opened_desc off none = err k_corruption
opened_desc off (some d) = elim d.state [ active ↦ ok off | tombstone ↦ err k_table_not_found ]

unfoldable pub by_name : Limits → Catalog → Found → Result ℕ
by_name lim c (found id) = find_by_id lim c id >>= λ off. opened_desc off (descriptor lim c off)
by_name lim c _ = err k_table_not_found

unfoldable pub open_table : Limits → Catalog → Bytes → Result ℕ
open_table lim c name =
    guard c.available k_unsupported
    >> guard (is_valid_table_name name) k_invalid_argument
    >> by_name lim c (find 64 c.names (name_key name))

-- The end of `DropTable`: the descriptor becomes a tombstone and the name goes; where the name stays,
-- the descriptor becomes active again.
unfoldable pub buried : Catalog → ℕ → Tree → Err → Err × Catalog
buried c off names' e =
    let d = c.descs off in
    if not (is_ok e)
    then (e, record c { descs = write_desc c.descs off (record d { state = active }) })
    else (
      k_ok,
      record c {
        names = names';
        table_count = c.table_count - 1;
        descs = write_desc c.descs off (record d { state = tombstone });
      },
    )

unfoldable pub bury : Catalog → Bytes → ℕ → Err × Catalog
bury c name off = let (e, names') = remove 64 c.names (name_key name) in buried c off names' e

unfoldable pub drop_state : Catalog → Bytes → ℕ → TableState → Err × Catalog
drop_state c name off active = bury c name off
drop_state c name off tombstone = (k_table_not_found, c)

unfoldable pub drop_found : Catalog → Bytes → ℕ → Found → Err × Catalog
drop_found c name id (found off) =
    let d = c.descs off in
    if not ((d.magic == table_desc_magic) && (d.table_id == id))
    then (k_corruption, c)
    else drop_state c name off d.state
drop_found c name id _ = (k_corruption, c)

unfoldable pub drop_named : Catalog → Bytes → Found → Err × Catalog
drop_named c name (found id) = drop_found c name id (find 64 c.ids (id_key id))
drop_named c name _ = (k_table_not_found, c)

unfoldable pub drop_table : Catalog → Bytes → Err × Catalog
drop_table c name =
    if not c.available
    then (k_unsupported, c)
    else if not c.writable
    then (k_read_only_handle, c)
    else if not (is_valid_table_name name)
    then (k_invalid_argument, c)
    else drop_named c name (find 64 c.names (name_key name))
