-- ===== src/Storage/Catalog/Creation.antt =====
-- `CreateTable` of src/storage/catalog.cpp as a whole.
use rtdb_common.Common.{
  ℕ, ◌+◌, ◌^◌, ◌≤◌, ◌<◌, ◌≡◌, ◌≢◌, refl, sym, ap, ◌∙◌, arith, Bool, true, false, not, ◌||◌, ltb,
  ◌==◌, Option, none, some, if◌then◌else◌, inl, inr, Bool-cases,
}
use mathlib.Core.Path.{subst}
use rtdb_common.Types.{
  >>=-eq-ok, ◌>>◌, guard, k_unsupported, k_read_only_handle, k_invalid_argument, k_table_exists,
  Bytes, Err, Result, ok, err, is_ok, Result-cases,
}
use rtdb_common.Infra.BTree.{find}
use rtdb_common.Infra.BTree.Contents.{lookup}
use rtdb_common.Infra.BTree.Leaf.{seen}
use rtdb_common.Storage.Catalog.Hang.{hang_table-Made}
use rtdb_common.Infra.BTree.OrderedInt.{AllBytes}
use rtdb_common.Infra.BTree.Refinement.{entries}
use rtdb_common.Storage.Layout.{RowLayoutPlan}
use rtdb_common.Storage.Catalog.{
  Catalog, Limits, Descriptor, TableDef, Answers, name_key, id_key, is_valid_table_name, descriptor,
  open_table, hang_table, formatted, allocated, make_table, create_table, check_shape,
  choose_layout, is_absent, new_desc, write_desc, check_table,
}
use rtdb_common.Storage.Catalog.Tables.{Active, Good, find-name}
use rtdb_common.Storage.Catalog.Create.{Made, open_table-alike}

-- The tests that a table has passed.
check_table-passed :
    (lim : Limits) (c : Catalog) (def : TableDef) (plan : ℕ × RowLayoutPlan)
    → check_table lim c def ≡ ok plan
    → (is_valid_table_name def.name ≡ true)
      × (is_absent (find 64 c.names (name_key def.name)) ≡ true)
unfolding check_table
check_table-passed lim c def plan e =
    let p2 = guard c.available k_unsupported >> guard c.writable k_read_only_handle in
    let p3 = p2 >> guard (is_valid_table_name def.name) k_invalid_argument in
    let p4 = p3 >> check_shape lim c def in
    let is_new = guard (is_absent (find 64 c.names (name_key def.name))) k_table_exists in
    let s5 = >>=-eq-ok (p4 >> is_new) (λ _. choose_layout def) e in
    let s4 = >>=-eq-ok p4 (λ _. is_new) s5.1 in
    let s3 = >>=-eq-ok p3 (λ _. check_shape lim c def) s4.1 in
    let s2 = >>=-eq-ok p2 (λ _. guard (is_valid_table_name def.name) k_invalid_argument) s3.1 in
    (
      guard-passed (is_valid_table_name def.name) k_invalid_argument s2.2,
      guard-passed (is_absent (find 64 c.names (name_key def.name))) k_table_exists s4.2,
    )
  where
    guard-passed : (t : Bool) (code : Err) {x : Unit {0}} → guard t code ≡ ok x → t ≡ true
    guard-passed true code h = refl
    guard-passed false code h = cc h

absent_none : (found : Option ℕ) → is_absent (seen found) ≡ true → found ≡ none
absent_none none h = refl
absent_none (some v) h = cc h

-- A descriptor is written where no table has one.
module _ {lim : Limits} {h h' : ℕ} {c : Catalog} (good : Good lim h h' c) (off : ℕ) (d : Descriptor)
    (fresh : (k o : ℕ) → lookup (entries c.ids) k ≡ some o → off ≢ o) where
  abbrev written : Catalog
  written = record c { descs = write_desc c.descs off d }

  written-Good : Good lim h h' written
  unfolding descriptor
  written-Good = record {
    ready = good.ready;
    names_stand = good.names_stand;
    ids_stand = good.ids_stand;
    known = λ key id there.
        let k = good.known key id there in
        let a = k.2.2 in
        let kept : (k.2.0 == off) ≡ false = ground (arith, fresh (id_key id) k.2.0 k.2.1) in
        (
          k.0,
          k.1,
          (
            k.2.0,
            k.2.1,
            record {
              inside = rw kept a.inside;
              magic = rw kept a.magic;
              numbered = rw kept a.numbered;
              alive = rw kept a.alive;
            },
          ),
        );
    once = good.once;
    unused = good.unused;
    small = good.small;
    started = good.started;
  }

  -- The catalog around the descriptor.
  written-alike :
      (h < 62) × (h' < 62)
      → (other : Bytes) → is_valid_table_name other ≡ true
      → AllBytes other
      → open_table lim written other ≡ open_table lim c other
  written-alike low other v p =
      open_table-alike lim h h' h h' c written other good written-Good (omega (arith, low)) v p refl

  written-Made :
      (h < 62) × (h' < 62)
      → (name : Bytes) (r : Result ℕ × Catalog) → Made lim h h' written name off r
      → Made lim h h' c name off r
  written-Made low name r (sound, inl done) = (
    sound,
    inl (done.0, done.1, λ other v p differ. done.2 other v p differ ∙ written-alike low other v p),
  )
  written-Made low name r (sound, inr failed) = (
    sound,
    inr (failed.0, failed.1, λ other v p. failed.2 other v p ∙ written-alike low other v p),
  )

new_desc-Active :
    (lim : Limits) (c : Catalog) (def : TableDef) (cap off : ℕ) (plan : RowLayoutPlan)
    → (1 ≤ off) × (off + 1280 ≤ lim.max_size_bytes)
    → Active lim
        (record c { descs = write_desc c.descs off (new_desc c def cap plan) })
        c.next_table_id
        off
unfolding descriptor new_desc
new_desc-Active lim c def cap off plan inside =
    let here : (off == off) ≡ true = ground arith in
    let within : (off == 0 || ltb lim.max_size_bytes (off + 1280)) ≡ false =
      ground (arith, inside) in
    record {
      inside = rw within refl;
      magic = rw here refl;
      numbered = rw here refl;
      alive = rw here refl;
    }

-- Where the descriptor stands.
make_table-Made :
    (lim : Limits) (h h' : ℕ) (c : Catalog) (def : TableDef) (memory : Answers) (off : ℕ)
    (plan : ℕ × RowLayoutPlan)
    → Good lim h h' c
    → (h < 62) × (h' < 62)
    → (is_valid_table_name def.name ≡ true)
      × (is_absent (find 64 c.names (name_key def.name)) ≡ true)
    → AllBytes def.name
    → c.next_table_id + 1 < 2 ^ 63
    → (1 ≤ off) × (off + 1280 ≤ lim.max_size_bytes)
    → ((k o : ℕ) → lookup (entries c.ids) k ≡ some o → off ≢ o)
    → Made lim h h' c def.name off (allocated c def memory plan (ok off))
unfolding allocated formatted
make_table-Made lim h h' c def memory off plan good low tests p room inside fresh =
    let d = new_desc c def plan.0 plan.1 in
    let w : Catalog = record c { descs = write_desc c.descs off d } in
    let found =
      find-name lim h h' c good (omega (arith, low)) (omega (arith, low)) def.name tests.0 p in
    let free : lookup (entries c.names) (name_key def.name) ≡ none =
      absent_none (lookup (entries c.names) (name_key def.name))
        (sym (ap is_absent found) ∙ tests.1) in
    let sound : Good lim h h' w = written-Good good off d fresh in
    written-Made good off d fresh low def.name
      (if not (is_ok memory.format)
        then (err memory.format, w)
        else hang_table w def.name off memory.nodes)
      (elim (Bool-cases (is_ok memory.format)) [
        | inl formed ↦ rw formed (
            hang_table-Made sound low def.name off memory.nodes tests.0 p free
              (new_desc-Active lim c def plan.0 off plan.1 inside) room)
        | inr not_formed ↦
            rw not_formed (
              (h, h', omega arith, omega arith, sound),
              inr (memory.format, refl, λ other v q. refl),
            )
      ])

-- `CreateTable` on a sound catalog whose trees have fewer than 62 levels above their leaves, with a name of
-- bytes, table numbers left, and a descriptor that the allocator puts into the image where no table has
-- one: it leaves a sound catalog with trees a level higher at most. Either it reports the descriptor, the
-- new name opens it, and every other name opens what it opened, or it reports an error, and every name
-- opens what it opened.
pub create_table-Made :
    (lim : Limits) (h h' : ℕ) (c : Catalog) (def : TableDef) (memory : Answers) (off : ℕ)
    → Good lim h h' c
    → (h < 62) × (h' < 62)
    → AllBytes def.name
    → c.next_table_id + 1 < 2 ^ 63
    → memory.desc ≡ ok off
    → (1 ≤ off) × (off + 1280 ≤ lim.max_size_bytes)
    → ((k o : ℕ) → lookup (entries c.ids) k ≡ some o → off ≢ o)
    → Made lim h h' c def.name off (create_table lim c def memory)
unfolding create_table make_table allocated
create_table-Made lim h h' c def memory off good low p room is inside fresh =
    elim (Result-cases (check_table lim c def)) [
      | inr refused ↦
          subst (Made lim h h' c def.name off) (sym (ap (make_table c def memory) refused.1))
            (refused_Made refused.0)
      | inl passed ↦
          subst (Made lim h h' c def.name off) (sym (ap (make_table c def memory) passed.1)) (
            subst (Made lim h h' c def.name off) (sym (ap (allocated c def memory passed.0) is)) (
              make_table-Made lim h h' c def memory off passed.0 good low
                (check_table-passed lim c def passed.0 passed.1) p room inside fresh))
    ]
  where
    refused_Made : (e : Err) → Made lim h h' c def.name off (err e, c)
    refused_Made e = ((h, h', omega arith, omega arith, good), inr (e, refl, λ other v q. refl))
