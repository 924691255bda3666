-- ===== src/Storage/Catalog/Drop.antt =====
-- `DropTable` of src/storage/catalog.cpp.
use rtdb_common.Common.{
  ℕ, ◌-◌, ◌^◌, ◌≤◌, ◌<◌, ◌≡◌, ◌≢◌, refl, sym, ap, ◌∙◌, arith, true, false, ◌&&◌, ◌==◌, Option, none,
  some, if◌then◌else◌, ◌⊎◌, inl, inr, Bool-cases,
}
use mathlib.Core.Path.{subst}
use rtdb_common.Types.{Bytes, Err, k_ok, k_table_not_found, ok, err}
use rtdb_common.Infra.BTree.{Tree, find}
use rtdb_common.Infra.BTree.Update.{remove}
use rtdb_common.Infra.BTree.Contents.{lookup, without, lookup-without}
use rtdb_common.Infra.BTree.Leaf.{seen}
use rtdb_common.Storage.Catalog.Hang.{keys_differ}
use rtdb_common.Infra.BTree.OrderedInt.{AllBytes}
use rtdb_common.Infra.BTree.Refinement.{entries, Stands, Removed, remove_refines, Stands-Sorted}
use rtdb_common.Storage.Catalog.{
  Catalog, Limits, active, tombstone, drop_table, drop_named, drop_found, drop_state, bury, buried,
  table_desc_magic, name_capacity, name_key, id_key, is_valid_table_name, descriptor, open_table,
  write_desc,
}
use rtdb_common.Storage.Catalog.Keys.{name_limit, name_key_lt}
use rtdb_common.Storage.Catalog.Tables.{
  Active, Good, via, via_id, open_table-resolve, find-name, find-id,
}
use rtdb_common.Storage.Catalog.Create.{open_table-alike}

-- What `DropTable` does on a sound catalog.
abbrev pub Dropped : Limits → ℕ → ℕ → Catalog → Bytes → Err × Catalog → Type 0
Dropped lim h h' c name r =
    Good lim h h' r.1
    × (((r.0 ≡ k_ok)
          × ((off : ℕ) × (open_table lim c name ≡ ok off))
          × (open_table lim r.1 name ≡ err k_table_not_found)
          × ((other : Bytes)
              → is_valid_table_name other ≡ true
              → AllBytes other
              → other ≢ name
              → open_table lim r.1 other ≡ open_table lim c other))
        ⊎ ((r.0 ≡ k_table_not_found) × (open_table lim c name ≡ err k_table_not_found) × (r.1 ≡ c)))

module _ {lim : Limits} {h h' : ℕ} {c : Catalog} (good : Good lim h h' c)
    (low : (h < 64) × (h' < 64)) (name : Bytes) (v : is_valid_table_name name ≡ true)
    (p : AllBytes name) (id off : ℕ) (there : lookup (entries c.names) (name_key name) ≡ some id)
    (placed : lookup (entries c.ids) (id_key id) ≡ some off) (a : Active lim c id off)
    (names : Tree) (stands : Stands name_capacity name_limit h names)
    (out : entries names ≡ without (entries c.names) (name_key name)) where
  -- The catalog without the table.
  abbrev left : Catalog
  left = record c {
    names = names;
    table_count = c.table_count - 1;
    descs = write_desc c.descs off (record (c.descs off) { state = tombstone });
  }

  loses :
      (k : ℕ)
      → lookup (entries names) k ≡ (if name_key name == k then none else lookup (entries c.names) k)
  loses k =
      ap (λ es. lookup es k) out
      ∙ lookup-without 0 name_limit (name_key name) (entries c.names) k
          (Stands-Sorted name_capacity name_limit h c.names good.names_stand)

  still_there :
      (key other : ℕ)
      → lookup (entries names) key ≡ some other
      → ((name_key name == key) ≡ false) × (lookup (entries c.names) key ≡ some other)
  still_there key other found = elim (Bool-cases (name_key name == key)) [
    | inl eq ↦
        let gone : lookup (entries names) key ≡ none = loses key ∙ rw eq refl in
        absurd (cc (gone, found))
    | inr ne ↦ (ne, sym (loses key ∙ rw ne refl) ∙ found)
  ]

  -- Another name's table stands elsewhere.
  other_place :
      (other o key : ℕ)
      → (name_key name == key) ≡ false
      → lookup (entries c.names) key ≡ some other
      → (c.descs o).table_id ≡ other
      → (o == off) ≡ false
  other_place other o key differ found numbered = elim (Bool-cases (o == off)) [
    | inr ne ↦ ne
    | inl eq ↦
        let at : o ≡ off = ground (arith, eq) in
        let is : other ≡ id = sym numbered ∙ (ap (λ x. (c.descs x).table_id) at ∙ a.numbered) in
        let same : name_key name ≡ key =
          good.once (name_key name) key id there (found ∙ ap some is) in
        absurd (ground (arith, differ, same))
  ]

  left_known :
      (key other : ℕ)
      → lookup (entries names) key ≡ some other
      → (1 ≤ other)
        × (other < c.next_table_id)
        × ((o : ℕ) × (lookup (entries c.ids) (id_key other) ≡ some o) × Active lim left other o)
  unfolding descriptor
  left_known key other found =
      let before = still_there key other found in
      let k = good.known key other before.1 in
      let b = k.2.2 in
      let apart : (k.2.0 == off) ≡ false =
        other_place other k.2.0 key before.0 before.1 b.numbered in
      (
        k.0,
        k.1,
        (
          k.2.0,
          k.2.1,
          record {
            inside = rw apart b.inside;
            magic = rw apart b.magic;
            numbered = rw apart b.numbered;
            alive = rw apart b.alive;
          },
        ),
      )

  left-Good : Good lim h h' left
  left-Good = record {
    ready = good.ready;
    names_stand = stands;
    ids_stand = good.ids_stand;
    known = left_known;
    once = λ key key' other found found'.
        good.once key key' other (still_there key other found).1 (still_there key' other found').1;
    unused = good.unused;
    small = good.small;
    started = good.started;
  }

  left-Dropped : Dropped lim h h' c name (k_ok, left)
  left-Dropped =
      let same : (name_key name == name_key name) ≡ true = ground arith in
      let gone : lookup (entries names) (name_key name) ≡ none =
        loses (name_key name) ∙ rw same refl in
      (
        left-Good,
        inl (
          refl,
          (
            off,
            open_table-resolve lim h h' c good low.0 low.1 name v p
                ∙ (ap (via c) there ∙ ap via_id placed),
          ),
          open_table-resolve lim h h' left left-Good low.0 low.1 name v p ∙ ap (via left) gone,
          λ other w q differ.
              open_table-alike lim h h' h h' c left other good left-Good
                (low.0, low.1, low.0, low.1) w q
                (ap (via left)
                    (loses (name_key other) ∙ rw (keys_differ name other v w p q differ) refl)
                  ∙ via-left (lookup (entries c.names) (name_key other))),
        ),
      )
    where
      via-left : (found : Option ℕ) → via left found ≡ via c found
      via-left none = refl
      via-left (some other) = refl

module _ {lim : Limits} {h h' : ℕ} {c : Catalog} (good : Good lim h h' c)
    (low : (h < 64) × (h' < 64)) (name : Bytes) (v : is_valid_table_name name ≡ true)
    (p : AllBytes name) (id off : ℕ) (there : lookup (entries c.names) (name_key name) ≡ some id)
    (placed : lookup (entries c.ids) (id_key id) ≡ some off) (a : Active lim c id off) where
  bury-Dropped : Dropped lim h h' c name (bury c name off)
  unfolding bury buried
  bury-Dropped = by_removal (
      remove_refines name_capacity name_limit (name_key name) h 64 c.names good.names_stand low.0
        (name_key_lt name v p))
    where
      by_removal :
          Removed name_capacity name_limit h
            (name_key name)
            c.names
            (remove 64 c.names (name_key name))
          → Dropped lim h h' c name (bury c name off)
      by_removal (inr missing) = absurd (cc (there, missing.1))
      by_removal (inl out) = rw out.0 (
          left-Dropped good low name v p id off there placed a (remove 64 c.names (name_key name)).1
            out.2 out.3)

  drop_found-Dropped :
      id < 2 ^ 63 → Dropped lim h h' c name (drop_found c name id (find 64 c.ids (id_key id)))
  unfolding drop_found drop_state
  drop_found-Dropped small =
      let sound : (((c.descs off).magic == table_desc_magic) && ((c.descs off).table_id == id))
          ≡ true =
        ground (arith, a.magic, a.numbered) in
      let found : find 64 c.ids (id_key id) ≡ seen (some off) =
        find-id lim h h' c good low.0 low.1 id small ∙ ap seen placed in
      let steps : drop_found c name id (seen (some off)) ≡ drop_state c name off active =
        simp (sound, a.alive) refl in
      subst (Dropped lim h h' c name) (sym (ap (drop_found c name id) found ∙ steps)) bury-Dropped

-- `DropTable` on a sound catalog that can be written, with a valid name of bytes, leaves a sound catalog.
-- Either it succeeds, the name opened a table and opens none now, and every other name opens what it
-- opened, or it reports that there is no such table, which the name did not open, and changes nothing.
pub drop_table-Dropped :
    (lim : Limits) (h h' : ℕ) (c : Catalog) (name : Bytes)
    → Good lim h h' c
    → (h < 64) × (h' < 64)
    → c.writable ≡ true
    → is_valid_table_name name ≡ true
    → AllBytes name
    → Dropped lim h h' c name (drop_table c name)
unfolding drop_table drop_named
drop_table-Dropped lim h h' c name good low w v p =
    subst (Dropped lim h h' c name) (sym (passed ∙ ap (drop_named c name) found))
      (by_entry (lookup (entries c.names) (name_key name)) refl)
  where
    found : find 64 c.names (name_key name) ≡ seen (lookup (entries c.names) (name_key name))
    found = find-name lim h h' c good low.0 low.1 name v p

    passed : drop_table c name ≡ drop_named c name (find 64 c.names (name_key name))
    passed = simp (good.ready, w, v) refl

    by_entry :
        (o : Option ℕ)
        → lookup (entries c.names) (name_key name) ≡ o
        → Dropped lim h h' c name (drop_named c name (seen o))
    by_entry none gone = (
      good,
      inr (refl, open_table-resolve lim h h' c good low.0 low.1 name v p ∙ ap (via c) gone, refl),
    )
    by_entry (some id) there =
        let k = good.known (name_key name) id there in
        drop_found-Dropped good low name v p id k.2.0 there k.2.1 k.2.2
          (omega (arith, k.1, good.small))
