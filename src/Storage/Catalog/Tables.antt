-- ===== src/Storage/Catalog/Tables.antt =====
-- The tables that src/storage/catalog.cpp knows: its invariant, and what the lookups of its trees say of
-- `OpenTable`.
use rtdb_common.Common.{
  ℕ, ◌^◌, ◌≤◌, ◌<◌, ◌≡◌, refl, sym, ap, ◌∙◌, arith, true, false, ◌&&◌, ◌==◌, Option, none, some,
}
use rtdb_common.Types.{Bytes, k_table_not_found, k_corruption, Result, ok, err, ◌>>=◌}
use rtdb_common.Infra.BTree.{find}
use rtdb_common.Infra.BTree.Contents.{lookup}
use rtdb_common.Infra.BTree.Leaf.{seen}
use rtdb_common.Infra.BTree.OrderedInt.{AllBytes}
use rtdb_common.Infra.BTree.Refinement.{entries, Stands, find_refines}
use rtdb_common.Storage.Catalog.{
  Catalog, Limits, active, table_desc_magic, name_capacity, id_capacity, name_key, id_key,
  is_valid_table_name, descriptor, found_desc, find_by_id, by_id, by_name, opened_desc, open_table,
}
use rtdb_common.Storage.Catalog.Keys.{name_limit, name_key_lt, id_key-number}

-- An active table at an offset within the image.
pub record Active (lim : Limits) (c : Catalog) (id off : ℕ) : Type 0 where
  pub inside : descriptor lim c off ≡ some (c.descs off)
  pub magic : (c.descs off).magic ≡ table_desc_magic
  pub numbered : (c.descs off).table_id ≡ id
  pub alive : (c.descs off).state ≡ active

-- The trees stand, every name leads to an active table of its own, and the numbers that are not given out yet have
-- no table.
pub record Good (lim : Limits) (h h' : ℕ) (c : Catalog) : Type 0 where
  pub ready : c.available ≡ true
  pub names_stand : Stands name_capacity name_limit h c.names
  pub ids_stand : Stands id_capacity (2 ^ 64) h' c.ids
  pub known :
      (key id : ℕ)
      → lookup (entries c.names) key ≡ some id
      → (1 ≤ id)
        × (id < c.next_table_id)
        × ((off : ℕ) × (lookup (entries c.ids) (id_key id) ≡ some off) × Active lim c id off)
  pub once :
      (key key' id : ℕ)
      → lookup (entries c.names) key ≡ some id
      → lookup (entries c.names) key' ≡ some id
      → key ≡ key'
  pub unused :
      (id : ℕ) → c.next_table_id ≤ id → id < 2 ^ 63 → lookup (entries c.ids) (id_key id) ≡ none
  pub small : c.next_table_id < 2 ^ 63
  pub started : 1 ≤ c.next_table_id

-- Where a name leads.
abbrev pub via_id : Option ℕ → Result ℕ
via_id none = err k_corruption
via_id (some off) = ok off

abbrev pub via : Catalog → Option ℕ → Result ℕ
via c none = err k_table_not_found
via c (some id) = via_id (lookup (entries c.ids) (id_key id))

abbrev pub resolve : Catalog → Bytes → Result ℕ
resolve c name = via c (lookup (entries c.names) (name_key name))

module _ (lim : Limits) (h h' : ℕ) (c : Catalog) (good : Good lim h h' c) (low : h < 64)
    (low' : h' < 64) where
  pub find-name :
      (name : Bytes)
      → is_valid_table_name name ≡ true
      → AllBytes name
      → find 64 c.names (name_key name) ≡ seen (lookup (entries c.names) (name_key name))
  find-name name v p =
      find_refines name_capacity name_limit (name_key name) h 64 c.names good.names_stand low
        (name_key_lt name v p)

  pub find-id :
      (id : ℕ) → id < 2 ^ 63 → find 64 c.ids (id_key id) ≡ seen (lookup (entries c.ids) (id_key id))
  find-id id small =
      find_refines id_capacity (2 ^ 64) (id_key id) h' 64 c.ids good.ids_stand low'
        (omega (arith, small, id_key-number id small))

  Active-opened_desc :
      (id off : ℕ) → Active lim c id off → opened_desc off (descriptor lim c off) ≡ ok off
  unfolding opened_desc
  Active-opened_desc id off a = rw (a.inside, a.alive) refl

  Active-find_by_id :
      (id off : ℕ)
      → lookup (entries c.ids) (id_key id) ≡ some off
      → id < 2 ^ 63
      → 1 ≤ id
      → Active lim c id off
      → find_by_id lim c id ≡ ok off
  unfolding find_by_id by_id found_desc
  Active-find_by_id id off there small one a =
      let sound : (((c.descs off).magic == table_desc_magic) && ((c.descs off).table_id == id))
          ≡ true =
        ground (arith, a.magic, a.numbered) in
      let given : (id == 0) ≡ false = ground (arith, one) in
      let at : find 64 c.ids (id_key id) ≡ seen (some off) = find-id id small ∙ ap seen there in
      rw (at, a.inside, sound, given, good.ready) refl

  by_name-via :
      (key : ℕ) (found : Option ℕ)
      → lookup (entries c.names) key ≡ found
      → by_name lim c (seen found) ≡ via c found
  unfolding by_name
  by_name-via key none there = refl
  by_name-via key (some id) there =
      let k = good.known key id there in
      let off = k.2.0 in
      let known : find_by_id lim c id ≡ ok off =
        Active-find_by_id id off k.2.1 (omega (arith, k.1, good.small)) k.0 k.2.2 in
      ap (λ r. r >>= λ off. opened_desc off (descriptor lim c off)) known
      ∙ (Active-opened_desc id off k.2.2 ∙ sym (ap via_id k.2.1))

  -- `OpenTable` leads where the two lookups lead.
  pub open_table-resolve :
      (name : Bytes)
      → is_valid_table_name name ≡ true
      → AllBytes name
      → open_table lim c name ≡ resolve c name
  unfolding open_table
  open_table-resolve name v p =
      simp (good.ready, v, find-name name v p)
        (by_name-via (name_key name) (lookup (entries c.names) (name_key name)) refl)
