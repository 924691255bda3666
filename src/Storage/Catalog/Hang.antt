-- ===== src/Storage/Catalog/Hang.antt =====
-- The two trees of src/storage/catalog.cpp take a new table in, or give it up again.
use rtdb_common.Common.{
  ℕ, suc, ◌+◌, ◌^◌, ◌≤◌, ◌<◌, ◌≡◌, ◌≢◌, refl, sym, ap, ◌∙◌, arith, true, false, ◌==◌, Option, none,
  some, if◌then◌else◌, ◌⊎◌, inl, inr, Bool-cases,
}
use mathlib.Core.Path.{subst}
use rtdb_common.Types.{Bytes, Err, k_out_of_memory, ok, err}
use rtdb_common.Infra.BTree.{Tree}
use rtdb_common.Infra.BTree.Update.{insert, remove}
use rtdb_common.Infra.BTree.Contents.{
  lookup, put_sorted, without, lookup-put_sorted, lookup-without,
}
use rtdb_common.Infra.BTree.Invariant.{Inserts, inserted, present, no_room}
use rtdb_common.Infra.BTree.OrderedInt.{AllBytes}
use rtdb_common.Infra.BTree.Refinement.{
  entries, Stands, insert_refines, Removed, remove_refines, Stands-Sorted,
}
use rtdb_common.Storage.Catalog.{
  Catalog, Limits, name_capacity, id_capacity, name_key, id_key, is_valid_table_name, descriptor,
  hung, hang_table,
}
use rtdb_common.Storage.Catalog.Keys.{name_limit, name_key_lt, name_key_injective, id_key-number}
use rtdb_common.Storage.Catalog.Tables.{Active, Good, via, via_id, resolve, open_table-resolve}
use rtdb_common.Storage.Catalog.Create.{Same, Made, open_table-alike, failed-Made, Same-entries}

-- A tree with one key more.
abbrev Gains : Tree → Tree → ℕ → ℕ → Type 0
Gains t t' key v =
    (k : ℕ) → lookup (entries t') k ≡ (if key == k then some v else lookup (entries t) k)

Gains-put :
    (t t' : Tree) (key v : ℕ)
    → lookup (entries t) key ≡ none
    → entries t' ≡ put_sorted (record { key = key; value = v }) (entries t)
    → Gains t t' key v
Gains-put t t' key v gone put k =
    ap (λ es. lookup es k) put
    ∙ lookup-put_sorted (record { key = key; value = v }) (entries t) k gone

pub keys_differ :
    (name other : Bytes)
    → is_valid_table_name name ≡ true
    → is_valid_table_name other ≡ true
    → AllBytes name
    → AllBytes other
    → other ≢ name
    → (name_key name == name_key other) ≡ false
keys_differ name other v w p q differ = elim (Bool-cases (name_key name == name_key other)) [
  | inr ne ↦ ne
  | inl eq ↦ absurd (differ (sym (name_key_injective name other v w p q (ground (arith, eq)))))
]

module _ {lim : Limits} {h h' : ℕ} {c : Catalog} (good : Good lim h h' c)
    (low : (h < 62) × (h' < 62)) where
  -- A table's number and the next one have different keys.
  id_keys_differ :
      (id : ℕ) → id < 2 ^ 63 → id ≢ c.next_table_id → (id_key c.next_table_id == id_key id) ≡ false
  id_keys_differ id small differ =
      ground (arith, id_key-number id small, id_key-number c.next_table_id good.small, differ)

  module _ (name : Bytes) (off : ℕ) (names ids : Tree) (h2 h2' : ℕ)
      (stands : Stands name_capacity name_limit h2 names)
      (stands' : Stands id_capacity (2 ^ 64) h2' ids)
      (named : Gains c.names names (name_key name) c.next_table_id)
      (numbered : Gains c.ids ids (id_key c.next_table_id) off)
      (written : Active lim c c.next_table_id off) (room : c.next_table_id + 1 < 2 ^ 63) where
    abbrev after : Catalog
    after = record c {
      names = names;
      ids = ids;
      next_table_id = c.next_table_id + 1;
      table_count = c.table_count + 1;
    }

    old_id :
        (id off' : ℕ)
        → id < c.next_table_id
        → lookup (entries c.ids) (id_key id) ≡ some off'
        → lookup (entries ids) (id_key id) ≡ some off'
    old_id id off' below there =
        numbered (id_key id)
        ∙ rw (id_keys_differ id (omega (arith, below, good.small)) (omega (arith, below))) there

    new_id : lookup (entries ids) (id_key c.next_table_id) ≡ some off
    new_id =
        let same : (id_key c.next_table_id == id_key c.next_table_id) ≡ true = ground arith in
        numbered (id_key c.next_table_id) ∙ rw same refl

    after_known :
        (key id : ℕ)
        → lookup (entries names) key ≡ some id
        → (1 ≤ id)
          × (id < c.next_table_id + 1)
          × ((off' : ℕ) × (lookup (entries ids) (id_key id) ≡ some off') × Active lim after id off')
    unfolding descriptor
    after_known key id there = elim (Bool-cases (name_key name == key)) [
      | inl eq ↦
          let found : lookup (entries names) key ≡ some c.next_table_id = named key ∙ rw eq refl in
          let is : c.next_table_id ≡ id = cc (found, there) in
          subst
            (λ i.
              (1 ≤ i)
              × (i < c.next_table_id + 1)
              × ((off' : ℕ) × (lookup (entries ids) (id_key i) ≡ some off')
                  × Active lim after i off'))
            is
            (
              good.started,
              omega arith,
              (
                off,
                new_id,
                record {
                  inside = written.inside;
                  magic = written.magic;
                  numbered = written.numbered;
                  alive = written.alive;
                },
              ),
            )
      | inr ne ↦
          let before : lookup (entries c.names) key ≡ some id =
            sym (named key ∙ rw ne refl) ∙ there in
          let k = good.known key id before in
          let a = k.2.2 in
          (
            k.0,
            omega (arith, k.1),
            (
              k.2.0,
              old_id id k.2.0 k.1 k.2.1,
              record { inside = a.inside; magic = a.magic; numbered = a.numbered; alive = a.alive },
            ),
          )
    ]

    -- The name of a number, which is the new one's or was there.
    named_before :
        (key id : ℕ)
        → lookup (entries names) key ≡ some id
        → ((name_key name ≡ key) × (id ≡ c.next_table_id))
          ⊎ ((id < c.next_table_id) × (lookup (entries c.names) key ≡ some id))
    named_before key id there = elim (Bool-cases (name_key name == key)) [
      | inl eq ↦
          let found : lookup (entries names) key ≡ some c.next_table_id = named key ∙ rw eq refl in
          inl (ground (arith, eq), cc (found, there))
      | inr ne ↦
          let before : lookup (entries c.names) key ≡ some id =
            sym (named key ∙ rw ne refl) ∙ there in
          inr ((good.known key id before).1, before)
    ]

    after_once :
        (key key' id : ℕ)
        → lookup (entries names) key ≡ some id
        → lookup (entries names) key' ≡ some id
        → key ≡ key'
    after_once key key' id there there' =
        by_cases (named_before key id there) (named_before key' id there')
      where
        by_cases :
            ((name_key name ≡ key) × (id ≡ c.next_table_id))
              ⊎ ((id < c.next_table_id) × (lookup (entries c.names) key ≡ some id))
            → ((name_key name ≡ key') × (id ≡ c.next_table_id))
              ⊎ ((id < c.next_table_id) × (lookup (entries c.names) key' ≡ some id))
            → key ≡ key'
        by_cases (inl a) (inl b) = sym a.0 ∙ b.0
        by_cases (inl a) (inr b) = absurd (omega (arith, a.1, b.0))
        by_cases (inr a) (inl b) = absurd (omega (arith, a.0, b.1))
        by_cases (inr a) (inr b) = good.once key key' id a.1 b.1

    after-Good : Good lim h2 h2' after
    after-Good = record {
      ready = good.ready;
      names_stand = stands;
      ids_stand = stands';
      known = after_known;
      once = after_once;
      unused = λ id from below.
          numbered (id_key id)
          ∙ rw (id_keys_differ id below (omega (arith, from)))
              (good.unused id (omega (arith, from)) below);
      small = room;
      started = omega arith;
    }

    via-after :
        (key : ℕ) (found : Option ℕ)
        → lookup (entries c.names) key ≡ found
        → via after found ≡ via c found
    via-after key none there = refl
    via-after key (some id) there =
        let k = good.known key id there in ap via_id (old_id id k.2.0 k.1 k.2.1 ∙ sym k.2.1)

    resolve-after :
        (other : Bytes)
        → (name_key name == name_key other) ≡ false
        → resolve after other ≡ resolve c other
    resolve-after other differ =
        ap (via after) (named (name_key other) ∙ rw differ refl)
        ∙ via-after (name_key other) (lookup (entries c.names) (name_key other)) refl

    resolve_name : resolve after name ≡ ok off
    resolve_name =
        let same : (name_key name == name_key name) ≡ true = ground arith in
        let found : lookup (entries names) (name_key name) ≡ some c.next_table_id =
          named (name_key name) ∙ rw same refl in
        ap (via after) found ∙ ap via_id new_id

    success-Made :
        (h2 ≤ suc h) × (h2' ≤ suc h')
        → is_valid_table_name name ≡ true
        → AllBytes name
        → Made lim h h' c name off (ok off, after)
    success-Made grown v p = (
      (h2, h2', grown.0, grown.1, after-Good),
      inl (
        refl,
        open_table-resolve lim h2 h2' after after-Good (omega (arith, low, grown))
              (omega (arith, low, grown)) name v p
            ∙ resolve_name,
        λ other w q differ.
            open_table-alike lim h h' h2 h2' c after other good after-Good
              (omega (arith, low, grown)) w q
              (resolve-after other (keys_differ name other v w p q differ)),
      ),
    )

  -- A name that is put in and taken out again.
  given_up-Same :
      (key id : ℕ) (names names' : Tree) (h2 : ℕ)
      → lookup (entries c.names) key ≡ none
      → Stands name_capacity name_limit h2 names
      → Gains c.names names key id
      → entries names' ≡ without (entries names) key
      → Same c.names names'
  given_up-Same key id names names' h2 gone s gains out k =
      ap (λ es. lookup es k) out
      ∙ (lookup-without 0 name_limit key (entries names) k
            (Stands-Sorted name_capacity name_limit h2 names s)
          ∙ by_key (Bool-cases (key == k)))
    where
      by_key :
          ((key == k) ≡ true) ⊎ ((key == k) ≡ false)
          → (if key == k then none else lookup (entries names) k) ≡ lookup (entries c.names) k
      by_key (inl eq) =
          let same : key ≡ k = ground (arith, eq) in
          rw eq (sym (ap (lookup (entries c.names)) (sym same) ∙ gone))
      by_key (inr ne) = rw ne (gains k ∙ rw ne refl)

  given_up :
      (name : Bytes) (off : ℕ) (names ids : Tree) (h2 h2' : ℕ)
      → is_valid_table_name name ≡ true
      → AllBytes name
      → lookup (entries c.names) (name_key name) ≡ none
      → (h2 ≤ suc h) × (h2' ≤ suc h')
      → Stands name_capacity name_limit h2 names
      → Stands id_capacity (2 ^ 64) h2' ids
      → Gains c.names names (name_key name) c.next_table_id
      → Same c.ids ids
      → Made lim h h' c name off
          (err k_out_of_memory, record c { names = (remove 64 names (name_key name)).1; ids = ids })
  given_up name off names ids h2 h2' v p gone grown s s' gains same' = by_removal (
      remove_refines name_capacity name_limit (name_key name) h2 64 names s
        (omega (arith, low, grown)) (name_key_lt name v p))
    where
      there : lookup (entries names) (name_key name) ≡ some c.next_table_id
      there =
          let same : (name_key name == name_key name) ≡ true = ground arith in
          gains (name_key name) ∙ rw same refl

      by_removal :
          Removed name_capacity name_limit h2
            (name_key name)
            names
            (remove 64 names (name_key name))
          → Made lim h h' c name off (
            err k_out_of_memory,
            record c { names = (remove 64 names (name_key name)).1; ids = ids },
          )
      by_removal (inr missing) = absurd (cc (there, missing.1))
      by_removal (inl out) =
          failed-Made lim h h' h2 h2' c name off (remove 64 names (name_key name)).1 ids
            k_out_of_memory good (low.0, low.1, grown.0, grown.1) out.2 s'
            (given_up-Same (name_key name) c.next_table_id names (remove 64 names (name_key name)).1
              h2 gone s gains out.3)
            same'

  -- What `hang_table` makes of the two insertions.
  hung-Made :
      (name : Bytes) (off : ℕ) (names ids : Tree) (e e' : Err) (h2 h2' : ℕ)
      → is_valid_table_name name ≡ true
      → AllBytes name
      → lookup (entries c.names) (name_key name) ≡ none
      → Active lim c c.next_table_id off
      → c.next_table_id + 1 < 2 ^ 63
      → (h2 ≤ suc h) × (h2' ≤ suc h')
      → Stands name_capacity name_limit h2 names
      → Stands id_capacity (2 ^ 64) h2' ids
      → Inserts (name_key name) c.next_table_id (entries c.names) e (entries names)
      → Inserts (id_key c.next_table_id) off (entries c.ids) e' (entries ids)
      → Made lim h h' c name off (hung c name off names ids e e')
  unfolding hung
  hung-Made name off names ids e e' h2 h2' v p free written room grown s s'
        (present old is there same) i =
      absurd (cc (free, there))
  hung-Made name off names ids e e' h2 h2' v p free written room grown s s' (no_room is same) i =
      rw is (
        failed-Made lim h h' h2 h' c name off names c.ids k_out_of_memory good
          (low.0, low.1, grown.0, omega arith) s good.ids_stand (Same-entries c.names names same)
          (λ k. refl))
  hung-Made name off names ids e e' h2 h2' v p free written room grown s s' (inserted is gone put)
        (present old is' there same) =
      absurd (cc (there, good.unused c.next_table_id (omega arith) good.small))
  hung-Made name off names ids e e' h2 h2' v p free written room grown s s' (inserted is gone put)
        (inserted is' gone' put') =
      rw (is, is')
        (success-Made name off names ids h2 h2' s s'
          (Gains-put c.names names (name_key name) c.next_table_id gone put)
          (Gains-put c.ids ids (id_key c.next_table_id) off gone' put') written room grown v p)
  hung-Made name off names ids e e' h2 h2' v p free written room grown s s' (inserted is gone put)
        (no_room is' same') =
      rw (is, is')
        (given_up name off names ids h2 h2' v p gone grown s s'
          (Gains-put c.names names (name_key name) c.next_table_id gone put)
          (Same-entries c.ids ids same'))

  pub hang_table-Made :
      (name : Bytes) (off nodes : ℕ)
      → is_valid_table_name name ≡ true
      → AllBytes name
      → lookup (entries c.names) (name_key name) ≡ none
      → Active lim c c.next_table_id off
      → c.next_table_id + 1 < 2 ^ 63
      → Made lim h h' c name off (hang_table c name off nodes)
  unfolding hang_table
  hang_table-Made name off nodes v p free written room =
      let key = name_key name in
      let first = insert name_capacity nodes c.names key c.next_table_id in
      let key' = id_key c.next_table_id in
      let second = insert id_capacity first.2 c.ids key' off in
      let one =
        insert_refines name_capacity (omega arith) (omega arith) name_limit key c.next_table_id h
          nodes c.names good.names_stand (omega (arith, low)) (name_key_lt name v p) in
      let two =
        insert_refines id_capacity (omega arith) (omega arith) (2 ^ 64) key' off h' first.2 c.ids
          good.ids_stand (omega (arith, low))
          (omega (arith, good.small, id_key-number c.next_table_id good.small)) in
      hung-Made name off first.1 second.1 first.0 second.0 one.0 two.0 v p free written room
        (one.1, two.1) one.2.0 two.2.0 one.2.1 two.2.1
