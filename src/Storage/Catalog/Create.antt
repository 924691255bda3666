-- ===== src/Storage/Catalog/Create.antt =====
-- `CreateTable` of src/storage/catalog.cpp: it makes a table known, or changes what no name leads to.
use rtdb_common.Common.{
  ℕ, suc, ◌^◌, ◌≤◌, ◌<◌, ◌≡◌, ◌≢◌, refl, sym, ap, ◌∙◌, arith, true, Option, none, some, ◌⊎◌, inr,
}
use rtdb_common.Types.{Bytes, Err, Result, ok, err}
use rtdb_common.Infra.BTree.{Tree}
use rtdb_common.Infra.BTree.Contents.{lookup}
use rtdb_common.Infra.BTree.OrderedInt.{AllBytes}
use rtdb_common.Infra.BTree.Refinement.{entries, Stands}
use rtdb_common.Storage.Catalog.{
  Catalog, Limits, name_capacity, id_capacity, name_key, id_key, is_valid_table_name, descriptor,
  open_table,
}
use rtdb_common.Storage.Catalog.Keys.{name_limit}
use rtdb_common.Storage.Catalog.Tables.{Good, via, via_id, resolve, open_table-resolve}

-- Two trees that find the same.
abbrev pub Same : Tree → Tree → Type 0
Same t t' = (k : ℕ) → lookup (entries t') k ≡ lookup (entries t) k

-- The catalog knows the same tables.
abbrev pub Keeps : Limits → Catalog → Catalog → Type 0
Keeps lim c c' =
    (other : Bytes)
    → is_valid_table_name other ≡ true
    → AllBytes other
    → open_table lim c' other ≡ open_table lim c other

pub Good-Same :
    (lim : Limits) (h h' h2 h2' : ℕ) (c : Catalog) (names ids : Tree)
    → Good lim h h' c
    → Stands name_capacity name_limit h2 names
    → Stands id_capacity (2 ^ 64) h2' ids
    → Same c.names names
    → Same c.ids ids
    → Good lim h2 h2' (record c { names = names; ids = ids })
unfolding descriptor
Good-Same lim h h' h2 h2' c names ids good s s' same same' = record {
  ready = good.ready;
  names_stand = s;
  ids_stand = s';
  known = λ key id there.
      let k = good.known key id (sym (same key) ∙ there) in
      let a = k.2.2 in
      (
        k.0,
        k.1,
        (
          k.2.0,
          same' (id_key id) ∙ k.2.1,
          record { inside = a.inside; magic = a.magic; numbered = a.numbered; alive = a.alive },
        ),
      );
  once = λ key key' id there there'.
      good.once key key' id (sym (same key) ∙ there) (sym (same key') ∙ there');
  unused = λ id from below. same' (id_key id) ∙ good.unused id from below;
  small = good.small;
  started = good.started;
}

via-Same :
    (c : Catalog) (names ids : Tree) (found : Option ℕ)
    → Same c.ids ids
    → via (record c { names = names; ids = ids }) found ≡ via c found
via-Same c names ids none same = refl
via-Same c names ids (some id) same = ap via_id (same (id_key id))

pub resolve-Same :
    (c : Catalog) (names ids : Tree) (name : Bytes)
    → Same c.names names
    → Same c.ids ids
    → resolve (record c { names = names; ids = ids }) name ≡ resolve c name
resolve-Same c names ids name same same' =
    ap (via (record c { names = names; ids = ids })) (same (name_key name))
    ∙ via-Same c names ids (lookup (entries c.names) (name_key name)) same'

-- Where two catalogs resolve a name alike, they open it alike.
pub open_table-alike :
    (lim : Limits) (h h' h2 h2' : ℕ) (c c2 : Catalog) (name : Bytes)
    → Good lim h h' c
    → Good lim h2 h2' c2
    → (h < 64) × (h' < 64) × (h2 < 64) × (h2' < 64)
    → is_valid_table_name name ≡ true
    → AllBytes name
    → resolve c2 name ≡ resolve c name
    → open_table lim c2 name ≡ open_table lim c name
open_table-alike lim h h' h2 h2' c c2 name good good2 low v p same =
    open_table-resolve lim h2 h2' c2 good2 low.2 low.3 name v p
    ∙ (same ∙ sym (open_table-resolve lim h h' c good low.0 low.1 name v p))

-- What making a table leaves: a sound catalog, whose trees have grown by a level at most, that knows the
-- new table and the others as before, or an error and the tables as they were.
abbrev pub Made : Limits → ℕ → ℕ → Catalog → Bytes → ℕ → Result ℕ × Catalog → Type 0
Made lim h h' c name off r =
    ((h2 : ℕ) × (h2' : ℕ) × (h2 ≤ suc h) × (h2' ≤ suc h') × Good lim h2 h2' r.1)
    × (((r.0 ≡ ok off)
          × (open_table lim r.1 name ≡ ok off)
          × ((other : Bytes)
              → is_valid_table_name other ≡ true
              → AllBytes other
              → other ≢ name
              → open_table lim r.1 other ≡ open_table lim c other))
        ⊎ ((e : Err) × (r.0 ≡ err e) × Keeps lim c r.1))

-- An error after which the trees find what they found.
pub failed-Made :
    (lim : Limits) (h h' h2 h2' : ℕ) (c : Catalog) (name : Bytes) (off : ℕ) (names ids : Tree)
    (e : Err)
    → Good lim h h' c
    → (h < 62) × (h' < 62) × (h2 ≤ suc h) × (h2' ≤ suc h')
    → Stands name_capacity name_limit h2 names
    → Stands id_capacity (2 ^ 64) h2' ids
    → Same c.names names
    → Same c.ids ids
    → Made lim h h' c name off (err e, record c { names = names; ids = ids })
failed-Made lim h h' h2 h2' c name off names ids e good low s s' same same' =
    let good2 = Good-Same lim h h' h2 h2' c names ids good s s' same same' in
    (
      (h2, h2', low.2, low.3, good2),
      inr (
        e,
        refl,
        λ other v p.
            open_table-alike lim h h' h2 h2' c (record c { names = names; ids = ids }) other good
              good2 (omega (arith, low)) v p (resolve-Same c names ids other same same'),
      ),
    )

pub Same-entries : (t t' : Tree) → entries t' ≡ entries t → Same t t'
Same-entries t t' e k = ap (λ es. lookup es k) e
