-- ===== src/Infra/BTree/Range.antt =====
-- The range cursor of src/infra/shared_btree.hpp: `SeekRange`, `LoadAndCheckHi` and `Next`. The image is a
-- function from the name of a leaf to what is stored there; a cursor follows the links that it finds.
use rtdb_common.Common.{
  ℕ, zero, suc, ◌+◌, List, [], ◌∷◌, Bool, false, not, ◌&&◌, ◌||◌, length, get_or, leb, ltb, ◌==◌,
  if◌then◌else◌, none, some,
}
use rtdb_common.Infra.BTree.Search.{lower_bound, strict_upper}
use rtdb_common.Infra.BTree.{Entry, no_entry, Node, leaf, inner, Tree, keys, separators, child_at}

-- A leaf in the image: `next_leaf` of its header, and its entries.
pub record LeafNode : Type 0 where
  pub next_leaf : ℕ
  pub entries : List Entry

abbrev pub Image : Type 0
Image = ℕ → LeafNode

-- `Cursor`: the name of its leaf, its place there, the upper end, and the entry it stands at.
pub record Cursor : Type 0 where
  pub leaf : ℕ
  pub idx : ℕ
  pub hi : ℕ
  pub hi_incl : Bool
  pub valid : Bool
  pub entry : Entry

-- A cursor that is not valid.
abbrev pub ended : ℕ → ℕ → ℕ → Bool → Cursor
ended off idx hi hi_incl = record {
  leaf = off;
  idx = idx;
  hi = hi;
  hi_incl = hi_incl;
  valid = false;
  entry = no_entry;
}

-- A cursor at an entry of its leaf, which is valid up to the upper end.
unfoldable pub check : Image → ℕ → ℕ → ℕ → Bool → Cursor
check img off idx hi hi_incl =
    let e = get_or (img off).entries idx no_entry in
    record {
      leaf = off;
      idx = idx;
      hi = hi;
      hi_incl = hi_incl;
      valid = not (ltb hi e.key || ((e.key == hi) && not hi_incl));
      entry = e;
    }

-- `LoadAndCheckHi`: the loop moves on over leaves without a further entry; `n` bounds its rounds, which
-- have no bound in the source.
unfoldable pub load : ℕ → Image → ℕ → ℕ → ℕ → Bool → Cursor
load zero img off idx hi hi_incl = ended off idx hi hi_incl
load (suc n) img off idx hi hi_incl =
    let further = load n img (img off).next_leaf 0 hi hi_incl in
    if leb (length (img off).entries) idx
    then if (img off).next_leaf == 0 then ended off idx hi hi_incl else further
    else check img off idx hi hi_incl

-- `Next`
unfoldable pub advance : ℕ → Image → Cursor → Cursor
advance n img c = if c.valid then load n img c.leaf (c.idx + 1) c.hi c.hi_incl else c

-- The leaf where the lower end belongs, by its name and its entries; `n` bounds the descent.
unfoldable pub seek_leaf : ℕ → Node → ℕ → ℕ × List Entry
seek_leaf zero node lo = (0, [])
seek_leaf (suc n) (leaf lk es) lo = (lk.off, es)
seek_leaf (suc n) (inner level c0 cs) lo =
    let hop = strict_upper (separators cs) lo in seek_leaf n (child_at c0 cs hop) lo

-- `SeekRange`
unfoldable pub seek_range : ℕ → Image → Tree → ℕ → Bool → ℕ → Bool → Cursor
seek_range n img t lo lo_incl hi hi_incl = elim t.root [
  | none ↦ ended 0 0 hi hi_incl
  | some root ↦
      let (off, es) = seek_leaf n root lo in
      let idx = if lo_incl then lower_bound (keys es) lo else strict_upper (keys es) lo in
      if ltb hi lo || ((lo == hi) && not (lo_incl && hi_incl))
      then ended 0 0 hi hi_incl
      else load n img off idx hi hi_incl
]

-- The entries that a reader sees who calls `Value` and `Next` while the cursor is valid, `m` at most.
unfoldable pub read_all : ℕ → ℕ → Image → Cursor → List Entry
read_all zero n img c = []
read_all (suc m) n img c =
    let rest = read_all m n img (advance n img c) in if c.valid then c.entry ∷ rest else []
