-- ===== src/Infra/BTree/Listed.antt =====
-- A range read over the list of the leaves, from left to right: what the cursor of
-- src/infra/shared_btree.hpp, which follows the stored links, is compared with.
use rtdb_common.Common.{
  ℕ, zero, suc, ◌+◌, List, [], ◌∷◌, ◌++◌, Bool, false, not, ◌&&◌, ◌||◌, length, get_or, leb, ltb,
  ◌==◌, if◌then◌else◌, none, some,
}
use rtdb_common.Infra.BTree.Search.{lower_bound, strict_upper}
use rtdb_common.Infra.BTree.{
  Entry, no_entry, Node, leaf, inner, Children, nil, cons, Tree, keys, separators, child_at,
  drop_children,
}

-- A leaf, a place there, the leaves behind, the upper end, and the entry at the place.
pub record ListCursor : Type 0 where
  pub leaf : List Entry
  pub idx : ℕ
  pub next : List (List Entry)
  pub hi : ℕ
  pub hi_incl : Bool
  pub valid : Bool
  pub entry : Entry

-- The leaves below a node, from left to right.
unfoldable mutual
  pub leaves : Node → List (List Entry)
  leaves (leaf lk es) = es ∷ []
  leaves (inner level c0 cs) = leaves c0 ++ leaves_behind cs

  pub leaves_behind : Children → List (List Entry)
  leaves_behind nil = []
  leaves_behind (cons k c cs) = leaves c ++ leaves_behind cs

-- A cursor at an entry of its leaf, which is valid up to the upper end.
unfoldable pub check_list : List Entry → ℕ → List (List Entry) → ℕ → Bool → ListCursor
check_list es idx next hi hi_incl =
    let e = get_or es idx no_entry in
    record {
      leaf = es;
      idx = idx;
      next = next;
      hi = hi;
      hi_incl = hi_incl;
      valid = not (ltb hi e.key || ((e.key == hi) && not hi_incl));
      entry = e;
    }

-- A cursor that is not valid.
abbrev pub ended_list : List Entry → ℕ → ℕ → Bool → ListCursor
ended_list es idx hi hi_incl = record {
  leaf = es;
  idx = idx;
  next = [];
  hi = hi;
  hi_incl = hi_incl;
  valid = false;
  entry = no_entry;
}

-- The first entry from a place on.
unfoldable pub load_list : List (List Entry) → List Entry → ℕ → ℕ → Bool → ListCursor
load_list [] es idx hi hi_incl =
    if leb (length es) idx then ended_list es idx hi hi_incl else check_list es idx [] hi hi_incl
load_list (l ∷ ls) es idx hi hi_incl =
    let further = load_list ls l 0 hi hi_incl in
    if leb (length es) idx then further else check_list es idx (l ∷ ls) hi hi_incl

-- The place behind.
unfoldable pub advance_list : ListCursor → ListCursor
advance_list c = if c.valid then load_list c.next c.leaf (c.idx + 1) c.hi c.hi_incl else c

-- The leaf where the lower end belongs and the leaves behind it; `n` bounds the descent.
unfoldable pub seek_list : ℕ → Node → ℕ → List Entry × List (List Entry)
seek_list zero node lo = ([], [])
seek_list (suc n) (leaf lk es) lo = (es, [])
seek_list (suc n) (inner level c0 cs) lo =
    let hop = strict_upper (separators cs) lo in
    let below = seek_list n (child_at c0 cs hop) lo in
    (below.0, below.1 ++ leaves_behind (drop_children hop cs))

-- The first place of the range.
unfoldable pub range_list : ℕ → Tree → ℕ → Bool → ℕ → Bool → ListCursor
range_list n t lo lo_incl hi hi_incl = elim t.root [
  | none ↦ ended_list [] 0 hi hi_incl
  | some root ↦
      let (es, next) = seek_list n root lo in
      let idx = if lo_incl then lower_bound (keys es) lo else strict_upper (keys es) lo in
      if ltb hi lo || ((lo == hi) && not (lo_incl && hi_incl))
      then ended_list [] 0 hi hi_incl
      else load_list next es idx hi hi_incl
]

-- The entries that a reader sees who calls `Value` and `Next` while the cursor is valid, `n` at most.
unfoldable pub read_list : ℕ → ListCursor → List Entry
read_list zero c = []
read_list (suc n) c =
    let rest = read_list n (advance_list c) in if c.valid then c.entry ∷ rest else []
