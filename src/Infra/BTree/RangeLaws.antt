-- ===== src/Infra/BTree/RangeLaws.antt =====
-- A range read of src/infra/shared_btree.hpp sees the entries of the range, in order.
use rtdb_common.Common.{
  ℕ, ◌≤◌, ◌<◌, ◌≡◌, refl, ◌∙◌, arith, List, [], Bool, not, ◌&&◌, ◌||◌, length, ltb, ◌==◌,
  if◌then◌else◌, Bool-cases, inl, inr, none, some, Option,
}
use rtdb_common.Infra.BTree.{Entry, Node, Tree, Capacity, keys}
use rtdb_common.Infra.BTree.Search.{lower_bound, strict_upper}
use rtdb_common.Infra.BTree.Links.{Linked, Built, Built-Linked}
use rtdb_common.Infra.BTree.Listed.{ended_list, leaves, range_list, seek_list}
use rtdb_common.Infra.BTree.ListedLaws.{list_read}
use rtdb_common.Infra.BTree.Range.{Image, ended, seek_leaf, seek_range, read_all}
use rtdb_common.Infra.BTree.Simulation.{HoldsTree, Same, load-Same, read_all-Same, seek-Leads}
use rtdb_common.Infra.BTree.Refinement.{entries, tree, Stands}
use rtdb_common.Infra.BTree.Ends.{in_range}

-- The number of leaves.
abbrev pub leaf_count : Option Node → ℕ
leaf_count none = 0
leaf_count (some root) = length (leaves root)

module _ (cap : Capacity) (limit lo : ℕ) (lo_incl : Bool) (hi : ℕ) (hi_incl : Bool)
    (img : Image) where
  ended-Same : (n : ℕ) → Same img n (ended 0 0 hi hi_incl) (ended_list [] 0 hi hi_incl)
  ended-Same n = record { valid = refl; entry = refl; place = (refl, refl, refl); leads = λ e. cc }

  seek_range-Same :
      (h n count : ℕ) (root : Option Node)
      → Stands cap limit h (tree root count)
      → Linked root
      → HoldsTree img root
      → h < n
      → leaf_count root ≤ n
      → lo < limit
      → Same img n
          (seek_range n img (tree root count) lo lo_incl hi hi_incl)
          (range_list n (tree root count) lo lo_incl hi hi_incl)
  unfolding seek_range range_list
  seek_range-Same h n count none s c held deep few small = ended-Same n
  seek_range-Same h n count (some root) s c held deep few small =
      let at = seek_leaf n root lo in
      let there = seek_list n root lo in
      let led =
        seek-Leads cap img lo h n 0 limit c.0 0 root s.1 deep (omega arith) small c.1 held in
      let slot = λ (es : List Entry).
        if lo_incl then lower_bound (keys es) lo else strict_upper (keys es) lo in
      elim (Bool-cases (ltb hi lo || ((lo == hi) && not (lo_incl && hi_incl)))) [
        | inl empty ↦ rw empty (ended-Same n)
        | inr range ↦
            rw (range, led.1)
              (load-Same img n n at.0 there.0 there.1 (slot there.0) hi hi_incl led.0
                (omega (arith, led.2, few)) (omega arith))
      ]

  -- On a valid tree that insertions and removals have made, whose inner nodes have room for one separator,
  -- and whose leaves the image stores under their names, a reader who follows the stored links and takes as
  -- many entries as the tree has sees the entries of the range, in order and none twice, with the ends open
  -- or closed as asked, where the lower end is below the limit of the keys and the bound of the loops is
  -- above the levels and not below the number of leaves.
  pub range_read :
      (h n m : ℕ) (t : Tree)
      → Built cap t
      → Stands cap limit h t
      → 1 ≤ cap.inner
      → HoldsTree img t.root
      → h < n
      → leaf_count t.root ≤ n
      → lo < limit
      → length (entries t) ≤ m
      → read_all m n img (seek_range n img t lo lo_incl hi hi_incl)
        ≡ in_range lo lo_incl hi hi_incl (entries t)
  range_read h n m t b s inner_room held deep few small enough =
      read_all-Same img n m (seek_range n img t lo lo_incl hi hi_incl)
        (range_list n t lo lo_incl hi hi_incl)
        (seek_range-Same h n t.count t.root s (Built-Linked cap inner_room t b) held deep few small)
      ∙ list_read cap limit lo lo_incl hi hi_incl h n m t s deep small enough
