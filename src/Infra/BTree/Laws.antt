-- ===== src/Infra/BTree/Laws.antt =====
-- The point query and the removal of src/infra/shared_btree.hpp, against the sorted list of the entries.
use rtdb_common.Common.{ℕ, zero, suc, ◌≤◌, ◌<◌, ◌≡◌, sym, ap, ◌∙◌, arith, ◌++◌}
use mathlib.Core.Path.{subst}
use rtdb_common.Types.{Result, ok, err}
use rtdb_common.Infra.BTree.Search.{strict_upper}
use rtdb_common.Infra.BTree.{
  Node, leaf, inner, Children, Capacity, separators, child_at, set_child, find_node,
}
use rtdb_common.Infra.BTree.Update.{put_removed, remove_node}
use rtdb_common.Infra.BTree.Contents.{Sorted, lookup, lookup_between}
use rtdb_common.Infra.BTree.Invariant.{
  contents, all_contents, Kids, Valid, Shrinks, Removes, Removes-between,
}
use rtdb_common.Infra.BTree.Leaf.{seen, find_leaf-lookup, remove_leaf-Shrinks}
use rtdb_common.Infra.BTree.Descent.{Place, Kids-Sorted, hop-Place}

pub Valid-Sorted :
    (cap : Capacity) (h lo hi : ℕ) (node : Node)
    → Valid cap h lo hi node
    → Sorted lo hi (contents node)
unfolding contents
Valid-Sorted cap zero lo hi (leaf lk es) v = v.0
Valid-Sorted cap zero lo hi (inner level c0 cs) v = absurd v
Valid-Sorted cap (suc h) lo hi (leaf lk es) v = absurd v
Valid-Sorted cap (suc h) lo hi (inner level c0 cs) v =
    Kids-Sorted (Valid cap h) (Valid-Sorted cap h) lo hi c0 cs v.2

module _ (cap : Capacity) (key : ℕ) where
  -- The child of a valid node where the key belongs.
  pub Valid-Place :
      (h lo hi : ℕ) (c0 : Node) (cs : Children)
      → Kids (Valid cap h) lo hi c0 cs
      → lo ≤ key
      → key < hi
      → Place (Valid cap h) (Valid cap h) key lo hi c0 cs (strict_upper (separators cs) key)
  Valid-Place h lo hi c0 cs kids a b =
      hop-Place (Valid cap h) (Valid-Sorted cap h) key (Valid cap h) (λ lo hi node out v. v) lo hi
        c0 cs kids a b

  pub find_node-lookup :
      (h n lo hi : ℕ) (node : Node)
      → Valid cap h lo hi node
      → h < n
      → lo ≤ key
      → key < hi
      → find_node n node key ≡ seen (lookup (contents node) key)
  unfolding find_node contents
  find_node-lookup h zero lo hi node v deep a b = absurd (omega (arith, deep))
  find_node-lookup zero (suc n) lo hi (leaf lk es) v deep a b = find_leaf-lookup lo hi key es v.0
  find_node-lookup zero (suc n) lo hi (inner level c0 cs) v deep a b = absurd v
  find_node-lookup (suc h) (suc n) lo hi (leaf lk es) v deep a b = absurd v
  find_node-lookup (suc h) (suc n) lo hi (inner level c0 cs) v deep a b =
      let p = Valid-Place h lo hi c0 cs v.2 a b in
      let child = child_at c0 cs (strict_upper (separators cs) key) in
      find_node-lookup h n p.from p.to child p.inside (omega (arith, deep)) p.from_le p.to_gt
      ∙ ap seen (
          sym (
            ap (λ l. lookup l key) p.whole
            ∙ lookup_between key p.pre (contents child) p.post p.below p.above))

  -- What happens to the child happens to the node.
  removed_below :
      (h lo hi level : ℕ) (c0 : Node) (cs : Children) (hop : ℕ)
      → Valid cap (suc h) lo hi (inner level c0 cs)
      → (p : Place (Valid cap h) (Valid cap h) key lo hi c0 cs hop) (r : Result Node)
      → Shrinks cap h p.from p.to key (contents (child_at c0 cs hop)) r
      → Shrinks cap (suc h) lo hi key (contents (inner level c0 cs)) (put_removed level c0 cs hop r)
  unfolding contents
  removed_below h lo hi level c0 cs hop v p (ok node) s =
      let kids = p.put node s.0 in
      let child = contents (child_at c0 cs hop) in
      let moved : Removes key (p.pre ++ (child ++ p.post))
          (ok (p.pre ++ (contents node ++ p.post))) =
        Removes-between key p.pre p.post p.below p.above child (contents node) s.1 in
      let after = set_child c0 cs hop node in
      (
        (v.0, omega (arith, kids.2, v.1), kids.0),
        subst (λ l. Removes key l (ok (all_contents after.0 after.1))) (sym p.whole)
            (subst (λ l. Removes key (p.pre ++ (child ++ p.post)) (ok l)) (sym kids.1) moved),
      )
  removed_below h lo hi level c0 cs hop v p (err e) s = (
    s.0,
    ap (λ l. lookup l key) p.whole
        ∙ (lookup_between key p.pre (contents (child_at c0 cs hop)) p.post p.below p.above ∙ s.1),
  )

  pub remove_node-Shrinks :
      (h n lo hi : ℕ) (node : Node)
      → Valid cap h lo hi node
      → h < n
      → lo ≤ key
      → key < hi
      → Shrinks cap h lo hi key (contents node) (remove_node n node key)
  unfolding remove_node contents
  remove_node-Shrinks h zero lo hi node v deep a b = absurd (omega (arith, deep))
  remove_node-Shrinks zero (suc n) lo hi (leaf lk es) v deep a b =
      remove_leaf-Shrinks lo hi key es v.0 lk cap v.1
  remove_node-Shrinks zero (suc n) lo hi (inner level c0 cs) v deep a b = absurd v
  remove_node-Shrinks (suc h) (suc n) lo hi (leaf lk es) v deep a b = absurd v
  remove_node-Shrinks (suc h) (suc n) lo hi (inner level c0 cs) v deep a b =
      let p = Valid-Place h lo hi c0 cs v.2 a b in
      let child = child_at c0 cs (strict_upper (separators cs) key) in
      let rest =
        remove_node-Shrinks h n p.from p.to child p.inside (omega (arith, deep)) p.from_le
          p.to_gt in
      removed_below h lo hi level c0 cs (strict_upper (separators cs) key) v p
        (remove_node n child key) rest
