-- ===== src/Infra/BTree/Insertion.antt =====
-- The insertion of src/infra/shared_btree.hpp, against the sorted list of the entries.
use rtdb_common.Common.{
  ℕ, zero, suc, ◌+◌, ◌-◌, ◌≤◌, ◌<◌, ◌≡◌, refl, sym, ap, ◌∙◌, arith, append-nil, ◌++◌, length, leb,
  ◌==◌, Bool-cases, ◌⊎◌, inl, inr,
}
use mathlib.Core.Path.{subst}
use rtdb_common.Infra.BTree.Search.{strict_upper}
use rtdb_common.Infra.BTree.{
  Node, leaf, inner, Children, nil, Capacity, separators, child_at, set_child, count_of, cap_of,
  split_node, split_child, level_of,
}
use rtdb_common.Infra.BTree.Update.{Outcome, is_full, put_child, insert_node, insert_root}
use rtdb_common.Infra.BTree.Invariant.{
  contents, all_contents, Kids, Valid, Inserts, no_room, Leaves, Inserts-between,
}
use rtdb_common.Infra.BTree.Leaf.{insert_leaf-Leaves}
use rtdb_common.Infra.BTree.Descent.{Place, hop-Place}
use rtdb_common.Infra.BTree.Split.{split_node-Halves}
use rtdb_common.Infra.BTree.Laws.{Valid-Sorted, Valid-Place}

module _ (cap : Capacity) (leaf_room : 2 ≤ cap.leaf) (inner_room : 1 ≤ cap.inner)
    (key value : ℕ) where
  -- A valid node that has room if the key belongs to it.
  abbrev pub Roomy : ℕ → ℕ → ℕ → Node → Type 0
  Roomy h lo hi node =
      Valid cap h lo hi node × (lo ≤ key → key < hi → count_of node < cap_of cap node)

  -- What the descent does to the child, it does to the node.
  inserted_below :
      (P : ℕ → ℕ → Node → Type 0) (h lo hi level : ℕ) (c0 : Node) (cs : Children) (hop : ℕ)
      → level ≡ suc h
      → length (separators cs) ≤ cap.inner
      → (p : Place P (Valid cap h) key lo hi c0 cs hop) (out : Outcome)
      → Leaves cap h p.from p.to key value (contents (child_at c0 cs hop)) out
      → Leaves cap (suc h) lo hi key value (all_contents c0 cs) (put_child level (c0, cs) hop out)
  unfolding contents
  inserted_below P h lo hi level c0 cs hop lv fits p out s =
      let kids = p.put out.node s.0 in
      let child = contents (child_at c0 cs hop) in
      let moved : Inserts key value (p.pre ++ (child ++ p.post)) out.error
          (p.pre ++ (contents out.node ++ p.post)) =
        Inserts-between key p.pre p.post p.below p.above value out.error child (contents out.node)
          s.1 in
      let after = set_child c0 cs hop out.node in
      (
        (lv, omega (arith, kids.2, fits), kids.0),
        subst (λ l. Inserts key value l out.error (all_contents after.0 after.1)) (sym p.whole)
            (subst (λ l. Inserts key value (p.pre ++ (child ++ p.post)) out.error l) (sym kids.1)
              moved),
      )

  -- The children after a split of the chosen one.
  pub split_child-Roomy :
      (new h lo hi : ℕ) (c0 : Node) (cs : Children)
      → Kids (Valid cap h) lo hi c0 cs
      → lo ≤ key
      → key < hi
      → let hop = strict_upper (separators cs) key in
        let kids = split_child new c0 cs hop in
        cap_of cap (child_at c0 cs hop) ≤ count_of (child_at c0 cs hop)
        → Kids (Roomy h) lo hi kids.0 kids.1
          × (all_contents kids.0 kids.1 ≡ all_contents c0 cs)
          × (length (separators kids.1) ≡ suc (length (separators cs)))
  unfolding split_child
  split_child-Roomy new h lo hi c0 cs kids a b full =
      let p =
        hop-Place (Valid cap h) (Valid-Sorted cap h) key (Roomy h) aside lo hi c0 cs kids a b in
      let child = child_at c0 cs (strict_upper (separators cs) key) in
      let s = split_node-Halves cap leaf_room inner_room new h p.from p.to child p.inside full in
      let two =
        p.halve (split_node new child).0 (split_node new child).1 (split_node new child).2
          (s.0, λ x y. s.5) s.1 s.2 (s.3, λ x y. s.6) in
      (two.0, two.1 ∙ (ap (λ l. p.pre ++ (l ++ p.post)) s.4 ∙ sym p.whole), two.2)
    where
      aside :
          (lo hi : ℕ) (node : Node)
          → (key < lo) ⊎ (hi ≤ key)
          → Valid cap h lo hi node
          → Roomy h lo hi node
      aside lo hi node (inl out) v = (v, λ x y. absurd (omega (arith, x, out)))
      aside lo hi node (inr out) v = (v, λ x y. absurd (omega (arith, y, out)))

  pub Roomy-Place :
      (h lo hi : ℕ) (c0 : Node) (cs : Children)
      → Kids (Roomy h) lo hi c0 cs
      → lo ≤ key
      → key < hi
      → Place (Roomy h) (Valid cap h) key lo hi c0 cs (strict_upper (separators cs) key)
  Roomy-Place h lo hi c0 cs kids a b =
      hop-Place (Roomy h) (λ lo hi node v. Valid-Sorted cap h lo hi node v.0) key (Valid cap h)
        (λ lo hi node out v. v.0) lo hi c0 cs kids a b

  pub insert_node-Leaves :
      (h n free lo hi : ℕ) (node : Node)
      → Valid cap h lo hi node
      → count_of node < cap_of cap node
      → h < n
      → lo ≤ key
      → key < hi
      → Leaves cap h lo hi key value (contents node) (insert_node n cap free node key value)
  unfolding insert_node contents count_of cap_of is_full
  insert_node-Leaves h zero free lo hi node v room deep a b = absurd (omega (arith, deep))
  insert_node-Leaves zero (suc n) free lo hi (leaf lk es) v room deep a b =
      insert_leaf-Leaves lo hi key es v.0 lk cap value free a b room
  insert_node-Leaves zero (suc n) free lo hi (inner level c0 cs) v room deep a b = absurd v
  insert_node-Leaves (suc h) (suc n) free lo hi (leaf lk es) v room deep a b = absurd v
  insert_node-Leaves (suc h) (suc n) free lo hi (inner level c0 cs) v room deep a b =
      let hop = strict_upper (separators cs) key in
      let child = child_at c0 cs hop in
      elim (Bool-cases (leb (cap_of cap child) (count_of child))) [
        | inr open_child ↦ rw open_child (
            let p = Valid-Place cap key h lo hi c0 cs v.2 a b in
            let small : count_of child < cap_of cap child = ground (arith, open_child) in
            inserted_below (Valid cap h) h lo hi level c0 cs hop v.0 v.1 p
              (insert_node n cap free child key value)
              (insert_node-Leaves h n free p.from p.to child p.inside small (omega (arith, deep))
                p.from_le p.to_gt))
        | inl full ↦ elim (Bool-cases (free == 0)) [
          | inl none_left ↦ rw (full, none_left) (v, no_room refl refl)
          | inr some_left ↦
              rw (full, some_left)
                (let s = split_child-Roomy free h lo hi c0 cs v.2 a b (ground (arith, full)) in
                  let kids = split_child free c0 cs hop in
                  let hop' = strict_upper (separators kids.1) key in
                  let p = Roomy-Place h lo hi kids.0 kids.1 s.0 a b in
                  let out = insert_node n cap (free - 1) (child_at kids.0 kids.1 hop') key value in
                  let done : Leaves cap (suc h) lo hi key value (all_contents kids.0 kids.1)
                      (put_child level kids hop' out) =
                    inserted_below (Roomy h) h lo hi level kids.0 kids.1 hop' v.0
                      (omega (arith, s.2, room)) p out
                      (insert_node-Leaves h n (free - 1) p.from p.to _ p.inside.0
                        (p.inside.1 p.from_le p.to_gt) (omega (arith, deep)) p.from_le p.to_gt) in
                  subst (λ l. Leaves cap (suc h) lo hi key value l (put_child level kids hop' out))
                    s.1 done)
        ]
      ]

  pub level_of-Valid : (h lo hi : ℕ) (node : Node) → Valid cap h lo hi node → level_of node ≡ h
  unfolding level_of
  level_of-Valid zero lo hi (leaf lk es) v = refl
  level_of-Valid zero lo hi (inner level c0 cs) v = absurd v
  level_of-Valid (suc h) lo hi (leaf lk es) v = absurd v
  level_of-Valid (suc h) lo hi (inner level c0 cs) v = v.0

  -- Below a new root.
  raised :
      (h free hi : ℕ) (root : Node)
      → Valid cap h 0 hi root
      → h < 63
      → key < hi
      → Leaves cap
          (suc h)
          0
          hi
          key
          value
          (contents root)
          (insert_node 64 cap free (inner (level_of root + 1) root nil) key value)
  unfolding contents count_of cap_of
  raised h free hi root v deep b =
      subst
        (λ l.
          Leaves cap (suc h) 0 hi key value l
            (insert_node 64 cap free (inner (level_of root + 1) root nil) key value))
        (append-nil (contents root))
        (insert_node-Leaves (suc h) 64 free 0 hi (inner (level_of root + 1) root nil)
          (omega (arith, level_of-Valid h 0 hi root v), omega arith, v) (omega (arith, inner_room))
          (omega (arith, deep)) (omega arith) b)

  -- `Insert` below the slot: a full root gets a parent first, which takes one level more.
  pub insert_root-Leaves :
      (h free hi : ℕ) (root : Node)
      → Valid cap h 0 hi root
      → h < 63
      → key < hi
      → (h' : ℕ) × (h' ≤ suc h)
        × Leaves cap h' 0 hi key value (contents root) (insert_root cap free root key value)
  unfolding insert_root is_full
  insert_root-Leaves h free hi root v deep b =
      elim (Bool-cases (leb (cap_of cap root) (count_of root))) [
        | inr open_root ↦ (
          h,
          omega arith,
          rw open_root (
              insert_node-Leaves h 64 free 0 hi root v (ground (arith, open_root))
                (omega (arith, deep)) (omega arith) b),
        )
        | inl full ↦ elim (Bool-cases (free == 0)) [
          | inl none_left ↦ (h, omega arith, rw (full, none_left) (v, no_room refl refl))
          | inr some_left ↦
              (suc h, omega arith, rw (full, some_left) (raised h (free - 1) hi root v deep b))
        ]
      ]
