-- ===== src/Infra/BTree/Room.antt =====
-- The memory that `Insert` of src/infra/shared_btree.hpp needs.
use rtdb_common.Common.{
  ℕ, zero, suc, ◌+◌, ◌-◌, ◌≤◌, ◌<◌, ◌≡◌, ◌≢◌, arith, List, [], false, leb, ◌==◌, none, some,
  Bool-cases, inl, inr, Option,
}
use rtdb_common.Types.{k_ok, k_out_of_memory}
use rtdb_common.Infra.BTree.Search.{lower_bound, strict_upper}
use rtdb_common.Infra.BTree.{
  Entry, Link, Node, leaf, inner, nil, Capacity, Tree, keys, hit, separators, child_at, count_of,
  cap_of, level_of, split_child,
}
use rtdb_common.Infra.BTree.Update.{is_full, insert_leaf, insert_node, insert_root, insert}
use rtdb_common.Infra.BTree.Contents.{lookup}
use rtdb_common.Infra.BTree.Invariant.{Valid, Inserts, inserted, present, no_room}
use rtdb_common.Infra.BTree.Laws.{Valid-Place}
use rtdb_common.Infra.BTree.Insertion.{split_child-Roomy, Roomy-Place, level_of-Valid}
use rtdb_common.Infra.BTree.Refinement.{entries, Stands, insert_refines}

module _ (cap : Capacity) (leaf_room : 2 ≤ cap.leaf) (inner_room : 1 ≤ cap.inner)
    (key value : ℕ) where
  insert_leaf-has_room :
      (lk : Link) (es : List Entry) (free : ℕ)
      → (insert_leaf lk es key value free).error ≢ k_out_of_memory
  unfolding insert_leaf
  insert_leaf-has_room lk es free = elim (Bool-cases (hit es (lower_bound (keys es) key) key)) [
    | inl hits ↦ rw hits (λ e. cc)
    | inr misses ↦ rw misses (λ e. cc)
  ]

  -- A level takes one node at most.
  insert_node-has_room :
      (h n free lo hi : ℕ) (node : Node)
      → Valid cap h lo hi node
      → count_of node < cap_of cap node
      → h < n
      → h ≤ free
      → lo ≤ key
      → key < hi
      → (insert_node n cap free node key value).error ≢ k_out_of_memory
  unfolding insert_node is_full
  insert_node-has_room h zero free lo hi node v room deep spare a b = absurd (omega (arith, deep))
  insert_node-has_room zero (suc n) free lo hi (leaf lk es) v room deep spare a b =
      insert_leaf-has_room lk es free
  insert_node-has_room zero (suc n) free lo hi (inner level c0 cs) v room deep spare a b = absurd v
  insert_node-has_room (suc h) (suc n) free lo hi (leaf lk es) v room deep spare a b = absurd v
  insert_node-has_room (suc h) (suc n) free lo hi (inner level c0 cs) v room deep spare a b =
      let hop = strict_upper (separators cs) key in
      let child = child_at c0 cs hop in
      let some_left : (free == 0) ≡ false = ground (arith, spare) in
      elim (Bool-cases (leb (cap_of cap child) (count_of child))) [
        | inr open_child ↦
            let p = Valid-Place cap key h lo hi c0 cs v.2 a b in
            rw open_child (
              insert_node-has_room h n free p.from p.to child p.inside (ground (arith, open_child))
                (omega (arith, deep)) (omega (arith, spare)) p.from_le p.to_gt)
        | inl full ↦
            let s =
              split_child-Roomy cap leaf_room inner_room key value free h lo hi c0 cs v.2 a b
                (ground (arith, full)) in
            let kids = split_child free c0 cs hop in
            let p = Roomy-Place cap leaf_room inner_room key value h lo hi kids.0 kids.1 s.0 a b in
            rw (full, some_left)
              (insert_node-has_room h n (free - 1) p.from p.to
                (child_at kids.0 kids.1 (strict_upper (separators kids.1) key)) p.inside.0
                (p.inside.1 p.from_le p.to_gt) (omega (arith, deep)) (omega (arith, spare))
                p.from_le p.to_gt)
      ]

  raised-has_room :
      (h free hi : ℕ) (root : Node)
      → Valid cap h 0 hi root
      → h < 63
      → h < free
      → key < hi
      → (insert_node 64 cap free (inner (level_of root + 1) root nil) key value).error
        ≢ k_out_of_memory
  unfolding count_of cap_of
  raised-has_room h free hi root v deep spare b =
      let level = level_of-Valid cap leaf_room inner_room key value h 0 hi root v in
      insert_node-has_room (suc h) 64 free 0 hi (inner (level_of root + 1) root nil)
        (omega (arith, level), omega arith, v) (omega (arith, inner_room)) (omega (arith, deep))
        (omega (arith, spare)) (omega arith) b

  first-has_room :
      (lk : Link) (free : ℕ) → (insert_root cap free (leaf lk []) key value).error ≢ k_out_of_memory
  unfolding insert_root is_full count_of cap_of insert_node
  first-has_room lk free =
      let open_leaf : leb cap.leaf 0 ≡ false = ground (arith, leaf_room) in
      rw open_leaf (insert_leaf-has_room lk [] free)

  insert_root-has_room :
      (h free hi : ℕ) (root : Node)
      → Valid cap h 0 hi root
      → h < 63
      → h + 1 < free
      → key < hi
      → (insert_root cap free root key value).error ≢ k_out_of_memory
  unfolding insert_root is_full
  insert_root-has_room h free hi root v deep spare b =
      let some_left : (free == 0) ≡ false = ground (arith, spare) in
      elim (Bool-cases (leb (cap_of cap root) (count_of root))) [
        | inr open_root ↦ rw open_root (
            insert_node-has_room h 64 free 0 hi root v (ground (arith, open_root))
              (omega (arith, deep)) (omega (arith, spare)) (omega arith) b)
        | inl full ↦
            rw (full, some_left)
              (raised-has_room h (free - 1) hi root v deep (omega (arith, spare)) b)
      ]

  insert-has_room :
      (limit h free : ℕ) (root : Option Node) (count : ℕ)
      → Stands cap limit h (record { root = root; count = count })
      → h < 63
      → h + 2 ≤ free
      → key < limit
      → (insert cap free (record { root = root; count = count }) key value).0 ≢ k_out_of_memory
  unfolding insert
  insert-has_room limit h free none count s deep spare small =
      let some_left : (free == 0) ≡ false = ground (arith, spare) in
      rw some_left (first-has_room _ (free - 1))
  insert-has_room limit h free (some node) count s deep spare small =
      insert_root-has_room h free limit node s.1 deep (omega (arith, spare)) small

  -- `Insert` of a key that is not there succeeds where the allocator has two nodes more than the tree
  -- of valid shape, of at most 62 levels above its leaves, has such levels, and the key is below the
  -- limit.
  pub insert_succeeds :
      (limit h free : ℕ) (t : Tree)
      → Stands cap limit h t
      → h < 63
      → h + 2 ≤ free
      → key < limit
      → lookup (entries t) key ≡ none
      → (insert cap free t key value).0 ≡ k_ok
  insert_succeeds limit h free t s deep spare small gone =
      by_effect (insert_refines cap leaf_room inner_room limit key value h free t s deep small).2.1
        (insert-has_room limit h free t.root t.count s deep spare small)
    where
      by_effect :
          Inserts key value
            (entries t)
            (insert cap free t key value).0
            (entries (insert cap free t key value).1)
          → (insert cap free t key value).0 ≢ k_out_of_memory
          → (insert cap free t key value).0 ≡ k_ok
      by_effect (inserted is absent put) room = is
      by_effect (present old is there same) room = absurd (cc (gone, there))
      by_effect (no_room is same) room = absurd (room is)
