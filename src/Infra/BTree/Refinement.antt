-- ===== src/Infra/BTree/Refinement.antt =====
-- The tree of src/infra/shared_btree.hpp refines the sorted list of its entries.
use rtdb_common.Common.{
  ℕ, suc, ◌+◌, ◌-◌, ◌≤◌, ◌<◌, ◌≡◌, refl, sym, ap, ◌∙◌, arith, List, [], length, Option, none, some,
  ◌==◌, Bool-cases, inl, inr, ◌⊎◌,
}
use rtdb_common.Types.{Err, k_ok, k_not_found, Result, ok, err}
use rtdb_common.Infra.BTree.{Entry, Link, Node, leaf, Tree, Capacity, find}
use rtdb_common.Infra.BTree.Update.{
  Outcome, counted, insert, insert_root, uncounted, remove, remove_node,
}
use rtdb_common.Infra.BTree.Contents.{Sorted, lookup, length-put_sorted, without, length-without}
use rtdb_common.Infra.BTree.Invariant.{
  contents, Valid, Inserts, inserted, present, no_room, Leaves, Shrinks,
}
use rtdb_common.Infra.BTree.Leaf.{seen}
use rtdb_common.Infra.BTree.Laws.{Valid-Sorted, find_node-lookup, remove_node-Shrinks}
use rtdb_common.Infra.BTree.Insertion.{insert_root-Leaves}

abbrev pub entries : Tree → List Entry
entries t = elim t.root [ none ↦ [] | some node ↦ contents node ]

-- A tree of height `h` with keys below `limit` that counts its entries.
abbrev pub Stands : Capacity → ℕ → ℕ → Tree → Type 0
Stands cap limit h t =
    (t.count ≡ length (entries t))
    × elim t.root [ none ↦ h ≡ 0 | some node ↦ Valid cap h 0 limit node ]

abbrev pub tree : Option Node → ℕ → Tree
tree root count = record { root = root; count = count }

-- The two ends of a removal.
abbrev pub Removed : Capacity → ℕ → ℕ → ℕ → Tree → Err × Tree → Type 0
Removed cap limit h key t done =
    ((done.0 ≡ k_ok)
      × ((old : ℕ) × (lookup (entries t) key ≡ some old))
      × Stands cap limit h done.1
      × (entries done.1 ≡ without (entries t) key))
    ⊎ ((done.0 ≡ k_not_found) × (lookup (entries t) key ≡ none) × (done.1 ≡ t))

-- What an insertion leaves.
abbrev pub Added : Capacity → ℕ → ℕ → ℕ → ℕ → Tree → Err × Tree × ℕ → Type 0
Added cap limit h key value t done =
    Stands cap limit h done.1 × Inserts key value (entries t) done.0 (entries done.1)

module _ (cap : Capacity) (limit key : ℕ) where
  -- The point query on a tree of fewer levels than its bound finds what the sorted list of the entries
  -- has under the key.
  pub find_refines :
      (h n : ℕ) (t : Tree)
      → Stands cap limit h t
      → h < n
      → key < limit
      → find n t key ≡ seen (lookup (entries t) key)
  unfolding find
  find_refines h n t s deep small = by_root t.root t.count s
    where
      by_root :
          (root : Option Node) (count : ℕ)
          → Stands cap limit h (tree root count)
          → find n (tree root count) key ≡ seen (lookup (entries (tree root count)) key)
      by_root none count s = refl
      by_root (some node) count s =
          find_node-lookup cap key h n 0 limit node s.1 deep (omega arith) small

  -- `Remove` on a tree of fewer levels than its bound takes the key's entry out of the sorted list of
  -- the entries and leaves a valid tree of the same height that counts them, or reports that the key is
  -- not there and leaves the tree as it was.
  pub remove_refines :
      (h n : ℕ) (t : Tree)
      → Stands cap limit h t
      → h < n
      → key < limit
      → Removed cap limit h key t (remove n t key)
  unfolding remove
  remove_refines h n t s deep small = by_root t.root t.count s
    where
      by_result :
          (node : Node) (count : ℕ) (r : Result Node)
          → count ≡ length (contents node)
          → Shrinks cap h 0 limit key (contents node) r
          → Removed cap limit h key (tree (some node) count) (uncounted (tree (some node) count) r)
      by_result node count (ok after) counts s =
          let fewer : length (without (contents node) key) ≡ length (contents node) - 1 =
            length-without key s.1.0.0 (contents node) s.1.0.1 in
          inl (refl, s.1.0, (omega (arith, counts, fewer, ap length s.1.1), s.0), s.1.1)
      by_result node count (err e) counts s = inr (s.0, s.1, refl)

      by_root :
          (root : Option Node) (count : ℕ)
          → Stands cap limit h (tree root count)
          → Removed cap limit h key (tree root count) (remove n (tree root count) key)
      by_root none count s = inr (refl, refl, refl)
      by_root (some node) count s =
          by_result node count (remove_node n node key) s.0
            (remove_node-Shrinks cap key h n 0 limit node s.1 deep (omega arith) small)

module _ (cap : Capacity) (leaf_room : 2 ≤ cap.leaf) (inner_room : 1 ≤ cap.inner)
    (limit key value : ℕ) where
  counted-Added :
      (h : ℕ) (before : Tree) (t : Tree) (out : Outcome)
      → t.count ≡ length (entries before)
      → Leaves cap h 0 limit key value (entries before) out
      → Added cap limit h key value before (counted t out)
  counted-Added h before t out counts leaves = by_effect leaves.1
    where
      by_effect :
          Inserts key value (entries before) out.error (contents out.node)
          → Added cap limit h key value before (counted t out)
      by_effect (inserted is gone put) =
          let more = length-put_sorted (record { key = key; value = value }) (entries before) in
          let counts' : elim out.error as (λ _. ℕ) [ k_ok ↦ t.count + 1 | _ ↦ t.count ]
              ≡ length (contents out.node) =
            rw is (omega (arith, counts, more, ap length put)) in
          ((counts', leaves.0), inserted is gone put)
      by_effect (present old is there same) =
          ((rw is (counts ∙ ap length (sym same)), leaves.0), present old is there same)
      by_effect (no_room is same) =
          ((rw is (counts ∙ ap length (sym same)), leaves.0), no_room is same)

  -- The first entry of an empty tree.
  first :
      (lk : Link) (free : ℕ)
      → key < limit
      → (h' : ℕ) × (h' ≤ 1)
        × Leaves cap h' 0 limit key value [] (insert_root cap free (leaf lk []) key value)
  unfolding contents
  first lk free small =
      insert_root-Leaves cap leaf_room inner_room key value 0 free limit (leaf lk [])
        (omega arith, omega arith) (omega arith) small

  -- `Insert`, given a capacity of two entries and one separator, a key below the limit and a tree of at
  -- most 62 levels above its leaves, leaves a valid tree that counts its entries and is at most one
  -- level higher. It reports success and the sorted list of the entries has a further one, or it
  -- reports that the key is there or that the memory is used up, and the entries are as they were.
  pub insert_refines :
      (h free : ℕ) (t : Tree)
      → Stands cap limit h t
      → h < 63
      → key < limit
      → (h' : ℕ) × (h' ≤ suc h) × Added cap limit h' key value t (insert cap free t key value)
  unfolding insert
  insert_refines h free t s deep small = by_root t.root t.count s
    where
      by_root :
          (root : Option Node) (count : ℕ)
          → Stands cap limit h (tree root count)
          → (h' : ℕ) × (h' ≤ suc h)
            × Added cap limit h' key value
                (tree root count)
                (insert cap free (tree root count) key value)
      by_root none count s = elim (Bool-cases (free == 0)) [
        | inl none_left ↦ (h, omega arith, rw none_left (s, no_room refl refl))
        | inr some_left ↦ rw some_left (
            let r = first (record { off = free; next_leaf = 0 }) (free - 1) small in
            (
              r.0,
              omega (arith, r.1),
              counted-Added r.0 (tree none count) (tree none count)
                  (insert_root cap (free - 1) (leaf (record { off = free; next_leaf = 0 }) []) key
                    value)
                  s.0 r.2,
            ))
      ]
      by_root (some node) count s =
          let r =
            insert_root-Leaves cap leaf_room inner_room key value h free limit node s.1 deep
              small in
          (
            r.0,
            r.1,
            counted-Added r.0 (tree (some node) count) (tree (some node) count)
                (insert_root cap free node key value) s.0 r.2,
          )

-- The entries of a tree are in order.
pub Stands-Sorted :
    (cap : Capacity) (limit h : ℕ) (t : Tree) → Stands cap limit h t → Sorted 0 limit (entries t)
Stands-Sorted cap limit h t s = by_root t.root t.count s
  where
    by_root :
        (root : Option Node) (count : ℕ)
        → Stands cap limit h (tree root count)
        → Sorted 0 limit (entries (tree root count))
    by_root none count s = omega arith
    by_root (some node) count s = Valid-Sorted cap h 0 limit node s.1
