-- ===== src/Examples/BTree.antt =====
-- Runs of the B+ tree on a tree of two leaves, the right one full.
use mathlib.Core.Path.{subst}
use rtdb_common.Common.{
  none, ◌==◌, if◌then◌else◌, ℕ, ◌≤◌, ◌≡◌, refl, ◌+◌, arith, [], ◌∷◌, true, false, some, pos, negsuc,
  ltz,
}
use rtdb_common.Types.{k_ok}
use rtdb_common.Infra.BTree.{
  Entry, leaf, inner, nil, cons, Tree, Capacity, find, cap_of, count_of, level_of, hit, split_child,
  split_node, child_at, set_child, insert_child,
}
use rtdb_common.Infra.BTree.Update.{is_full, insert_leaf, insert_node, insert_root, insert, remove}
use rtdb_common.Infra.BTree.Contents.{lookup}
use rtdb_common.Infra.BTree.Invariant.{contents}
use rtdb_common.Infra.BTree.Leaf.{seen}
use rtdb_common.Infra.BTree.Refinement.{
  entries, Stands, Added, Removed, find_refines, insert_refines, remove_refines,
}
use rtdb_common.Infra.BTree.Room.{insert_succeeds}
use rtdb_common.Infra.BTree.Search.{lower_bound, strict_upper, search}
use rtdb_common.Infra.BTree.Links.{Built, empty, inserted}
use rtdb_common.Infra.BTree.Listed.{leaves, leaves_behind}
use rtdb_common.Infra.BTree.Range.{Image, seek_range, read_all}
use rtdb_common.Infra.BTree.Ends.{in_range}
use rtdb_common.Infra.BTree.RangeLaws.{range_read}
use rtdb_common.Infra.BTree.OrderedInt.{
  encode_ordered_int64, decode_ordered_int64, key_lt, ordered_int64_keys,
}

abbrev four : Capacity
four = record { leaf = 4; inner = 4 }

abbrev entry_at : ℕ → Entry
entry_at key = record { key = key; value = key + 100 }

abbrev two_leaves : Tree
two_leaves = record {
  root = some (
      inner 1 (leaf (record { off = 9; next_leaf = 7 }) (entry_at 1 ∷ entry_at 3 ∷ [])) (
        cons 5
          (leaf (record { off = 7; next_leaf = 0 })
            (entry_at 5 ∷ entry_at 7 ∷ entry_at 9 ∷ entry_at 11 ∷ []))
          nil));
  count = 6;
}

two_leaves-Stands : Stands four 100 1 two_leaves
unfolding contents
two_leaves-Stands = (
  refl,
  (
    refl,
    omega arith,
    ((omega arith, omega arith), omega arith, omega arith, (omega arith, omega arith)),
  ),
)

find_refines_example : find 3 two_leaves 7 ≡ seen (lookup (entries two_leaves) 7)
find_refines_example =
    find_refines four 100 7 1 3 two_leaves two_leaves-Stands (omega arith) (omega arith)

insert_refines_example :
    (h' : ℕ) × (h' ≤ 2) × Added four 100 h' 8 108 two_leaves (insert four 5 two_leaves 8 108)
insert_refines_example =
    insert_refines four (omega arith) (omega arith) 100 8 108 1 5 two_leaves two_leaves-Stands
      (omega arith) (omega arith)

remove_refines_example : Removed four 100 1 7 two_leaves (remove 3 two_leaves 7)
remove_refines_example =
    remove_refines four 100 7 1 3 two_leaves two_leaves-Stands (omega arith) (omega arith)

insert_succeeds_example : (insert four 3 two_leaves 8 108).0 ≡ k_ok
unfolding contents
insert_succeeds_example =
    insert_succeeds four (omega arith) (omega arith) 8 108 100 1 3 two_leaves two_leaves-Stands
      (omega arith) (omega arith) (omega arith) refl

-- The image that holds its two leaves.
abbrev two_stored : Image
two_stored off =
    if off == 9
    then record { next_leaf = 7; entries = entry_at 1 ∷ entry_at 3 ∷ [] }
    else record { next_leaf = 0; entries = entry_at 5 ∷ entry_at 7 ∷ entry_at 9 ∷ entry_at 11 ∷ [] }

abbrev put : ℕ → ℕ → Tree → Tree
put free key t = (insert four free t key (key + 100)).1

abbrev one_leaf : Tree
one_leaf = record {
  root = some (
      leaf (record { off = 9; next_leaf = 0 })
        (entry_at 1 ∷ entry_at 3 ∷ entry_at 5 ∷ entry_at 7 ∷ []));
  count = 4;
}

one_leaf_grown :
    put 8 7 (put 8 5 (put 8 3 (put 9 1 (record { root = none; count = 0 })))) ≡ one_leaf
unfolding insert insert_root is_full cap_of count_of insert_node insert_leaf lower_bound search hit
one_leaf_grown = refl

two_leaves_grown : put 6 11 (put 8 9 one_leaf) ≡ two_leaves
unfolding insert insert_root is_full cap_of count_of level_of insert_node insert_leaf lower_bound
    strict_upper search hit split_child split_node child_at set_child insert_child
two_leaves_grown = refl

two_leaves-Built : Built four two_leaves
two_leaves-Built =
    let small : Built four one_leaf =
      subst (Built four) one_leaf_grown
        (inserted 8 7 107 _ (inserted 8 5 105 _ (inserted 8 3 103 _ (inserted 9 1 101 _ empty)))) in
    subst (Built four) two_leaves_grown (inserted 6 11 111 _ (inserted 8 9 109 _ small))

range_read_example :
    read_all 6 3 two_stored (seek_range 3 two_stored two_leaves 3 false 9 true)
    ≡ in_range 3 false 9 true (entries two_leaves)
unfolding contents leaves leaves_behind
range_read_example =
    range_read four 100 3 false 9 true two_stored 1 3 6 two_leaves two_leaves-Built
      two_leaves-Stands (omega arith) ((refl, refl), ((refl, refl), tt)) (omega arith) (omega arith)
      (omega arith) (omega arith)

ordered_int64_keys_example :
    (decode_ordered_int64 (encode_ordered_int64 (negsuc 4)) ≡ negsuc 4)
    × (key_lt (encode_ordered_int64 (negsuc 4)) (encode_ordered_int64 (pos 300))
        ≡ ltz (negsuc 4) (pos 300))
ordered_int64_keys_example = ordered_int64_keys (negsuc 4) (pos 300) (omega arith) (omega arith)
