-- ===== src/Infra/BTree/Split.antt =====
-- The split of a full node of the tree of src/infra/shared_btree.hpp.
use rtdb_common.Common.{
  ℕ, zero, suc, ◌+◌, ◌-◌, ◌/◌, ◌≤◌, ◌<◌, ◌≡◌, refl, ap, ◌∙◌, arith, List, [], ◌∷◌, ◌++◌, append-nil,
  append_assoc, length, get_or, take, drop, min, length-take, length-drop,
}
use mathlib.Core.Path.{subst}
use rtdb_common.Infra.BTree.{
  Entry, Link, Node, leaf, inner, Children, nil, cons, Capacity, separators, count_of, cap_of,
  child_at, take_children, drop_children, split_node,
}
use rtdb_common.Infra.BTree.Contents.{Sorted-cut}
use rtdb_common.Infra.BTree.Invariant.{contents, contents_behind, all_contents, Kids, Valid}

-- What a split leaves: two valid nodes on either side of the key, with the entries and with room.
abbrev pub Halves : Capacity → ℕ → ℕ → ℕ → Node → Node × ℕ × Node → Type 0
Halves cap h lo hi node split =
    Valid cap h lo split.1 split.0
    × (lo < split.1)
    × (split.1 < hi)
    × Valid cap h split.1 hi split.2
    × (contents split.0 ++ contents split.2 ≡ contents node)
    × (count_of split.0 < cap_of cap split.0)
    × (count_of split.2 < cap_of cap split.2)

-- The keys and children of an inner node around key `i`; `j` is the next.
record Cut (P : ℕ → ℕ → Node → Type 0) (lo hi : ℕ) (c0 : Node) (cs : Children) (i j : ℕ)
    : Type 0 where
  sep_gt : lo < get_or (separators cs) i 0
  sep_lt : get_or (separators cs) i 0 < hi
  lower : Kids P lo (get_or (separators cs) i 0) c0 (take_children i cs)
  upper : Kids P (get_or (separators cs) i 0) hi (child_at c0 cs (j)) (drop_children (j) cs)
  joined :
      all_contents c0 (take_children i cs)
        ++ all_contents (child_at c0 cs (j)) (drop_children (j) cs)
      ≡ all_contents c0 cs
  lower_length : length (separators (take_children i cs)) ≡ i
  upper_length : length (separators (drop_children (j) cs)) + j ≡ length (separators cs)

cut :
    (P : ℕ → ℕ → Node → Type 0) (lo hi : ℕ) (c0 : Node) (cs : Children) (i : ℕ)
    → Kids P lo hi c0 cs
    → i < length (separators cs)
    → Cut P lo hi c0 cs i (suc i)
unfolding child_at take_children drop_children contents_behind
cut P lo hi c0 nil i kids h = absurd (omega (arith, h))
cut P lo hi c0 (cons k c cs) zero kids h = record {
  sep_gt = kids.1;
  sep_lt = kids.2;
  lower = kids.0;
  upper = kids.3;
  joined = ap (λ l. l ++ all_contents c cs) (append-nil (contents c0));
  lower_length = refl;
  upper_length = omega arith;
}
cut P lo hi c0 (cons k c cs) (suc i) kids h =
    let rest = cut P k hi c cs i kids.3 (omega (arith, h)) in
    record {
      sep_gt = omega (arith, kids.1, rest.sep_gt);
      sep_lt = rest.sep_lt;
      lower = (kids.0, kids.1, rest.sep_gt, rest.lower);
      upper = rest.upper;
      joined =
          append_assoc (contents c0) (all_contents c (take_children i cs))
            (all_contents (child_at c cs (suc i)) (drop_children (suc i) cs))
          ∙ ap (λ l. contents c0 ++ l) rest.joined;
      lower_length = ap suc rest.lower_length;
      upper_length = omega (arith, rest.upper_length);
    }

take-append-drop : (i : ℕ) (es : List Entry) → take i es ++ drop i es ≡ es
take-append-drop zero es = refl
take-append-drop (suc i) [] = refl
take-append-drop (suc i) (e ∷ es) = ap (λ l. e ∷ l) (take-append-drop i es)

module _ (cap : Capacity) (leaf_room : 2 ≤ cap.leaf) (inner_room : 1 ≤ cap.inner) where
  leaf-Halves :
      (new : ℕ) (lk : Link) (lo hi : ℕ) (es : List Entry)
      → Valid cap 0 lo hi (leaf lk es)
      → cap.leaf ≤ length es
      → Halves cap 0 lo hi (leaf lk es) (split_node new (leaf lk es))
  unfolding split_node contents count_of cap_of
  leaf-Halves new lk lo hi es v full =
      let half = length es / 2 in
      let parts = Sorted-cut half lo hi es (omega (arith, full, leaf_room)) v.0 in
      let front : length (take half es) ≡ min half (length es) = length-take half es in
      let back : length (drop half es) ≡ length es - half = length-drop half es in
      (
        (parts.0, omega (arith, front, v.1)),
        omega (arith, parts.2, full, leaf_room),
        parts.3,
        (parts.1, omega (arith, back, v.1)),
        take-append-drop half es,
        omega (arith, front, v.1, full, leaf_room),
        omega (arith, back, v.1, full, leaf_room),
      )

  inner-Halves :
      (new h lo hi level : ℕ) (c0 : Node) (cs : Children)
      → Valid cap (suc h) lo hi (inner level c0 cs)
      → cap.inner ≤ length (separators cs)
      → Halves cap (suc h) lo hi (inner level c0 cs) (split_node new (inner level c0 cs))
  unfolding split_node contents count_of cap_of
  inner-Halves new h lo hi level c0 cs v full =
      let mid = length (separators cs) / 2 in
      let next : suc mid ≡ mid + 1 = omega arith in
      let parts : Cut (Valid cap h) lo hi c0 cs mid (mid + 1) =
        subst (λ j. Cut (Valid cap h) lo hi c0 cs mid j) next
          (cut (Valid cap h) lo hi c0 cs mid v.2 (omega (arith, full, inner_room))) in
      (
        (v.0, omega (arith, parts.lower_length, v.1), parts.lower),
        parts.sep_gt,
        parts.sep_lt,
        (v.0, omega (arith, parts.upper_length, v.1), parts.upper),
        parts.joined,
        omega (arith, parts.lower_length, v.1, full, inner_room),
        omega (arith, parts.upper_length, v.1, full, inner_room),
      )

  pub split_node-Halves :
      (new h lo hi : ℕ) (node : Node)
      → Valid cap h lo hi node
      → cap_of cap node ≤ count_of node
      → Halves cap h lo hi node (split_node new node)
  unfolding count_of cap_of
  split_node-Halves new zero lo hi (leaf lk es) v full = leaf-Halves new lk lo hi es v full
  split_node-Halves new (suc h) lo hi (inner level c0 cs) v full =
      inner-Halves new h lo hi level c0 cs v full
  split_node-Halves new zero lo hi (inner level c0 cs) v full = absurd v
  split_node-Halves new (suc h) lo hi (leaf lk es) v full = absurd v
