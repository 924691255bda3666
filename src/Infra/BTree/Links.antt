-- ===== src/Infra/BTree/Links.antt =====
-- The links between the leaves of src/infra/shared_btree.hpp: they lead from each leaf to the next one, and
-- `Insert` and `Remove` keep them so.
use rtdb_common.Common.{
  ℕ, zero, suc, ◌+◌, ◌-◌, ◌/◌, ◌≤◌, ◌<◌, ◌≡◌, refl, arith, List, [], length, leb, ◌==◌, Bool-cases,
  inl, inr, Option, none, some,
}
use mathlib.Core.Path.{subst}
use rtdb_common.Types.{Err, Result, ok, err}
use rtdb_common.Infra.BTree.{
  Entry, Link, Node, leaf, inner, Children, nil, cons, Tree, Capacity, keys, separators, count_of,
  cap_of, level_of, child_at, set_child, insert_child, take_children, drop_children, split_node,
  split_child, hit,
}
use rtdb_common.Infra.BTree.Search.{lower_bound, strict_upper, strict_upper_le}
use rtdb_common.Infra.BTree.Update.{
  is_full, insert_leaf, insert_node, insert_root, insert, remove_leaf, put_removed, remove_node,
  uncounted, remove,
}

-- The leaves below the node are linked from left to right, from the leaf named `a` on, and the last one is
-- linked to `b`.
abbrev mutual
  pub Chain : Node → ℕ → ℕ → Type 0
  Chain (leaf lk es) a b = (lk.off ≡ a) × (lk.next_leaf ≡ b) × (1 ≤ a)
  Chain (inner level c0 cs) a b = (m : ℕ) × Chain c0 a m × ChainBehind cs m b

  pub ChainBehind : Children → ℕ → ℕ → Type 0
  ChainBehind nil a b = a ≡ b
  ChainBehind (cons k c cs) a b = (m : ℕ) × Chain c a m × ChainBehind cs m b

abbrev pub ChainKids : Node → Children → ℕ → ℕ → Type 0
ChainKids c0 cs a b = (m : ℕ) × Chain c0 a m × ChainBehind cs m b

-- A tree's leaves are linked, from some leaf on; the last one is linked to none.
abbrev pub Linked : Option Node → Type 0
Linked none = Unit
Linked (some root) = (a : ℕ) × Chain root a 0

ok_node : {x y : Node} → ok x ≡ ok y → x ≡ y
ok_node e = cc

err_node : {e : Err} {x : Node} → err e ≡ ok x → ⊥
err_node q = cc

-- The child in a slot, and the children behind it.
pub child_at-Chain :
    (c0 : Node) (cs : Children) (i a b : ℕ)
    → ChainKids c0 cs a b
    → (a' : ℕ) × (m : ℕ) × Chain (child_at c0 cs i) a' m × ChainBehind (drop_children i cs) m b
unfolding child_at drop_children
child_at-Chain c0 cs zero a b h = (a, h.0, h.1, h.2)
child_at-Chain c0 nil (suc i) a b h = (a, h.0, h.1, h.2)
child_at-Chain c0 (cons k c cs) (suc i) a b h = child_at-Chain c cs i h.0 b h.2

set_child-Chain :
    (c0 : Node) (cs : Children) (i : ℕ) (new : Node) (a b : ℕ)
    → ((x y : ℕ) → Chain (child_at c0 cs i) x y → Chain new x y)
    → ChainKids c0 cs a b
    → ChainKids (set_child c0 cs i new).0 (set_child c0 cs i new).1 a b
unfolding set_child child_at
set_child-Chain c0 cs zero new a b f h = (h.0, f a h.0 h.1, h.2)
set_child-Chain c0 nil (suc i) new a b f h = h
set_child-Chain c0 (cons k c cs) (suc i) new a b f h =
    (h.0, h.1, set_child-Chain c cs i new h.0 b f h.2)

-- A child in two parts.
halve-Chain :
    (c0 : Node) (cs : Children) (i : ℕ) (left right : Node) (sep a b : ℕ)
    → i ≤ length (separators cs)
    → ((x y : ℕ) → Chain (child_at c0 cs i) x y → (z : ℕ) × Chain left x z × Chain right z y)
    → ChainKids c0 cs a b
    → ChainKids (set_child c0 cs i left).0 (insert_child (set_child c0 cs i left).1 i sep right) a b
unfolding set_child insert_child child_at
halve-Chain c0 cs zero left right sep a b l f h = let s = f a h.0 h.1 in (s.0, s.1, (h.0, s.2, h.2))
halve-Chain c0 nil (suc i) left right sep a b l f h = absurd (omega (arith, l))
halve-Chain c0 (cons k c cs) (suc i) left right sep a b l f h =
    (h.0, h.1, halve-Chain c cs i left right sep h.0 b (omega (arith, l)) f h.2)

cut-Chain :
    (c0 : Node) (cs : Children) (i a b : ℕ)
    → i < length (separators cs)
    → ChainKids c0 cs a b
    → (z : ℕ) × ChainKids c0 (take_children i cs) a z
      × ChainKids (child_at c0 cs (suc i)) (drop_children (suc i) cs) z b
unfolding child_at take_children drop_children
cut-Chain c0 nil i a b l h = absurd (omega (arith, l))
cut-Chain c0 (cons k c cs) zero a b l h = (h.0, (h.0, h.1, refl), h.2)
cut-Chain c0 (cons k c cs) (suc i) a b l h =
    let s = cut-Chain c cs i h.0 b (omega (arith, l)) h.2 in (s.0, (h.0, h.1, s.1), s.2)

-- The split of a full node links its halves.
split_node-Chain :
    (cap : Capacity) (new : ℕ) (node : Node) (a b : ℕ)
    → 1 ≤ cap.inner
    → 1 ≤ new
    → cap_of cap node ≤ count_of node
    → Chain node a b
    → (z : ℕ) × Chain (split_node new node).0 a z × Chain (split_node new node).2 z b
unfolding split_node cap_of count_of
split_node-Chain cap new (leaf lk es) a b r p full h = (new, (h.0, refl, h.2), (refl, h.1, p))
split_node-Chain cap new (inner level c0 cs) a b r p full h =
    let mid = length (separators cs) / 2 in
    let next : suc mid ≡ mid + 1 = omega arith in
    subst
      (λ j.
        (z : ℕ) × ChainKids c0 (take_children mid cs) a z
        × ChainKids (child_at c0 cs j) (drop_children j cs) z b)
      next (cut-Chain c0 cs mid a b (omega (arith, full, r)) h)

module _ (cap : Capacity) (inner_room : 1 ≤ cap.inner) (key value : ℕ) where
  split_child-Chain :
      (new : ℕ) (c0 : Node) (cs : Children) (i a b : ℕ)
      → 1 ≤ new
      → i ≤ length (separators cs)
      → cap_of cap (child_at c0 cs i) ≤ count_of (child_at c0 cs i)
      → ChainKids c0 cs a b
      → ChainKids (split_child new c0 cs i).0 (split_child new c0 cs i).1 a b
  unfolding split_child
  split_child-Chain new c0 cs i a b p l full h =
      let s = split_node new (child_at c0 cs i) in
      halve-Chain c0 cs i s.0 s.2 s.1 a b l
        (λ x y c. split_node-Chain cap new (child_at c0 cs i) x y inner_room p full c) h

  insert_leaf-Chain :
      (lk : Link) (es : List Entry) (free a b : ℕ)
      → Chain (leaf lk es) a b
      → Chain (insert_leaf lk es key value free).node a b
  unfolding insert_leaf
  insert_leaf-Chain lk es free a b h = elim (Bool-cases (hit es (lower_bound (keys es) key) key)) [
    | inl there ↦ rw there h
    | inr gone ↦ rw gone h
  ]

  insert_node-Chain :
      (n free : ℕ) (node : Node) (a b : ℕ)
      → Chain node a b
      → Chain (insert_node n cap free node key value).node a b
  unfolding insert_node is_full
  insert_node-Chain zero free node a b h = h
  insert_node-Chain (suc n) free (leaf lk es) a b h = insert_leaf-Chain lk es free a b h
  insert_node-Chain (suc n) free (inner level c0 cs) a b h =
      let hop = strict_upper (separators cs) key in
      let child = child_at c0 cs hop in
      elim (Bool-cases (leb (cap_of cap child) (count_of child))) [
        | inr open_child ↦ rw open_child (
            set_child-Chain c0 cs hop (insert_node n cap free child key value).node a b
              (λ x y c. insert_node-Chain n free child x y c) h)
        | inl full ↦ elim (Bool-cases (free == 0)) [
          | inl none_left ↦ rw (full, none_left) h
          | inr some_left ↦
              let kids = split_child free c0 cs hop in
              let hop' = strict_upper (separators kids.1) key in
              let below = child_at kids.0 kids.1 hop' in
              let halved =
                split_child-Chain free c0 cs hop a b (ground (arith, some_left))
                  (strict_upper_le (separators cs) key) (ground (arith, full)) h in
              rw (full, some_left)
                (set_child-Chain kids.0 kids.1 hop'
                  (insert_node n cap (free - 1) below key value).node a b
                  (λ x y c. insert_node-Chain n (free - 1) below x y c) halved)
        ]
      ]

  insert_root-Chain :
      (free : ℕ) (root : Node) (a b : ℕ)
      → Chain root a b
      → Chain (insert_root cap free root key value).node a b
  unfolding insert_root
  insert_root-Chain free root a b h = elim (Bool-cases (is_full cap root)) [
    | inr open_root ↦ rw open_root (insert_node-Chain 64 free root a b h)
    | inl full ↦ elim (Bool-cases (free == 0)) [
      | inl none_left ↦ rw (full, none_left) h
      | inr some_left ↦
          rw (full, some_left)
            (insert_node-Chain 64 (free - 1) (inner (level_of root + 1) root nil) a b (b, h, refl))
    ]
  ]

  -- `Insert` keeps the leaves linked from left to right, whatever it answers, on every tree.
  pub insert-Linked :
      (free : ℕ) (root : Option Node) (count : ℕ)
      → Linked root
      → Linked (insert cap free (record { root = root; count = count }) key value).1.root
  unfolding insert
  insert-Linked free (some root) count h = (h.0, insert_root-Chain free root h.0 0 h.1)
  insert-Linked free none count h = elim (Bool-cases (free == 0)) [
    | inl none_left ↦ rw none_left tt
    | inr some_left ↦ rw some_left (
      free,
      insert_root-Chain (free - 1) (leaf (record { off = free; next_leaf = 0 }) []) free 0
          (refl, refl, ground (arith, some_left)),
    )
  ]

module _ (key : ℕ) where
  remove_leaf-Chain :
      (lk : Link) (es : List Entry) (a b : ℕ) (node : Node)
      → Chain (leaf lk es) a b
      → remove_leaf lk es key ≡ ok node
      → Chain node a b
  unfolding remove_leaf
  remove_leaf-Chain lk es a b node h e =
      elim (Bool-cases (hit es (lower_bound (keys es) key) key)) [
        | inl there ↦ subst (λ m. Chain m a b) (ok_node (rw there at e)) h
        | inr gone ↦ absurd (err_node (rw gone at e))
      ]

  remove_node-Chain :
      (n : ℕ) (node out : Node) (a b : ℕ)
      → Chain node a b
      → remove_node n node key ≡ ok out
      → Chain out a b
  unfolding remove_node
  remove_node-Chain zero node out a b h e = absurd (err_node e)
  remove_node-Chain (suc n) (leaf lk es) out a b h e = remove_leaf-Chain lk es a b out h e
  remove_node-Chain (suc n) (inner level c0 cs) out a b h e =
      let hop = strict_upper (separators cs) key in
      let child = child_at c0 cs hop in
      below (remove_node n child key) e (λ new x y c q. remove_node-Chain n child new x y c q)
    where
      below :
          (r : Result Node)
          → put_removed level c0 cs (strict_upper (separators cs) key) r ≡ ok out
          → ((new : Node) (x y : ℕ)
              → Chain (child_at c0 cs (strict_upper (separators cs) key)) x y
              → r ≡ ok new
              → Chain new x y)
          → Chain out a b
      below (err x) q f = absurd (err_node q)
      below (ok new) q f =
          subst (λ m. Chain m a b) (ok_node q)
            (set_child-Chain c0 cs (strict_upper (separators cs) key) new a b
              (λ x y c. f new x y c refl) h)

  -- `Remove` keeps them linked too.
  pub remove-Linked :
      (n : ℕ) (root : Option Node) (count : ℕ)
      → Linked root
      → Linked (remove n (record { root = root; count = count }) key).1.root
  unfolding remove
  remove-Linked n none count h = tt
  remove-Linked n (some root) count h = by_result (remove_node n root key) refl
    where
      by_result :
          (r : Result Node)
          → remove_node n root key ≡ r
          → Linked (uncounted (record { root = some root; count = count }) r).1.root
      by_result (err x) q = h
      by_result (ok node) q = (h.0, remove_node-Chain n root node h.0 0 h.1 q)

-- The trees that insertions and removals make of an empty one, whatever they answer; the allocator may have
-- any number of nodes at each.
pub data Built (cap : Capacity) : Tree → Type 0 where
  empty : Built cap (record { root = none; count = 0 })
  inserted :
      (free key value : ℕ) (t : Tree) → Built cap t → Built cap (insert cap free t key value).1
  removed : (n key : ℕ) (t : Tree) → Built cap t → Built cap (remove n t key).1

-- The leaves of such a tree are linked from left to right.
pub Built-Linked : (cap : Capacity) → 1 ≤ cap.inner → (t : Tree) → Built cap t → Linked t.root
Built-Linked cap r _ empty = tt
Built-Linked cap r _ (inserted free key value t b) =
    insert-Linked cap r key value free t.root t.count (Built-Linked cap r t b)
Built-Linked cap r _ (removed n key t b) =
    remove-Linked key n t.root t.count (Built-Linked cap r t b)
