-- ===== src/Infra/BTree/Descent.antt =====
-- One step down the tree of src/infra/shared_btree.hpp: the child that `StrictUpper` chooses, what lies
-- around it, and the node with this child changed or split.
use rtdb_common.Common.{
  ℕ, zero, suc, ◌≤◌, ◌<◌, ◌≡◌, refl, sym, ap, ◌∙◌, arith, List, [], ◌++◌, append-nil, append_assoc,
  length, leb, Bool-cases, inl, inr, ◌⊎◌,
}
use rtdb_common.Infra.BTree.Search.{rank, Parts, Fails, strict_upper, strict_upper-rank}
use rtdb_common.Infra.BTree.{
  Entry, Node, Children, nil, cons, separators, child_at, set_child, insert_child, drop_children,
}
use rtdb_common.Infra.BTree.Contents.{
  Sorted, Below, Above, Below-append, Sorted-append, Sorted-Below, Sorted-Above,
}
use rtdb_common.Infra.BTree.Invariant.{contents, contents_behind, all_contents, Kids}

-- A child where the key belongs, the entries in front of it and behind it, and what the node becomes
-- with another child in its place or with two: `P` holds of the children before, `After` afterwards.
pub record Place (P After : ℕ → ℕ → Node → Type 0) (key lo hi : ℕ) (c0 : Node) (cs : Children)
    (i : ℕ) : Type 0 where
  pub from : ℕ
  pub to : ℕ
  pub pre : List Entry
  pub post : List Entry
  pub post_is : post ≡ contents_behind (drop_children i cs)
  pub inside : P from to (child_at c0 cs i)
  pub from_le : from ≤ key
  pub to_gt : key < to
  pub below : Below key pre
  pub above : Above key post
  pub whole : all_contents c0 cs ≡ pre ++ (contents (child_at c0 cs i) ++ post)
  pub put :
      (new : Node)
      → After from to new
      → let kids = set_child c0 cs i new in
        Kids After lo hi kids.0 kids.1
        × (all_contents kids.0 kids.1 ≡ pre ++ (contents new ++ post))
        × (length (separators kids.1) ≡ length (separators cs))
  pub halve :
      (left : Node) (sep : ℕ) (right : Node)
      → After from sep left
      → from < sep
      → sep < to
      → After sep to right
      → let kids = set_child c0 cs i left in
        Kids After lo hi kids.0 (insert_child kids.1 i sep right)
        × (all_contents kids.0 (insert_child kids.1 i sep right)
            ≡ pre ++ ((contents left ++ contents right) ++ post))
        × (length (separators (insert_child kids.1 i sep right)) ≡ suc (length (separators cs)))

module _ (P : ℕ → ℕ → Node → Type 0)
    (bounds : (lo hi : ℕ) (node : Node) → P lo hi node → Sorted lo hi (contents node)) where
  pub Kids-Sorted :
      (lo hi : ℕ) (c0 : Node) (cs : Children)
      → Kids P lo hi c0 cs
      → Sorted lo hi (all_contents c0 cs)
  unfolding contents_behind
  Kids-Sorted lo hi c0 nil kids = rw (append-nil (contents c0)) (bounds lo hi c0 kids)
  Kids-Sorted lo hi c0 (cons k c cs) kids =
      Sorted-append lo k hi (contents c0) (all_contents c cs) (bounds lo k c0 kids.0)
        (Kids-Sorted k hi c cs kids.3)

  Kids-Fails :
      (key lo hi : ℕ) (c0 : Node) (cs : Children)
      → Kids P lo hi c0 cs
      → key ≤ lo
      → Fails (λ k. leb k key) (separators cs)
  Kids-Fails key lo hi c0 nil kids h i l = absurd (omega (arith, l))
  Kids-Fails key lo hi c0 (cons k c cs) kids h zero l = ground (arith, kids.1, h)
  Kids-Fails key lo hi c0 (cons k c cs) kids h (suc i) l =
      Kids-Fails key k hi c cs kids.3 (omega (arith, kids.1, h)) i (omega (arith, l))

  Kids-Parts :
      (key lo hi : ℕ) (c0 : Node) (cs : Children)
      → Kids P lo hi c0 cs
      → Parts (λ k. leb k key) (separators cs)
  Kids-Parts key lo hi c0 nil kids = tt
  Kids-Parts key lo hi c0 (cons k c cs) kids =
      (λ gt. Kids-Fails key k hi c cs kids.3 (ground (arith, gt)), Kids-Parts key k hi c cs kids.3)

  module _ (key : ℕ) (After : ℕ → ℕ → Node → Type 0)
      (aside : (lo hi : ℕ) (node : Node)
        → (key < lo) ⊎ (hi ≤ key)
        → P lo hi node
        → After lo hi node) where
    Kids-aside :
        (lo hi : ℕ) (c0 : Node) (cs : Children)
        → key < lo
        → Kids P lo hi c0 cs
        → Kids After lo hi c0 cs
    Kids-aside lo hi c0 nil h kids = aside lo hi c0 (inl h) kids
    Kids-aside lo hi c0 (cons k c cs) h kids = (
      aside lo k c0 (inl h) kids.0,
      kids.1,
      kids.2,
      Kids-aside k hi c cs (omega (arith, h, kids.1)) kids.3,
    )

    -- The first child, where the key is in front of every separator.
    Place-first :
        (lo hi k : ℕ) (c0 c : Node) (cs : Children)
        → Kids P lo hi c0 (cons k c cs)
        → lo ≤ key
        → key < k
        → Place P After key lo hi c0 (cons k c cs) 0
    unfolding child_at set_child insert_child drop_children contents_behind
    Place-first lo hi k c0 c cs kids a b = record {
      from = lo;
      to = k;
      pre = [];
      post = all_contents c cs;
      post_is = refl;
      inside = kids.0;
      from_le = a;
      to_gt = b;
      below = tt;
      above = Sorted-Above k hi key (all_contents c cs) (Kids-Sorted k hi c cs kids.3) b;
      whole = refl;
      put = λ new p. ((p, kids.1, kids.2, others), refl, refl);
      halve = λ left sep right p f t q. (
        (p, f, omega (arith, t, kids.2), (q, t, kids.2, others)),
        sym (append_assoc (contents left) (contents right) (all_contents c cs)),
        refl,
      );
    }
      where
        others : Kids After k hi c cs
        others = Kids-aside k hi c cs b kids.3

    -- A further child, found among the children behind the first.
    Place-next :
        (lo hi k : ℕ) (c0 c : Node) (cs : Children) (i : ℕ)
        → Kids P lo hi c0 (cons k c cs)
        → k ≤ key
        → Place P After key k hi c cs i
        → Place P After key lo hi c0 (cons k c cs) (suc i)
    unfolding child_at set_child insert_child drop_children contents_behind
    Place-next lo hi k c0 c cs i kids h p = record {
      from = p.from;
      to = p.to;
      pre = contents c0 ++ p.pre;
      post = p.post;
      post_is = p.post_is;
      inside = p.inside;
      from_le = p.from_le;
      to_gt = p.to_gt;
      below =
          Below-append key (contents c0) p.pre
            (Sorted-Below lo k key (contents c0) (bounds lo k c0 kids.0) h) p.below;
      above = p.above;
      whole = behind (contents (child_at c cs i) ++ p.post) p.whole;
      put = λ new q.
          let rest = p.put new q in
          ((first, kids.1, kids.2, rest.0), behind (contents new ++ p.post) rest.1, ap suc rest.2);
      halve = λ left sep right q f t r.
          let rest = p.halve left sep right q f t r in
          (
            (first, kids.1, kids.2, rest.0),
            behind ((contents left ++ contents right) ++ p.post) rest.1,
            ap suc rest.2,
          );
    }
      where
        first : After lo k c0
        first = aside lo k c0 (inr h) kids.0

        behind :
            {xs : List Entry} (ys : List Entry)
            → xs ≡ p.pre ++ ys
            → contents c0 ++ xs ≡ (contents c0 ++ p.pre) ++ ys
        behind ys eq = ap (λ l. contents c0 ++ l) eq ∙ sym (append_assoc (contents c0) p.pre ys)

    Place-of :
        (lo hi : ℕ) (c0 : Node) (cs : Children)
        → Kids P lo hi c0 cs
        → lo ≤ key
        → key < hi
        → Place P After key lo hi c0 cs (rank (λ k. leb k key) (separators cs))
    unfolding child_at set_child insert_child drop_children contents_behind
    Place-of lo hi c0 nil kids a b = record {
      from = lo;
      to = hi;
      pre = [];
      post = [];
      post_is = refl;
      inside = kids;
      from_le = a;
      to_gt = b;
      below = tt;
      above = tt;
      whole = refl;
      put = λ new p. (p, refl, refl);
      halve = λ left sep right p f t q.
          ((p, f, t, q), sym (append_assoc (contents left) (contents right) []), refl);
    }
    Place-of lo hi c0 (cons k c cs) kids a b = elim (Bool-cases (leb k key)) [
      | inl le ↦ rw le (
          Place-next lo hi k c0 c cs _ kids (ground (arith, le))
            (Place-of k hi c cs kids.3 (ground (arith, le)) b))
      | inr gt ↦ rw gt (Place-first lo hi k c0 c cs kids a (ground (arith, gt)))
    ]

    -- The place that `StrictUpper` finds.
    pub hop-Place :
        (lo hi : ℕ) (c0 : Node) (cs : Children)
        → Kids P lo hi c0 cs
        → lo ≤ key
        → key < hi
        → Place P After key lo hi c0 cs (strict_upper (separators cs) key)
    hop-Place lo hi c0 cs kids a b =
        rw (strict_upper-rank (separators cs) key (Kids-Parts key lo hi c0 cs kids))
          (Place-of lo hi c0 cs kids a b)
