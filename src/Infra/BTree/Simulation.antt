-- ===== src/Infra/BTree/Simulation.antt =====
-- A cursor of src/infra/shared_btree.hpp that follows the stored links meets the leaves of the tree from
-- left to right.
use rtdb_common.Common.{
  ℕ, zero, suc, ◌+◌, ◌≤◌, ◌<◌, ◌≡◌, refl, sym, ap, ◌∙◌, arith, List, [], ◌∷◌, ◌++◌, append-nil,
  append_assoc, Bool, true, false, if◌then◌else◌, length, length-append, leb, ◌==◌, Bool-cases, inl,
  inr, Option, none, some,
}
use mathlib.Core.Path.{subst}
use rtdb_common.Infra.BTree.{
  Entry, Node, leaf, inner, Children, nil, cons, Capacity, separators, child_at, drop_children,
}
use rtdb_common.Infra.BTree.Search.{strict_upper}
use rtdb_common.Infra.BTree.Invariant.{Valid}
use rtdb_common.Infra.BTree.Laws.{Valid-Place}
use rtdb_common.Infra.BTree.Links.{Chain, ChainBehind, child_at-Chain}
use rtdb_common.Infra.BTree.Range.{Image, Cursor, check, load, advance, seek_leaf, read_all}
use rtdb_common.Infra.BTree.Listed.{
  ListCursor, leaves, leaves_behind, check_list, load_list, advance_list, seek_list, read_list,
}

-- The image holds the leaves below the node under their names.
abbrev mutual
  pub Holds : Image → Node → Type 0
  Holds img (leaf lk es) = ((img lk.off).next_leaf ≡ lk.next_leaf) × ((img lk.off).entries ≡ es)
  Holds img (inner level c0 cs) = Holds img c0 × HoldsBehind img cs

  pub HoldsBehind : Image → Children → Type 0
  HoldsBehind img nil = Unit
  HoldsBehind img (cons k c cs) = Holds img c × HoldsBehind img cs

abbrev pub HoldsTree : Image → Option Node → Type 0
HoldsTree img none = Unit
HoldsTree img (some root) = Holds img root

-- From the leaf `off` on, with entries `es`, the links lead to leaves with these entries, and the last
-- one to `b`.
abbrev pub Leads : Image → ℕ → ℕ → List Entry → List (List Entry) → Type 0
Leads img b off es [] = ((img off).entries ≡ es) × ((img off).next_leaf ≡ b)
Leads img b off es (l ∷ ls) =
    ((img off).entries ≡ es) × (1 ≤ (img off).next_leaf) × Leads img b (img off).next_leaf l ls

module _ (img : Image) where
  Leads-append :
      (m b off : ℕ) (es l : List Entry) (ls more : List (List Entry))
      → Leads img m off es ls
      → 1 ≤ m
      → Leads img b m l more
      → Leads img b off es (ls ++ (l ∷ more))
  Leads-append m b off es l [] more h p q =
      (h.0, subst (λ x. 1 ≤ x) (sym h.1) p, subst (λ x. Leads img b x l more) (sym h.1) q)
  Leads-append m b off es l (k ∷ ls) more h p q =
      (h.0, h.1, Leads-append m b (img off).next_leaf k l ls more h.2 p q)

  -- The leaves of a node as the image links them.
  record Led (ls : List (List Entry)) (a b : ℕ) : Type 0 where
    named : 1 ≤ a
    first : List Entry
    more : List (List Entry)
    parts : ls ≡ first ∷ more
    leads : Leads img b a first more

  mutual
    unfolding leaves leaves_behind

    leaves-Led : (node : Node) (a b : ℕ) → Chain node a b → Holds img node → Led (leaves node) a b
    leaves-Led (leaf lk es) a b h s = record {
      named = h.2;
      first = es;
      more = [];
      parts = refl;
      leads = (
        sym (ap (λ x. (img x).entries) h.0) ∙ s.1,
        sym (ap (λ x. (img x).next_leaf) h.0) ∙ s.0 ∙ h.1,
      );
    }
    leaves-Led (inner level c0 cs) a b h s =
        let front = leaves-Led c0 a h.0 h.1 s.0 in
        record {
          named = front.named;
          first = front.first;
          more = front.more ++ leaves_behind cs;
          parts = ap (λ l. l ++ leaves_behind cs) front.parts;
          leads = behind-Leads cs h.0 b a front.first front.more front.leads h.2 s.1;
        }

    behind-Leads :
        (cs : Children) (m b off : ℕ) (es : List Entry) (ls : List (List Entry))
        → Leads img m off es ls
        → ChainBehind cs m b
        → HoldsBehind img cs
        → Leads img b off es (ls ++ leaves_behind cs)
    behind-Leads nil m b off es ls h c s =
        subst (Leads img b off es) (sym (append-nil ls)) (subst (λ x. Leads img x off es ls) c h)
    behind-Leads (cons k c cs) m b off es ls h q s =
        let here = leaves-Led c m q.0 q.1 s.0 in
        let joined = Leads-append m q.0 off es here.first ls here.more h here.named here.leads in
        let rest = behind-Leads cs q.0 b off es (ls ++ (here.first ∷ here.more)) joined q.2 s.1 in
        subst (Leads img b off es)
          (append_assoc ls (here.first ∷ here.more) (leaves_behind cs)
            ∙ ap (λ l. ls ++ (l ++ leaves_behind cs)) (sym here.parts))
          rest

  child_at-Holds :
      (c0 : Node) (cs : Children) (i : ℕ)
      → Holds img c0
      → HoldsBehind img cs
      → Holds img (child_at c0 cs i) × HoldsBehind img (drop_children i cs)
  unfolding child_at drop_children
  child_at-Holds c0 cs zero h s = (h, s)
  child_at-Holds c0 nil (suc i) h s = (h, tt)
  child_at-Holds c0 (cons k c cs) (suc i) h s = child_at-Holds c cs i s.0 s.1

length-child_at :
    (c0 : Node) (cs : Children) (i : ℕ)
    → length (leaves (child_at c0 cs i)) + length (leaves_behind (drop_children i cs))
      ≤ length (leaves c0 ++ leaves_behind cs)
unfolding child_at drop_children leaves leaves_behind
length-child_at c0 cs zero = omega (arith, length-append (leaves c0) (leaves_behind cs))
length-child_at c0 nil (suc i) = omega (arith, length-append (leaves c0) [])
length-child_at c0 (cons k c cs) (suc i) =
    omega (arith, length-child_at c cs i, length-append (leaves c0) (leaves c ++ leaves_behind cs))

module _ (cap : Capacity) (img : Image) (lo : ℕ) where
  -- The descent for the lower end arrives at a leaf that is linked to the leaves behind it.
  pub seek-Leads :
      (h n l u a b : ℕ) (node : Node)
      → Valid cap h l u node
      → h < n
      → l ≤ lo
      → lo < u
      → Chain node a b
      → Holds img node
      → Leads img b (seek_leaf n node lo).0 (seek_list n node lo).0 (seek_list n node lo).1
        × ((seek_leaf n node lo).1 ≡ (seek_list n node lo).0)
        × (suc (length (seek_list n node lo).1) ≤ length (leaves node))
  unfolding seek_leaf seek_list leaves
  seek-Leads h zero l u a b node v deep x y c s = absurd (omega (arith, deep))
  seek-Leads zero (suc n) l u a b (leaf lk es) v deep x y c s =
      ((s.1, s.0 ∙ c.1), refl, omega arith)
  seek-Leads zero (suc n) l u a b (inner level c0 cs) v deep x y c s = absurd v
  seek-Leads (suc h) (suc n) l u a b (leaf lk es) v deep x y c s = absurd v
  seek-Leads (suc h) (suc n) l u a b (inner level c0 cs) v deep x y c s =
      let hop = strict_upper (separators cs) lo in
      let p = Valid-Place cap lo h l u c0 cs v.2 x y in
      let child = child_at c0 cs hop in
      let at = child_at-Chain c0 cs hop a b c in
      let held = child_at-Holds img c0 cs hop s.0 s.1 in
      let below =
        seek-Leads h n p.from p.to at.0 at.1 child p.inside (omega (arith, deep)) p.from_le p.to_gt
          at.2 held.0 in
      let behind = leaves_behind (drop_children hop cs) in
      (
        behind-Leads img (drop_children hop cs) at.1 b (seek_leaf n child lo).0
            (seek_list n child lo).0 (seek_list n child lo).1 below.0 at.3 held.1,
        below.1,
        omega (
          arith,
          below.2,
          length-child_at c0 cs hop,
          length-append (seek_list n child lo).1 behind,
        ),
      )

module _ (img : Image) (n : ℕ) where
  -- A cursor on the image stands where one on the list of the leaves does.
  pub record Same (c : Cursor) (d : ListCursor) : Type 0 where
    pub valid : c.valid ≡ d.valid
    pub entry : c.entry ≡ d.entry
    pub place : (c.idx ≡ d.idx) × (c.hi ≡ d.hi) × (c.hi_incl ≡ d.hi_incl)
    pub leads : d.valid ≡ true → Leads img 0 c.leaf d.leaf d.next × (length d.next < n)

  pub load-Same :
      (k off : ℕ) (es : List Entry) (ls : List (List Entry)) (idx hi : ℕ) (incl : Bool)
      → Leads img 0 off es ls
      → length ls < k
      → k ≤ n
      → Same (load k img off idx hi incl) (load_list ls es idx hi incl)
  unfolding load load_list check check_list
  load-Same zero off es ls idx hi incl h l m = absurd (omega (arith, l))
  load-Same (suc k) off es [] idx hi incl h l m = elim (Bool-cases (leb (length es) idx)) [
    | inl out ↦
        rw (h.0, out, h.1)
          (record { valid = refl; entry = refl; place = (refl, refl, refl); leads = λ e. cc })
    | inr inside ↦
        rw (h.0, inside)
          (record {
            valid = refl;
            entry = refl;
            place = (refl, refl, refl);
            leads = λ e. (h, omega (arith, l, m));
          })
  ]
  load-Same (suc k) off es (x ∷ ls) idx hi incl h l m = elim (Bool-cases (leb (length es) idx)) [
    | inl out ↦
        let linked : ((img off).next_leaf == 0) ≡ false = ground (arith, h.1) in
        rw (h.0, out, linked)
          (load-Same k (img off).next_leaf x ls 0 hi incl h.2 (omega (arith, l)) (omega (arith, m)))
    | inr inside ↦
        rw (h.0, inside)
          (record {
            valid = refl;
            entry = refl;
            place = (refl, refl, refl);
            leads = λ e. (h, omega (arith, l, m));
          })
  ]

  advance-Same : (c : Cursor) (d : ListCursor) → Same c d → Same (advance n img c) (advance_list d)
  unfolding advance advance_list
  advance-Same c d s = elim (Bool-cases d.valid) [
    | inr ended_there ↦
        let ended_here : c.valid ≡ false = s.valid ∙ ended_there in simp (ended_here, ended_there) s
    | inl there ↦
        let here : c.valid ≡ true = s.valid ∙ there in
        let on = s.leads there in
        rw (here, there, s.place.0, s.place.1, s.place.2)
          (load-Same n c.leaf d.leaf d.next (d.idx + 1) d.hi d.hi_incl on.0 on.1 (omega arith))
  ]

  pub read_all-Same :
      (m : ℕ) (c : Cursor) (d : ListCursor) → Same c d → read_all m n img c ≡ read_list m d
  unfolding read_all read_list
  read_all-Same zero c d s = refl
  read_all-Same (suc m) c d s =
      let rest = read_all-Same m (advance n img c) (advance_list d) (advance-Same c d s) in
      let on = read_all m n img (advance n img c) in
      ap (λ b. if b then c.entry ∷ on else []) s.valid
      ∙ ap (λ e. if d.valid then e ∷ on else []) s.entry
      ∙ ap (λ l. if d.valid then d.entry ∷ l else []) rest
