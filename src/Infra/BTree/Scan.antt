-- ===== src/Infra/BTree/Scan.antt =====
-- A range read over the list of the leaves, against the sorted list of the entries.
use rtdb_common.Common.{
  ℕ, zero, suc, ◌+◌, ◌≤◌, ◌<◌, ◌≡◌, refl, sym, ap, ◌∙◌, arith, List, [], ◌∷◌, ◌++◌, append_assoc,
  append-nil, Bool, true, false, not, ◌&&◌, ◌||◌, length, get_or, drop, drop_all, leb, ltb, ◌==◌,
  if◌then◌else◌, Bool-cases, ◌⊎◌, inl, inr,
}
use mathlib.Core.Path.{subst}
use rtdb_common.Infra.BTree.{Entry, no_entry, Node, leaf, inner, Children, nil, cons}
use rtdb_common.Infra.BTree.Invariant.{contents, contents_behind}
use rtdb_common.Infra.BTree.Listed.{
  ListCursor, leaves, leaves_behind, check_list, load_list, advance_list, read_list,
}

abbrev pub flat : List (List Entry) → List Entry
flat [] = []
flat (es ∷ rest) = es ++ flat rest

pub flat-append : (xs ys : List (List Entry)) → flat (xs ++ ys) ≡ flat xs ++ flat ys
flat-append [] ys = refl
flat-append (es ∷ xs) ys =
    ap (λ l. es ++ l) (flat-append xs ys) ∙ sym (append_assoc es (flat xs) (flat ys))

mutual
  unfolding leaves leaves_behind contents contents_behind

  flat-leaves : (node : Node) → flat (leaves node) ≡ contents node
  flat-leaves (leaf lk es) = append-nil es
  flat-leaves (inner level c0 cs) =
      flat-append (leaves c0) (leaves_behind cs)
      ∙ (ap (λ l. l ++ flat (leaves_behind cs)) (flat-leaves c0)
          ∙ ap (λ l. contents c0 ++ l) (flat-leaves_behind cs))

  flat-leaves_behind : (cs : Children) → flat (leaves_behind cs) ≡ contents_behind cs
  flat-leaves_behind nil = refl
  flat-leaves_behind (cons k c cs) =
      flat-append (leaves c) (leaves_behind cs)
      ∙ (ap (λ l. l ++ flat (leaves_behind cs)) (flat-leaves c)
          ∙ ap (λ l. contents c ++ l) (flat-leaves_behind cs))

-- A node's leaves hold its entries.
pub flat-leaves_children : (cs : Children) → flat (leaves_behind cs) ≡ contents_behind cs
flat-leaves_children cs = flat-leaves_behind cs

drop-get_or :
    (i : ℕ) (es : List Entry) → i < length es → drop i es ≡ get_or es i no_entry ∷ drop (suc i) es
drop-get_or i [] h = absurd (omega (arith, h))
drop-get_or zero (e ∷ es) h = refl
drop-get_or (suc i) (e ∷ es) h = drop-get_or i es (omega (arith, h))

module _ (hi : ℕ) (incl : Bool) where
  abbrev pub past : ℕ → Bool
  past key = ltb hi key || ((key == hi) && not incl)

  -- The entries up to the first one past the upper end.
  abbrev pub until : List Entry → List Entry
  until [] = []
  until (e ∷ es) = if past e.key then [] else e ∷ until es

  -- A cursor with these entries in front of it.
  pub record At (all : List Entry) (c : ListCursor) (e : Entry) (es : List Entry) : Type 0 where
    parts : all ≡ e ∷ es
    entry_is : c.entry ≡ e
    valid_is : c.valid ≡ not (past e.key)
    further : drop (c.idx + 1) c.leaf ++ flat c.next ≡ es
    hi_is : c.hi ≡ hi
    incl_is : c.hi_incl ≡ incl

  abbrev pub Loaded : List Entry → ListCursor → Type 0
  Loaded all c =
      ((all ≡ []) × (c.valid ≡ false)) ⊎ ((e : Entry) × (es : List Entry) × At all c e es)

  check_list-Loaded :
      (es : List Entry) (idx : ℕ) (next : List (List Entry))
      → idx < length es
      → Loaded (drop idx es ++ flat next) (check_list es idx next hi incl)
  unfolding check_list
  check_list-Loaded es idx next h = inr (
    get_or es idx no_entry,
    drop (idx + 1) es ++ flat next,
    record {
      parts = ap (λ l. l ++ flat next) (here ∙ next_idx);
      entry_is = refl;
      valid_is = refl;
      further = refl;
      hi_is = refl;
      incl_is = refl;
    },
  )
    where
      here : drop idx es ≡ get_or es idx no_entry ∷ drop (suc idx) es
      here = drop-get_or idx es h

      next_idx :
          get_or es idx no_entry ∷ drop (suc idx) es ≡ get_or es idx no_entry ∷ drop (idx + 1) es
      next_idx =
          ap (λ j. get_or es idx no_entry ∷ drop j es) {x = suc idx} {y = idx + 1} (omega arith)

  pub load_list-Loaded :
      (next : List (List Entry)) (es : List Entry) (idx : ℕ)
      → Loaded (drop idx es ++ flat next) (load_list next es idx hi incl)
  unfolding load_list
  load_list-Loaded [] es idx = elim (Bool-cases (leb (length es) idx)) [
    | inl out ↦
        rw out (inl (append-nil (drop idx es) ∙ drop_all idx es (ground (arith, out)), refl))
    | inr inside ↦ rw inside (check_list-Loaded es idx [] (ground (arith, inside)))
  ]
  load_list-Loaded (l ∷ ls) es idx = elim (Bool-cases (leb (length es) idx)) [
    | inl out ↦
        let none_here : drop idx es ≡ [] = drop_all idx es (ground (arith, out)) in
        rw (out, none_here) (load_list-Loaded ls l 0)
    | inr inside ↦ rw inside (check_list-Loaded es idx (l ∷ ls) (ground (arith, inside)))
  ]

  advance_list-Loaded :
      (c : ListCursor) (e : Entry) (all es : List Entry)
      → At all c e es
      → c.valid ≡ true
      → Loaded es (advance_list c)
  unfolding advance_list
  advance_list-Loaded c e all es at valid =
      rw (valid, at.hi_is, at.incl_is)
        (subst (λ l. Loaded l (load_list c.next c.leaf (c.idx + 1) hi incl)) at.further
          (load_list-Loaded c.next c.leaf (c.idx + 1)))

  -- Reading on from a cursor.
  pub read_list-until :
      (n : ℕ) (all : List Entry) (c : ListCursor)
      → Loaded all c
      → length all ≤ n
      → read_list n c ≡ until all
  unfolding read_list
  read_list-until zero all c (inl gone) h = rw gone.0 refl
  read_list-until (suc n) all c (inl gone) h = rw (gone.0, gone.1) refl
  read_list-until zero all c (inr (e, es, at)) h = absurd (omega (arith, h, ap length at.parts))
  read_list-until (suc n) all c (inr (e, es, at)) h = elim (Bool-cases (past e.key)) [
    | inl out ↦
        let invalid : c.valid ≡ false = at.valid_is ∙ ap not out in rw (at.parts, invalid, out) refl
    | inr inside ↦
        let valid : c.valid ≡ true = at.valid_is ∙ ap not inside in
        let fewer : length es ≤ n = omega (arith, h, ap length at.parts) in
        let rest : read_list n (advance_list c) ≡ until es =
          read_list-until n es (advance_list c) (advance_list-Loaded c e all es at valid) fewer in
        rw (at.parts, inside, rest, at.entry_is, valid) refl
  ]
