-- ===== src/Infra/BTree/Ends.antt =====
-- The ends of a range read of src/infra/shared_btree.hpp, on sorted lists of entries.
use rtdb_common.Common.{
  ℕ, zero, suc, ◌≤◌, ◌<◌, ◌≡◌, refl, sym, ap, ◌∙◌, arith, List, [], ◌∷◌, ◌++◌, Bool, true, false,
  not, ◌&&◌, ◌||◌, length, drop, leb, ltb, ◌==◌, if◌then◌else◌, Bool-cases, inl, inr,
}
use rtdb_common.Infra.BTree.{Entry, keys}
use rtdb_common.Infra.BTree.Search.{
  rank, Parts, Fails, lower_bound, strict_upper, strict_upper-rank, lower_bound-rank,
}
use rtdb_common.Infra.BTree.Contents.{Sorted, Below, Above}
use rtdb_common.Infra.BTree.Leaf.{Sorted-Parts}
use rtdb_common.Infra.BTree.Scan.{past, until}

-- The entries behind those in front that pass the test.
abbrev pub from : (ℕ → Bool) → List Entry → List Entry
from before [] = []
from before (e ∷ es) = if before e.key then from before es else e ∷ es

-- In front of the lower end.
abbrev pub early : ℕ → Bool → ℕ → Bool
early lo incl key = if incl then ltb key lo else leb key lo

-- The entries of a range.
abbrev pub in_range : ℕ → Bool → ℕ → Bool → List Entry → List Entry
in_range lo lo_incl hi hi_incl [] = []
in_range lo lo_incl hi hi_incl (e ∷ es) =
    let rest = in_range lo lo_incl hi hi_incl es in
    if not (early lo lo_incl e.key) && not (past hi hi_incl e.key) then e ∷ rest else rest

drop-rank : (before : ℕ → Bool) (es : List Entry) → drop (rank before (keys es)) es ≡ from before es
drop-rank before [] = refl
drop-rank before (e ∷ es) = elim (Bool-cases (before e.key)) [
  | inl passes ↦ rw passes (drop-rank before es)
  | inr fails ↦ rw fails refl
]

module _ (lo : ℕ) (incl : Bool) where
  pub from-append :
      (xs ys : List Entry) → Below lo xs → from (early lo incl) (xs ++ ys) ≡ from (early lo incl) ys
  from-append [] ys b = refl
  from-append (e ∷ xs) ys b =
      let before : early lo incl e.key ≡ true = below_early incl e.key b.0 in
      rw before (from-append xs ys b.1)
    where
      below_early : (incl : Bool) (key : ℕ) → key < lo → early lo incl key ≡ true
      below_early true key h = ground (arith, h)
      below_early false key h = ground (arith, h)

  from-Above : (es : List Entry) → Above lo es → from (early lo incl) es ≡ es
  from-Above [] a = refl
  from-Above (e ∷ es) a =
      let kept : early lo incl e.key ≡ false = above_early incl e.key a.0 in rw kept refl
    where
      above_early : (incl : Bool) (key : ℕ) → lo < key → early lo incl key ≡ false
      above_early true key h = ground (arith, h)
      above_early false key h = ground (arith, h)

  pub from-between :
      (xs ys : List Entry)
      → Above lo ys
      → from (early lo incl) (xs ++ ys) ≡ from (early lo incl) xs ++ ys
  from-between [] ys a = from-Above ys a
  from-between (e ∷ xs) ys a = elim (Bool-cases (early lo incl e.key)) [
    | inl passes ↦ rw passes (from-between xs ys a)
    | inr fails ↦ rw fails refl
  ]

  Sorted-Fails_le :
      (l h : ℕ) (es : List Entry) → Sorted l h es → lo < l → Fails (λ k. leb k lo) (keys es)
  Sorted-Fails_le l h [] s b i small = absurd (omega (arith, small))
  Sorted-Fails_le l h (e ∷ es) s b zero small = ground (arith, s.0, b)
  Sorted-Fails_le l h (e ∷ es) s b (suc i) small =
      Sorted-Fails_le (suc e.key) h es s.1 (omega (arith, s.0, b)) i (omega (arith, small))

  Sorted-Parts_le : (l h : ℕ) (es : List Entry) → Sorted l h es → Parts (λ k. leb k lo) (keys es)
  Sorted-Parts_le l h [] s = tt
  Sorted-Parts_le l h (e ∷ es) s = (
    λ gt. Sorted-Fails_le (suc e.key) h es s.1 (ground (arith, gt)),
    Sorted-Parts_le (suc e.key) h es s.1,
  )

abbrev pub first_slot : List ℕ → ℕ → Bool → ℕ
first_slot ks lo incl = if incl then lower_bound ks lo else strict_upper ks lo

pub drop-first_slot :
    (incl : Bool) (lo l h : ℕ) (es : List Entry)
    → Sorted l h es
    → drop (first_slot (keys es) lo incl) es ≡ from (early lo incl) es
drop-first_slot true lo l h es s =
    rw (lower_bound-rank (keys es) lo (Sorted-Parts l h lo es s)) (drop-rank (λ k. ltb k lo) es)
drop-first_slot false lo l h es s =
    rw (strict_upper-rank (keys es) lo (Sorted-Parts_le lo false l h es s))
      (drop-rank (λ k. leb k lo) es)

early_mono :
    (incl : Bool) (lo k k' : ℕ) → early lo incl k ≡ false → k ≤ k' → early lo incl k' ≡ false
early_mono true lo k k' e h = ground (arith, e, h)
early_mono false lo k k' e h = ground (arith, e, h)

past_mono : (incl : Bool) (hi k k' : ℕ) → past hi incl k ≡ true → k ≤ k' → past hi incl k' ≡ true
past_mono true hi k k' e h = ground (arith, e, h)
past_mono false hi k k' e h = ground (arith, e, h)

module _ (lo : ℕ) (lo_incl : Bool) (hi : ℕ) (hi_incl : Bool) where
  in_range-past :
      (l h : ℕ) (es : List Entry)
      → Sorted l h es
      → past hi hi_incl l ≡ true
      → in_range lo lo_incl hi hi_incl es ≡ []
  in_range-past l h [] s out = refl
  in_range-past l h (e ∷ es) s out =
      let here : past hi hi_incl e.key ≡ true = past_mono hi_incl hi l e.key out s.0 in
      let rest : in_range lo lo_incl hi hi_incl es ≡ [] =
        in_range-past (suc e.key) h es s.1
          (past_mono hi_incl hi e.key (suc e.key) here (omega arith)) in
      rw (here, rest) (never (not (early lo lo_incl e.key)))
    where
      never : (b : Bool) → (if b && false then e ∷ [] else []) ≡ []
      never true = refl
      never false = refl

  until-in_range :
      (l h : ℕ) (es : List Entry)
      → Sorted l h es
      → early lo lo_incl l ≡ false
      → until hi hi_incl es ≡ in_range lo lo_incl hi hi_incl es
  until-in_range l h [] s late = refl
  until-in_range l h (e ∷ es) s late =
      let here : early lo lo_incl e.key ≡ false = early_mono lo_incl lo l e.key late s.0 in
      elim (Bool-cases (past hi hi_incl e.key)) [
        | inl out ↦
            rw (here, out)
              (sym (
                in_range-past (suc e.key) h es s.1
                  (past_mono hi_incl hi e.key (suc e.key) out (omega arith))))
        | inr inside ↦
            rw (here, inside)
              (ap (λ l. e ∷ l)
                (until-in_range (suc e.key) h es s.1
                  (early_mono lo_incl lo e.key (suc e.key) here (omega arith))))
      ]

  pub until-from :
      (l h : ℕ) (es : List Entry)
      → Sorted l h es
      → until hi hi_incl (from (early lo lo_incl) es) ≡ in_range lo lo_incl hi hi_incl es
  until-from l h [] s = refl
  until-from l h (e ∷ es) s = elim (Bool-cases (early lo lo_incl e.key)) [
    | inl soon ↦ rw soon (until-from (suc e.key) h es s.1)
    | inr late ↦
        let kept : from (early lo lo_incl) (e ∷ es) ≡ e ∷ es = rw late refl in
        ap (λ l. until hi hi_incl l) kept ∙ until-in_range e.key h (e ∷ es) (omega arith, s.1) late
  ]

pub in_range-empty :
    (lo : ℕ) (lo_incl : Bool) (hi : ℕ) (hi_incl : Bool) (es : List Entry)
    → (ltb hi lo || ((lo == hi) && not (lo_incl && hi_incl))) ≡ true
    → in_range lo lo_incl hi hi_incl es ≡ []
in_range-empty lo lo_incl hi hi_incl [] e = refl
in_range-empty lo lo_incl hi hi_incl (x ∷ es) e =
    rw (out lo_incl hi_incl e, in_range-empty lo lo_incl hi hi_incl es e) refl
  where
    out :
        (lo_incl hi_incl : Bool)
        → (ltb hi lo || ((lo == hi) && not (lo_incl && hi_incl))) ≡ true
        → (not (early lo lo_incl x.key) && not (past hi hi_incl x.key)) ≡ false
    out true true e = ground (arith, e)
    out true false e = ground (arith, e)
    out false true e = ground (arith, e)
    out false false e = ground (arith, e)

pub length-from : (before : ℕ → Bool) (es : List Entry) → length (from before es) ≤ length es
length-from before [] = omega arith
length-from before (e ∷ es) = elim (Bool-cases (before e.key)) [
  | inl passes ↦ rw passes (omega (arith, length-from before es))
  | inr fails ↦ rw fails (omega arith)
]
