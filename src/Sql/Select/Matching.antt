-- ===== src/Sql/Select/Matching.antt =====
-- What a scan of src/sql/exec.cpp without an early stop collects: the rows that match, in order.
use rtdb_common.Common.{
  ℕ, ◌≤◌, ◌≡◌, sym, ap, ◌∙◌, arith, List, [], ◌∷◌, ◌++◌, Bool, true, false, not, length, leb,
  if◌then◌else◌, Bool-cases, inl, inr, length-append, append_assoc, append-nil,
}
use mathlib.Core.Path.{subst}
use rtdb_common.Types.{k_limit_exceeded, Result, ok, err, >>=-eq-ok}
use rtdb_common.Sql.Eval.{Row}
use rtdb_common.Sql.Select.{collect_page, scan_rows}
use rtdb_common.Sql.Select.Scan.{delivered}

-- The second rows are those of the first that pass the test, in order, and no test fails.
pub data Selects (test : Row → Result Bool) : List Row → List Row → Type 0 where
  nothing : Selects test [] []
  chosen :
      {r : Row} {rs out : List Row}
      → test r ≡ ok true
      → Selects test rs out
      → Selects test (r ∷ rs) (r ∷ out)
  left_out :
      {r : Row} {rs out : List Row}
      → test r ≡ ok false
      → Selects test rs out
      → Selects test (r ∷ rs) out

Selects-append :
    {test : Row → Result Bool} {rs out rs' out' : List Row}
    → Selects test rs out
    → Selects test rs' out'
    → Selects test (rs ++ rs') (out ++ out')
Selects-append nothing t = t
Selects-append (chosen e s) t = chosen e (Selects-append s t)
Selects-append (left_out e s) t = left_out e (Selects-append s t)

-- What a loop has collected behind `out`, within the budget.
pub record Collected (test : Row → Result Bool) (max_rows : ℕ) (out rows whole : List Row)
    : Type 0 where
  pub more : List Row
  pub whole_is : whole ≡ out ++ more
  pub selects : Selects test rows more
  pub fits : length whole ≤ max_rows

if_true {ℓ} :
    {A : Type ℓ} {x z : A} (b : Bool) (y : A) → b ≡ true → (if b then x else y) ≡ z → x ≡ z
if_true true y e h = h
if_true false y e h = cc

if_false {ℓ} :
    {A : Type ℓ} {y z : A} (b : Bool) (x : A) → b ≡ false → (if b then x else y) ≡ z → y ≡ z
if_false true x e h = cc
if_false false x e h = h

module _ (test : Row → Result Bool) (max_rows : ℕ) where
  Collected-chosen :
      (out : List Row) (r : Row) (rs whole : List Row)
      → test r ≡ ok true
      → Collected test max_rows (out ++ (r ∷ [])) rs whole
      → Collected test max_rows out (r ∷ rs) whole
  Collected-chosen out r rs whole e c = record {
    more = r ∷ c.more;
    whole_is = c.whole_is ∙ append_assoc out (r ∷ []) c.more;
    selects = chosen e c.selects;
    fits = c.fits;
  }

  Collected-left_out :
      (out : List Row) (r : Row) (rs whole : List Row)
      → test r ≡ ok false
      → Collected test max_rows out rs whole
      → Collected test max_rows out (r ∷ rs) whole
  Collected-left_out out r rs whole e c = record {
    more = c.more;
    whole_is = c.whole_is;
    selects = left_out e c.selects;
    fits = c.fits;
  }

  Collected-none :
      (out whole : List Row)
      → length out ≤ max_rows
      → out ≡ whole
      → Collected test max_rows out [] whole
  Collected-none out whole l e = record {
    more = [];
    whole_is = sym e ∙ sym (append-nil out);
    selects = nothing;
    fits = subst (λ w. length w ≤ max_rows) e l;
  }

  collect_page-Collected :
      (out rs : List Row) (stopped : Bool) (whole : List Row)
      → length out ≤ max_rows
      → collect_page test max_rows 0 out rs ≡ ok (stopped, whole)
      → (stopped ≡ false) × Collected test max_rows out rs whole
  unfolding collect_page
  collect_page-Collected out [] stopped whole l h =
      let same : out ≡ whole = cc in (cc, Collected-none out whole l same)
  collect_page-Collected out (r ∷ rs) stopped whole l h =
      let tested = >>=-eq-ok (test r) _ h in
      elim (Bool-cases tested.0) [
        | inr fails ↦
            let skips = if_true (not tested.0) _ (ap not fails) tested.2 in
            let rest = collect_page-Collected out rs stopped whole l skips in
            (rest.0, Collected-left_out out r rs whole (tested.1 ∙ ap ok fails) rest.1)
        | inl matched ↦
            let kept = if_false (not tested.0) _ (ap not matched) tested.2 in
            elim (Bool-cases (leb max_rows (length out))) [
              | inl full ↦
                  let refused : err k_limit_exceeded ≡ ok (stopped, whole) =
                    if_true (leb max_rows (length out)) _ full kept in
                  cc
              | inr room ↦
                  let goes_on = if_false (leb max_rows (length out)) _ room kept in
                  let fits : length (out ++ (r ∷ [])) ≤ max_rows =
                    ground (arith, room, length-append out (r ∷ [])) in
                  let rest =
                    collect_page-Collected (out ++ (r ∷ [])) rs stopped whole fits goes_on in
                  (rest.0, Collected-chosen out r rs whole (tested.1 ∙ ap ok matched) rest.1)
            ]
      ]

  Collected-append :
      (out rows between more whole : List Row)
      → Collected test max_rows out rows between
      → Collected test max_rows between more whole
      → Collected test max_rows out (rows ++ more) whole
  Collected-append out rows between more whole c d = record {
    more = c.more ++ d.more;
    whole_is = d.whole_is ∙ ap (λ b. b ++ d.more) c.whole_is ∙ append_assoc out c.more d.more;
    selects = Selects-append c.selects d.selects;
    fits = d.fits;
  }

  -- A scan without an early stop that succeeds has collected, behind what it had, exactly the rows that
  -- match, in order, within the budget.
  pub scan_rows-Collected :
      (out : List Row) (pages : List (List Row)) (whole : List Row)
      → length out ≤ max_rows
      → scan_rows test max_rows 0 out pages ≡ ok whole
      → Collected test max_rows out (delivered pages) whole
  unfolding scan_rows
  scan_rows-Collected out [] whole l h = Collected-none out whole l cc
  scan_rows-Collected out ([] ∷ pages) whole l h = Collected-none out whole l cc
  scan_rows-Collected out ((r ∷ rs) ∷ pages) whole l h =
      let page = >>=-eq-ok (collect_page test max_rows 0 out (r ∷ rs)) _ h in
      let got = collect_page-Collected out (r ∷ rs) page.0.0 page.0.1 l page.1 in
      let rest = if_false page.0.0 _ got.0 page.2 in
      Collected-append out (r ∷ rs) page.0.1 (delivered pages) whole got.1
        (scan_rows-Collected page.0.1 pages whole got.1.fits rest)
