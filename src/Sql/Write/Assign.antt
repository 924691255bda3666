-- ===== src/Sql/Write/Assign.antt =====
-- The assignments of an UPDATE of src/sql/exec.cpp: which cells of a row they change, and to what.
use rtdb_common.Common.{
  ℕ, zero, suc, ◌≤◌, ◌<◌, if◌then◌else◌, ◌≡◌, refl, sym, ap, ◌∙◌, arith, List, [], ◌∷◌, Bool, true,
  false, not, ◌==◌, length, set, All,
}
use mathlib.Core.Path.{subst}
use rtdb_common.Types.{
  Err, k_invalid_argument, Result, ok, err, ◌>>◌, guard, >>=-eq-ok, ColumnValue,
}
use rtdb_common.Sql.Ast.{Assignment}
use rtdb_common.Sql.Values.{Runtime, coerce_literal}
use rtdb_common.Sql.Eval.{Schema, Row, index_of, column_at, cell_at}
use rtdb_common.Sql.Write.{assign, resolve}

pub guarded {ℓ} :
    {A : Type ℓ} {y : A} (b : Bool) (e : Err) (m : Result A)
    → (guard b e >> m) ≡ ok y
    → (b ≡ true) × (m ≡ ok y)
guarded true e m h = (refl, h)
guarded false e m h = cc

pub length-set {ℓ} : {A : Type ℓ} (xs : List A) (i : ℕ) (v : A) → length (set xs i v) ≡ length xs
length-set [] i v = refl
length-set (x ∷ xs) zero v = refl
length-set (x ∷ xs) (suc i) v = ap suc (length-set xs i v)

-- No assignment is to the first column.
abbrev pub SparesKey : List (ℕ × ColumnValue) → Type 0
SparesKey assigns = All (λ a. 1 ≤ a.0) assigns

cell_at-set :
    (row : Row) (j i : ℕ) (v : ColumnValue)
    → i < length row
    → cell_at (set row j v) i ≡ (if j == i then v else cell_at row i)
cell_at-set [] j i v l = absurd (omega (arith, l))
cell_at-set (c ∷ row) zero zero v l = refl
cell_at-set (c ∷ row) zero (suc i) v l = ground arith
cell_at-set (c ∷ row) (suc j) zero v l = ground arith
cell_at-set (c ∷ row) (suc j) (suc i) v l = cell_at-set row j i v (omega (arith, l)) ∙ ground arith

abbrev pub value_or : Result ColumnValue → ColumnValue → ColumnValue
value_or (ok v) old = v
value_or (err e) old = old

module _ (rt : Runtime) (cols : Schema) where
  -- What the first assignment of a list that is resolved gives.
  record Resolved (a : Assignment) (rest : List Assignment) (assigns : List (ℕ × ColumnValue))
      : Type 0 where
    idx : ℕ
    value : ColumnValue
    more : List (ℕ × ColumnValue)
    at_column : index_of cols a.column ≡ ok idx
    spares : 1 ≤ idx
    coerced : coerce_literal rt a.value (column_at cols idx) ≡ ok value
    goes_on : resolve rt cols rest ≡ ok more
    whole : (idx, value) ∷ more ≡ assigns

  resolve-Resolved :
      (a : Assignment) (rest : List Assignment) (assigns : List (ℕ × ColumnValue))
      → resolve rt cols (a ∷ rest) ≡ ok assigns
      → Resolved a rest assigns
  unfolding resolve
  resolve-Resolved a rest assigns h =
      let at = >>=-eq-ok (index_of cols a.column) _ h in
      let checked = guarded (not (at.0 == 0)) k_invalid_argument _ at.2 in
      let cell = >>=-eq-ok (coerce_literal rt a.value (column_at cols at.0)) _ checked.1 in
      let further = >>=-eq-ok (resolve rt cols rest) _ cell.2 in
      record {
        idx = at.0;
        value = cell.0;
        more = further.0;
        at_column = at.1;
        spares = ground (arith, checked.0);
        coerced = cell.1;
        goes_on = further.1;
        whole = cc;
      }

  pub resolve-SparesKey :
      (as' : List Assignment) (assigns : List (ℕ × ColumnValue))
      → resolve rt cols as' ≡ ok assigns
      → SparesKey assigns
  unfolding resolve
  resolve-SparesKey [] [] h = tt
  resolve-SparesKey [] (x ∷ assigns) h = cc
  resolve-SparesKey (a ∷ rest) assigns h =
      let r = resolve-Resolved a rest assigns h in
      subst SparesKey r.whole (r.spares, resolve-SparesKey rest r.more r.goes_on)

  abbrev pub assigned_at : Assignment → ℕ → ColumnValue → Result ℕ → ColumnValue
  assigned_at a i old (err e) = old
  assigned_at a i old (ok j) =
      if j == i then value_or (coerce_literal rt a.value (column_at cols j)) old else old

  -- A cell after one assignment: the literal in the column's type where the column is the cell's.
  abbrev pub assigned : Assignment → ℕ → ColumnValue → ColumnValue
  assigned a i old = assigned_at a i old (index_of cols a.column)

  -- A cell after all assignments of an UPDATE, one after the other.
  abbrev pub new_cell : List Assignment → ℕ → ColumnValue → ColumnValue
  new_cell [] i old = old
  new_cell (a ∷ rest) i old = new_cell rest i (assigned a i old)

  assigned-Resolved :
      (a : Assignment) (i j : ℕ) (v old : ColumnValue)
      → index_of cols a.column ≡ ok j
      → coerce_literal rt a.value (column_at cols j) ≡ ok v
      → (if j == i then v else old) ≡ assigned a i old
  assigned-Resolved a i j v old h k =
      sym (ap (assigned_at a i old) h ∙ ap (λ c. if j == i then value_or c old else old) k)

  pub assign-new_cell :
      (as' : List Assignment) (assigns : List (ℕ × ColumnValue)) (row : Row) (i : ℕ)
      → resolve rt cols as' ≡ ok assigns
      → i < length row
      → cell_at (assign assigns row) i ≡ new_cell as' i (cell_at row i)
  unfolding resolve assign
  assign-new_cell [] [] row i h l = refl
  assign-new_cell [] (x ∷ assigns) row i h l = cc
  assign-new_cell (a ∷ rest) assigns row i h l =
      let r = resolve-Resolved a rest assigns h in
      let row' : Row = set row r.idx r.value in
      let ih =
        assign-new_cell rest r.more row' i r.goes_on
          (omega (arith, l, length-set row r.idx r.value)) in
      sym (ap (λ l'. cell_at (assign l' row) i) r.whole)
      ∙ ih
      ∙ ap (new_cell rest i) (
          cell_at-set row r.idx i r.value l
          ∙ assigned-Resolved a i r.idx r.value (cell_at row i) r.at_column r.coerced)

set_behind : (row : Row) (i : ℕ) (v : ColumnValue) → 1 ≤ i → cell_at (set row i v) 0 ≡ cell_at row 0
set_behind [] i v h = refl
set_behind (c ∷ row) zero v h = absurd (omega (arith, h))
set_behind (c ∷ row) (suc i) v h = refl

pub assign-SparesKey :
    (assigns : List (ℕ × ColumnValue)) (row : Row)
    → SparesKey assigns
    → cell_at (assign assigns row) 0 ≡ cell_at row 0
unfolding assign
assign-SparesKey [] row h = refl
assign-SparesKey ((i, v) ∷ assigns) row h =
    assign-SparesKey assigns (set row i v) h.1 ∙ set_behind row i v h.0

pub length-assign :
    (assigns : List (ℕ × ColumnValue)) (row : Row) → length (assign assigns row) ≡ length row
unfolding assign
length-assign [] row = refl
length-assign ((i, v) ∷ assigns) row = length-assign assigns (set row i v) ∙ length-set row i v
