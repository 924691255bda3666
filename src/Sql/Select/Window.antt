-- ===== src/Sql/Select/Window.antt =====
-- LIMIT and OFFSET: the early stop of the scan loses nothing that the window shows.
use rtdb_common.Common.{
  ℕ, ◌+◌, ◌-◌, ◌<◌, ◌≤◌, ◌≡◌, refl, ap, ◌∙◌, arith, List, [], true, pos, length, take, drop, ltb,
  none, Bool-cases, inl, inr, take_all, length-drop, take-nil, drop_all, take-drop_front,
}
use rtdb_common.Types.{k_limit_exceeded, ok, err}
use rtdb_common.Sql.Values.{Runtime}
use rtdb_common.Sql.Eval.{Schema, Row}
use rtdb_common.Sql.Select.{row_matches, offset_of, stop_after_of, wanted, window, select_unsorted}
use rtdb_common.Sql.Select.Scan.{delivered, scan_rows-take, scan_rows_over}

window_lem :
    (lim off : ℕ) (rows : List Row) → window (pos lim) (pos off) rows ≡ take lim (drop off rows)
unfolding window wanted offset_of
window_lem lim off rows = elim (Bool-cases (ltb off (length rows))) [
  | inr e ↦
      let gone : length rows ≤ off = ground arith in
      simp (e, drop_all (length rows) rows (omega arith), drop_all off rows gone, take-nil)
  | inl e ↦ elim (Bool-cases (ltb lim (length rows - off))) [
    | inl f ↦ rw (e, f)
    | inr f ↦
        let short : length rows - off ≤ lim = ground arith in
        rw (
          e,
          f,
          take_all (length rows - off) (drop off rows) (omega (arith, length-drop off rows)),
          take_all lim (drop off rows) (omega (arith, short, length-drop off rows)),
        )
  ]
]

-- A query without WHERE and ORDER BY, whose LIMIT and OFFSET ask for some rows and together for fewer
-- than the budget, stops early and still delivers exactly the rows behind the offset up to the
-- limit.
pub select_unsorted-take :
    (rt : Runtime) (cols : Schema) (lim off max_rows : ℕ) (pages : List (List Row))
    → 0 < lim + off
    → lim + off < max_rows
    → select_unsorted rt cols none (pos lim) (pos off) max_rows pages
      ≡ ok (take lim (drop off (delivered pages)))
unfolding select_unsorted row_matches
select_unsorted-take rt cols lim off max_rows pages h m =
    let stop : stop_after_of max_rows none (pos lim) (pos off) ≡ lim + off =
      unfold stop_after_of offset_of in ground arith in
    let none_before : lim + off - 0 ≡ lim + off = omega arith in
    rw stop (
      rw (scan_rows-take (λ r. ok true) (λ r. refl) max_rows (lim + off) [] pages h (omega arith)) (
        ap ok (
          ap (λ n. window (pos lim) (pos off) (take n (delivered pages))) none_before
          ∙ window_lem lim off (take (lim + off) (delivered pages))
          ∙ take-drop_front lim off (lim + off) (delivered pages) refl)))

-- A query that asks for no row at all, with a limit of 0 and no offset, is scanned without an early
-- stop, and is refused if the table has more rows than the budget.
pub select_unsorted_zero :
    (rt : Runtime) (cols : Schema) (max_rows : ℕ) (pages : List (List Row))
    → max_rows < length (delivered pages)
    → select_unsorted rt cols none (pos 0) (pos 0) max_rows pages ≡ err k_limit_exceeded
unfolding select_unsorted row_matches
select_unsorted_zero rt cols max_rows pages h =
    let stop : stop_after_of max_rows none (pos 0) (pos 0) ≡ 0 =
      unfold stop_after_of offset_of in ground arith in
    rw stop (
      rw (
        scan_rows_over (λ r. ok true) (λ r. refl) max_rows [] pages (omega arith)
          (omega (arith, h))))
