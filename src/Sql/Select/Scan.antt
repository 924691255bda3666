-- ===== src/Sql/Select/Scan.antt =====
-- The rows that a scan without a WHERE clause collects, with and without an early stop.
use rtdb_common.Common.{
  ℕ, suc, ◌+◌, ◌-◌, ◌<◌, ◌≤◌, ◌≡◌, sym, ap, ◌∙◌, arith, List, [], ◌∷◌, ◌++◌, Bool, true, false,
  length, take, leb, Bool-cases, inl, inr, length-append, append_assoc, append-nil, take-nil,
  take-append_front, take-append_back,
}
use rtdb_common.Types.{k_limit_exceeded, Result, ok, err}
use rtdb_common.Sql.Eval.{Row}
use rtdb_common.Sql.Select.{collect_page, scan_rows}

-- The rows of all pages, up to the first that is empty.
abbrev pub delivered : List (List Row) → List Row
delivered [] = []
delivered ([] ∷ pages) = []
delivered ((r ∷ rs) ∷ pages) = (r ∷ rs) ++ delivered pages

module _ (test : Row → Result Bool) (all : (r : Row) → test r ≡ ok true) (max_rows stop : ℕ) where
  -- A page that does not bring the rows up to the number is collected whole.
  collect_whole :
      (out rs : List Row)
      → length out + length rs < stop
      → stop ≤ max_rows
      → collect_page test max_rows stop out rs ≡ ok (false, out ++ rs)
  unfolding collect_page
  collect_whole out [] h m = rw append-nil
  collect_whole out (r ∷ rs) h m =
      let ih =
        collect_whole (out ++ (r ∷ [])) rs (omega (arith, h, length-append out (r ∷ []))) m in
      rw (all r) (ground (arith, ih, append_assoc out (r ∷ []) rs))

  -- A page that does is collected up to it.
  collect_part :
      (out rs : List Row)
      → length out < stop
      → stop ≤ length out + length rs
      → stop ≤ max_rows
      → collect_page test max_rows stop out rs ≡ ok (true, out ++ take (stop - length out) rs)
  unfolding collect_page
  collect_part out [] l h m = absurd (omega (arith, l, h))
  collect_part out (r ∷ rs) l h m = elim (Bool-cases (leb stop (length out + 1))) [
    | inl e ↦ rw (all r, e, one_left e) (ground arith)
    | inr e ↦
        let ih =
          collect_part (out ++ (r ∷ [])) rs
            (omega (arith, l, length-append out (r ∷ []), leb-stop e))
            (omega (arith, h, length-append out (r ∷ []))) m in
        rw (all r, e, more_left e)
          (ground
            (arith, ih, append_assoc out (r ∷ []) (take (stop - length (out ++ (r ∷ []))) rs)))
  ]
    where
      leb-stop : leb stop (length out + 1) ≡ false → length out + 1 < stop
      leb-stop e = ground arith

      one_left : leb stop (length out + 1) ≡ true → take (stop - length out) (r ∷ rs) ≡ r ∷ []
      one_left e = let one : stop - length out ≡ 1 = ground arith in ap (λ n. take n (r ∷ rs)) one

      more_left :
          leb stop (length out + 1) ≡ false
          → take (stop - length out) (r ∷ rs) ≡ r ∷ take (stop - length (out ++ (r ∷ []))) rs
      more_left e =
          let more : stop - length out ≡ suc (stop - length (out ++ (r ∷ []))) =
            ground (arith, length-append out (r ∷ [])) in
          ap (λ n. take n (r ∷ rs)) more

  -- The scan stops with exactly so many rows, or has all of them.
  pub scan_rows-take :
      (out : List Row) (pages : List (List Row))
      → length out < stop
      → stop ≤ max_rows
      → scan_rows test max_rows stop out pages
        ≡ ok (out ++ take (stop - length out) (delivered pages))
  unfolding scan_rows
  scan_rows-take out [] l m = rw (take-nil, append-nil)
  scan_rows-take out ([] ∷ pages) l m = rw (take-nil, append-nil)
  scan_rows-take out ((r ∷ rs) ∷ pages) l m =
      elim (Bool-cases (leb stop (length out + length (r ∷ rs)))) [
        | inl e ↦
            let enough : stop - length out ≤ length (r ∷ rs) = ground arith in
            rw (
              collect_part out (r ∷ rs) l (ground arith) m,
              take-append_front (stop - length out) (r ∷ rs) (delivered pages) enough,
            )
        | inr e ↦
            let short : length (r ∷ rs) ≤ stop - length out = ground arith in
            let fewer : length out + length (r ∷ rs) < stop = ground arith in
            let next = out ++ (r ∷ rs) in
            let ih =
              scan_rows-take next pages (omega (arith, fewer, length-append out (r ∷ rs))) m in
            let left : stop - length next ≡ stop - length out - length (r ∷ rs) =
              omega (arith, length-append out (r ∷ rs)) in
            rw (collect_whole out (r ∷ rs) fewer m) (
              ih
              ∙ ap (λ k. ok (next ++ take k (delivered pages))) left
              ∙ ap ok (append_assoc out (r ∷ rs) _)
              ∙ ap (λ l. ok (out ++ l))
                  (sym (take-append_back (stop - length out) (r ∷ rs) (delivered pages) short)))
      ]

module _ (test : Row → Result Bool) (all : (r : Row) → test r ≡ ok true) (max_rows : ℕ) where
  -- With no early stop, a page within the budget is collected whole, and a longer one is refused.
  collect_unstopped :
      (out rs : List Row)
      → length out + length rs ≤ max_rows
      → collect_page test max_rows 0 out rs ≡ ok (false, out ++ rs)
  unfolding collect_page
  collect_unstopped out [] h = rw append-nil
  collect_unstopped out (r ∷ rs) h =
      let ih =
        collect_unstopped (out ++ (r ∷ [])) rs (omega (arith, h, length-append out (r ∷ []))) in
      rw (all r) (ground (arith, ih, append_assoc out (r ∷ []) rs))

  collect_over :
      (out rs : List Row)
      → length out ≤ max_rows
      → max_rows < length out + length rs
      → collect_page test max_rows 0 out rs ≡ err k_limit_exceeded
  unfolding collect_page
  collect_over out [] l h = absurd (omega (arith, l, h))
  collect_over out (r ∷ rs) l h = elim (Bool-cases (leb max_rows (length out))) [
    | inl e ↦ rw (all r, e)
    | inr e ↦
        let ih =
          collect_over (out ++ (r ∷ [])) rs (ground (arith, length-append out (r ∷ [])))
            (omega (arith, h, length-append out (r ∷ []))) in
        rw (all r, e) ih
  ]

  pub scan_rows_over :
      (out : List Row) (pages : List (List Row))
      → length out ≤ max_rows
      → max_rows < length out + length (delivered pages)
      → scan_rows test max_rows 0 out pages ≡ err k_limit_exceeded
  unfolding scan_rows
  scan_rows_over out [] l h = absurd (omega (arith, l, h))
  scan_rows_over out ([] ∷ pages) l h = absurd (omega (arith, l, h))
  scan_rows_over out ((r ∷ rs) ∷ pages) l h =
      elim (Bool-cases (leb (length out + length (r ∷ rs)) max_rows)) [
        | inr e ↦ rw (collect_over out (r ∷ rs) l (ground arith))
        | inl e ↦
            let within : length out + length (r ∷ rs) ≤ max_rows = ground arith in
            let next = out ++ (r ∷ rs) in
            let ih = scan_rows_over next pages (omega (arith, within, length-append out (r ∷ rs))) (
              omega
                (arith, h, length-append out (r ∷ rs), length-append (r ∷ rs) (delivered pages))) in
            rw (collect_unstopped out (r ∷ rs) within) ih
      ]
