-- ===== src/Sql/Select.antt =====
-- Scanning for a SELECT (src/sql/exec.cpp): `ScanRows`, the early stop that `ExecSelect` asks of it,
-- and the window of LIMIT and OFFSET. The pages that the engine delivers one after the other are a
-- list; sorting and the choice of columns are left out, so the queries are those without ORDER BY.
pub mod Scan
pub mod Matching
pub mod Window
use rtdb_common.Common.{
  ℕ, ◌+◌, ◌-◌, ◌<◌, List, [], ◌∷◌, ◌++◌, Bool, true, false, not, ◌&&◌, ℤ, pos, negsuc, length, take,
  drop, leb, ltb, ◌==◌, if◌then◌else◌, Option, none, some,
}
use rtdb_common.Types.{k_limit_exceeded, Result, ok, err, ◌>>=◌}
use rtdb_common.Sql.Ast.{Condition}
use rtdb_common.Sql.Values.{Runtime}
use rtdb_common.Sql.Eval.{Schema, Row, eval_condition}

-- `where != nullptr`, and then the condition.
unfoldable pub row_matches : Runtime → Schema → Option Condition → Row → Result Bool
row_matches rt cols none row = ok true
row_matches rt cols (some c) row = eval_condition rt cols row c

-- The loop over the rows of a page, with what it has collected, and whether it has stopped early.
unfoldable pub collect_page :
    (Row → Result Bool) → ℕ → ℕ → List Row → List Row → Result (Bool × List Row)
collect_page test max_rows stop_after out [] = ok (false, out)
collect_page test max_rows stop_after out (r ∷ rs) = do
  matched ← test r
  let skipped = collect_page test max_rows stop_after out rs
  let kept = collect_page test max_rows stop_after (out ++ (r ∷ [])) rs
  if not matched
      then skipped
      else if leb max_rows (length out)
      then err k_limit_exceeded
      else if not (stop_after == 0) && leb stop_after (length out + 1)
      then ok (true, out ++ (r ∷ []))
      else kept

-- The loop over the pages; an empty page ends it.
unfoldable pub scan_rows :
    (Row → Result Bool) → ℕ → ℕ → List Row → List (List Row) → Result (List Row)
scan_rows test max_rows stop_after out [] = ok out
scan_rows test max_rows stop_after out ([] ∷ pages) = ok out
scan_rows test max_rows stop_after out ((r ∷ rs) ∷ pages) = do
  (stopped, out') ← collect_page test max_rows stop_after out (r ∷ rs)
  let rest = scan_rows test max_rows stop_after out' pages
  if stopped then ok out' else rest

-- `q.offset < 0 ? 0 : q.offset`
unfoldable pub offset_of : ℤ → ℕ
offset_of (pos n) = n
offset_of (negsuc n) = 0

-- The number of rows after which the scan may stop, of a query without ORDER BY; 0 is no limit.
unfoldable pub stop_after_of : ℕ → Option Condition → ℤ → ℤ → ℕ
stop_after_of max_rows none (pos lim) offset =
    if ltb lim max_rows && ltb (offset_of offset) (max_rows - lim)
    then lim + offset_of offset
    else max_rows
stop_after_of max_rows none (negsuc n) offset = 0
stop_after_of max_rows (some c) limit offset = 0

-- `end - begin`, of the rows that are left behind the offset.
unfoldable pub wanted : ℤ → ℕ → ℕ
wanted (pos lim) left = if ltb lim left then lim else left
wanted (negsuc n) left = left

-- The rows from `begin` up to `end`.
unfoldable pub window : ℤ → ℤ → List Row → List Row
window limit offset matched =
    let off = offset_of offset in
    let begin = (if ltb off (length matched) then off else length matched) in
    take (wanted limit (length matched - begin)) (drop begin matched)

unfoldable pub select_unsorted :
    Runtime → Schema → Option Condition → ℤ → ℤ → ℕ → List (List Row) → Result (List Row)
select_unsorted rt cols cond limit offset max_rows pages = do
  matched ←
      scan_rows (row_matches rt cols cond) max_rows (stop_after_of max_rows cond limit offset) []
        pages
  ok (window limit offset matched)
