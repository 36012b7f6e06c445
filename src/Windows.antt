-- ===== src/Windows.antt =====
-- `column_windows` and `windowed_query` of lemur/common/utils.py: a query that is run window by window.
-- The column is the number of a row. A query's rows are a list, in the order of the numbers; the order
-- of a window is the order of the list.
pub mod Cover
use lemur.Prelude.{
  ℕ, suc, ◌+◌, ◌%◌, Bool, true, false, ◌&&◌, ◌||◌, Option, none, some, List, [], ◌∷◌, ◌++◌, ◌==◌,
  nat_eq, if◌then◌else◌, select, leb, ltb,
}

-- The numbers at which a window starts: those whose row number, counted from 1, leaves 1 when divided
-- by the size; for size 1 and below every number.
unfoldable pub starts : (windowsize rownum : ℕ) → List ℕ → List ℕ
starts windowsize rownum [] = []
starts windowsize rownum (i ∷ ids) =
    let rest = starts windowsize (rownum + 1) ids in
    if ltb 1 windowsize then (if rownum % windowsize == 1 then i ∷ rest else rest) else i ∷ rest

-- The condition of a window, which has no upper end where it is the last, or where the end is 0.
unfoldable pub int_for_range : ℕ → Option ℕ → ℕ → Bool
int_for_range start_id none i = leb start_id i
int_for_range start_id (some end_id) i =
    if end_id == 0 then leb start_id i else leb start_id i && ltb i end_id

unfoldable pub ranges : List ℕ → List (ℕ × Option ℕ)
ranges [] = []
ranges (start ∷ []) = (start, none) ∷ []
ranges (start ∷ next ∷ intervals) = (start, some next) ∷ ranges (next ∷ intervals)

unfoldable pub column_windows : (windowsize : ℕ) → (ids : List ℕ) → List (ℕ × Option ℕ)
column_windows windowsize ids = ranges (starts windowsize 1 ids)

module _ {A : Type 0} (key : A → ℕ) where
  unfoldable pub run_windows : List (ℕ × Option ℕ) → List A → List A
  run_windows [] rows = []
  run_windows ((start, end) ∷ windows) rows =
      select (λ r. int_for_range start end (key r)) rows ++ run_windows windows rows

  -- `ids` are the numbers of the whole table, `rows` the rows of the query.
  unfoldable pub windowed_query : (windowsize : ℕ) → (ids : List ℕ) → (rows : List A) → List A
  windowed_query windowsize ids rows = run_windows (column_windows windowsize ids) rows
