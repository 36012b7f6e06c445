-- ===== src/Windows/Cover.antt =====
-- What the windows of lemur/common/utils.py cover.
use lemur.Prelude.{
  ℕ, ◌≡◌, refl, ap, subst, ◌∙◌, ◌+◌, ◌%◌, Bool, true, false, ◌&&◌, List, [], ◌∷◌, ◌++◌, ◌==◌,
  nat_eq, select, all, contains, leb, ltb, arith, Bool-cases, inl, inr, append-nil,
}
use native.Mathlib.Nat.{mod-eq_of_lt}
use lemur.Windows.{starts, int_for_range, ranges, column_windows, run_windows, windowed_query}

-- Each number is above the one before it.
unfoldable pub ascending : List ℕ → Bool
ascending [] = true
ascending (i ∷ ids) = all (λ j. ltb i j) ids && ascending ids

above-starts :
    (i w n : ℕ) (ids : List ℕ)
    → all (λ j. ltb i j) ids ≡ true
    → all (λ j. ltb i j) (starts w n ids) ≡ true
unfolding starts all
above-starts i w n [] h = refl
above-starts i w n (j ∷ ids) h = ground (arith, h, above-starts i w (n + 1) ids)

ascending-starts :
    (w n : ℕ) (ids : List ℕ) → ascending ids ≡ true → ascending (starts w n ids) ≡ true
unfolding starts ascending
ascending-starts w n [] h = refl
ascending-starts w n (i ∷ ids) h =
    ground (arith, h, above-starts i w (n + 1) ids, ascending-starts w (n + 1) ids)

-- The first window starts at the first number.
starts-head : (w i : ℕ) (ids : List ℕ) → starts w 1 (i ∷ ids) ≡ i ∷ starts w 2 ids
unfolding starts
starts-head w i ids = elim (Bool-cases (ltb 1 w)) [
  | inl large ↦ let one : 1 % w ≡ 1 = mod-eq_of_lt (ground (arith, large)) in rw (large, one) refl
  | inr small ↦ rw small refl
]

above_tail : (i : ℕ) (ids : List ℕ) → ascending (i ∷ ids) ≡ true → all (λ j. ltb i j) ids ≡ true
unfolding ascending
above_tail i ids a = ground (arith, a)

contains-above :
    (i x : ℕ) (ids : List ℕ)
    → all (λ j. ltb i j) ids ≡ true
    → contains x (i ∷ ids) ≡ true
    → leb i x ≡ true
unfolding all contains
contains-above i x [] h c = ground (arith, c)
contains-above i x (j ∷ ids) h c = ground (arith, h, c, contains-above i x ids)

module _ {A : Type 0} (key : A → ℕ) where
  -- No row's number is below the one before it.
  unfoldable pub ordered : List A → Bool
  ordered [] = true
  ordered (r ∷ rows) = all (λ s. leb (key r) (key s)) rows && ordered rows

  nothing_before :
      (s e b : ℕ) (rows : List A)
      → leb e b ≡ true
      → all (λ r. leb b (key r)) rows ≡ true
      → select (λ r. leb s (key r) && ltb (key r) e) rows ≡ []
  unfolding select all
  nothing_before s e b [] le h = refl
  nothing_before s e b (r ∷ rows) le h = ground (arith, le, h, nothing_before s e b rows)

  join_window :
      (s e : ℕ) (rows : List A)
      → ltb s e ≡ true
      → ordered rows ≡ true
      → select (λ r. leb s (key r) && ltb (key r) e) rows ++ select (λ r. leb e (key r)) rows
        ≡ select (λ r. leb s (key r)) rows
  unfolding select ordered
  join_window s e [] lt h = refl
  join_window s e (r ∷ rows) lt h =
      let rest = join_window s e rows lt (ground (arith, h)) in
      let none_left = nothing_before s e (key r) rows in ground (arith, lt, h, rest, none_left)

  run_ranges :
      (s : ℕ) (later : List ℕ) (rows : List A)
      → ascending (s ∷ later) ≡ true
      → ordered rows ≡ true
      → run_windows key (ranges (s ∷ later)) rows ≡ select (λ r. leb s (key r)) rows
  unfolding run_windows ranges int_for_range ascending all
  run_ranges s [] rows a h = append-nil (select (λ r. leb s (key r)) rows)
  run_ranges s (e ∷ later) rows a h =
      let lt : ltb s e ≡ true = ground (arith, a) in
      let not_zero : (e == 0) ≡ false = ground (arith, lt) in
      let rest = run_ranges e later rows (ground (arith, a)) h in
      rw (not_zero, rest) (join_window s e rows lt h)

  select_every :
      (i : ℕ) (ids : List ℕ) (rows : List A)
      → all (λ j. ltb i j) ids ≡ true
      → all (λ r. contains (key r) (i ∷ ids)) rows ≡ true
      → select (λ r. leb i (key r)) rows ≡ rows
  unfolding select all
  select_every i ids [] above h = refl
  select_every i ids (r ∷ rows) above h =
      let here : leb i (key r) ≡ true = contains-above i (key r) ids above (ground (arith, h)) in
      rw here (ap (λ t. r ∷ t) (select_every i ids rows above (ground (arith, h))))

  no_rows : (rows : List A) → all (λ r. contains (key r) []) rows ≡ true → [] ≡ rows
  unfolding all contains
  no_rows [] h = refl
  no_rows (r ∷ rows) h = cc

  -- A query that is run window by window, with windows of any size, returns the rows of the query, each
  -- once and in order, where the rows are in the order of their numbers and are rows of the table.
  pub windowed_query_is_query :
      (windowsize : ℕ) (ids : List ℕ) (rows : List A)
      → ascending ids ≡ true
      → ordered rows ≡ true
      → all (λ r. contains (key r) ids) rows ≡ true
      → windowed_query key windowsize ids rows ≡ rows
  unfolding windowed_query column_windows starts ranges run_windows
  windowed_query_is_query w [] rows a h within = no_rows rows within
  windowed_query_is_query w (i ∷ ids) rows a h within =
      let asc =
        subst (λ l. ascending l ≡ true) (starts-head w i ids) (ascending-starts w 1 (i ∷ ids) a) in
      rw (starts-head w i ids) (
        run_ranges i (starts w 2 ids) rows asc h
        ∙ select_every i ids rows (above_tail i ids a) within)
