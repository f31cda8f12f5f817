-- ===== src/SpaceVector.antt =====
-- verification/cocotb/scripts/space_vector_metrics.py: the lag between two traces. The square root is a
-- parameter. Where numpy raises ValueError, the result is `none`.
pub mod Peaks
pub mod Short
mod Tests
use hardware_in_the_loop.Base.{
  ℕ, zero, suc, ◌+◌, ◌-◌, Option, none, some, List, [], ◌∷◌, ◌++◌, if◌then◌else◌, Bool, true, ltb,
  leb, ◌==◌, length, take, drop, map,
}
use hardware_in_the_loop.Base.Int.{ℤ, pos, negsuc}
use hardware_in_the_loop.Number.{Number, ◌*F◌, ◌/F◌, neg, less, whole, decimal}
use hardware_in_the_loop.Comparison.Metrics.{sum, square}
use hardware_in_the_loop.Comparison.Lag.{centred}

-- `a[: n - lag]`, where the end is counted from the back if it is negative.
abbrev pub stop_at : ℕ → ℕ → ℕ
stop_at n lag = if leb lag n then n - lag else n - (lag - n)

-- `range(-max_lag, max_lag + 1)`
abbrev pub lags_below : ℕ → List ℤ
lags_below zero = []
lags_below (suc k) = negsuc k ∷ lags_below k

abbrev pub lags_from : ℕ → ℕ → List ℤ
lags_from k zero = []
lags_from k (suc count) = pos k ∷ lags_from (k + 1) count

abbrev pub lag_range : ℕ → List ℤ
lag_range max_lag = lags_below max_lag ++ lags_from 0 (suc max_lag)

-- `best_lag`, and `best_corr`, where `none` is -inf.
abbrev pub Best : Type 0 → Type 0
Best A = ℤ × Option A

-- `peak_correlation` is NaN for a constant trace.
pub data Peak (A : Type 0) : Type 0 where
  flat_trace : Peak A
  peak : Best A → Peak A

module _ {A : Type 0} where
  abbrev pub found_peak : Option (Best A) → Option (Peak A)
  found_peak none = none
  found_peak (some best) = some (peak best)

  unfoldable pub segments : List A → List A → ℤ → List A × List A
  segments a b (pos lag) = (take (stop_at (length a) lag) a, drop lag b)
  segments a b (negsuc k) = (drop (suc k) a, take (stop_at (length a) (suc k)) b)

module _ {A : Type 0} ⦃n : Number A⦄ where
  abbrev pub products : List A → List A → List A
  products [] ys = []
  products (x ∷ xs) [] = []
  products (x ∷ xs) (y ∷ ys) = x *F y ∷ products xs ys

  -- A lag in the loop: ValueError, `continue`, or a correlation.
  unfoldable pub corr_at : A → List A → List A → ℤ → Option (Option A)
  unfolding segments sum
  corr_at norm a b lag =
      let (seg_a, seg_b) = segments a b lag in
      if ltb (length seg_a) 10
      then some none
      else if length seg_a == length seg_b
      then some (some (sum (products seg_a seg_b) /F norm))
      else none

  abbrev pub exceeds : A → Option A → Bool
  exceeds c none = true
  exceeds c (some d) = less d c

  abbrev pub better_lag : ℤ → Option A → Best A → Best A
  better_lag lag none best = best
  better_lag lag (some c) best = if exceeds c best.1 then (lag, some c) else best

  -- The loop.
  unfoldable pub search_lags : A → List A → List A → List ℤ → Best A → Option (Best A)
  search_lags norm a b [] best = some best
  search_lags norm a b (lag ∷ lags) best = elim (corr_at norm a b lag) [
    | none ↦ none
    | some c ↦ search_lags norm a b lags (better_lag lag c best)
  ]

  abbrev pub norm_of : (A → A) → List A → List A → A
  norm_of sqrt a b = sqrt (sum (map square a) *F sum (map square b))

  -- `_bounded_xcorr_lag`
  unfoldable pub bounded_xcorr_lag : (A → A) → List A → List A → ℕ → Option (Peak A)
  unfolding search_lags
  bounded_xcorr_lag sqrt trace_a trace_b max_lag =
      let a = centred trace_a in
      let b = centred trace_b in
      let norm = norm_of sqrt a b in
      if less (decimal 1 12) norm
      then found_peak (search_lags norm a b (lag_range max_lag) (pos 0, none))
      else some flat_trace
