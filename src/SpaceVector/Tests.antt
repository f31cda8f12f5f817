-- ===== src/SpaceVector/Tests.antt =====
-- Tests of the lag between two traces, and the theorems at concrete inputs.
use hardware_in_the_loop.Base.{◌≤◌, none, some, List, [], ◌∷◌, All, ◌≡◌, refl, arith}
use hardware_in_the_loop.Base.Int.{ℤ, pos, ◌+ℤ◌, ◌-ℤ◌}
use hardware_in_the_loop.Number.Integers.{integers, integers-WeakOrderLaws}
use hardware_in_the_loop.Comparison.Lag.{centred}
use hardware_in_the_loop.Comparison.Metrics.{sum, mean}
use hardware_in_the_loop.SpaceVector.{
  Best, peak, lag_range, search_lags, corr_at, segments, bounded_xcorr_lag,
}
use hardware_in_the_loop.SpaceVector.Peaks.{
  size, IsFound, IsBelow, norm_centred, bounded_xcorr_lag-best,
}
use hardware_in_the_loop.SpaceVector.Short.{bounded_xcorr_lag_short}

-- A pulse, and the same one two samples later.
abbrev pulse : List ℤ
pulse =
    pos 0
    ∷ pos 0
    ∷ pos 0
    ∷ pos 9
    ∷ pos 12
    ∷ pos 4
    ∷ pos 0
    ∷ pos 0
    ∷ pos 0
    ∷ pos 0
    ∷ pos 0
    ∷ pos 0
    ∷ pos 0
    ∷ []

abbrev late : List ℤ
late =
    pos 0
    ∷ pos 0
    ∷ pos 0
    ∷ pos 0
    ∷ pos 0
    ∷ pos 9
    ∷ pos 12
    ∷ pos 4
    ∷ pos 0
    ∷ pos 0
    ∷ pos 0
    ∷ pos 0
    ∷ pos 0
    ∷ []

-- A norm of 1, so that the correlations stay whole numbers.
abbrev unit : ℤ → ℤ
unit x = pos 1

lag_of_pulse : bounded_xcorr_lag unit pulse late 3 ≡ some (peak (pos 2, some (pos 202)))
unfolding bounded_xcorr_lag search_lags corr_at segments sum mean integers ◌+ℤ◌ ◌-ℤ◌
lag_of_pulse = refl

bounded_xcorr_lag-best_example :
    (best : Best ℤ) × (bounded_xcorr_lag unit pulse late 3 ≡ some (peak best))
    × (size best.0 ≤ 3)
    × IsFound
        (norm_centred integers-WeakOrderLaws unit pulse late)
        (centred pulse)
        (centred late)
        best
    × All
        (IsBelow integers-WeakOrderLaws
          (norm_centred integers-WeakOrderLaws unit pulse late)
          (centred pulse)
          (centred late)
          best)
        (lag_range 3)
unfolding integers
bounded_xcorr_lag-best_example =
    bounded_xcorr_lag-best integers-WeakOrderLaws unit pulse late 3 refl (omega arith) refl

bounded_xcorr_lag_short_example : bounded_xcorr_lag unit pulse late 50 ≡ none
unfolding integers
bounded_xcorr_lag_short_example =
    bounded_xcorr_lag_short unit pulse late 50 refl (omega arith) (omega arith) refl
