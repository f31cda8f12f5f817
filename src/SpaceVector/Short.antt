-- ===== src/SpaceVector/Short.antt =====
-- space_vector_metrics.py: traces that are shorter than the range of the lags.
use hardware_in_the_loop.Base.{
  ℕ, zero, suc, ◌+◌, ◌<◌, none, List, [], ◌∷◌, ◌++◌, true, length, ◌≡◌, ◌⊎◌, ap, ◌∙◌, arith, inl,
  inr, Option-cases, if_true, length-take, length-drop,
}
use mathlib.Core.Path.{subst}
use hardware_in_the_loop.Base.Int.{ℤ, pos}
use hardware_in_the_loop.Number.{Number, less, decimal}
use hardware_in_the_loop.Comparison.Lag.{centred}
use hardware_in_the_loop.SpaceVector.{
  stop_at, lags_below, lags_from, lag_range, Best, found_peak, segments, corr_at, better_lag,
  search_lags, norm_of, bounded_xcorr_lag,
}
use hardware_in_the_loop.SpaceVector.Peaks.{search-none, search-some, length-map}

-- A lag stands in a list.
abbrev Has : ℤ → List ℤ → Type 0
Has lag [] = ⊥
Has lag (l ∷ lags) = (l ≡ lag) ⊎ Has lag lags

Has-append : (lag : ℤ) (xs ys : List ℤ) → Has lag ys → Has lag (xs ++ ys)
Has-append lag [] ys h = h
Has-append lag (x ∷ xs) ys h = inr (Has-append lag xs ys h)

Has-lags_from : (k count j : ℕ) → j < count → Has (pos (k + j)) (lags_from k count)
Has-lags_from k zero j h = absurd (omega (arith, h))
Has-lags_from k (suc count) zero h = inl (ap pos (omega arith))
Has-lags_from k (suc count) (suc j) h = inr (
    subst (λ m. Has (pos m) (lags_from (k + 1) count)) (omega arith)
      (Has-lags_from (k + 1) count j (omega (arith, h))))

module _ {A : Type 0} ⦃n : Number A⦄ (norm : A) (a b : List A) where
  search-fails :
      (lag : ℤ) (lags : List ℤ) (best : Best A)
      → corr_at norm a b lag ≡ none
      → Has lag lags
      → search_lags norm a b lags best ≡ none
  search-fails lag [] best e h = absurd h
  search-fails lag (l ∷ lags) best e (inl same) =
      search-none norm a b l lags best (ap (corr_at norm a b) same ∙ e)
  search-fails lag (l ∷ lags) best e (inr h) = elim (Option-cases (corr_at norm a b l)) [
    | inl k ↦ search-none norm a b l lags best k
    | inr (found, k) ↦
        search-some norm a b l lags best found k
        ∙ search-fails lag lags (better_lag l found best) e h
  ]

  -- One more than the length: `a[: -1]` against an empty segment.
  corr_at-after :
      10 < length a → length a ≡ length b → corr_at norm a b (pos (suc (length a))) ≡ none
  unfolding corr_at segments
  corr_at-after long same = ground (
    arith,
    long,
    same,
    length-take (stop_at (length a) (suc (length a))) a,
    length-drop (suc (length a)) b,
  )

module _ {A : Type 0} ⦃n : Number A⦄ (sqrt : A → A) where
  -- Traces of one length, which are not constant and have more than ten samples, but fewer than the
  -- longest lag, have no result: the loop reaches a lag for which numpy refuses the two segments.
  pub bounded_xcorr_lag_short :
      (xs ys : List A) (max_lag : ℕ)
      → length xs ≡ length ys
      → 10 < length xs
      → length xs < max_lag
      → less (decimal 1 12) (norm_of sqrt (centred xs) (centred ys)) ≡ true
      → bounded_xcorr_lag sqrt xs ys max_lag ≡ none
  unfolding bounded_xcorr_lag
  bounded_xcorr_lag_short xs ys max_lag same long short lively =
      let a = centred xs in
      let b = centred ys in
      let norm = norm_of sqrt a b in
      let lx : length (centred xs) ≡ length xs = length-map _ xs in
      let ly : length (centred ys) ≡ length ys = length-map _ ys in
      if_true _ lively
      ∙ ap found_peak (
          search-fails norm a b (pos (suc (length a))) (lag_range max_lag) (pos 0, none)
            (corr_at-after norm a b (omega (arith, lx, long)) (omega (arith, lx, same, ly)))
            (Has-append (pos (suc (length a))) (lags_below max_lag) (lags_from 0 (suc max_lag)) (
              subst (λ k. Has (pos k) (lags_from 0 (suc max_lag))) (omega arith)
                (Has-lags_from 0 (suc max_lag) (suc (length a)) (omega (arith, lx, short))))))
