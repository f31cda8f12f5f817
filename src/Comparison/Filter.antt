-- ===== src/Comparison/Filter.antt =====
-- fpga_vs_c.py: the filter keeps a constant signal, and a signal has no error against itself.
use hardware_in_the_loop.Base.{
  ℕ, zero, suc, some, List, [], ◌∷◌, length, replicate, map, ltb, ◌≡◌, refl, ap, ◌∙◌, arith, inl,
  inr, Bool-cases, if_true, if_false, sym,
}
use mathlib.Core.Option.{some-injective}
use hardware_in_the_loop.Number.{Number, ZeroLaws, OrderLaws, ◌+F◌, ◌-F◌, ◌*F◌, whole}
use hardware_in_the_loop.Hilbin.Estimate.{Trajectory, window}
use hardware_in_the_loop.Hilbin.Replay.{Channels}
use hardware_in_the_loop.Comparison.Metrics.{
  sum, mean, differences, mae, low_from, lowpass_by, lowpass, abs_F, metrics_over, Metrics, values,
  resampled, compared_over,
}

module _ {A : Type 0} ⦃n : Number A⦄ (laws : ZeroLaws n) where
  low_from-constant : (a y : A) (k : ℕ) → low_from a y (replicate k y) ≡ replicate k y
  unfolding low_from
  low_from-constant a y zero = refl
  low_from-constant a y (suc k) =
      let kept : y +F a *F (y -F y) ≡ y = simp (laws.sub_self, laws.mul_zero, laws.add_zero) refl in
      rw kept (ap (λ ys. y ∷ ys) (low_from-constant a y k))

  -- The low-pass filter returns a constant signal unchanged, whatever its corner frequency and the
  -- spacing of the samples are: it starts at the first sample and has no transient.
  pub lowpass-constant :
      (median : List A → A) (pi fc y : A) (t : List A) (k : ℕ)
      → lowpass median pi fc t (replicate k y) ≡ replicate k y
  unfolding lowpass lowpass_by
  lowpass-constant median pi fc y [] k = refl
  lowpass-constant median pi fc y (t ∷ []) k = refl
  lowpass-constant median pi fc y (t ∷ t' ∷ ts) zero = refl
  lowpass-constant median pi fc y (t ∷ t' ∷ ts) (suc k) =
      ap (λ ys. y ∷ ys) (low_from-constant _ y k)

module _ {A : Type 0} ⦃n : Number A⦄ (laws : ZeroLaws n) (order : OrderLaws n) where
  sum_self : (xs : List A) → sum (map abs_F (differences xs xs)) ≡ whole 0
  unfolding sum differences
  sum_self [] = refl
  sum_self (x ∷ xs) =
      rw (laws.sub_self x, order.irreflexive (n.decimal 0 0))
        (rw (sum_self xs) (laws.zero_add (whole 0)))

  mae_self : (xs : List A) → mae xs xs ≡ whole 0
  unfolding mae mean
  mae_self xs = rw (sum_self xs) (laws.zero_div _)

  -- Where the C model has, at the times of the samples in a window, the values of the samples, every
  -- mean absolute error over the window is 0.
  pub metrics_over-exact :
      (sqrt : A → A) (interp : Trajectory A → ℕ → A) (fpga cmod : Trajectory (Channels A))
      (t_lo t_hi : ℕ) (m : Metrics A)
      → ((c : Channels A → A)
          → resampled sqrt interp c cmod (window t_lo t_hi fpga)
            ≡ values sqrt interp c (window t_lo t_hi fpga))
      → metrics_over sqrt interp fpga cmod t_lo t_hi ≡ some m
      → (m.ia_mae ≡ whole 0)
        × (m.ib_mae ≡ whole 0)
        × (m.compared.flux_a_mae ≡ whole 0)
        × (m.compared.flux_b_mae ≡ whole 0)
        × (m.compared.speed_mae ≡ whole 0)
  unfolding metrics_over compared_over
  metrics_over-exact sqrt interp fpga cmod t_lo t_hi m same e =
      let f = window t_lo t_hi fpga in
      let none_of = λ (c : Channels A → A).
        ap (λ r. mae r (values sqrt interp c f)) (same c) ∙ mae_self (values sqrt interp c f) in
      elim (Bool-cases (ltb (length f) 8)) [
        | inl h ↦ absurd (ground (arith, sym (if_true _ h) ∙ e))
        | inr h ↦
            let is = sym (some-injective _ _ (sym (if_false _ h) ∙ e)) in
            (
              ap (λ r. r.ia_mae) is ∙ none_of (λ c. c.ia),
              ap (λ r. r.ib_mae) is ∙ none_of (λ c. c.ib),
              ap (λ r. r.compared.flux_a_mae) is ∙ none_of (λ c. c.flux_a),
              ap (λ r. r.compared.flux_b_mae) is ∙ none_of (λ c. c.flux_b),
              ap (λ r. r.compared.speed_mae) is ∙ none_of (λ c. c.speed),
            )
      ]
