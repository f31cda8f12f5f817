-- ===== src/Stimulus/Phase.antt =====
-- vf_control.py and sine_control.py against each other, once the ramp is over.
use hardware_in_the_loop.Base.{ℕ, zero, suc, true, ◌∷◌, ◌≡◌, refl, ap, ◌∙◌}
use hardware_in_the_loop.Number.{Number, less, whole, ◌+F◌, ◌*F◌, ◌/F◌}
use hardware_in_the_loop.Stimulus.{VfControl, SineControl, vf_step, sine_step, three_phases, calls}

module _ {A : Type 0} ⦃n : Number A⦄ (wave : A → A) (pi f v_peak acc ts : A) where
  -- The V/F law at its nominal frequency.
  abbrev pub at_nominal : A → VfControl A
  at_nominal theta = record {
    f_nominal = f;
    v_peak_nominal = v_peak;
    acc_ramp_hz_s = acc;
    ts = ts;
    theta = theta;
    f_ref = f;
  }

  abbrev pub sine_at : A → SineControl A
  sine_at theta = record { frequency_hz = f; v_peak = v_peak; ts = ts; theta = theta }

  abbrev pub next_theta : A → A
  next_theta theta = theta +F whole 2 *F pi *F f *F ts

  vf_step-at_nominal :
      (theta : A)
      → less f (f +F acc *F ts) ≡ true
      → v_peak /F f *F f ≡ v_peak
      → vf_step wave pi (at_nominal theta)
        ≡ (at_nominal (next_theta theta), three_phases wave pi v_peak (next_theta theta))
  unfolding vf_step
  vf_step-at_nominal theta h e = rw (h, e) refl

  -- Once the ramp has reached the nominal frequency, the V/F law returns for ever what the pure sine
  -- returns that starts one step of the angle later: it turns the angle before it gives the voltages,
  -- and the sine does after. The ramp is not zero, and dividing the peak by the frequency loses nothing.
  pub vf_step-sine_step :
      (k : ℕ) (theta : A)
      → less f (f +F acc *F ts) ≡ true
      → v_peak /F f *F f ≡ v_peak
      → (calls (vf_step wave pi) k (at_nominal theta)).1
        ≡ (calls (sine_step wave pi) k (sine_at (next_theta theta))).1
  unfolding calls sine_step
  vf_step-sine_step zero theta h e = refl
  vf_step-sine_step (suc k) theta h e =
      ap (λ r. r.1 ∷ (calls (vf_step wave pi) k r.0).1) (vf_step-at_nominal theta h e)
      ∙ ap (λ vs. three_phases wave pi v_peak (next_theta theta) ∷ vs)
          (vf_step-sine_step k (next_theta theta) h e)
