-- ===== src/Transient.antt =====
-- verification/cocotb/models/transient_metrics.py: compute_transient_metrics. The four lists, which
-- are of one length, are a list of samples; times and speeds are whole numbers in units of their
-- resolution, the tolerance is a fraction, and `hypot` is a parameter.
pub mod Recovery
mod Tests
use hardware_in_the_loop.Base.{
  ℕ, ◌+◌, ◌-◌, ◌*◌, max, Bool, true, false, Option, none, some, List, [], ◌∷◌, if◌then◌else◌, ltb,
  leb, select, all,
}
use hardware_in_the_loop.Base.Int.{ℤ, pos, negsuc, pos_part, neg_part, ◌-ℤ◌}

pub record Sample : Type 0 where
  pub t : ℕ
  pub speed : ℤ
  pub i_alpha : ℤ
  pub i_beta : ℤ

pub record Metrics : Type 0 where
  pub speed_before : ℤ
  pub speed_peak_deviation : ℕ
  pub current_peak : ℕ
  pub recovery_time : Option ℕ

abbrev pub abs : ℤ → ℕ
abs z = pos_part z + neg_part z

-- The speed at the last sample of the beginning that lies before the step.
unfoldable pub speed_before_from : ℕ → ℤ → List Sample → ℤ
speed_before_from t_step last [] = last
speed_before_from t_step last (s ∷ samples) =
    let rest = speed_before_from t_step s.speed samples in if ltb s.t t_step then rest else last

-- Of at least one sample; `speed[0]` where none lies before the step.
abbrev pub speed_before_of : ℕ → Sample → List Sample → ℤ
unfolding speed_before_from
speed_before_of t_step first samples = speed_before_from t_step first.speed (first ∷ samples)

unfoldable pub post_of : ℕ → List Sample → List Sample
post_of t_step samples = select (λ s. leb t_step s.t) samples

unfoldable pub peak_of : (Sample → ℕ) → List Sample → ℕ
peak_of f [] = 0
peak_of f (s ∷ samples) = max (f s) (peak_of f samples)

unfoldable pub last_speed : ℤ → List Sample → ℤ
last_speed last [] = last
last_speed last (s ∷ samples) = last_speed s.speed samples

-- `abs(speed - speed_final) <= abs(speed_final) * num / den`
abbrev pub is_settled : ℕ → ℕ → ℤ → Sample → Bool
unfolding ◌-ℤ◌
is_settled num den final s = leb (abs (s.speed -ℤ final) * den) (abs final * num)

-- The first suffix of at least two samples that are all settled.
unfoldable pub recovery_from : (Sample → Bool) → ℕ → List Sample → Option ℕ
recovery_from settled t_step [] = none
recovery_from settled t_step (s ∷ []) = none
recovery_from settled t_step (s ∷ s' ∷ samples) =
    let later = recovery_from settled t_step (s' ∷ samples) in
    if all settled (s ∷ s' ∷ samples) then some (s.t - t_step) else later

abbrev pub recovery_of : ℕ → ℕ → ℕ → List Sample → Option ℕ
unfolding recovery_from last_speed
recovery_of num den t_step post =
    recovery_from (is_settled num den (last_speed (pos 0) post)) t_step post

module _ (hypot : ℤ → ℤ → ℕ) where
  unfoldable pub metrics_of : ℕ → ℕ → ℕ → ℤ → List Sample → Metrics
  unfolding peak_of recovery_of ◌-ℤ◌
  metrics_of num den t_step before [] = record {
    speed_before = before;
    speed_peak_deviation = 0;
    current_peak = 0;
    recovery_time = none;
  }
  metrics_of num den t_step before (s ∷ post) = record {
    speed_before = before;
    speed_peak_deviation = peak_of (λ x. abs (x.speed -ℤ before)) (s ∷ post);
    current_peak = peak_of (λ x. hypot x.i_alpha x.i_beta) (s ∷ post);
    recovery_time = recovery_of num den t_step (s ∷ post);
  }

  -- `none`: there is no sample, and `speed[0]` raises.
  unfoldable pub compute_transient_metrics : ℕ → ℕ → ℕ → List Sample → Option Metrics
  unfolding metrics_of post_of speed_before_of
  compute_transient_metrics num den t_step [] = none
  compute_transient_metrics num den t_step (s ∷ samples) =
      some (
        metrics_of num den t_step (speed_before_of t_step s samples) (post_of t_step (s ∷ samples)))
