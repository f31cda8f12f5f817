-- ===== src/Stimulus/Tests.antt =====
-- The theorems on the reference voltages at concrete inputs, with whole numbers and the identity as
-- the wave.
use hardware_in_the_loop.Base.{refl, ◌≡◌}
use hardware_in_the_loop.Base.Int.{pos, ◌+ℤ◌}
use hardware_in_the_loop.Number.Integers.{integers, integers-OrderLaws}
use hardware_in_the_loop.Stimulus.{vf_stimulus, vf_tick, vf_step, sine_step, calls}
use hardware_in_the_loop.Stimulus.Ramp.{IsBounded, vf_tick-IsBounded}
use hardware_in_the_loop.Stimulus.Phase.{at_nominal, sine_at, next_theta, vf_step-sine_step}

vf_tick-IsBounded_example :
    IsBounded integers-OrderLaws
      (calls
        (vf_tick (λ x. x) (pos 1000))
        7
        (vf_stimulus (pos 50) (pos 60) (pos 1240) (pos 1) (pos 3))).0
vf_tick-IsBounded_example =
    vf_tick-IsBounded integers-OrderLaws (λ x. x) (pos 1000) (pos 50) (pos 60) (pos 1240) (pos 1)
      (pos 3) 7

vf_step-sine_step_example :
    (calls
      (vf_step (λ x. x) (pos 3))
      4
      (at_nominal (λ x. x) (pos 3) (pos 60) (pos 600) (pos 2) (pos 1) (pos 5))).1
    ≡ (calls (sine_step (λ x. x) (pos 3)) 4 (
        sine_at
          (λ x. x)
          (pos 3)
          (pos 60)
          (pos 600)
          (pos 2)
          (pos 1)
          (next_theta (λ x. x) (pos 3) (pos 60) (pos 600) (pos 2) (pos 1) (pos 5)))).1
unfolding integers ◌+ℤ◌
vf_step-sine_step_example =
    vf_step-sine_step (λ x. x) (pos 3) (pos 60) (pos 600) (pos 2) (pos 1) 4 (pos 5) refl refl
