-- ===== src/Transient/Tests.antt =====
-- Tests of the transient metrics, and its theorem at a concrete input.
use hardware_in_the_loop.Base.{ℕ, some, List, [], ◌∷◌, ◌≡◌, refl}
use hardware_in_the_loop.Base.Int.{pos, pos_part, ◌-ℤ◌}
use hardware_in_the_loop.Transient.{Sample, compute_transient_metrics, post_of}

abbrev at : ℕ → ℕ → Sample
at t speed = record { t = t; speed = pos speed; i_alpha = pos t; i_beta = pos 0 }

-- The speed drops at 600 and comes back to about 900.
abbrev drop_and_return : List Sample
drop_and_return =
    at 400 1000 ∷ at 500 1000 ∷ at 600 800 ∷ at 700 700 ∷ at 800 880 ∷ at 900 910 ∷ at 1000 900 ∷ []

metrics_of_the_drop :
    compute_transient_metrics (λ a b. pos_part a) 5 100 600 drop_and_return
    ≡ some (record {
      speed_before = pos 1000;
      speed_peak_deviation = 300;
      current_peak = 1000;
      recovery_time = some 200;
    })
unfolding compute_transient_metrics ◌-ℤ◌
metrics_of_the_drop = refl

abbrev one_cycle : List Sample
unfolding post_of
one_cycle = post_of 600 drop_and_return
