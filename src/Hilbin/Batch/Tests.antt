-- ===== src/Hilbin/Batch/Tests.antt =====
-- Tests of a batch of captures, and its theorems at concrete inputs.
use hardware_in_the_loop.Base.{
  ℕ, true, Option, none, some, List, [], ◌∷◌, if◌then◌else◌, ◌==◌, ◌≡◌, refl,
}
use hardware_in_the_loop.Base.Int.{ℤ, pos, negsuc}
use hardware_in_the_loop.Number.Integers.{integers}
use hardware_in_the_loop.Hilbin.Repair.{Row}
use hardware_in_the_loop.Hilbin.Estimate.{Trajectory}
use hardware_in_the_loop.Hilbin.Replay.{CModel, Channels}
use hardware_in_the_loop.Hilbin.Batch.{
  Options, RunReport, insufficient_data, no_segment, BatchArgs, delays, rezeroed,
}
use hardware_in_the_loop.Hilbin.Batch.Run.{run_one}

abbrev channels : ℤ → Channels ℤ
channels x = record { ia = x; ib = pos 0; flux_a = pos 1; flux_b = pos 2; speed = pos 3 }

abbrev still : CModel ℤ ℤ
still = record {
  set_out = λ s wr model. s.ia;
  step = λ va vb vc load model. model;
  state = channels;
}

abbrev options : Options ℤ
options = record {
  window = 50000000;
  period = 1000;
  delay = pos 0;
  ts = 13;
  fallback = 52;
  tload = λ t. pos 0;
  t_step = none;
}

abbrev event : ℕ → ℕ → Row
event t a = record { t = t; a = a; b = 6; c = 12 }

abbrev events : List Row
events = event 100 12 ∷ event 300 2 ∷ event 200 6 ∷ event 400 3 ∷ []

in_order_from_0 : rezeroed events ≡ event 0 12 ∷ event 100 6 ∷ event 200 2 ∷ event 300 3 ∷ []
unfolding rezeroed
in_order_from_0 = refl

abbrev short_capture : Trajectory (Channels ℤ)
short_capture =
    (5, channels (pos 1))
    ∷ (6, channels (pos 1))
    ∷ (7, channels (pos 1))
    ∷ (8, channels (pos 1))
    ∷ (9, channels (pos 1))
    ∷ (10, channels (pos 1))
    ∷ (11, channels (pos 1))
    ∷ (12, channels (pos 1))
    ∷ []

abbrev run : List Row → Option (RunReport ℤ)
unfolding run_one
run rows =
    run_one still (pos 0) (pos 2) (pos 400) (λ x. x) (λ xs t. pos 0) (λ r d. r) options []
      short_capture rows

-- 70 ns are no segment of 0.1 s, and three events are too few before that.
too_short : (run events ≡ some no_segment) × (run (event 0 12 ∷ []) ≡ some insufficient_data)
unfolding run run_one
too_short = (refl, refl)

five_delays : delays 100 ≡ negsuc 9999 ∷ negsuc 4999 ∷ pos 0 ∷ pos 5000 ∷ pos 10000 ∷ []
unfolding delays
five_delays = refl

-- The captures 1 and 3 are read, 2 raises.
abbrev reads : ℕ → Option (RunReport ℤ)
reads f = if f == 2 then none else some no_segment

abbrev every_capture : BatchArgs ℕ
every_capture = record { all = true; capture = none; tload2 = true; t_step_s = true }
