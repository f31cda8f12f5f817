-- ===== src/Comparison/Tests.antt =====
-- Tests of the comparison, and its theorems at concrete inputs.
use hardware_in_the_loop.Base.{
  ℕ, ◌+◌, ◌*◌, ◌≤◌, Option, none, some, List, [], ◌∷◌, ◌++◌, if◌then◌else◌, leb, ◌==◌, length,
  replicate, ◌≡◌, refl, arith,
}
use hardware_in_the_loop.Base.Int.{ℤ, pos}
use hardware_in_the_loop.Number.Integers.{integers}
use hardware_in_the_loop.Stimulus.{VfStimulus}
use hardware_in_the_loop.Hilbin.Repair.{Row}
use hardware_in_the_loop.Hilbin.Estimate.{Trajectory}
use hardware_in_the_loop.Hilbin.Replay.{CModel, Channels, round_ratio}
use hardware_in_the_loop.Comparison.{Feed, fed_from, solver_ts}
use hardware_in_the_loop.Comparison.Drift.{last_row, fed_from-drift}
use hardware_in_the_loop.Comparison.Metrics.{Metrics, metrics_over, ToCompare, windows_to_compare}

abbrev channels : ℤ → Channels ℤ
channels x = record { ia = x; ib = pos 0; flux_a = pos 1; flux_b = pos 2; speed = pos 3 }

-- A model that keeps its first current.
abbrev still : CModel ℤ ℤ
still = record {
  set_out = λ s wr model. s.ia;
  step = λ va vb vc load model. model;
  state = channels;
}

abbrev event : ℕ → ℕ → Row
event t a = record { t = t; a = a; b = 6; c = 12 }

abbrev later_events : List Row
later_events = event 130 2 ∷ event 199 12 ∷ []

abbrev at_20 : Feed ℤ
at_20 = record { model = pos 5; t = 20; k = 0 }

-- 110 cycles are 8.46 solver steps, and 69 are 5.31: the time at the end is 189.
fed_from-drift_example :
    (2 * (fed_from still 4 (pos 620) (event 20 3) later_events at_20).1.t
      ≤ 2 * (last_row (event 20 3) later_events).t + solver_ts * length later_events)
    × (2 * (last_row (event 20 3) later_events).t
        ≤ 2 * (fed_from still 4 (pos 620) (event 20 3) later_events at_20).1.t
          + solver_ts * length later_events)
unfolding round_ratio
fed_from-drift_example =
    fed_from-drift still 4 (pos 620) (event 20 3) later_events at_20 refl
      (omega arith, refl, (omega arith, refl, tt))

time_of_two_intervals : (fed_from still 4 (pos 620) (event 20 3) later_events at_20).1.t ≡ 189
unfolding fed_from
time_of_two_intervals = refl

abbrev at_50_hz : VfStimulus ℤ
at_50_hz = record {
  f_target = pos 50;
  base_freq = pos 60;
  vpk = pos 620;
  max_v_pu = pos 1;
  accel = pos 60;
  f_current = pos 0;
  theta = pos 0;
}

-- The value of the last sample that is not later.
abbrev held : Trajectory ℤ → ℕ → ℤ
held [] t = pos 0
held (x ∷ xs) t =
    let rest = held xs t in if leb x.0 t then (if leb t x.0 then x.1 else rest) else pos 0

abbrev signal : Trajectory ℤ
signal = (0, pos 1) ∷ (10000, pos 3) ∷ (20000, pos 1) ∷ (90000, pos 0) ∷ []

-- A correlation with its greatest value 10 ms after the middle.
abbrev peak_late : List ℤ → List ℤ → List ℤ
peak_late r d = replicate 9 (pos 0) ++ (pos 9 ∷ replicate 7 (pos 0))

abbrev samples : Trajectory (Channels ℤ)
samples =
    (1, channels (pos 5))
    ∷ (2, channels (pos 6))
    ∷ (3, channels (pos 7))
    ∷ (4, channels (pos 8))
    ∷ (5, channels (pos 9))
    ∷ (6, channels (pos 8))
    ∷ (7, channels (pos 7))
    ∷ (8, channels (pos 6))
    ∷ []

abbrev held_exactly : Trajectory ℤ → ℕ → ℤ
held_exactly [] t = pos 0
held_exactly (x ∷ xs) t = let rest = held_exactly xs t in if x.0 == t then x.1 else rest

abbrev nothing : Metrics ℤ
nothing = record {
  compared = record {
    n_fpga = 0;
    ia_nrmse = none;
    ib_nrmse = none;
    flux_a_mae = pos 9;
    flux_b_mae = pos 9;
    speed_mae = pos 9;
    ia_fund_fpga = pos 9;
    ia_fund_c = pos 9;
    ia_fund_delta_pct = pos 9;
    speed_mean_fpga = pos 9;
    speed_mean_c = pos 9;
  };
  ia_mae = pos 9;
  ib_mae = pos 9;
}

abbrev metrics_or : Metrics ℤ → Option (Metrics ℤ) → Metrics ℤ
metrics_or m none = m
metrics_or m (some other) = other

abbrev errors : Metrics ℤ
unfolding metrics_over
errors = metrics_or nothing (metrics_over (λ x. x) held_exactly samples samples 0 100)

windows_of_both :
    windows_to_compare ToCompare.both 100000000 5 300000000
    ≡ (5, 130000000) ∷ (280000000, 300000000) ∷ []
unfolding windows_to_compare
windows_of_both = refl
