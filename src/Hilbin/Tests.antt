-- ===== src/Hilbin/Tests.antt =====
-- Tests of the repair and the checks, and the theorems at concrete inputs.
use hardware_in_the_loop.Base.{
  ℕ, ◌++◌, Option, none, true, ◌&&◌, some, List, [], ◌∷◌, leb, take, length, All, ◌≡◌, refl, arith,
}
use hardware_in_the_loop.Base.Int.{pos, negsuc}
use hardware_in_the_loop.Hilbin.Repair.{
  Row, Leg, Report, repair_pwm_dead_time_holds, repaired_leg, lost_exits, level_at,
}
use hardware_in_the_loop.Hilbin.Splice.{splice, repaired_leg-splice}
use hardware_in_the_loop.Hilbin.Holds.{repaired_leg-dead, repaired_leg-keeps, dead_lately}
use hardware_in_the_loop.Hilbin.Segment.{
  first_monotonic_len, find_pwm_gaps, gate_to_v_rtl, make_load_step,
}
use hardware_in_the_loop.Hilbin.Check.{check_file, exit_code}
use hardware_in_the_loop.Hilbin.Verdict.{check_file-ok, no_gap_over}
use hardware_in_the_loop.Hilbin.Estimate.{
  estimate_dead_time, repair, windows_of, clip_fpga, seed_at,
}
use hardware_in_the_loop.Hilbin.Parse.{parse_times, magic}

-- A leg that leaves zero at 100, and whose exit at 152 was lost; the next event is at 1000.
abbrev parked : Leg
parked = (0, 6) ∷ (100, 2) ∷ (1000, 4) ∷ (1052, 12) ∷ []

exit_is_put_back :
    repaired_leg 52 parked ≡ (0, 6) ∷ (100, 2) ∷ (152, 6) ∷ (1000, 4) ∷ (1052, 12) ∷ []
unfolding repaired_leg
exit_is_put_back = refl

repaired_leg-splice_example : repaired_leg 52 parked ≡ splice 52 parked
repaired_leg-splice_example =
    repaired_leg-splice 52 parked (omega arith, (omega arith, (omega arith, tt)))

repaired_leg-dead_example : dead_lately 52 parked 120 ≡ true
unfolding repaired_leg level_at
repaired_leg-dead_example =
    repaired_leg-dead 52 0 6 120 ((100, 2) ∷ (1000, 4) ∷ (1052, 12) ∷ [])
      (omega arith, (omega arith, (omega arith, tt))) (omega arith) (omega arith) refl

repaired_leg-keeps_example : All (λ e. level_at (repaired_leg 52 parked) e.0 ≡ e.1) parked
repaired_leg-keeps_example =
    repaired_leg-keeps 52 parked (omega arith) (omega arith, (omega arith, (omega arith, tt)))

abbrev row : ℕ → ℕ → Row
row t a = record { t = t; a = a; b = 6; c = 6 }

-- An event that was read twice, and a lost exit of the first leg.
repair_of_both :
    repair_pwm_dead_time_holds (λ work. 52) (row 0 6 ∷ row 100 2 ∷ row 100 2 ∷ row 1000 3 ∷ []) ≡ (
      row 0 6 ∷ row 100 2 ∷ row 152 6 ∷ row 1000 3 ∷ [],
      record { inserted = 1; duplicates_dropped = 1; dead_time = 52 },
    )
unfolding repair_pwm_dead_time_holds
repair_of_both = refl

-- Other legs that switch in the meantime hide a hold: every row is measured against the next one.
hidden_hold :
    lost_exits 52 ((0, 6) ∷ (100, 2) ∷ (300, 2) ∷ (500, 2) ∷ (700, 2) ∷ (900, 6) ∷ []) ≡ []
unfolding lost_exits
hidden_hold = refl

abbrev two_epochs : List ℕ
two_epochs = 5 ∷ 8 ∷ 9 ∷ 2 ∷ 3 ∷ []

first_of_two_epochs : first_monotonic_len two_epochs ≡ 3
unfolding first_monotonic_len
first_of_two_epochs = refl

one_gap : find_pwm_gaps 10 (0 ∷ 5 ∷ 40 ∷ 42 ∷ []) ≡ (1, 35) ∷ []
unfolding find_pwm_gaps
one_gap = refl

quarter_levels : gate_to_v_rtl (pos 4) ≡ negsuc 0
unfolding gate_to_v_rtl
quarter_levels = refl

load_after_the_step : make_load_step {A = ℕ} 0 10 100 100 ≡ 10
unfolding make_load_step
load_after_the_step = refl

abbrev samples : List ℕ
samples = 0 ∷ 1 ∷ 2 ∷ 3 ∷ 4 ∷ 5 ∷ 6 ∷ 7 ∷ []

abbrev events : List ℕ
events = 0 ∷ 9 ∷ 7 ∷ 30 ∷ 100 ∷ []

gap_makes_it_fail : exit_code (check_file 10 50 (some (samples, events)) ∷ []) ≡ 1
unfolding exit_code check_file
gap_makes_it_fail = refl

check_file-ok_example :
    (check_file 10 50 (some (samples, events))).ok
    ≡ (leb 8 (length samples) && (leb 4 (length events) && no_gap_over 50 events))
check_file-ok_example = check_file-ok 10 50 samples events (omega arith)

-- Two dead states of 104 and 108, in half cycles.
median_of_two :
    estimate_dead_time 104 (row 0 6 ∷ row 10 2 ∷ row 114 3 ∷ row 500 2 ∷ row 608 6 ∷ []) ≡ 106
unfolding estimate_dead_time
median_of_two = refl

no_dead_state : estimate_dead_time 104 (row 0 6 ∷ row 10 3 ∷ []) ≡ 104
unfolding estimate_dead_time
no_dead_state = refl

abbrev inserted_of : List Row × Report → ℕ
inserted_of result = result.1.inserted

repaired_with_its_estimate :
    inserted_of (
      repair 104
        (row 0 6 ∷ row 10 2 ∷ row 114 3 ∷ row 500 2 ∷ row 604 6 ∷ row 700 2 ∷ row 5000 6 ∷ []))
    ≡ 1
unfolding repair
repaired_with_its_estimate = refl

clipped : clip_fpga {A = ℕ} ((5, 1) ∷ (8, 2) ∷ (3, 3) ∷ []) ≡ some ((pos 0, 1) ∷ (pos 3, 2) ∷ [])
unfolding clip_fpga
clipped = refl

seeds : seed_at {A = ℕ} 0 ((5, 1) ∷ (8, 2) ∷ []) 6 ≡ 2
unfolding seed_at
seeds = refl

regime_after_the_step : (windows_of 50 150 (some 60)).regime ≡ (60, 110)
unfolding windows_of
regime_after_the_step = refl

abbrev hildata : List ℕ
hildata =
    magic
    ++ (2
        ∷ 3
        ∷ 0
        ∷ 0
        ∷ 0
        ∷ 7
        ∷ 7
        ∷ 7
        ∷ 9
        ∷ (0 ∷ 0 ∷ 0 ∷ 0 ∷ 1 ∷ 0 ∷ 0 ∷ 0 ∷ 44 ∷ 1 ∷ 0 ∷ 0 ∷ 3 ∷ 6 ∷ 12 ∷ 0 ∷ []))

abbrev no_json : List ℕ → Option ℕ
no_json bs = some (length bs)

-- No sample, and one event at cycle 300.
parsed : parse_times no_json (λ w. 0) (λ clock w. w) hildata ≡ some ([], 300 ∷ [])
unfolding parse_times
parsed = refl

-- The last byte is missing.
cut_short : parse_times no_json (λ w. 0) (λ clock w. w) (take 31 hildata) ≡ none
unfolding parse_times
cut_short = refl
