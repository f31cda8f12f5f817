-- ===== src/Acquisition/Tests.antt =====
-- Tests of the campaign on the board, and its theorems at a concrete input.
use hardware_in_the_loop.Base.{true, false, Option, none, some, [], ◌∷◌, ◌≡◌, refl}
use hardware_in_the_loop.Acquisition.{
  Scenario, Answers, run_cases, scenario_events, scenarios, scenario_of, run_scenario, main,
  wait_idle, get_status, set_all, run, wait_until, set_torque, stop, pause, copied,
}
use hardware_in_the_loop.Acquisition.Order.{drive, main-drive}

abbrev fallback : Scenario
fallback = record { t_acc = 0; tload_nm = "0.0"; load_step = none; duration = 0 }

abbrev named : Option Scenario → Scenario
named none = fallback
named (some s) = s

abbrev b1 : Scenario
unfolding scenario_of
b1 = named (scenario_of "B1" scenarios)

abbrev good : Answers
good = record {
  state = "stopped";
  capture = some "run_7.hilbin";
  states_after = "running" ∷ "stopped" ∷ [];
  raises = none;
}

abbrev busy : Answers
busy = record { state = "running"; capture = none; states_after = []; raises = none }

calls_of_a_load_step :
    (run_scenario b1 good).0
    ≡ get_status
      ∷ set_all 500 "29.17840623351415"
      ∷ pause 300
      ∷ run
      ∷ wait_until 600
      ∷ set_torque "87.53521870054244"
      ∷ wait_until 1650
      ∷ stop
      ∷ pause 1000
      ∷ copied "run_7.hilbin"
      ∷ get_status
      ∷ pause 200
      ∷ get_status
      ∷ pause 2000
      ∷ []
unfolding run_scenario scenario_events wait_idle scenario_of
calls_of_a_load_step = refl

-- The gateway fails when the load is to change: the script ends and the motor turns on.
abbrev failing : Answers
failing = record good { raises = some 5 }

motor_left_running : drive (some false) (main true ((b1, failing) ∷ (b1, good) ∷ [])).0 ≡ some true
unfolding main run_cases run_scenario scenario_events scenario_of wait_idle
motor_left_running = refl

main-drive_example : drive (some false) (main true ((b1, good) ∷ (b1, busy) ∷ [])).0 ≡ some false
unfolding run_cases run_scenario scenario_events scenario_of wait_idle
main-drive_example = main-drive true ((b1, good) ∷ (b1, busy) ∷ [])
