-- ===== src/Acquisition.antt =====
-- verification/cocotb/scripts/run_l4_campaign.py: a campaign on the board, as the calls of the
-- gateway. Times are ms; torques are the decimal texts of the source. A call that raises ends the
-- script: nothing catches it after the first status.
pub mod Order
mod Tests
use hardware_in_the_loop.Base.{
  ℕ, suc, ◌+◌, Bool, true, false, not, ◌&&◌, Option, none, some, List, [], ◌∷◌, ◌++◌, if◌then◌else◌,
  ◌==◌, length, select, ltb, take,
}
use Prim.Native.String.{String}
use text.Mathlib.Text.{◌==◌ as str_eq}

-- `t_step_s` and `tload_post_nm`, where the scenario has a load step.
pub record Scenario : Type 0 where
  pub t_acc : ℕ
  pub tload_nm : String
  pub load_step : Option (ℕ × String)
  pub duration : ℕ

abbrev steady : ℕ → String → ℕ → Scenario
steady t_acc tload_nm duration = record {
  t_acc = t_acc;
  tload_nm = tload_nm;
  load_step = none;
  duration = duration;
}

abbrev stepped : ℕ → String → String → ℕ → ℕ → Scenario
stepped t_acc tload_nm tload_post_nm t_step duration = record {
  t_acc = t_acc;
  tload_nm = tload_nm;
  load_step = some (t_step, tload_post_nm);
  duration = duration;
}

abbrev pub scenarios : List (String × Scenario)
scenarios =
    ("S0", steady 1000 "0.0" 3000)
    ∷ ("A1", steady 500 "0.0" 2500)
    ∷ ("A3", steady 1000 "58.3568124670283" 3000)
    ∷ ("A5", steady 5000 "0.0" 7000)
    ∷ ("B1", stepped 500 "29.17840623351415" "87.53521870054244" 600 1500)
    ∷ ("B2", stepped 500 "58.3568124670283" "116.7136249340566" 600 1500)
    ∷ []

abbrev pub tail_buffer : ℕ
tail_buffer = 150

-- `set_all`: the acceleration and the torque; the rest of the payload is constant. `wait_until`: a
-- sleep until so long after the start of the run. `copied`: the capture and metadata.json.
pub data Event : Type 0 where
  get_status : Event
  set_all : ℕ → String → Event
  run : Event
  wait_until : ℕ → Event
  set_torque : String → Event
  stop : Event
  pause : ℕ → Event
  copied : String → Event

-- What the gateway answers and the recorder leaves during one scenario: the state before it, the
-- newest capture, and the states that `wait_idle` sees before its timeout; and the place of the event
-- that raises, where one does (`raise_for_status`, a timeout).
pub record Answers : Type 0 where
  pub state : String
  pub capture : Option String
  pub states_after : List String
  pub raises : Option ℕ

pub data Outcome : Type 0 where
  captured : String → Outcome
  board_busy : String → Outcome
  no_capture : Outcome
  raised : Outcome

-- `wait_idle`: polls until the board has stopped, or gives up.
unfoldable pub wait_idle : List String → List Event
wait_idle [] = []
wait_idle (st ∷ states) =
    let again = wait_idle states in
    get_status ∷ (if str_eq st "stopped" then [] else pause 200 ∷ again)

abbrev pub torque_events : Option (ℕ × String) → List Event
torque_events none = []
torque_events (some (t_step, torque)) = wait_until t_step ∷ set_torque torque ∷ []

abbrev pub after_stop : Answers → List Event
unfolding wait_idle
after_stop a = elim a.capture [
  | none ↦ []
  | some file ↦ copied file ∷ (wait_idle a.states_after ++ pause 2000 ∷ [])
]

abbrev pub outcome_of : Answers → Outcome
outcome_of a = elim a.capture [ none ↦ no_capture | some file ↦ captured file ]

-- Where no event raises.
unfoldable pub scenario_events : Scenario → Answers → List Event × Outcome
unfolding after_stop
scenario_events s a =
    if str_eq a.state "stopped"
    then (
      get_status
          ∷ set_all s.t_acc s.tload_nm
          ∷ pause 300
          ∷ run
          ∷ (torque_events s.load_step
              ++ (wait_until (s.duration + tail_buffer) ∷ stop ∷ pause 1000 ∷ after_stop a)),
      outcome_of a,
    )
    else (get_status ∷ [], board_busy a.state)

-- An event that raises is the first one that does not take place.
abbrev pub cut_off : Option ℕ → List Event × Outcome → List Event × Outcome
cut_off none results = results
cut_off (some place) (events, outcome) =
    if ltb place (length events) then (take place events, raised) else (events, outcome)

unfoldable pub run_scenario : Scenario → Answers → List Event × Outcome
unfolding scenario_events
run_scenario s a = cut_off a.raises (scenario_events s a)

abbrev pub is_raised : Outcome → Bool
is_raised raised = true
is_raised _ = false

abbrev pub is_captured : Outcome → Bool
is_captured (captured file) = true
is_captured _ = false

-- `SCENARIOS[case_id]` for the cases that --case names, or all.
unfoldable pub scenario_of : String → List (String × Scenario) → Option Scenario
scenario_of case_id [] = none
scenario_of case_id ((id, s) ∷ rest) =
    if str_eq id case_id then some s else scenario_of case_id rest

unfoldable pub run_cases : List (Scenario × Answers) → List Event × List Outcome
unfolding run_scenario
run_cases [] = ([], [])
run_cases ((s, a) ∷ cases) =
    let one = run_scenario s a in
    let rest = run_cases cases in
    if is_raised one.1 then (one.0, one.1 ∷ []) else (one.0 ++ rest.0, one.1 ∷ rest.1)

-- main: the scenarios it runs, with what happens in each; `reachable` is the first status call. An
-- exception ends the script with exit code 1, as a missing capture does.
unfoldable pub main : Bool → List (Scenario × Answers) → List Event × ℕ
unfolding run_cases
main false cases = ([], 1)
main true cases =
    let results = run_cases cases in
    (
      get_status ∷ results.0,
      if length (select is_captured results.1) == length results.1 then 0 else 1,
    )
