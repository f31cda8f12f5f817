-- ===== src/Campaign/Tests.antt =====
-- Tests of the campaign runners, and the theorems at concrete inputs.
use hardware_in_the_loop.Base.{
  ℕ, zero, suc, ◌+◌, ◌-◌, ◌*◌, ◌/◌, ◌%◌, ◌^◌, true, false, Option, none, some, List, [], ◌∷◌, ◌++◌,
  if◌then◌else◌, ◌==◌, leb, ◌≡◌, refl, all, get_or,
}
use hardware_in_the_loop.Base.Int.{ℤ, pos, negsuc}
use Prim.Native.String.{String, ◌++◌ as append}
use text.Mathlib.Text.{◌==◌ as str_eq}
use hardware_in_the_loop.Campaign.{Floats, Value, number, string, Dict, lookup, update, Defaults}
use hardware_in_the_loop.Campaign.Environment.{build_l3_env, build_l2_env}
use hardware_in_the_loop.Campaign.Manifest.{Case, Experiment, Result, is_case_already_ok}
use hardware_in_the_loop.Campaign.Matrix.{State, Args, main, selected, is_runner, ran, skipped}
use hardware_in_the_loop.Campaign.Complete.{main_resumes}
use hardware_in_the_loop.Campaign.Log.{codes, cocotb_run_passed, search_line}
use hardware_in_the_loop.Campaign.Verdict.{cocotb_run_passed-summary, summary_line}
use hardware_in_the_loop.Campaign.Sequence.{
  csv_rows, cocotb_command, update_summary, Experiment as Listed, main as run_all,
}
use hardware_in_the_loop.Campaign.Order.{main-up_to_failure}

abbrev digit : ℕ → String
digit n = get_or ("0" ∷ "1" ∷ "2" ∷ "3" ∷ "4" ∷ "5" ∷ "6" ∷ "7" ∷ "8" ∷ []) n "9"

abbrev shown : ℕ → ℕ → String
shown zero n = ""
shown (suc fuel) n = append (shown fuel (n / 10)) (digit (n % 10))

-- Numbers as whole billionths, without signs.
abbrev billionths : Floats
billionths = record {
  Number = ℕ;
  decimal = λ m e. if leb e 9 then m * 10 ^ (9 - e) else m / 10 ^ (e - 9);
  str = shown 20;
  int = λ n. n / 1000000000 * 1000000000;
  round = λ n. (n + 500000000) / 1000000000 * 1000000000;
  divide = λ a b. if b == 0 then none else some (a * 1000000000 / b);
  parse_int = λ s. none;
  parse_float = λ s. none;
}

abbrev no_defaults : Defaults billionths
no_defaults = record { common = []; motor = [] }

abbrev ramp_50ms : Dict (Value ℕ)
ramp_50ms =
    ("duration_s", number 50000000)
    ∷ ("record_interval", number 48000000000)
    ∷ ("vf_acc_hz_s", number 60000000000)
    ∷ ("test_mode", string "vf")
    ∷ []

abbrev shell : Dict String
shell = ("PATH", "/usr/bin") ∷ ("IM_RS", "9") ∷ []

abbrev steps_in : Option (Dict String) → Option String
steps_in none = none
steps_in (some env) = lookup "HIL_L3_STEPS" env

abbrev env_of : Option (Dict String) → Dict String
env_of none = []
env_of (some env) = env

-- 50 ms in steps of 130 ns.
steps_of_50ms :
    steps_in (build_l3_env billionths shell no_defaults ramp_50ms "/out")
    ≡ some "00000384615000000000"
unfolding build_l3_env lookup update
steps_of_50ms = refl

no_duration : build_l3_env billionths shell no_defaults [] "/out" ≡ none
unfolding build_l3_env lookup
no_duration = refl

abbrev l3_env : Dict String → Dict String
unfolding build_l3_env lookup update
l3_env environ = env_of (build_l3_env billionths environ no_defaults ramp_50ms "/out")

abbrev l2_env : Dict String
unfolding build_l2_env lookup update
l2_env = env_of (build_l2_env billionths shell no_defaults ramp_50ms (λ file. file))

abbrev s0 : Case
s0 = record {
  id = "S0";
  status = "planned";
  t_acc_s = some "1.0";
  l2_results = some [];
  l3_results = some [];
}

abbrev replay : Experiment
replay = record {
  id = "S0_l3";
  case_id = "S0";
  level = "l3";
  result_key = "pwm_replay";
  output_dir = "S0/l3";
  runner = "cocotb";
  enabled = true;
  depends_on = none;
  options = [];
}

abbrev mock : Experiment
mock = record {
  id = "S0_mock";
  case_id = "S0";
  level = "l3";
  result_key = "fullstack_mock";
  output_dir = "S0/mock";
  runner = "fullstack_mock";
  enabled = true;
  depends_on = some "S0_l3";
  options = [];
}

abbrev plain : Args
plain = record { only = []; force = false; dry_run = false }

abbrev all_pass : Experiment → Result
all_pass e = record { ok = true; metrics = none }

abbrev replay_fails : Experiment → Result
replay_fails e = record { ok = is_runner "fullstack_mock" e; metrics = none }

abbrev outcome : (Experiment → Result) → Option (State × ℕ)
outcome run = main (λ l. l) (λ d. d) run (λ es. es) plain (replay ∷ mock ∷ []) (s0 ∷ []) none

abbrev manifest_of : Option (State × ℕ) → List Case
manifest_of none = []
manifest_of (some (st, rc)) = st.manifest

abbrev state_of : Option (State × ℕ) → State
state_of none = record { manifest = []; summary = none; printed = []; any_failed = true }
state_of (some (st, rc)) = st

abbrev code_of : Option (State × ℕ) → ℕ
code_of none = 2
code_of (some (st, rc)) = rc

-- The mock is skipped where the replay that it needs failed.
mock_is_skipped :
    (state_of (outcome replay_fails)).printed ≡ ran false "S0_l3" ∷ skipped "S0_mock" "S0_l3" ∷ []
unfolding main lookup is_case_already_ok
mock_is_skipped = refl

fails_with_1 : code_of (outcome replay_fails) ≡ 1
unfolding main lookup is_case_already_ok
fails_with_1 = refl

abbrev end_state : State
unfolding main lookup is_case_already_ok
end_state = state_of (outcome all_pass)

main_resumes_example : selected plain end_state.manifest (replay ∷ mock ∷ []) ≡ []
unfolding main lookup selected is_case_already_ok
main_resumes_example =
    main_resumes (λ l. l) (λ d. d) all_pass (λ es. es) (λ P es h. h) plain (replay ∷ mock ∷ [])
      (s0 ∷ []) none end_state refl (refl, (refl, tt)) refl

abbrev ready : List ℕ
ready = codes "0.00ns INFO running"

abbrev two_failures : List ℕ
two_failures =
    codes "9.00ns INFO "
    ++ summary_line (codes "3") (codes "1") (codes "02") (codes "0") (codes " 1.0s")

failures_are_seen : cocotb_run_passed (some (ready ∷ two_failures ∷ ready ∷ [])) ≡ false
unfolding cocotb_run_passed
failures_are_seen = refl

cocotb_run_passed-summary_example :
    cocotb_run_passed (some ((ready ∷ []) ++ two_failures ∷ ready ∷ []))
    ≡ all (λ d. d == 48) (codes "02")
unfolding search_line
cocotb_run_passed-summary_example =
    cocotb_run_passed-summary b'3' [] b'1' [] b'0' (b'2' ∷ []) b'0' [] 32 (codes "1.0s") (refl, tt)
      (refl, tt) (refl, (refl, tt)) (refl, tt) refl (ready ∷ []) (codes "9.00ns INFO ") (ready ∷ [])
      (
        refl,
        (refl, (refl, (refl, (refl, (refl, (refl, (refl, (refl, (refl, (refl, (refl, tt))))))))))),
      )
      (refl, tt)

abbrev first : Listed
first = record { id = "one"; enabled = true }

abbrev disabled : Listed
disabled = record { id = "two"; enabled = false }

abbrev third : Listed
third = record { id = "three"; enabled = true }

abbrev three : List Listed
three = first ∷ disabled ∷ third ∷ first ∷ []

-- The third one is killed by signal 9.
abbrev killed : Listed → ℤ
killed e = if str_eq e.id "three" then negsuc 8 else pos 0

stops_at_the_killed_run : run_all killed [] three none ≡ (
  some (
      record { id = "one"; returncode = pos 0 }
      ∷ record { id = "three"; returncode = negsuc 8 }
      ∷ []),
  negsuc 8,
)
unfolding run_all update_summary
stops_at_the_killed_run = refl

main-up_to_failure_example : run_all killed [] three (some []) ≡ (
  some (
      record { id = "one"; returncode = pos 0 }
      ∷ record { id = "three"; returncode = negsuc 8 }
      ∷ []),
  negsuc 8,
)
main-up_to_failure_example = main-up_to_failure killed [] three []

abbrev five : List ℕ
five = 0 ∷ 1 ∷ 2 ∷ 3 ∷ 4 ∷ []

every_second : csv_rows 2 five ≡ 0 ∷ 2 ∷ 4 ∷ []
unfolding csv_rows
every_second = refl

command_of_a_testcase :
    cocotb_command (("testcase", "test_l3") ∷ []) "sim_build"
    ≡ "uv" ∷ "run" ∷ "python" ∷ "run.py" ∷ "--sim" ∷ "nvc" ∷ "--top" ∷ "top_hil" ∷ "--build-dir"
      ∷ "sim_build" ∷ "-k" ∷ "test_l3" ∷ []
unfolding cocotb_command lookup
command_of_a_testcase = refl
