-- ===== src/Campaign/Matrix.antt =====
-- run_campaign_matrix.py: main. The runs themselves, and the order in which the pool completes
-- them, are parameters.
use hardware_in_the_loop.Base.{
  ℕ, Bool, true, false, not, ◌&&◌, Option, none, some, List, [], ◌∷◌, ◌++◌, if◌then◌else◌, map,
  select, any,
}
use Prim.Native.String.{String}
use text.Mathlib.Text.{◌==◌ as str_eq}
use hardware_in_the_loop.Base.Int.{ℤ}
use hardware_in_the_loop.Campaign.{Dict, ◌>>=◌, lookup, update, get}
use hardware_in_the_loop.Campaign.Log.{cocotb_run_passed}
use hardware_in_the_loop.Campaign.Sequence.{is_zero}
use hardware_in_the_loop.Campaign.Manifest.{
  Case, Experiment, Metrics, Result, update_manifest_case, is_case_already_ok, summary_row,
  append_summary_row,
}

-- The lines that main prints.
pub data Line : Type 0 where
  ran : Bool → String → Line
  skipped : String → String → Line
  planned : String → Line

pub record State : Type 0 where
  pub manifest : List Case
  pub summary : Option (List (List String))
  pub printed : List Line
  pub any_failed : Bool

pub record Args : Type 0 where
  pub only : List String
  pub force : Bool
  pub dry_run : Bool

unfoldable pub enabled_of : List Experiment → List Experiment
enabled_of exps = select (λ e. e.enabled) exps

unfoldable pub chosen_of : List String → List Experiment → List Experiment
chosen_of [] exps = exps
chosen_of (o ∷ only) exps = select (λ e. any (str_eq e.id) (o ∷ only)) exps

abbrev pub recorded : List Case → Experiment → Bool
recorded manifest e = is_case_already_ok manifest e.case_id e.level e.result_key

-- The experiments that a run takes up.
unfoldable pub selected : Args → List Case → List Experiment → List Experiment
unfolding enabled_of chosen_of
selected args manifest exps =
    let chosen = chosen_of args.only (enabled_of exps) in
    if args.force then chosen else select (λ e. not (recorded manifest e)) chosen

abbrev pub is_runner : String → Experiment → Bool
is_runner name e = str_eq e.runner name

-- `{e["id"]: e for e in experiments}`: the last of an id stays.
unfoldable pub experiments_by_id : List Experiment → Dict Experiment
unfolding update
experiments_by_id exps = update [] (map (λ e. (e.id, e)) exps)

abbrev pub skip_one : Experiment → Experiment → State → State
skip_one exp dep st = record {
  manifest = st.manifest;
  summary = st.summary;
  printed = st.printed ++ skipped exp.id dep.id ∷ [];
  any_failed = true;
}

abbrev pub exit_code : State → ℕ
exit_code st = if st.any_failed then 1 else 0

abbrev pub plan : List Experiment → State → State
plan exps st = record {
  manifest = st.manifest;
  summary = st.summary;
  printed = st.printed ++ map (λ e. planned e.id) exps;
  any_failed = st.any_failed;
}

-- From the simulator's return code, the log and `metrics.json`, each `none` where there is none.
unfoldable pub run_one_cocotb : ℤ → Option (List (List ℕ)) → Option Metrics → Result
unfolding cocotb_run_passed
run_one_cocotb rc log metrics = record {
  ok = is_zero rc && cocotb_run_passed log;
  metrics = metrics;
}

-- The experiment with an id, among those that are enabled.
abbrev pub by_id_of : String → Dict Experiment → Option Experiment
by_id_of dep_id [] = none
by_id_of dep_id ((k, e) ∷ es) = if str_eq e.id dep_id then some e else by_id_of dep_id es

-- `join` joins two paths, `top_csv` is the replay's file in a directory.
unfoldable pub fullstack_mock_command :
    (String → String → String)
    → (String → String)
    → Dict Experiment
    → Experiment
    → String
    → Option (List String)
unfolding lookup
fullstack_mock_command join top_csv by_id exp case_root = do
  dep_id ← exp.depends_on
  dep ← by_id_of dep_id by_id
  some (
      "uv"
      ∷ "run"
      ∷ "python"
      ∷ "scripts/top_fullstack_mock.py"
      ∷ top_csv (join case_root dep.output_dir)
      ∷ "--out-dir"
      ∷ join case_root exp.output_dir
      ∷ "--warmup-s"
      ∷ get "warmup_s" exp.options "0.001"
      ∷ "--record-interval"
      ∷ get "record_interval" exp.options "1"
      ∷ "--skip-s"
      ∷ get "skip_s" exp.options "0.0"
      ∷ [])

abbrev pub run_one_fullstack_mock : ℤ → Option Metrics → Result
run_one_fullstack_mock rc metrics = record { ok = is_zero rc; metrics = metrics }

module _ (upper overlay : String → String) (run : Experiment → Result) where
  -- What main does with a result.
  unfoldable pub finish_one : Experiment → State → Option State
  unfolding update_manifest_case summary_row append_summary_row
  finish_one exp st = do
    manifest ←
        update_manifest_case st.manifest exp.case_id exp.level exp.result_key exp.output_dir
          (run exp).ok
    row ← summary_row upper overlay exp (run exp) manifest
    some (record {
      manifest = manifest;
      summary = some (append_summary_row st.summary row);
      printed = st.printed ++ ran (run exp).ok exp.id ∷ [];
      any_failed = if (run exp).ok then st.any_failed else true;
    })

  unfoldable pub cocotb_phase : List Experiment → State → Option State
  unfolding finish_one
  cocotb_phase [] st = some st
  cocotb_phase (exp ∷ exps) st = finish_one exp st >>= cocotb_phase exps

  unfoldable pub mock_one : Dict Experiment → Experiment → State → Option State
  unfolding finish_one lookup
  mock_one by_id exp st = do
    dep_id ← exp.depends_on
    dep ← lookup dep_id by_id
    if recorded st.manifest dep then finish_one exp st else some (skip_one exp dep st)

  unfoldable pub mock_phase : Dict Experiment → List Experiment → State → Option State
  unfolding mock_one
  mock_phase by_id [] st = some st
  mock_phase by_id (exp ∷ exps) st = mock_one by_id exp st >>= mock_phase by_id exps

  -- `order` gives the cocotb experiments as they complete.
  unfoldable pub main :
      (List Experiment → List Experiment)
      → Args
      → List Experiment
      → List Case
      → Option (List (List String))
      → Option (State × ℕ)
  unfolding cocotb_phase mock_phase selected enabled_of experiments_by_id
  main order args exps manifest summary =
      let start : State = record {
        manifest = manifest;
        summary = summary;
        printed = [];
        any_failed = false;
      } in
      let todo = selected args manifest exps in
      let cocotb_exps = select (is_runner "cocotb") todo in
      let mock_exps = select (is_runner "fullstack_mock") todo in
      if args.dry_run then some (plan (cocotb_exps ++ mock_exps) start, 0) else (do
        st ← cocotb_phase (order cocotb_exps) start
        st' ← mock_phase (experiments_by_id (enabled_of exps)) mock_exps st
        some (st', exit_code st'))
