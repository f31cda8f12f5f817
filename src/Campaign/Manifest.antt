-- ===== src/Campaign/Manifest.antt =====
-- run_campaign_matrix.py: the manifest of cases, the rows of the summary, and main, from the
-- selection of the experiments to the exit code. An exception is `none`.
use hardware_in_the_loop.Base.{
  Bool, true, false, ◌&&◌, ◌||◌, Option, none, some, List, [], ◌∷◌, ◌++◌, if◌then◌else◌, map,
}
use Prim.Native.String.{String}
use text.Mathlib.Text.{◌==◌ as str_eq}
use hardware_in_the_loop.Campaign.{Dict, ◌>>=◌, lookup, insert, get, has}

pub record Case : Type 0 where
  pub id : String
  pub status : String
  pub t_acc_s : Option String
  pub l2_results : Option (Dict String)
  pub l3_results : Option (Dict String)

-- `options`: the keys that an experiment may lack, as the CSV writer prints their values.
pub record Experiment : Type 0 where
  pub id : String
  pub case_id : String
  pub level : String
  pub result_key : String
  pub output_dir : String
  pub runner : String
  pub enabled : Bool
  pub depends_on : Option String
  pub options : Dict String

-- `metrics.json`: its `csv_rows` and its `metrics`.
pub record Metrics : Type 0 where
  pub csv_rows : Option String
  pub metrics : Dict String

pub record Result : Type 0 where
  pub ok : Bool
  pub metrics : Option Metrics

-- `next(c for c in cases if c["id"] == case_id)`
unfoldable pub find_case : String → List Case → Option Case
find_case case_id [] = none
find_case case_id (c ∷ cases) = if str_eq c.id case_id then some c else find_case case_id cases

unfoldable pub replace_case : String → Case → List Case → List Case
replace_case case_id new [] = []
replace_case case_id new (c ∷ cases) =
    if str_eq c.id case_id then new ∷ cases else c ∷ replace_case case_id new cases

abbrev pub results_of : String → Case → Option (Dict String)
results_of level c = if str_eq level "l2" then c.l2_results else c.l3_results

-- `bool(case.get(…))`: there and not empty.
abbrev pub filled : Option (Dict String) → Bool
filled none = false
filled (some []) = false
filled (some (r ∷ rs)) = true

abbrev pub status_of : Case → String
status_of c =
    if filled c.l2_results && filled c.l3_results
    then "l2_l3_generated"
    else if filled c.l2_results || filled c.l3_results
    then "partial_generated"
    else c.status

abbrev pub with_status : String → Case → Case
with_status s c = record {
  id = c.id;
  status = s;
  t_acc_s = c.t_acc_s;
  l2_results = c.l2_results;
  l3_results = c.l3_results;
}

abbrev pub with_results : String → Dict String → Case → Case
with_results level rs c = record {
  id = c.id;
  status = c.status;
  t_acc_s = c.t_acc_s;
  l2_results = if str_eq level "l2" then some rs else c.l2_results;
  l3_results = if str_eq level "l2" then c.l3_results else some rs;
}

-- What the case becomes: `case[results_key][result_key] = output_dir` needs the key to be there.
unfoldable pub case_after : String → String → String → Bool → Case → Option Case
unfolding insert
case_after level result_key output_dir false c = some (with_status "blocked" c)
case_after level result_key output_dir true c = do
  rs ← results_of level c
  let new = with_results level (insert result_key output_dir rs) c
  some (with_status (status_of new) new)

unfoldable pub update_manifest_case :
    List Case → String → String → String → String → Bool → Option (List Case)
unfolding find_case case_after replace_case
update_manifest_case cases case_id level result_key output_dir ok = do
  c ← find_case case_id cases
  new ← case_after level result_key output_dir ok c
  some (replace_case case_id new cases)

unfoldable pub is_case_already_ok : List Case → String → String → String → Bool
unfolding find_case lookup
is_case_already_ok cases case_id level result_key = elim (find_case case_id cases) [
  | none ↦ false
  | some c ↦ elim (results_of level c) [ none ↦ false | some rs ↦ has result_key rs ]
]

abbrev pub summary_fields : List String
summary_fields =
    "case" ∷ "level" ∷ "status" ∷ "path" ∷ "duration_s" ∷ "t_acc_s" ∷ "tload_nm" ∷ "csv_rows"
    ∷ "nrmse_i_alpha" ∷ "nrmse_i_beta" ∷ "mae_flux_alpha_wb" ∷ "mae_flux_beta_wb"
    ∷ "mae_speed_rad_s" ∷ "overlay" ∷ "note" ∷ []

abbrev pub or_empty : Option String → String
or_empty none = ""
or_empty (some s) = s

abbrev pub metrics_of : Result → Dict String
metrics_of r = elim r.metrics [ none ↦ [] | some m ↦ m.metrics ]

abbrev pub csv_rows_of : Result → String
csv_rows_of r = elim r.metrics [ none ↦ "" | some m ↦ or_empty m.csv_rows ]

-- `upper` is `str.upper`, `overlay` the path of the overlay in a directory.
module _ (upper overlay : String → String) where
  unfoldable pub summary_row : Experiment → Result → List Case → Option (Dict String)
  unfolding find_case lookup
  summary_row exp result cases = do
    c ← find_case exp.case_id cases
    let m = metrics_of result
    some (
        ("case", exp.case_id)
        ∷ ("level", upper exp.level)
        ∷ ("status", if result.ok then "generated" else "blocked")
        ∷ ("path", exp.output_dir)
        ∷ ("duration_s", get "duration_s" exp.options "")
        ∷ ("t_acc_s", or_empty c.t_acc_s)
        ∷ ("tload_nm", get "tload_nm" exp.options "")
        ∷ ("csv_rows", csv_rows_of result)
        ∷ ("nrmse_i_alpha", get "nrmse_i_alpha" m "")
        ∷ ("nrmse_i_beta", get "nrmse_i_beta" m "")
        ∷ ("mae_flux_alpha_wb", get "mae_flux_alpha_wb" m "")
        ∷ ("mae_flux_beta_wb", get "mae_flux_beta_wb" m "")
        ∷ ("mae_speed_rad_s", get "mae_speed_rad_s" m "")
        ∷ ("overlay", overlay exp.output_dir)
        ∷ ("note", get "description" exp.options "")
        ∷ [])

-- The lines of the CSV file; `none` where there is no file yet.
unfoldable pub append_summary_row : Option (List (List String)) → Dict String → List (List String)
unfolding lookup
append_summary_row none row = summary_fields ∷ map (λ k. get k row "") summary_fields ∷ []
append_summary_row (some lines) row = lines ++ map (λ k. get k row "") summary_fields ∷ []
