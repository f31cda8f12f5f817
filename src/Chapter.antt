-- ===== src/Chapter.antt =====
-- verification/cocotb/scripts/chapter_common.py: what the tables of the results chapter are made of.
-- The file system, JSON, the pattern of the log's summary line and CSV parsing are parameters; a case
-- of a manifest has its `id` and its `dir`. A key whose value is null counts as absent. An exception is `none`.
pub mod Loading
mod Tests
use hardware_in_the_loop.Base.{
  ℕ, Bool, true, false, Option, none, some, List, [], ◌∷◌, ◌++◌, if◌then◌else◌, map,
}
use Prim.Native.String.{String, ◌++◌ as append}
use text.Mathlib.Text.{◌==◌ as str_eq}
use hardware_in_the_loop.Number.{Number, ◌+F◌, ◌-F◌, ◌*F◌, ◌/F◌, neg, whole, decimal}
use hardware_in_the_loop.Campaign.{Dict, lookup}

-- `inverse_clarke`; `root_3` is `3 ** 0.5`.
module _ {A : Type 0} ⦃n : Number A⦄ (root_3 : A) where
  unfoldable pub zip_with : (A → A → A) → List A → List A → List A
  zip_with f [] ys = []
  zip_with f (x ∷ xs) [] = []
  zip_with f (x ∷ xs) (y ∷ ys) = f x y ∷ zip_with f xs ys

  unfoldable pub inverse_clarke : List A → List A → List A × List A × List A
  unfolding zip_with
  inverse_clarke i_alpha i_beta = (
    i_alpha,
    zip_with (λ a b. neg (decimal 5 1) *F a +F root_3 /F whole 2 *F b) i_alpha i_beta,
    zip_with (λ a b. neg (decimal 5 1) *F a -F root_3 /F whole 2 *F b) i_alpha i_beta,
  )

-- A directory tree: files and their contents, and the directories that a pattern finds below one, in
-- the order of `sorted`.
pub record Disk (J : Type 0) : Type 0 where
  pub is_file : String → Bool
  pub read_json : String → Option J
  pub glob : String → String → List String

abbrev pub slash : String → String → String
slash dir name = append dir (append "/" name)

-- A case of a manifest.
pub record CaseEntry (V : Type 0) : Type 0 where
  pub id : String
  pub dir : String
  pub fields : Dict V

-- `GRUPO_A_IDS`, `GRUPO_B_IDS` and what belongs to a group.
pub data Group : Type 0 where
  group_a : Group
  group_b : Group

abbrev pub ids_of : Group → List String
ids_of group_a = "A1" ∷ "A3" ∷ "A5" ∷ []
ids_of group_b = "B1" ∷ "B2" ∷ []

abbrev pub l2_pattern : Group → String
l2_pattern group_a = "l2_vf_*_realts"
l2_pattern group_b = "l2_step_*"

abbrev pub l3_pattern : Group → String
l3_pattern group_a = "l3_top_pwm_replay_vf_*"
l3_pattern group_b = "l3_top_pwm_replay_step_*"

abbrev pub l2_csv_name : String
l2_csv_name = "vf_vhdl_vs_c.csv"

abbrev pub l3_csv_name : String
l3_csv_name = "top_pwm_replay_vs_c.csv"

-- `CaseMetrics`
pub record CaseMetrics (V : Type 0) : Type 0 where
  pub case_id : String
  pub t_acc_s : Option V
  pub load_tn : Option V
  pub l2 : Option V
  pub l3 : Option V
  pub l2_csv : Option String
  pub l3_csv : Option String
  pub group : Group
  pub tload_pre_nm : Option V
  pub tload_post_nm : Option V
  pub t_step_s : Option V
  pub l2_transient : Option V
  pub l3_transient : Option V
  pub l2_run_log : Option String
  pub l3_run_log : Option String

module _ {V : Type 0} where
  -- `by_id`: of two cases with one id the later one counts.
  unfoldable pub by_id : String → List (CaseEntry V) → Option (CaseEntry V)
  by_id cid [] = none
  by_id cid (c ∷ cs) = elim (by_id cid cs) [
    | some later ↦ some later
    | none ↦ if str_eq c.id cid then some c else none
  ]

  -- `[by_id[cid] for cid in ids if cid in by_id]`
  unfoldable pub chosen_cases : List String → List (CaseEntry V) → List (CaseEntry V)
  unfolding by_id
  chosen_cases [] cases = []
  chosen_cases (cid ∷ ids) cases =
      let rest = chosen_cases ids cases in
      elim (by_id cid cases) [ none ↦ rest | some c ↦ c ∷ rest ]

module _ {V : Type 0} (disk : Disk (Dict V)) where
  -- `load_json`
  unfoldable pub load_json : String → Option (Dict V)
  load_json path = if disk.is_file path then disk.read_json path else none

  abbrev pub first_of : List String → Option String
  first_of [] = none
  first_of (p ∷ ps) = some p

  -- `find_level_dir`
  unfoldable pub find_level_dir : String → String → Option String
  find_level_dir case_dir pattern = first_of (disk.glob case_dir pattern)

  -- `load_json(dir / "metrics.json") if dir else None`
  abbrev pub doc_in : Option String → Option (Dict V)
  unfolding load_json
  doc_in none = none
  doc_in (some dir) = load_json (slash dir "metrics.json")

  -- `dir / name if dir and (dir / name).is_file() else None`
  unfoldable pub file_in : Option String → String → Option String
  file_in none name = none
  file_in (some dir) name = if disk.is_file (slash dir name) then some (slash dir name) else none

  -- `(doc or {}).get(key)`
  abbrev pub key_of : Option (Dict V) → String → Option V
  unfolding lookup
  key_of none key = none
  key_of (some doc) key = lookup key doc

  unfoldable pub load_case_metrics : String → CaseEntry V → Group → CaseMetrics V
  unfolding find_level_dir doc_in file_in key_of lookup load_json
  load_case_metrics campaign_dir entry group =
      let case_dir = slash campaign_dir entry.dir in
      let l2_dir = find_level_dir case_dir (l2_pattern group) in
      let l3_dir = find_level_dir case_dir (l3_pattern group) in
      let l2_doc = doc_in l2_dir in
      let l3_doc = doc_in l3_dir in
      record {
        case_id = entry.id;
        t_acc_s = lookup "t_acc_s" entry.fields;
        load_tn = lookup "load_tn" entry.fields;
        l2 = key_of l2_doc "metrics";
        l3 = key_of l3_doc "metrics";
        l2_csv = file_in l2_dir l2_csv_name;
        l3_csv = file_in l3_dir l3_csv_name;
        group = group;
        tload_pre_nm = lookup "tload_pre_nm" entry.fields;
        tload_post_nm = lookup "tload_post_nm" entry.fields;
        t_step_s = lookup "t_step_s" entry.fields;
        l2_transient = key_of l2_doc "transient";
        l3_transient = key_of l3_doc "transient";
        l2_run_log = file_in l2_dir "run.log";
        l3_run_log = file_in l3_dir "run.log";
      }

  -- `_load_group`, `load_grupo_a` and `load_grupo_b`; `cases` are those of manifest.json, if it is there.
  unfoldable pub load_group :
      String → Option (List (CaseEntry V)) → Group → Option (List (CaseMetrics V))
  unfolding chosen_cases load_case_metrics
  load_group campaign_dir none group = none
  load_group campaign_dir (some cases) group =
      some (map (λ c. load_case_metrics campaign_dir c group) (chosen_cases (ids_of group) cases))

-- A line of the report: a case without the metrics of a level.
pub data ResultLevel : Type 0 where
  l2_level : ResultLevel
  l3_level : ResultLevel

abbrev pub gap_of : {V : Type 0} → String → ResultLevel → Option V → List (String × ResultLevel)
gap_of id level none = (id, level) ∷ []
gap_of id level (some v) = []

-- `missing` of write_gaps_report
unfoldable pub missing : {V : Type 0} → List (CaseMetrics V) → List (String × ResultLevel)
missing [] = []
missing (c ∷ cs) = gap_of c.case_id l2_level c.l2 ++ (gap_of c.case_id l3_level c.l3 ++ missing cs)

-- `find_latest_campaign`, from the sorted candidates; `none` is SystemExit.
unfoldable pub latest : List String → Option String
latest [] = none
latest (c ∷ []) = some c
latest (c ∷ d ∷ cs) = latest (d ∷ cs)

-- `parse_run_log_timing`: `search` gives the two times of a summary line, in ns and s. The time in ns
-- is divided by 1e9.
module _ {A : Type 0} ⦃n : Number A⦄ (search : String → Option (A × A)) where
  unfoldable pub last_summary : Option (A × A) → List String → Option (A × A)
  last_summary best [] = best
  last_summary best (line ∷ lines) = elim (search line) [
    | none ↦ last_summary best lines
    | some found ↦ last_summary (some found) lines
  ]

  abbrev pub in_seconds : Option (A × A) → Option (A × A)
  in_seconds none = none
  in_seconds (some (sim_ns, wall)) = some (sim_ns /F whole 1000000000, wall)

  -- `lines`: of the log, where there is one.
  unfoldable pub parse_run_log_timing : Option (List String) → Option (A × A)
  unfolding last_summary
  parse_run_log_timing none = none
  parse_run_log_timing (some lines) = in_seconds (last_summary none lines)
