-- ===== src/Chapter/Tests.antt =====
-- Tests of the chapter's data, and the theorems at concrete inputs.
use hardware_in_the_loop.Base.{
  ℕ, Bool, true, false, some, List, [], ◌∷◌, if◌then◌else◌, map, All, ◌≡◌, ◌↔◌, refl,
}
use Prim.Native.String.{String}
use text.Mathlib.Text.{◌==◌ as str_eq}
use hardware_in_the_loop.Base.Int.{ℤ, pos, negsuc}
use hardware_in_the_loop.Number.Integers.{integers}
use hardware_in_the_loop.Campaign.{Dict, lookup}
use hardware_in_the_loop.Motor.{ImPhysicalParams, Motor}
use hardware_in_the_loop.Chapter.{
  inverse_clarke, Disk, CaseEntry, group_a, load_case_metrics, find_level_dir, file_in, load_json,
  l3_level, missing,
}
use hardware_in_the_loop.Chapter.Loading.{
  states, inverse_clarke-im_state, IsThere, load_case_metrics-IsThere, IsComplete,
  missing-IsComplete,
}

abbrev machine : ImPhysicalParams ℤ
machine = record {
  rs = pos 1;
  rr = pos 3;
  lm = pos 2;
  ls = pos 1;
  lr = pos 0;
  j = pos 2;
  npp = pos 2;
  ts = pos 1;
}

abbrev at_start : Motor ℤ
at_start = record {
  is_alpha = pos 7;
  is_beta = negsuc 2;
  flux_alpha = pos 4;
  flux_beta = pos 1;
  wm = pos 10;
}

abbrev turned_on : Motor ℤ
turned_on = record {
  is_alpha = pos 9;
  is_beta = pos 6;
  flux_alpha = pos 5;
  flux_beta = pos 2;
  wm = pos 11;
}

abbrev two_states : List (Motor ℤ × Motor ℤ)
two_states = (at_start, turned_on) ∷ (turned_on, at_start) ∷ []

inverse_clarke-im_state_example :
    inverse_clarke
      (pos 2)
      (map (λ s. s.i_alpha) (states (pos 2) machine two_states))
      (map (λ s. s.i_beta) (states (pos 2) machine two_states))
    ≡ (
      map (λ s. s.i_a) (states (pos 2) machine two_states),
      map (λ s. s.i_b) (states (pos 2) machine two_states),
      map (λ s. s.i_c) (states (pos 2) machine two_states),
    )
inverse_clarke-im_state_example = inverse_clarke-im_state (pos 2) machine two_states

-- A case with a result of level 2 and none of level 3.
abbrev tree_is_file : String → Bool
tree_is_file path =
    if str_eq path "c/1/l2/metrics.json"
    then true
    else if str_eq path "c/1/l2/vf_vhdl_vs_c.csv"
    then true
    else false

abbrev tree_glob : String → String → List String
tree_glob dir pattern = if str_eq pattern "l2_vf_*_realts" then "c/1/l2" ∷ [] else []

abbrev tree : Disk (Dict ℕ)
tree = record {
  is_file = tree_is_file;
  read_json = λ path. some (("metrics", 5) ∷ []);
  glob = tree_glob;
}

abbrev case_1 : CaseEntry ℕ
case_1 = record { id = "A1"; dir = "1"; fields = ("t_acc_s", 2) ∷ [] }

load_case_metrics-IsThere_example :
    IsThere tree (load_case_metrics tree "c" case_1 group_a).l2_csv
    × IsThere tree (load_case_metrics tree "c" case_1 group_a).l3_csv
    × IsThere tree (load_case_metrics tree "c" case_1 group_a).l2_run_log
    × IsThere tree (load_case_metrics tree "c" case_1 group_a).l3_run_log
load_case_metrics-IsThere_example = load_case_metrics-IsThere tree "c" case_1 group_a

csv_of_level_2 : (load_case_metrics tree "c" case_1 group_a).l2_csv ≡ some "c/1/l2/vf_vhdl_vs_c.csv"
unfolding load_case_metrics find_level_dir file_in load_json lookup
csv_of_level_2 = refl

missing-IsComplete_example :
    (missing (load_case_metrics tree "c" case_1 group_a ∷ []) ≡ [])
    ↔ All IsComplete (load_case_metrics tree "c" case_1 group_a ∷ [])
missing-IsComplete_example = missing-IsComplete (load_case_metrics tree "c" case_1 group_a ∷ [])

level_3_is_missing :
    missing (load_case_metrics tree "c" case_1 group_a ∷ []) ≡ ("A1", l3_level) ∷ []
unfolding missing load_case_metrics find_level_dir file_in load_json lookup
level_3_is_missing = refl
