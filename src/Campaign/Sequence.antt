-- ===== src/Campaign/Sequence.antt =====
-- run_campaign.py: the simulator's command line, the rows of the overlay, the summary of the runs,
-- and main, which runs one experiment after the other.
use hardware_in_the_loop.Base.{
  ℕ, zero, suc, ◌-◌, ◌/◌, max, Bool, true, false, ◌&&◌, Option, none, some, List, [], ◌∷◌, ◌++◌,
  if◌then◌else◌, any, length,
}
use hardware_in_the_loop.Base.Int.{ℤ, pos, negsuc}
use Prim.Native.String.{String}
use text.Mathlib.Text.{◌==◌ as str_eq}
use hardware_in_the_loop.Campaign.{Dict, get, lookup}

abbrev pub or_text : Option String → String → String
or_text none d = d
or_text (some s) d = s

-- `if value: cmd.extend([flag, value])`: neither a missing key nor an empty text counts.
abbrev pub option_args : String → Option String → List String
option_args name none = []
option_args name (some value) = if str_eq value "" then [] else name ∷ value ∷ []

unfoldable pub cocotb_command : Dict String → String → List String
unfolding lookup
cocotb_command exp build_dir =
    ("uv"
      ∷ "run"
      ∷ "python"
      ∷ "run.py"
      ∷ "--sim"
      ∷ get "sim" exp "nvc"
      ∷ "--top"
      ∷ get "top" exp "top_hil"
      ∷ "--build-dir"
      ∷ build_dir
      ∷ [])
    ++ (option_args "--test" (lookup "test_mode" exp) ++ option_args "-k" (lookup "testcase" exp))

-- `xs[::stride]`, with so many elements left out first.
unfoldable pub every_from {ℓ} : {A : Type ℓ} → ℕ → ℕ → List A → List A
every_from skip stride [] = []
every_from zero stride (x ∷ xs) = x ∷ every_from (stride - 1) stride xs
every_from (suc skip) stride (x ∷ xs) = every_from skip stride xs

unfoldable pub csv_rows {ℓ} : {A : Type ℓ} → ℕ → List A → List A
unfolding every_from
csv_rows max_points all_rows = every_from 0 (max 1 (length all_rows / max_points)) all_rows

-- An entry of the summary: the id and the return code. A return code is negative after a signal.
pub record Run : Type 0 where
  pub id : String
  pub returncode : ℤ

-- `none`: there is no summary file.
unfoldable pub update_summary : Option (List Run) → String → ℤ → List Run
update_summary none id rc = record { id = id; returncode = rc } ∷ []
update_summary (some runs) id rc = runs ++ record { id = id; returncode = rc } ∷ []

pub record Experiment : Type 0 where
  pub id : String
  pub enabled : Bool

abbrev pub is_zero : ℤ → Bool
is_zero (pos zero) = true
is_zero (pos (suc n)) = false
is_zero (negsuc n) = false

-- `not enabled: continue`, `selected and id not in selected: continue`
abbrev pub taken_up : List String → Experiment → Bool
taken_up [] e = e.enabled
taken_up (s ∷ only) e = e.enabled && any (str_eq e.id) (s ∷ only)

-- `run` is the return code of an experiment's simulation; each run is added to the summary.
unfoldable pub main :
    (Experiment → ℤ) → List String → List Experiment → Option (List Run) → Option (List Run) × ℤ
unfolding update_summary
main run only [] summary = (summary, pos 0)
main run only (e ∷ exps) summary =
    let next = update_summary summary e.id (run e) in
    let rest = main run only exps (some next) in
    let skip = main run only exps summary in
    if taken_up only e then (if is_zero (run e) then rest else (some next, run e)) else skip
