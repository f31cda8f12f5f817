-- ===== src/Hilbin/Check.antt =====
-- hilbin_check.py: check_file, from the parsed times, and the exit code. Messages are data; of the
-- result's fields, the path and the two quotients that are only printed are left out.
use hardware_in_the_loop.Base.{
  ℕ, ◌+◌, ◌-◌, ◌*◌, max, Bool, true, false, not, Option, none, some, List, [], ◌∷◌, ◌++◌,
  if◌then◌else◌, ltb, leb, length, select, any,
}
use hardware_in_the_loop.Base.Int.{ℤ, pos, sub_ℕ}

pub data Severity : Type 0 where
  warning critical : Severity

pub record Gap : Type 0 where
  pub t : ℕ
  pub dt : ℕ
  pub severity : Severity

pub data Message : Type 0 where
  parse_error : Message
  too_few_samples : ℕ → Message
  too_few_events : ℕ → Message
  out_of_order : ℕ → Message
  critical_gaps : ℕ → ℕ → Message
  gaps_found : ℕ → ℕ → Message

pub record CheckResult : Type 0 where
  pub ok : Bool
  pub fpga_samples : ℕ
  pub pwm_events : ℕ
  pub fpga_duration : ℤ
  pub pwm_duration : ℤ
  pub ooo_count : ℕ
  pub gaps : List Gap
  pub largest_gap : ℕ
  pub warnings : List Message
  pub errors : List Message

-- `(np.diff(t) <= 0).sum()`
unfoldable pub ooo_count_of : List ℕ → ℕ
ooo_count_of [] = 0
ooo_count_of (t ∷ []) = 0
ooo_count_of (t ∷ t' ∷ ts) =
    let rest = ooo_count_of (t' ∷ ts) in if leb t' t then rest + 1 else rest

-- `t[-1] - t[0]`, and 0 where there are not two.
abbrev pub last_of : ℕ → List ℕ → ℕ
last_of t [] = t
last_of t (t' ∷ ts) = last_of t' ts

abbrev pub duration_of : List ℕ → ℤ
duration_of [] = pos 0
duration_of (t ∷ ts) = sub_ℕ (last_of t ts) t

-- `warn` and `crit`: GAP_WARN_S and GAP_CRIT_S in cycles.
module _ (warn crit : ℕ) where
  abbrev pub severity_of : ℕ → ℕ → Severity
  severity_of t t' = if ltb (t + crit) t' then critical else warning

  unfoldable pub gaps_of : List ℕ → List Gap
  gaps_of [] = []
  gaps_of (t ∷ []) = []
  gaps_of (t ∷ t' ∷ ts) =
      let rest = gaps_of (t' ∷ ts) in
      if ltb (t + warn) t'
      then record { t = t; dt = t' - t; severity = severity_of t t' } ∷ rest
      else rest

abbrev pub is_critical : Gap → Bool
is_critical g = elim g.severity [ critical ↦ true | warning ↦ false ]

unfoldable pub largest_of : List Gap → ℕ
largest_of [] = 0
largest_of (g ∷ gs) = max g.dt (largest_of gs)

abbrev pub sample_errors : ℕ → List Message
sample_errors n = if ltb n 8 then too_few_samples n ∷ [] else []

abbrev pub event_errors : ℕ → List Message
event_errors n = if ltb n 4 then too_few_events n ∷ [] else []

abbrev pub gap_errors : List Gap → List Message
gap_errors gs =
    if any is_critical gs
    then critical_gaps (length (select is_critical gs)) (largest_of gs) ∷ []
    else []

abbrev pub gap_warnings : List Gap → List Message
gap_warnings [] = []
gap_warnings (g ∷ gs) =
    if any is_critical (g ∷ gs) then [] else gaps_found (length (g ∷ gs)) (largest_of (g ∷ gs)) ∷ []

-- `ooo_count / len(dt) > OOO_WARN_FRAC`, one in a hundred.
abbrev pub ooo_warnings : ℕ → ℕ → List Message
ooo_warnings count events = if ltb (events - 1) (count * 100) then out_of_order count ∷ [] else []

abbrev pub is_empty {ℓ} : {A : Type ℓ} → List A → Bool
is_empty [] = true
is_empty (x ∷ xs) = false

abbrev pub errors_of : ℕ → ℕ → List Gap → List Message
errors_of samples events gaps = sample_errors samples ++ (event_errors events ++ gap_errors gaps)

-- The times of the samples and of the events, `none` where parsing raises.
unfoldable pub check_file : ℕ → ℕ → Option (List ℕ × List ℕ) → CheckResult
unfolding ooo_count_of gaps_of largest_of
check_file warn crit none = record {
  ok = false;
  fpga_samples = 0;
  pwm_events = 0;
  fpga_duration = pos 0;
  pwm_duration = pos 0;
  ooo_count = 0;
  gaps = [];
  largest_gap = 0;
  warnings = [];
  errors = parse_error ∷ [];
}
check_file warn crit (some (t_fpga, t_pwm)) =
    let gaps = gaps_of warn crit t_pwm in
    let errors = errors_of (length t_fpga) (length t_pwm) gaps in
    record {
      ok = is_empty errors;
      fpga_samples = length t_fpga;
      pwm_events = length t_pwm;
      fpga_duration = duration_of t_fpga;
      pwm_duration = duration_of t_pwm;
      ooo_count = ooo_count_of t_pwm;
      gaps = gaps;
      largest_gap = largest_of gaps;
      warnings = ooo_warnings (ooo_count_of t_pwm) (length t_pwm) ++ gap_warnings gaps;
      errors = errors;
    }

-- `sys.exit(1 if any(not r.ok for r in results) else 0)`
unfoldable pub exit_code : List CheckResult → ℕ
exit_code results = if any (λ r. not r.ok) results then 1 else 0
