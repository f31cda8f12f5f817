-- ===== src/Campaign/Environment.antt =====
-- build_l3_env and build_l2_env: the variables of a simulator run. An exception is `none`.
use hardware_in_the_loop.Base.{ℕ, Option, none, some, [], ◌∷◌, ◌++◌, if◌then◌else◌}
use Prim.Native.String.{String}
use text.Mathlib.Text.{◌==◌ as str_eq}
use hardware_in_the_loop.Campaign.{
  Floats, Value, number, string, Dict, ◌>>=◌, lookup, update, get, env_number, int_of, float_of,
  Defaults,
}

module _ (F : Floats) where
  abbrev Json : Type 0
  Json = Value F.Number

  abbrev dec : ℕ → ℕ → Json
  dec m e = number (F.decimal m e)

  -- `env_number(m.get(k, d))`
  abbrev shown : String → Dict Json → Json → String
  shown k m d = env_number F (get k m d)

  abbrev pub clock_of : Defaults F → Option F.Number
  clock_of defaults = int_of F (get "im_clock_frequency" defaults.common (dec 200000000 0))

  abbrev pub step_cycles_of : Defaults F → Option F.Number
  step_cycles_of defaults = int_of F (get "im_solver_step_cycles" defaults.common (dec 26 0))

  -- Duration over the solver step, as steps.
  abbrev pub steps_of : Dict Json → F.Number → Option F.Number
  steps_of exp ts = elim (lookup "steps" exp) [
    | some steps ↦ int_of F steps
    | none ↦ lookup "duration_s" exp >>= λ duration.
        float_of F duration >>= λ d. F.divide d ts >>= λ ratio. some (F.int (F.round ratio))
  ]

  abbrev pub motor_settings : F.Number → F.Number → Dict Json → Dict String
  motor_settings clock step_cycles motor =
      ("IM_CLOCK_FREQUENCY", F.str clock)
      ∷ ("IM_SOLVER_STEP_CYCLES", F.str step_cycles)
      ∷ ("IM_RS", shown "rs" motor (dec 4396 4))
      ∷ ("IM_RR", shown "rr" motor (dec 2826 4))
      ∷ ("IM_LS", shown "ls" motor (dec 31364 7))
      ∷ ("IM_LR", shown "lr" motor (dec 63264 7))
      ∷ ("IM_LM", shown "lm" motor (dec 1099442 7))
      ∷ ("IM_J", shown "j" motor (dec 4 1))
      ∷ ("IM_NPP", shown "npp" motor (dec 2 0))
      ∷ []

  abbrev pub quarter_pi : Json
  quarter_pi = dec 7853981633974483 16

  -- `out_dir` is the resolved path.
  abbrev pub l3_settings :
      F.Number → F.Number → F.Number → Defaults F → Dict Json → String → Dict String
  l3_settings clock step_cycles steps defaults exp out_dir =
      motor_settings clock step_cycles defaults.motor
      ++ ("HIL_PWM_FREQUENCY", shown "hil_pwm_frequency" defaults.common (dec 1000 0))
        ∷ ("HIL_UART_BAUD", shown "hil_uart_baud" defaults.common (dec 1000000 0))
        ∷ ("HIL_L3_STEPS", F.str steps)
        ∷ ("HIL_L3_WARMUP_STEPS", shown "warmup_steps" exp (dec 400 0))
        ∷ ("HIL_L3_RECORD_INTERVAL", shown "record_interval" exp (dec 1 0))
        ∷ ("HIL_L3_VDC", shown "vdc" exp (get "vdc" defaults.common (dec 12400 1)))
        ∷ ("HIL_L3_MODULATION", shown "modulation" exp (dec 10 1))
        ∷ ("HIL_L3_REF_MODE", shown "ref_mode" exp (string "vf"))
        ∷ ("HIL_L3_REF_FREQ_HZ", shown "ref_freq_hz" exp (dec 600 1))
        ∷ ("HIL_L3_VF_BASE_HZ", shown "vf_base_hz" exp (dec 600 1))
        ∷ ("HIL_L3_VF_ACC_HZ_S", shown "vf_acc_hz_s" exp (dec 600 1))
        ∷ (
          "HIL_L3_INITIAL_THETA_RAD",
          shown "initial_theta_rad" exp (get "initial_theta_rad" defaults.common quarter_pi),
        )
        ∷ ("HIL_L3_TLOAD_NM", shown "tload_nm" exp (get "tload_nm" defaults.common (dec 0 1)))
        ∷ ("HIL_L3_OUT_DIR", out_dir)
        ∷ []

  -- The two variables of a load step, where the experiment has both keys.
  abbrev pub load_pair : String → String → Option Json → Option Json → Dict String
  load_pair step_nm step_time (some nm) (some time) =
      (step_nm, env_number F nm) ∷ (step_time, env_number F time) ∷ []
  load_pair step_nm step_time (some nm) none = []
  load_pair step_nm step_time none time = []

  abbrev pub load_step : String → String → Dict Json → Dict String
  load_step step_nm step_time exp =
      load_pair step_nm step_time (lookup "tload_step_nm" exp) (lookup "tload_step_time_s" exp)

  unfoldable pub build_l3_env : Dict String → Defaults F → Dict Json → String → Option (Dict String)
  build_l3_env environ defaults exp out_dir = clock_of defaults >>= λ clock.
      step_cycles_of defaults >>= λ step_cycles. F.divide step_cycles clock >>= λ ts.
      steps_of exp ts >>= λ steps. some (
        update (update environ (l3_settings clock step_cycles steps defaults exp out_dir))
          (load_step "HIL_L3_TLOAD_STEP_NM" "HIL_L3_TLOAD_STEP_TIME_S" exp))

  -- The keys that `exp[…]` must have.
  abbrev pub vf_settings : Json → Json → Json → Dict Json → String → String → Option (Dict String)
  vf_settings theta v_peak warmup exp csv metrics = lookup "duration_s" exp >>= λ duration.
      lookup "record_interval" exp >>= λ interval. lookup "vf_acc_hz_s" exp >>= λ acc. some (
        ("HIL_VF_DURATION_S", env_number F duration)
        ∷ ("HIL_VF_RECORD_INTERVAL", env_number F interval)
        ∷ ("HIL_VF_WARMUP_STEPS", env_number F warmup)
        ∷ ("HIL_VF_F_NOMINAL_HZ", shown "vf_base_hz" exp (dec 600 1))
        ∷ ("HIL_VF_V_PEAK_NOMINAL", env_number F v_peak)
        ∷ ("HIL_VF_ACC_RAMP_HZ_S", env_number F acc)
        ∷ ("HIL_VF_TLOAD_NM", shown "tload_nm" exp (dec 0 1))
        ∷ ("HIL_VF_INITIAL_THETA_RAD", env_number F theta)
        ∷ ("HIL_VF_CSV", csv)
        ∷ ("HIL_VF_METRICS", metrics)
        ∷ load_step "HIL_VF_TLOAD_STEP_NM" "HIL_VF_TLOAD_STEP_TIME_S" exp)

  abbrev pub sine_settings : Json → Json → F.Number → Dict Json → String → String → Dict String
  sine_settings theta v_peak steps exp csv metrics =
      ("HIL_SINE_STEPS", F.str steps)
      ∷ ("HIL_SINE_WARMUP_STEPS", shown "warmup_steps" exp (dec 50 0))
      ∷ ("HIL_SINE_FREQ_HZ", shown "sine_freq_hz" exp (dec 600 1))
      ∷ ("HIL_SINE_V_PEAK", env_number F v_peak)
      ∷ ("HIL_SINE_INITIAL_THETA_RAD", env_number F theta)
      ∷ ("HIL_SINE_TLOAD_NM", shown "tload_nm" exp (dec 0 1))
      ∷ ("HIL_SINE_CSV", csv)
      ∷ ("HIL_SINE_METRICS", metrics)
      ∷ []

  abbrev pub theta_of : Defaults F → Dict Json → Json
  theta_of defaults exp =
      get "initial_theta_rad" exp (get "initial_theta_rad" defaults.common quarter_pi)

  abbrev pub v_peak_of : Defaults F → Dict Json → Json
  v_peak_of defaults exp = get "v_peak" exp (get "v_peak" defaults.common (dec 6200 1))

  abbrev pub warmup_of : Defaults F → Dict Json → Json
  warmup_of defaults exp = get "warmup_steps" exp (get "warmup_steps" defaults.common (dec 400 0))

  -- `resolve` gives the path of a file in the experiment's directory.
  abbrev pub mode_settings :
      F.Number → Defaults F → Dict Json → (String → String) → Json → Option (Dict String)
  mode_settings ts defaults exp resolve (string mode) =
      if str_eq mode "vf"
      then vf_settings (theta_of defaults exp) (v_peak_of defaults exp) (warmup_of defaults exp) exp
          (resolve "vf_vhdl_vs_c.csv") (resolve "metrics.json")
      else if str_eq mode "sine"
      then (steps_of exp ts >>= λ steps. some (
          sine_settings (theta_of defaults exp) (v_peak_of defaults exp) steps exp
            (resolve "sine_vhdl_vs_c.csv") (resolve "metrics.json")))
      else none
  mode_settings ts defaults exp resolve other = none

  unfoldable pub build_l2_env :
      Dict String → Defaults F → Dict Json → (String → String) → Option (Dict String)
  build_l2_env environ defaults exp resolve = clock_of defaults >>= λ clock.
      step_cycles_of defaults >>= λ step_cycles. F.divide step_cycles clock >>= λ ts.
      lookup "test_mode" exp >>= λ mode. mode_settings ts defaults exp resolve mode >>= λ settings.
      some (update (update environ (motor_settings clock step_cycles defaults.motor)) settings)
