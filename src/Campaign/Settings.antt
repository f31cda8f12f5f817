-- ===== src/Campaign/Settings.antt =====
-- A campaign's run depends on the process that starts it only outside its own variables.
use hardware_in_the_loop.Base.{
  Bool, true, false, ◌||◌, Option, none, some, List, [], ◌∷◌, ◌≡◌, refl, sym, ◌∙◌, ap, all, any,
  arith, Bool-cases, inl, inr,
}
use Prim.Native.String.{String}
use text.Mathlib.Text.{◌==◌ as str_eq, starts_with}
use hardware_in_the_loop.Campaign.{
  Floats, Value, number, string, flag, Dict, ◌>>=◌, lookup, update, Defaults,
}
use mathlib.Core.Option.{some-injective}
use hardware_in_the_loop.Campaign.Dictionary.{
  bind_at, update_over, has-key, bind-some, names, lookup-update_other, lookup-update_same,
  has-names,
}
use hardware_in_the_loop.Campaign.Environment.{
  build_l3_env, build_l2_env, l3_settings, load_step, load_pair, motor_settings, mode_settings,
  vf_settings, sine_settings, theta_of, v_peak_of, warmup_of, clock_of, step_cycles_of, steps_of,
}

-- A variable of the models or of the simulated hardware.
abbrev pub is_ours : String → Bool
is_ours k = starts_with k "IM_" || starts_with k "HIL_"

abbrev pub l3_names : List String
l3_names =
    "IM_CLOCK_FREQUENCY" ∷ "IM_SOLVER_STEP_CYCLES" ∷ "IM_RS" ∷ "IM_RR" ∷ "IM_LS" ∷ "IM_LR" ∷ "IM_LM"
    ∷ "IM_J" ∷ "IM_NPP" ∷ "HIL_PWM_FREQUENCY" ∷ "HIL_UART_BAUD" ∷ "HIL_L3_STEPS"
    ∷ "HIL_L3_WARMUP_STEPS" ∷ "HIL_L3_RECORD_INTERVAL" ∷ "HIL_L3_VDC" ∷ "HIL_L3_MODULATION"
    ∷ "HIL_L3_REF_MODE" ∷ "HIL_L3_REF_FREQ_HZ" ∷ "HIL_L3_VF_BASE_HZ" ∷ "HIL_L3_VF_ACC_HZ_S"
    ∷ "HIL_L3_INITIAL_THETA_RAD" ∷ "HIL_L3_TLOAD_NM" ∷ "HIL_L3_OUT_DIR" ∷ []

module _ (F : Floats) where
  load_pair-names :
      (step_nm step_time : String) (nm time : Option (Value F.Number))
      → is_ours step_nm ≡ true
      → is_ours step_time ≡ true
      → all is_ours (names (load_pair F step_nm step_time nm time)) ≡ true
  load_pair-names step_nm step_time (some nm) (some time) h k = rw (h, k) refl
  load_pair-names step_nm step_time (some nm) none h k = refl
  load_pair-names step_nm step_time none time h k = refl

  -- The variables of a run that has all it needs, whichever process starts it.
  pub l3_parts :
      (environ : Dict String) (defaults : Defaults F) (exp : Dict (Value F.Number))
      (out_dir : String) (env : Dict String)
      → build_l3_env F environ defaults exp out_dir ≡ some env
      → (settings : Dict String) × (names settings ≡ l3_names)
        × ((other : Dict String)
            → build_l3_env F other defaults exp out_dir
              ≡ some (
                  update
                    (update other settings)
                    (load_step F "HIL_L3_TLOAD_STEP_NM" "HIL_L3_TLOAD_STEP_TIME_S" exp)))
  unfolding build_l3_env
  l3_parts environ defaults exp out_dir env e =
      let (clock, h1, e1) = bind-some (clock_of F defaults) _ env e in
      let (cycles, h2, e2) = bind-some (step_cycles_of F defaults) _ env e1 in
      let (ts, h3, e3) = bind-some (F.divide cycles clock) _ env e2 in
      let (steps, h4, e4) = bind-some (steps_of F exp ts) _ env e3 in
      (
        l3_settings F clock cycles steps defaults exp out_dir,
        refl,
        λ other. rw (bind_at _ h1, bind_at _ h2, bind_at _ h3, bind_at _ h4) refl,
      )

  -- A level 3 run gets every variable that is named neither IM_… nor HIL_… from the process that
  -- starts the campaign, unchanged.
  pub build_l3_env_inherits :
      (environ : Dict String) (defaults : Defaults F) (exp : Dict (Value F.Number))
      (out_dir : String) (env : Dict String) (k : String)
      → build_l3_env F environ defaults exp out_dir ≡ some env
      → is_ours k ≡ false
      → lookup k env ≡ lookup k environ
  build_l3_env_inherits environ defaults exp out_dir env k e h =
      let (settings, n, at) = l3_parts environ defaults exp out_dir env e in
      ap (lookup k) (some-injective _ _ (sym e ∙ at environ))
      ∙ lookup-update_other k _ _ (
          has-names is_ours k _
            (load_pair-names "HIL_L3_TLOAD_STEP_NM" "HIL_L3_TLOAD_STEP_TIME_S"
              (lookup "tload_step_nm" exp) (lookup "tload_step_time_s" exp) refl refl)
            h)
      ∙ lookup-update_other k _ _ (has-names is_ours k settings (ap (all is_ours) n) h)

  -- The 23 variables that every level 3 run sets have the same values whichever process starts the
  -- campaign: none of them leaks in from its environment.
  pub build_l3_env_reproducible :
      (environ other : Dict String) (defaults : Defaults F) (exp : Dict (Value F.Number))
      (out_dir : String) (env env' : Dict String) (k : String)
      → build_l3_env F environ defaults exp out_dir ≡ some env
      → build_l3_env F other defaults exp out_dir ≡ some env'
      → any (str_eq k) l3_names ≡ true
      → lookup k env ≡ lookup k env'
  build_l3_env_reproducible environ other defaults exp out_dir env env' k e e' h =
      let (settings, n, at) = l3_parts environ defaults exp out_dir env e in
      ap (lookup k) (some-injective _ _ (sym e ∙ at environ))
      ∙ update_over k _ _ _ (
          lookup-update_same k environ other settings
            (has-key k settings ∙ ap (any (str_eq k)) n ∙ h))
      ∙ ap (lookup k) (some-injective _ _ (sym (at other) ∙ e'))

  vf_settings-names :
      (theta v_peak warmup : Value F.Number) (exp : Dict (Value F.Number)) (csv metrics : String)
      (s : Dict String)
      → vf_settings F theta v_peak warmup exp csv metrics ≡ some s
      → all is_ours (names s) ≡ true
  vf_settings-names theta v_peak warmup exp csv metrics s e =
      let (duration, h1, e1) = bind-some (lookup "duration_s" exp) _ s e in
      let (interval, h2, e2) = bind-some (lookup "record_interval" exp) _ s e1 in
      let (acc, h3, e3) = bind-some (lookup "vf_acc_hz_s" exp) _ s e2 in
      ap (λ m. all is_ours (names m)) (sym (some-injective _ _ e3))
      ∙ load_pair-names "HIL_VF_TLOAD_STEP_NM" "HIL_VF_TLOAD_STEP_TIME_S"
          (lookup "tload_step_nm" exp) (lookup "tload_step_time_s" exp) refl refl

  sine_settings-names :
      (ts : F.Number) (theta v_peak : Value F.Number) (exp : Dict (Value F.Number))
      (csv metrics : String) (s : Dict String)
      → (steps_of F exp ts >>= λ steps. some (sine_settings F theta v_peak steps exp csv metrics))
        ≡ some s
      → all is_ours (names s) ≡ true
  sine_settings-names ts theta v_peak exp csv metrics s e =
      let (steps, h, e') = bind-some (steps_of F exp ts) _ s e in
      ap (λ m. all is_ours (names m)) (sym (some-injective _ _ e'))

  mode_settings-names :
      (ts : F.Number) (defaults : Defaults F) (exp : Dict (Value F.Number))
      (resolve : String → String) (mode : Value F.Number) (s : Dict String)
      → mode_settings F ts defaults exp resolve mode ≡ some s
      → all is_ours (names s) ≡ true
  mode_settings-names ts defaults exp resolve (number n) s e = ground arith
  mode_settings-names ts defaults exp resolve (flag b) s e = ground arith
  mode_settings-names ts defaults exp resolve (string mode) s e =
      elim (Bool-cases (str_eq mode "vf")) [
        | inl v ↦
            vf_settings-names (theta_of F defaults exp) (v_peak_of F defaults exp)
              (warmup_of F defaults exp) exp (resolve "vf_vhdl_vs_c.csv") (resolve "metrics.json") s
              (rw v at e)
        | inr v ↦ elim (Bool-cases (str_eq mode "sine")) [
          | inl w ↦
              sine_settings-names ts (theta_of F defaults exp) (v_peak_of F defaults exp) exp
                (resolve "sine_vhdl_vs_c.csv") (resolve "metrics.json") s (rw (v, w) at e)
          | inr w ↦ ground arith
        ]
      ]

  -- A level 2 run too gets every variable that is named neither IM_… nor HIL_… from the process
  -- that starts the campaign, unchanged, in either test mode.
  pub build_l2_env_inherits :
      (environ : Dict String) (defaults : Defaults F) (exp : Dict (Value F.Number))
      (resolve : String → String) (env : Dict String) (k : String)
      → build_l2_env F environ defaults exp resolve ≡ some env
      → is_ours k ≡ false
      → lookup k env ≡ lookup k environ
  unfolding build_l2_env
  build_l2_env_inherits environ defaults exp resolve env k e h =
      let (clock, h1, e1) = bind-some (clock_of F defaults) _ env e in
      let (cycles, h2, e2) = bind-some (step_cycles_of F defaults) _ env e1 in
      let (ts, h3, e3) = bind-some (F.divide cycles clock) _ env e2 in
      let (mode, h4, e4) = bind-some (lookup "test_mode" exp) _ env e3 in
      let (settings, h5, e5) = bind-some (mode_settings F ts defaults exp resolve mode) _ env e4 in
      ap (lookup k) (sym (some-injective _ _ e5))
      ∙ lookup-update_other k _ settings (
          has-names is_ours k settings
            (mode_settings-names ts defaults exp resolve mode settings h5) h)
      ∙ lookup-update_other k environ (motor_settings F clock cycles defaults.motor)
          (has-names is_ours k (motor_settings F clock cycles defaults.motor) refl h)
