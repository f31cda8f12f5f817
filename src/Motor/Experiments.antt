-- ===== src/Motor/Experiments.antt =====
-- run_campaign.py and im_reference_model.py together: the parameters that the model of an experiment's
-- process has, from the variables that the campaign gives it.
use hardware_in_the_loop.Base.{true, any, some, ◌≡◌, refl, sym, ap, ◌∙◌}
use Prim.Native.String.{String}
use text.Mathlib.Text.{◌==◌ as str_eq}
use mathlib.Core.Option.{some-injective}
use hardware_in_the_loop.Number.{Number}
use hardware_in_the_loop.Campaign.{Floats, Value, Dict, Defaults, lookup}
use hardware_in_the_loop.Campaign.Dictionary.{update_over}
use hardware_in_the_loop.Campaign.Environment.{build_l3_env, load_step}
use hardware_in_the_loop.Campaign.Settings.{l3_names, l3_parts, build_l3_env_reproducible}
use hardware_in_the_loop.Motor.{defaults, env_float}

module _ (F : Floats) ⦃n : Number F.Number⦄ where
  -- Two level 3 runs of the same experiment give the model the same motor, whichever processes start
  -- the campaign, where these agree on IM_TS, the one variable of the model that a campaign leaves alone.
  pub defaults-build_l3_env :
      (environ other : Dict String) (settings : Defaults F) (exp : Dict (Value F.Number))
      (out_dir : String) (env env' : Dict String)
      → build_l3_env F environ settings exp out_dir ≡ some env
      → build_l3_env F other settings exp out_dir ≡ some env'
      → lookup "IM_TS" environ ≡ lookup "IM_TS" other
      → defaults F.parse_float env ≡ defaults F.parse_float env'
  unfolding defaults env_float
  defaults-build_l3_env environ other settings exp out_dir env env' e e' h =
      let (set, names, at) = l3_parts F environ settings exp out_dir env e in
      let same : (k : String) → any (str_eq k) l3_names ≡ true → lookup k env ≡ lookup k env' =
        λ k. build_l3_env_reproducible F environ other settings exp out_dir env env' k e e' in
      let ts : lookup "IM_TS" env ≡ lookup "IM_TS" env' =
        ap (lookup "IM_TS") (some-injective _ _ (sym e ∙ at environ))
        ∙ update_over "IM_TS" _ _
            (load_step F "HIL_L3_TLOAD_STEP_NM" "HIL_L3_TLOAD_STEP_TIME_S" exp)
            (update_over "IM_TS" environ other set h)
        ∙ ap (lookup "IM_TS") (some-injective _ _ (sym (at other) ∙ e')) in
      rw
        (
          same "IM_CLOCK_FREQUENCY" refl,
          same "IM_SOLVER_STEP_CYCLES" refl,
          same "IM_RS" refl,
          same "IM_RR" refl,
          same "IM_LM" refl,
          same "IM_LS" refl,
          same "IM_LR" refl,
          same "IM_J" refl,
          same "IM_NPP" refl,
          ts,
        )
        refl
