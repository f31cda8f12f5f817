-- ===== src/Motor.antt =====
-- verification/cocotb/models/im_reference_model.py: the induction motor, its parameters, the model
-- in Python and the choice of the backend. The environment is a dictionary, `float` is a parameter; an
-- exception is `none`, or the message of it.
pub mod Symmetry
pub mod Backend
pub mod Experiments
mod Tests
use hardware_in_the_loop.Base.{
  ℕ, zero, suc, Bool, ◌||◌, Option, none, some, List, [], ◌∷◌, if◌then◌else◌,
}
use Prim.Native.String.{String}
use text.Mathlib.Text.{◌==◌ as str_eq}
use hardware_in_the_loop.Number.{Number, ◌+F◌, ◌-F◌, ◌*F◌, ◌/F◌, neg, decimal, whole}
use hardware_in_the_loop.Campaign.{Dict, lookup, ◌>>=◌}

-- `ImPhysicalParams`
pub record ImPhysicalParams (A : Type 0) : Type 0 where
  pub rs : A
  pub rr : A
  pub lm : A
  pub ls : A
  pub lr : A
  pub j : A
  pub npp : A
  pub ts : A

module _ {A : Type 0} ⦃n : Number A⦄ (float : String → Option A) where
  -- `default if raw in (None, "") else float(raw)`
  abbrev pub env_float_of : Option String → A → Option A
  env_float_of none default = some default
  env_float_of (some raw) default = if str_eq raw "" then some default else float raw

  unfoldable pub env_float : Dict String → String → A → Option A
  unfolding lookup
  env_float environ name default = env_float_of (lookup name environ) default

  unfoldable pub defaults : Dict String → Option (ImPhysicalParams A)
  unfolding env_float
  defaults environ = do
    clock_hz ← env_float environ "IM_CLOCK_FREQUENCY" (whole 200000000)
    step_cycles ← env_float environ "IM_SOLVER_STEP_CYCLES" (whole 26)
    rs ← env_float environ "IM_RS" (decimal 4396 4)
    rr ← env_float environ "IM_RR" (decimal 2826 4)
    lm ← env_float environ "IM_LM" (decimal 1099442 7)
    ls ← env_float environ "IM_LS" (decimal 31364 7)
    lr ← env_float environ "IM_LR" (decimal 63264 7)
    j ← env_float environ "IM_J" (decimal 4 1)
    npp ← env_float environ "IM_NPP" (whole 2)
    ts ← env_float environ "IM_TS" (step_cycles /F clock_hz)
    some (record { rs = rs; rr = rr; lm = lm; ls = ls; lr = lr; j = j; npp = npp; ts = ts })

-- `ImState`
pub record ImState (A : Type 0) : Type 0 where
  pub i_alpha : A
  pub i_beta : A
  pub flux_alpha : A
  pub flux_beta : A
  pub i_a : A
  pub i_b : A
  pub i_c : A
  pub speed_mech : A
  pub speed_elec : A
  pub torque : A

-- `_PythonB2Backend`: what it keeps between two steps.
pub record Motor (A : Type 0) : Type 0 where
  pub is_alpha : A
  pub is_beta : A
  pub flux_alpha : A
  pub flux_beta : A
  pub wm : A

abbrev pub at_rest : {A : Type 0} ⦃n : Number A⦄ → Motor A
at_rest = record {
  is_alpha = whole 0;
  is_beta = whole 0;
  flux_alpha = whole 0;
  flux_beta = whole 0;
  wm = whole 0;
}

-- `root_3`: `3.0**0.5`.
module _ {A : Type 0} ⦃n : Number A⦄ (root_3 : A) where
  abbrev pub clarke_alpha : A → A → A → A
  clarke_alpha va vb vc = (whole 2 /F whole 3) *F (va -F decimal 5 1 *F vb -F decimal 5 1 *F vc)

  abbrev pub clarke_beta : A → A → A
  clarke_beta vb vc = (whole 1 /F root_3) *F (vb -F vc)

  module _ (p : ImPhysicalParams A) where
    abbrev pub ls_total : A
    ls_total = p.ls +F p.lm

    abbrev pub lr_total : A
    lr_total = p.lr +F p.lm

    abbrev pub factor : A
    factor = whole 1 /F (lr_total *F (p.lm *F p.lm -F lr_total *F ls_total))

    abbrev pub dis_alpha : Motor A → A → A
    dis_alpha m valpha =
        factor
        *F (p.lm *F p.lm *F p.rr *F m.is_alpha
            -F p.lm *F lr_total *F p.npp *F m.wm *F m.flux_beta
            -F p.lm *F p.rr *F m.flux_alpha
            +F lr_total *F lr_total *F p.rs *F m.is_alpha
            -F lr_total *F lr_total *F valpha)

    abbrev pub dis_beta : Motor A → A → A
    dis_beta m vbeta =
        factor
        *F (p.lm *F p.lm *F p.rr *F m.is_beta
            +F p.lm *F lr_total *F p.npp *F m.wm *F m.flux_alpha
            -F p.lm *F p.rr *F m.flux_beta
            +F lr_total *F lr_total *F p.rs *F m.is_beta
            -F lr_total *F lr_total *F vbeta)

    abbrev pub dflux_alpha : Motor A → A
    dflux_alpha m =
        (p.lm *F p.rr *F m.is_alpha
          -F lr_total *F p.npp *F m.wm *F m.flux_beta
          -F p.rr *F m.flux_alpha)
        /F lr_total

    abbrev pub dflux_beta : Motor A → A
    dflux_beta m =
        (p.lm *F p.rr *F m.is_beta
          +F lr_total *F p.npp *F m.wm *F m.flux_alpha
          -F p.rr *F m.flux_beta)
        /F lr_total

    abbrev pub electric_torque : Motor A → A
    electric_torque m =
        (whole 3 /F whole 2)
        *F (p.npp *F p.lm /F lr_total)
        *F (m.flux_alpha *F m.is_beta -F m.flux_beta *F m.is_alpha)

    -- `step`: the state after it.
    unfoldable pub step : A → A → A → A → Motor A → Motor A
    step va vb vc tload m = record {
      is_alpha = m.is_alpha +F dis_alpha m (clarke_alpha va vb vc) *F p.ts;
      is_beta = m.is_beta +F dis_beta m (clarke_beta vb vc) *F p.ts;
      flux_alpha = m.flux_alpha +F dflux_alpha m *F p.ts;
      flux_beta = m.flux_beta +F dflux_beta m *F p.ts;
      wm = m.wm +F (electric_torque m -F tload) /F p.j *F p.ts;
    }

    -- `step`: what it returns, from the state before and the state after.
    abbrev pub im_state : Motor A → Motor A → ImState A
    im_state before m = record {
      i_alpha = m.is_alpha;
      i_beta = m.is_beta;
      flux_alpha = m.flux_alpha;
      flux_beta = m.flux_beta;
      i_a = m.is_alpha;
      i_b = neg (decimal 5 1) *F m.is_alpha +F root_3 /F whole 2 *F m.is_beta;
      i_c = neg (decimal 5 1) *F m.is_alpha -F root_3 /F whole 2 *F m.is_beta;
      speed_mech = m.wm;
      speed_elec = m.wm *F p.npp;
      torque = electric_torque before;
    }

    unfoldable pub step_state : A → A → A → A → Motor A → Motor A × ImState A
    unfolding step
    step_state va vb vc tload m = let after = step va vb vc tload m in (after, im_state m after)
