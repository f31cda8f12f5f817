-- ===== src/Stimulus.antt =====
-- The reference voltages: verification/cocotb/models/vf_control.py and sine_control.py, and VFStimulus
-- of scripts/fpga_vs_c.py. Sine, cosine and π are parameters.
pub mod Ramp
pub mod Phase
mod Tests
use hardware_in_the_loop.Base.{ℕ, zero, suc, Bool, List, [], ◌∷◌, if◌then◌else◌}
use hardware_in_the_loop.Number.{Number, ◌+F◌, ◌-F◌, ◌*F◌, ◌/F◌, less, whole, decimal, min_F, max_F}

-- The voltages of the three phases.
abbrev pub Voltages : Type 0 → Type 0
Voltages A = A × A × A

-- `wave` is `math.sin` or `math.cos`.
abbrev pub three_phases : {A : Type 0} ⦃n : Number A⦄ → (A → A) → A → A → A → Voltages A
three_phases wave pi amp theta = (
  amp *F wave theta,
  amp *F wave (theta -F whole 2 *F pi /F whole 3),
  amp *F wave (theta +F whole 2 *F pi /F whole 3),
)

-- `VFStimulus`
pub record VfStimulus (A : Type 0) : Type 0 where
  pub f_target : A
  pub base_freq : A
  pub vpk : A
  pub max_v_pu : A
  pub accel : A
  pub f_current : A
  pub theta : A

-- `VFControl`
pub record VfControl (A : Type 0) : Type 0 where
  pub f_nominal : A
  pub v_peak_nominal : A
  pub acc_ramp_hz_s : A
  pub ts : A
  pub theta : A
  pub f_ref : A

-- `SineControl`
pub record SineControl (A : Type 0) : Type 0 where
  pub frequency_hz : A
  pub v_peak : A
  pub ts : A
  pub theta : A

module _ {A : Type 0} ⦃n : Number A⦄ where
  -- `VF_TICK_TS`
  abbrev pub vf_tick_ts : A
  vf_tick_ts = decimal 1 3

  -- `VFStimulus.__init__`
  unfoldable pub vf_stimulus : A → A → A → A → A → VfStimulus A
  vf_stimulus freq base_freq vdc max_v_pu accel_time =
      let base = if less (whole 0) base_freq then base_freq else whole 60 in
      record {
        f_target = max_F (whole 0) freq;
        base_freq = base;
        vpk = vdc /F whole 2;
        max_v_pu = min_F (max_F max_v_pu (whole 0)) (whole 1);
        accel = if less (whole 0) accel_time then base /F accel_time else whole 1000000;
        f_current = whole 0;
        theta = whole 0;
      }

  -- `tick`: the frequency after it.
  unfoldable pub ramped : A → A → A → A
  ramped step target f =
      if less f target
      then min_F (f +F step) target
      else if less target f
      then max_F (f -F step) target
      else f

  -- `tick`: the amplitude in per unit.
  unfoldable pub v_pu_of : VfStimulus A → A → A
  v_pu_of v f = min_F (v.max_v_pu *F (f /F v.base_freq)) v.max_v_pu

  -- `VFControl.__post_init__`, with the fields' first values.
  abbrev pub vf_control : A → A → A → A → A → VfControl A
  vf_control f_nominal v_peak_nominal acc_ramp_hz_s ts initial_theta = record {
    f_nominal = f_nominal;
    v_peak_nominal = v_peak_nominal;
    acc_ramp_hz_s = acc_ramp_hz_s;
    ts = ts;
    theta = initial_theta;
    f_ref = whole 0;
  }

  -- `SineControl.__init__`
  abbrev pub sine_control : A → A → A → A → SineControl A
  sine_control frequency_hz v_peak ts initial_theta = record {
    frequency_hz = frequency_hz;
    v_peak = v_peak;
    ts = ts;
    theta = initial_theta;
  }

module _ {A : Type 0} ⦃n : Number A⦄ (wave : A → A) (pi : A) where
  -- `theta += …`, and `theta -= 2π` beyond a turn.
  unfoldable pub turned : A → A → A
  turned theta f =
      let next = theta +F whole 2 *F pi *F f *F vf_tick_ts in
      if less (whole 2 *F pi) next then next -F whole 2 *F pi else next

  -- `VFStimulus.tick`
  unfoldable pub vf_tick : VfStimulus A → VfStimulus A × Voltages A
  unfolding ramped turned v_pu_of
  vf_tick v =
      let f = ramped (v.accel *F vf_tick_ts) v.f_target v.f_current in
      let theta = turned v.theta f in
      (
        record {
          f_target = v.f_target;
          base_freq = v.base_freq;
          vpk = v.vpk;
          max_v_pu = v.max_v_pu;
          accel = v.accel;
          f_current = f;
          theta = theta;
        },
        three_phases wave pi (v_pu_of v f *F v.vpk) theta,
      )

  -- `VFControl.step`, with the properties `vf_ratio` and `v_ref`.
  abbrev pub vf_ratio : VfControl A → A
  vf_ratio v = v.v_peak_nominal /F v.f_nominal

  unfoldable pub vf_step : VfControl A → VfControl A × Voltages A
  vf_step v =
      let f = min_F (v.f_ref +F v.acc_ramp_hz_s *F v.ts) v.f_nominal in
      let theta = v.theta +F whole 2 *F pi *F f *F v.ts in
      (
        record {
          f_nominal = v.f_nominal;
          v_peak_nominal = v.v_peak_nominal;
          acc_ramp_hz_s = v.acc_ramp_hz_s;
          ts = v.ts;
          theta = theta;
          f_ref = f;
        },
        three_phases wave pi (vf_ratio v *F f) theta,
      )

  -- `SineControl.step`
  unfoldable pub sine_step : SineControl A → SineControl A × Voltages A
  sine_step s = (
    record {
      frequency_hz = s.frequency_hz;
      v_peak = s.v_peak;
      ts = s.ts;
      theta = s.theta +F whole 2 *F pi *F s.frequency_hz *F s.ts;
    },
    three_phases wave pi s.v_peak s.theta,
  )

-- So many calls of a step: the state after them, and what they have returned.
unfoldable pub calls : {S V : Type 0} → (S → S × V) → ℕ → S → S × List V
calls step zero s = (s, [])
calls step (suc k) s = let (s', v) = step s in let (end, vs) = calls step k s' in (end, v ∷ vs)
