-- ===== src/Comparison.antt =====
-- verification/cocotb/scripts/fpga_vs_c.py: the C model with the ideal and with the captured voltages,
-- the alignment and the metrics. Times are cycles of the capture clock; sampling on a grid, correlation
-- and square root are parameters.
pub mod Drift
pub mod Metrics
pub mod Lag
pub mod Filter
mod Tests
use hardware_in_the_loop.Base.{
  ℕ, zero, suc, ◌+◌, ◌-◌, ◌*◌, ◌/◌, ◌%◌, min, max, Bool, ◌||◌, Option, none, some, List, [], ◌∷◌,
  ◌++◌, if◌then◌else◌, ltb, leb, ◌==◌, length, take, drop, map,
}
use hardware_in_the_loop.Base.Int.{ℤ, pos, sub_ℕ}
use hardware_in_the_loop.Number.{
  Number, ◌+F◌, ◌-F◌, ◌*F◌, ◌/F◌, neg, less, whole, decimal, min_F, max_F,
}
use hardware_in_the_loop.Stimulus.{VfStimulus, Voltages, vf_tick}
use hardware_in_the_loop.Hilbin.Repair.{Row}
use hardware_in_the_loop.Hilbin.Estimate.{Trajectory}
use hardware_in_the_loop.Hilbin.Replay.{CModel, Channels, round_ratio}

-- `SOLVER_TS`, `VF_TICK_TS` and the period of 10 kHz, in cycles of 10 ns.
abbrev pub solver_ts : ℕ
solver_ts = 13

abbrev pub vf_tick_cycles : ℕ
vf_tick_cycles = 100000

abbrev pub store_period : ℕ
store_period = 10000

-- The variables of both loops: the model, the time and the count of steps.
pub record Feed (S : Type 0) : Type 0 where
  pub model : S
  pub t : ℕ
  pub k : ℕ

module _ {S A : Type 0} ⦃n : Number A⦄ (m : CModel S A) (store_every : ℕ) where
  -- So many solver steps at the same voltages.
  unfoldable pub solver_steps : ℕ → Voltages A → Feed S → Trajectory (Channels A) × Feed S
  solver_steps zero volts s = ([], s)
  solver_steps (suc count) volts s =
      let (va, vb, vc) = volts in
      let model = m.step va vb vc (whole 0) s.model in
      let (rest, end) =
        solver_steps count volts (record { model = model; t = s.t + solver_ts; k = s.k + 1 }) in
      (if s.k % store_every == 0 then (s.t, m.state model) ∷ rest else rest, end)

  -- The ticks of the stimulus, each held for `sub` solver steps.
  unfoldable pub vf_ticks :
      (VfStimulus A → VfStimulus A × Voltages A)
      → ℕ
      → ℕ
      → VfStimulus A
      → Feed S
      → Trajectory (Channels A) × Feed S
  unfolding solver_steps
  vf_ticks step sub zero vf s = ([], s)
  vf_ticks step sub (suc ticks) vf s =
      let (vf', volts) = step vf in
      let (stored, s') = solver_steps sub volts s in
      let (rest, end) = vf_ticks step sub ticks vf' s' in (stored ++ rest, end)

-- `max(1, round(p / SOLVER_TS))`
abbrev pub steps_per : ℕ → ℕ
unfolding round_ratio
steps_per p = max 1 (round_ratio p solver_ts)

-- `run_c_model`: `wave` and `pi` are those of the stimulus.
unfoldable pub run_c_model :
    {S A : Type 0} ⦃n : Number A⦄
    → CModel S A
    → (A → A)
    → A
    → ℕ
    → VfStimulus A
    → S
    → Trajectory (Channels A) × Feed S
unfolding vf_ticks vf_tick steps_per round_ratio
run_c_model m wave pi duration vf model =
    vf_ticks m (steps_per store_period) (vf_tick wave pi) (steps_per vf_tick_cycles)
      (round_ratio duration vf_tick_cycles) vf (record { model = model; t = 0; k = 0 })

-- `_gate_to_v`
unfoldable pub gate_to_half : {A : Type 0} ⦃n : Number A⦄ → ℕ → A → A
gate_to_half g vhalf = if g == 3 then vhalf else if g == 12 then neg vhalf else whole 0

-- Gaps of more steps are skipped.
abbrev pub most_steps : ℕ
most_steps = 5000000

module _ {S A : Type 0} ⦃n : Number A⦄ (m : CModel S A) (store_every : ℕ) (vhalf : A) where
  -- The events after one at time `t`, whose gate states hold until the next one.
  unfoldable pub fed_from : Row → List Row → Feed S → Trajectory (Channels A) × Feed S
  unfolding solver_steps gate_to_half round_ratio
  fed_from r [] s = ([], s)
  fed_from r (r' ∷ rows) s =
      let count = round_ratio (r'.t - r.t) solver_ts in
      let volts : Voltages A =
        (gate_to_half r.a vhalf, gate_to_half r.b vhalf, gate_to_half r.c vhalf) in
      let (stored, s') = solver_steps m store_every count volts s in
      let skipped = fed_from r' rows s in
      let (rest, end) = fed_from r' rows s' in
      if count == 0 || ltb most_steps count then skipped else (stored ++ rest, end)

-- `run_c_model_pwm_fed`; without an event `tev[0]` raises.
unfoldable pub run_c_model_pwm_fed :
    {S A : Type 0} ⦃n : Number A⦄
    → CModel S A
    → A
    → List Row
    → S
    → Option (Trajectory (Channels A) × Feed S)
unfolding fed_from steps_per
run_c_model_pwm_fed m vdc [] model = none
run_c_model_pwm_fed m vdc (r ∷ rows) model = some (
    fed_from m (steps_per store_period) (vdc /F whole 2) r rows
      (record { model = model; t = r.t; k = 0 }))
