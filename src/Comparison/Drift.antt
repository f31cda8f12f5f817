-- ===== src/Comparison/Drift.antt =====
-- fpga_vs_c.py: how far the time of the C model is from that of its stimulus.
use hardware_in_the_loop.Base.{
  ℕ, zero, suc, ◌+◌, ◌-◌, ◌*◌, ◌≤◌, ◌||◌, ◌==◌, false, List, [], ◌∷◌, ltb, length, ◌≡◌, refl, ap,
  arith,
}
use hardware_in_the_loop.Number.{Number}
use hardware_in_the_loop.Stimulus.{VfStimulus, Voltages, vf_tick}
use hardware_in_the_loop.Hilbin.Repair.{Row}
use hardware_in_the_loop.Hilbin.Replay.{CModel, round_ratio}
use hardware_in_the_loop.Comparison.{
  Feed, gate_to_half, solver_steps, vf_ticks, run_c_model, fed_from, solver_ts, most_steps,
  vf_tick_cycles, steps_per, store_period,
}

round_ratio-solver_ts :
    (d : ℕ)
    → (2 * (round_ratio d solver_ts * solver_ts) ≤ 2 * d + solver_ts)
      × (2 * d ≤ 2 * (round_ratio d solver_ts * solver_ts) + solver_ts)
unfolding round_ratio
round_ratio-solver_ts d = ground arith

round_ratio-ticks : (ticks : ℕ) → round_ratio (ticks * vf_tick_cycles) vf_tick_cycles ≡ ticks
unfolding round_ratio
round_ratio-ticks ticks = ground arith

abbrev pub last_row : Row → List Row → Row
last_row r [] = r
last_row r (r' ∷ rows) = last_row r' rows

-- The events are in order, and no interval between two of them is skipped.
abbrev pub IsFed : Row → List Row → Type 0
IsFed r [] = Unit
IsFed r (r' ∷ rows) =
    (r.t ≤ r'.t)
    × ((round_ratio (r'.t - r.t) solver_ts == 0
          || ltb most_steps (round_ratio (r'.t - r.t) solver_ts))
        ≡ false)
    × IsFed r' rows

module _ {S A : Type 0} ⦃n : Number A⦄ (m : CModel S A) (store_every : ℕ) where
  solver_steps-t :
      (count : ℕ) (volts : Voltages A) (s : Feed S)
      → (solver_steps m store_every count volts s).1.t ≡ s.t + count * solver_ts
  unfolding solver_steps
  solver_steps-t zero volts s = omega arith
  solver_steps-t (suc count) volts s = omega (arith, solver_steps-t count volts _)

  vf_ticks-t :
      (step : VfStimulus A → VfStimulus A × Voltages A) (sub ticks : ℕ) (vf : VfStimulus A)
      (s : Feed S)
      → (vf_ticks m store_every step sub ticks vf s).1.t ≡ s.t + ticks * (sub * solver_ts)
  unfolding vf_ticks
  vf_ticks-t step sub zero vf s = omega arith
  vf_ticks-t step sub (suc ticks) vf s =
      let (vf', volts) = step vf in
      omega (
        arith,
        solver_steps-t sub volts s,
        vf_ticks-t step sub ticks vf' (solver_steps m store_every sub volts s).1,
      )

  fed_step :
      (vhalf : A) (r r' : Row) (rows : List Row) (s : Feed S)
      → ((round_ratio (r'.t - r.t) solver_ts == 0
            || ltb most_steps (round_ratio (r'.t - r.t) solver_ts))
          ≡ false)
      → (next : Feed S) × (next.t ≡ s.t + round_ratio (r'.t - r.t) solver_ts * solver_ts)
        × ((fed_from m store_every vhalf r (r' ∷ rows) s).1
            ≡ (fed_from m store_every vhalf r' rows next).1)
  unfolding fed_from
  fed_step vhalf r r' rows s h =
      let volts : Voltages A =
        (gate_to_half r.a vhalf, gate_to_half r.b vhalf, gate_to_half r.c vhalf) in
      let count = round_ratio (r'.t - r.t) solver_ts in
      ((solver_steps m store_every count volts s).1, solver_steps-t count volts s, rw h refl)

  drift_from :
      (vhalf : A) (r : Row) (rows : List Row) (s : Feed S) (d : ℕ)
      → IsFed r rows
      → 2 * s.t ≤ 2 * r.t + solver_ts * d
      → 2 * r.t ≤ 2 * s.t + solver_ts * d
      → (2 * (fed_from m store_every vhalf r rows s).1.t
          ≤ 2 * (last_row r rows).t + solver_ts * (d + length rows))
        × (2 * (last_row r rows).t
            ≤ 2 * (fed_from m store_every vhalf r rows s).1.t + solver_ts * (d + length rows))
  unfolding fed_from
  drift_from vhalf r [] s d h a b = (omega (arith, a), omega (arith, b))
  drift_from vhalf r (r' ∷ rows) s d (le, fed, h) a b =
      let (next, e, same) = fed_step vhalf r r' rows s fed in
      let near = round_ratio-solver_ts (r'.t - r.t) in
      let (c, d') =
        drift_from vhalf r' rows next (suc d) h (omega (arith, e, near.0, a, b, le))
          (omega (arith, e, near.1, a, b, le)) in
      let same_t = ap (λ f. f.t) same in (omega (arith, c, same_t), omega (arith, d', same_t))

  -- Fed with captured events that are in order and of which no interval is skipped, the time of the C
  -- model at the end is at most half a solver step per event away from the time of the last event.
  pub fed_from-drift :
      (vhalf : A) (r : Row) (rows : List Row) (s : Feed S)
      → s.t ≡ r.t
      → IsFed r rows
      → (2 * (fed_from m store_every vhalf r rows s).1.t
          ≤ 2 * (last_row r rows).t + solver_ts * length rows)
        × (2 * (last_row r rows).t
            ≤ 2 * (fed_from m store_every vhalf r rows s).1.t + solver_ts * length rows)
  fed_from-drift vhalf r rows s e h =
      let (a, b) = drift_from vhalf r rows s 0 h (omega (arith, e)) (omega (arith, e)) in
      (omega (arith, a), omega (arith, b))

-- With the ideal stimulus, the C model has run 40 ns less than the stimulus for every tick of 1 ms:
-- a tick is 7692 solver steps of 130 ns.
pub run_c_model-late :
    {S A : Type 0} ⦃n : Number A⦄ (m : CModel S A) (wave : A → A) (pi : A) (ticks : ℕ)
    (vf : VfStimulus A) (model : S)
    → (run_c_model m wave pi (ticks * vf_tick_cycles) vf model).1.t + ticks * 4
      ≡ ticks * vf_tick_cycles
unfolding run_c_model
run_c_model-late m wave pi ticks vf model =
    let t =
      vf_ticks-t m (steps_per store_period) (vf_tick wave pi) (steps_per vf_tick_cycles)
        (round_ratio (ticks * vf_tick_cycles) vf_tick_cycles) vf
        (record { model = model; t = 0; k = 0 }) in
    omega (arith, t, round_ratio-ticks ticks)
