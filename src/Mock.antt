-- ===== src/Mock.antt =====
-- verification/cocotb/scripts/top_fullstack_mock.py: `main` of the C runner, from the rows it has read.
-- Times are whole numbers of a unit of which `half` make half a step; `seconds` converts one. The
-- motor, sine, π and the conversion to `int` are parameters. Files and printing are not modelled.
pub mod Legs
pub mod Sums
pub mod Rows
pub mod Complete
mod Tests
use hardware_in_the_loop.Base.{
  ℕ, zero, suc, ◌+◌, ◌*◌, ◌/◌, ◌%◌, Bool, true, Option, none, some, List, [], ◌∷◌, ◌++◌,
  if◌then◌else◌, ltb, leb, ◌==◌,
}
use hardware_in_the_loop.Base.Int.{ℤ}
use hardware_in_the_loop.Number.{
  Number, ◌+F◌, ◌-F◌, ◌*F◌, ◌/F◌, neg, less, whole, decimal, min_F, max_F,
}
use hardware_in_the_loop.Gate.{
  Level, Vector, vec_off, vec_pos, vec_neg, GateDriver, Timing, Input, gate_init, gate_step,
}
use hardware_in_the_loop.Gate.Carrier.{Phases, MockPwm, pwm_init, pwm_step_both_edges, npc_state}
use hardware_in_the_loop.Stimulus.{three_phases}
use hardware_in_the_loop.Hilbin.Replay.{Channels, CModel, zeros}
use hardware_in_the_loop.Validation.{each, fabs}

-- The carrier and the drivers of the three legs.
pub record Bench : Type 0 where
  pub pwm : MockPwm
  pub ga : GateDriver
  pub gb : GateDriver
  pub gc : GateDriver

-- What main passes to `gate_step`: 100, 50 and clock / 1000, with `en` = 1.
abbrev pub main_timing : ℕ → Timing
main_timing clock = record { min_pulse = 100; dead_time = 50; wait_cnt = clock / 1000 }

abbrev pub driven : Level → Bool → Input
driven cmd valley = record { cmd = cmd; en = true; sync = valley }

abbrev pub first_bench : ℕ → ℕ → Bench
first_bench phase cmax = record {
  pwm = pwm_init phase cmax;
  ga = gate_init;
  gb = gate_init;
  gc = gate_init;
}

-- A clock cycle.
unfoldable pub cycle : ℕ → Timing → Bench → Bench
cycle cmax timing s =
    let (pwm, valley) = pwm_step_both_edges cmax s.pwm in
    record {
      pwm = pwm;
      ga = gate_step timing s.ga (driven (npc_state pwm.latched.va pwm.carrier cmax) valley);
      gb = gate_step timing s.gb (driven (npc_state pwm.latched.vb pwm.carrier cmax) valley);
      gc = gate_step timing s.gc (driven (npc_state pwm.latched.vc pwm.carrier cmax) valley);
    }

unfoldable pub cycles : ℕ → Timing → ℕ → Bench → Bench
unfolding cycle
cycles cmax timing zero s = s
cycles cmax timing (suc n) s = cycles cmax timing n (cycle cmax timing s)

-- `pa`, `pb` and `pc` after the cycles of a step; before, they are VEC_OFF.
abbrev pub shown_vector : ℕ → GateDriver → Vector
shown_vector zero g = vec_off
shown_vector (suc n) g = g.pwm

-- The arguments of the V/F ramp.
pub record Ramp (A : Type 0) : Type 0 where
  pub vf_base : A
  pub vf_acc : A
  pub modulation : A
  pub theta0 : A

module _ {A : Type 0} ⦃n : Number A⦄ (sin : A → A) (pi : A) (trunc : A → ℤ) (cmax : ℕ) where
  abbrev pub acc_time : Ramp A → A
  acc_time v = if less (whole 0) v.vf_acc then v.vf_base /F v.vf_acc else whole 0

  -- `2.0 * M_PI * 0.5 * vf_acc * t * t`
  abbrev pub ramp_angle : Ramp A → A → A
  ramp_angle v t = whole 2 *F pi *F decimal 5 1 *F v.vf_acc *F t *F t

  abbrev pub is_positive : A → Bool
  is_positive x = less (whole 0) x

  -- `f_now` and `theta` at a time.
  unfoldable pub ramp_at : Ramp A → A → A × A
  ramp_at v t =
      let t_acc = acc_time v in
      if is_positive t_acc
      then if less t t_acc then (v.vf_acc *F t, v.theta0 +F ramp_angle v t) else (
        v.vf_base,
        v.theta0
            +F ramp_angle v t_acc
            +F whole 2 *F pi *F v.vf_base *F max_F (whole 0) (t -F t_acc),
      )
      else (
        v.vf_base,
        v.theta0 +F whole 0 +F whole 2 *F pi *F v.vf_base *F max_F (whole 0) (t -F t_acc),
      )

  abbrev pub amplitude : Ramp A → A → A
  amplitude v f_now =
      if is_positive v.vf_base
      then v.modulation *F min_F (max_F (f_now /F v.vf_base) (whole 0)) (whole 1)
      else whole 0

  -- `pwm.va_ref`, `vb_ref` and `vc_ref`.
  unfoldable pub reference_phases : Ramp A → A → Phases
  unfolding ramp_at
  reference_phases v t =
      let (f_now, theta) = ramp_at v t in
      let (a, b, c) = three_phases sin pi (whole cmax *F amplitude v f_now) theta in
      record { va = trunc a; vb = trunc b; vc = trunc c }

module _ {A : Type 0} ⦃n : Number A⦄ where
  -- `gate_to_v`
  abbrev pub leg_volts : A → Vector → A
  leg_volts vdc vec_pos = decimal 5 1 *F vdc
  leg_volts vdc vec_neg = neg (decimal 5 1) *F vdc
  leg_volts vdc _ = whole 0

-- `Row`
pub record CsvRow (A : Type 0) : Type 0 where
  pub t : ℕ
  pub y : Channels A

-- A row that is written.
pub record OutputRow (A : Type 0) : Type 0 where
  pub t : ℕ
  pub y : Channels A
  pub c : Channels A
  pub volts : A × A × A
  pub vectors : Vector × Vector × Vector

-- `outn`, `cnt`, the sums and the file.
pub record MockTally (A : Type 0) : Type 0 where
  pub outn : ℕ
  pub cnt : ℕ
  pub se : Channels A
  pub sae : Channels A
  pub ref2 : A × A
  pub out : List (OutputRow A)

module _ {A : Type 0} ⦃n : Number A⦄ (skip rec_int : ℕ) where
  abbrev pub no_rows : MockTally A
  no_rows = record {
    outn = 0;
    cnt = 0;
    se = zeros;
    sae = zeros;
    ref2 = (whole 0, whole 0);
    out = [];
  }

  abbrev pub summed : Channels A → Channels A → MockTally A → MockTally A
  summed c y s =
      let e = each ◌-F◌ y c in
      let (a, b) = s.ref2 in
      record s {
        cnt = suc s.cnt;
        se = each (λ p q. p +F q *F q) s.se e;
        sae = each (λ p q. p +F fabs q) s.sae e;
        ref2 = (a +F c.ia *F c.ia, b +F c.ib *F c.ib);
      }

  abbrev pub row_tally :
      Channels A → A × A × A → Vector × Vector × Vector → CsvRow A → MockTally A → MockTally A
  row_tally c volts vectors r s =
      let s' = if leb skip r.t then summed c r.y s else s in
      let line : OutputRow A = record {
        t = r.t;
        y = r.y;
        c = c;
        volts = volts;
        vectors = vectors;
      } in
      record s' {
        outn = suc s.outn;
        out = if s.outn % rec_int == 0 then s.out ++ (line ∷ []) else s.out;
      }

  -- A row that is due: it counts from `skip` on, and one of `rec_int` is written. `none` is the division
  -- by zero of `outn % rec_int`, which ends the program.
  unfoldable pub compare_row :
      Channels A
      → A × A × A
      → Vector × Vector × Vector
      → CsvRow A
      → MockTally A
      → Option (MockTally A)
  compare_row c volts vectors r s =
      if rec_int == 0 then none else some (row_tally c volts vectors r s)

  -- The loop over the rows up to a time.
  unfoldable pub due_rows :
      ℕ
      → Channels A
      → A × A × A
      → Vector × Vector × Vector
      → List (CsvRow A)
      → MockTally A
      → Option (List (CsvRow A) × MockTally A)
  due_rows bound c volts vectors [] s = some ([], s)
  due_rows bound c volts vectors (r ∷ rows) s =
      let rest : Option (List (CsvRow A) × MockTally A) = elim (compare_row c volts vectors r s) [
        | none ↦ none
        | some s' ↦ due_rows bound c volts vectors rows s'
      ] in
      if leb r.t bound then rest else some (r ∷ rows, s)

-- The variables of the loop; `rows` is what is left from `rowi` on.
pub record MockRun (S A : Type 0) : Type 0 where
  pub bench : Bench
  pub model : S
  pub rows : List (CsvRow A)
  pub tally : MockTally A

-- The arguments of the loop.
pub record MockSetup (A : Type 0) : Type 0 where
  pub cmax : ℕ
  pub clock : ℕ
  pub step_cycles : ℕ
  pub warm_cycles : ℕ
  pub carrier_phase : ℕ
  pub rec_int : ℕ
  pub half : ℕ
  pub skip : ℕ
  pub vdc : A
  pub ramp : Ramp A

module _ {S A : Type 0} ⦃n : Number A⦄ (sin : A → A) (pi : A) (trunc : A → ℤ) (seconds : ℕ → A)
    (m : CModel S A) (o : MockSetup A) where
  -- The references are set, the cycles of a step run, and the motor takes the voltages.
  abbrev pub powered : ℕ → Bench → Bench
  unfolding reference_phases cycles
  powered t b =
      let refs = reference_phases sin pi trunc o.cmax o.ramp (seconds t) in
      cycles o.cmax (main_timing o.clock) o.step_cycles
        (record b { pwm = record b.pwm { reference = refs } })

  -- The phase voltages that the motor takes, and its step.
  abbrev pub driven_motor : Bench → S → S
  driven_motor b model =
      m.step (leg_volts o.vdc (shown_vector o.step_cycles b.ga))
        (leg_volts o.vdc (shown_vector o.step_cycles b.gb))
        (leg_volts o.vdc (shown_vector o.step_cycles b.gc)) (whole 0) model

  -- The rows that are due at a time, after a step.
  abbrev pub rows_due :
      ℕ → Bench → S → List (CsvRow A) → MockTally A → Option (List (CsvRow A) × MockTally A)
  rows_due t b model rows tally =
      let pa = shown_vector o.step_cycles b.ga in
      let pb = shown_vector o.step_cycles b.gb in
      let pc = shown_vector o.step_cycles b.gc in
      due_rows o.skip o.rec_int (t + o.half) (m.state model)
        (leg_volts o.vdc pa, leg_volts o.vdc pb, leg_volts o.vdc pc) (pa, pb, pc) rows tally

  -- A step at a time.
  unfoldable pub mock_step : ℕ → MockRun S A → Option (MockRun S A)
  unfolding powered reference_phases cycles
  mock_step t s =
      let b = powered t s.bench in
      let model = driven_motor b s.model in
      elim (rows_due t b model s.rows s.tally) [
        | none ↦ none
        | some (rows, tally) ↦
            some (record { bench = b; model = model; rows = rows; tally = tally })
      ]

  -- The loop, on fuel: `none` where it is used up, or where the program has crashed.
  unfoldable pub mock_loop : ℕ → ℕ → ℕ → MockRun S A → Option (MockRun S A)
  mock_loop zero t_end t s = none
  mock_loop (suc fuel) t_end t s =
      let rest : Option (MockRun S A) = elim (mock_step t s) [
        | none ↦ none
        | some s' ↦ mock_loop fuel t_end (t + 2 * o.half) s'
      ] in
      if ltb (t_end + o.half) t then some s else rest

  abbrev pub last_row_time : CsvRow A → List (CsvRow A) → ℕ
  last_row_time r [] = r.t
  last_row_time r (r' ∷ rows) = last_row_time r' rows

  abbrev pub first_mock : S → List (CsvRow A) → MockRun S A
  first_mock model rows = record {
    bench = cycles o.cmax (main_timing o.clock) o.warm_cycles (first_bench o.carrier_phase o.cmax);
    model = model;
    rows = rows;
    tally = no_rows o.skip o.rec_int;
  }

  -- From the rows, of which there is one; a step for each multiple of the step up to the last row.
  unfoldable pub mock_main : S → CsvRow A → List (CsvRow A) → Option (MockRun S A)
  unfolding mock_loop
  mock_main model r rows =
      let t_end = last_row_time r rows in
      mock_loop (suc (t_end / (2 * o.half) + 2)) t_end 0 (first_mock model (r ∷ rows))
