-- ===== src/Mock/Tests.antt =====
-- Tests of the mock's loop, and its theorems at concrete inputs.
use hardware_in_the_loop.Base.{ℕ, ◌≤◌, ap, true, some, List, [], ◌∷◌, ◌≡◌, refl, arith}
use hardware_in_the_loop.Base.Int.{ℤ, pos, negsuc, ◌+ℤ◌}
use hardware_in_the_loop.Number.Integers.{integers}
use hardware_in_the_loop.Gate.{
  g_pos_dead, g_zero, g_neg, vec_zero_p, GateDriver, Timing, gate_init, gate_run, gate_step,
}
use hardware_in_the_loop.Gate.Carrier.{Phases, pwm_step_both_edges, npc_state, advance, abs_sat}
use hardware_in_the_loop.Gate.Safety.{is_negative}
use hardware_in_the_loop.Hilbin.Replay.{CModel}
use hardware_in_the_loop.Mock.{Bench, cycles, cycle, Ramp, CsvRow, MockRun, MockSetup, mock_main}
use hardware_in_the_loop.Mock.Legs.{
  leg_a, gate_of, reference_of, inputs, cycles-gate_run, cycles_through_zero,
}
use hardware_in_the_loop.Mock.Sums.{IsCompared}
use hardware_in_the_loop.Mock.Complete.{IsNearest, mock_main-all}

-- A leg in the positive dead state whose reference has become negative.
abbrev negative : Phases
negative = record { va = negsuc 49; vb = pos 0; vc = pos 2 }

abbrev dead_leg : GateDriver
dead_leg = record gate_init { state = g_pos_dead; pwm = vec_zero_p; en_sync = true }

abbrev bench : Bench
bench = record {
  pwm = record { carrier = 1; dir = true; reference = negative; latched = negative };
  ga = dead_leg;
  gb = gate_init;
  gc = gate_init;
}

abbrev quick : Timing
quick = record { min_pulse = 1; dead_time = 1; wait_cnt = 5 }

state_after : (cycles 40 quick 8 bench).ga.state ≡ g_neg
unfolding cycles cycle pwm_step_both_edges advance npc_state abs_sat gate_step gate_init
state_after = refl

cycles-gate_run_example :
    gate_of leg_a (cycles 40 quick 8 bench)
    ≡ gate_run quick dead_leg (inputs 40 (reference_of leg_a) 8 bench.pwm)
cycles-gate_run_example = cycles-gate_run 40 quick leg_a 8 bench

cycles_through_zero_example :
    (m : ℕ) × (m ≤ 8) × ((gate_of leg_a (cycles 40 quick m bench)).state ≡ g_zero)
cycles_through_zero_example =
    cycles_through_zero 40 quick leg_a 8 bench refl (ap (λ s. is_negative s) state_after)

-- A motor whose state is the sum of the voltages of leg a.
abbrev summing : CModel ℤ ℤ
summing = record {
  set_out = λ s wr model. model;
  step = λ va vb vc load model. model +ℤ va;
  state = λ x. record { ia = x; ib = pos 0; flux_a = pos 0; flux_b = pos 0; speed = pos 0 };
}

abbrev ramp : Ramp ℤ
ramp = record { vf_base = pos 60; vf_acc = pos 0; modulation = pos 1; theta0 = pos 0 }

abbrev setup : MockSetup ℤ
setup = record {
  cmax = 3;
  clock = 5000;
  step_cycles = 2;
  warm_cycles = 1;
  carrier_phase = 1;
  rec_int = 2;
  half = 3;
  skip = 5;
  vdc = pos 2;
  ramp = ramp;
}

abbrev row : ℕ → CsvRow ℤ
row t = record {
  t = t;
  y = record { ia = pos t; ib = pos 1; flux_a = pos 0; flux_b = pos 0; speed = pos 0 };
}

abbrev rows : List (CsvRow ℤ)
rows = row 4 ∷ row 4 ∷ row 9 ∷ row 13 ∷ []

mock_main-all_example :
    (end : MockRun ℤ ℤ) × (mock_main
        (λ x. x)
        (pos 3)
        (λ x. x)
        pos
        summing
        setup
        (pos 0)
        (row 0)
        rows
      ≡ some end)
    × (end.rows ≡ [])
    × (end.tally.outn ≡ 5)
    × IsCompared 5 2
        (IsNearest (λ x. x) (pos 3) (λ x. x) pos summing setup (pos 0) (omega arith))
        (row 0 ∷ rows)
        []
        end.tally
mock_main-all_example =
    mock_main-all (λ x. x) (pos 3) (λ x. x) pos summing setup (pos 0) (omega arith) (row 0) rows
      (omega arith) (omega arith, (omega arith, (omega arith, (omega arith, tt))))
