-- ===== src/Gate/Tests.antt =====
-- Concrete runs of the gate driver and the carrier.
use hardware_in_the_loop.Base.{true, false, ◌≡◌, refl, List, [], ◌∷◌, replicate, arith}
use hardware_in_the_loop.Base.Int.{pos}
use hardware_in_the_loop.Gate.{
  Level, g_pos, g_pos_dead, minus, flat, plus, vec_zero, vec_zero_p, GateDriver, Timing, Input,
  gate_step, gate_run,
}
use hardware_in_the_loop.Gate.Dwell.{level_dwell, dead_time_exact}
use hardware_in_the_loop.Gate.Safety.{is_negative}
use hardware_in_the_loop.Gate.Carrier.{MockPwm, start, no_reference}

abbrev timing : Timing
timing = record { min_pulse = 4; dead_time = 2; wait_cnt = 3 }

abbrev drive : Level → Input
drive c = record { cmd = c; en = true; sync = true }

-- A leg that has just come to the positive level.
abbrev positive : GateDriver
positive = record {
  state = g_pos;
  pwm = vec_zero_p;
  ctr = 0;
  ctr_wait = 0;
  minw_ok = false;
  dt_ok = false;
  dt_ok_reg = true;
  fault = false;
  en_sync = true;
}

abbrev dead : GateDriver
dead = record positive { state = g_pos_dead; pwm = vec_zero }

level_dwell_example :
    (gate_run timing positive (drive minus ∷ drive flat ∷ drive minus ∷ [])).state ≡ g_pos
level_dwell_example =
    level_dwell timing (drive minus ∷ drive flat ∷ drive minus ∷ []) positive refl refl
      (refl, (refl, (refl, tt))) (omega arith)

dead_time_exact_example :
    ((gate_run timing dead (drive plus ∷ drive flat ∷ [])).state ≡ g_pos_dead)
    × ((gate_step timing (gate_run timing dead (drive plus ∷ drive flat ∷ [])) (drive plus)).state
        ≡ g_pos)
dead_time_exact_example =
    dead_time_exact timing (drive plus ∷ drive flat ∷ []) (drive plus) dead refl refl refl
      (omega arith) refl (refl, (refl, tt)) refl

abbrev reversal : List Input
reversal = replicate 16 (drive minus)

reversal_end : is_negative (gate_run timing positive reversal).state ≡ true
unfolding gate_run gate_step
reversal_end = refl

-- Falling, three cycles before the valley, with a reference that is not yet in use.
abbrev falling : MockPwm
falling = record start { carrier = 2; dir = false; reference = record no_reference { va = pos 5 } }
