-- ===== src/Gate/Carrier.antt =====
-- The triangular carrier, the comparison that gives the command, and the voltage of a vector, in
-- scripts/hil_fullstack_mock.py and verification/cocotb/scripts/top_fullstack_mock.py. The carrier
-- counts from 0 to `cmax - 1` and back; `dir` is 1 while it rises. The two mocks differ in when
-- they take over a new reference, and in the voltage of a dead state.
pub mod Period
pub mod Latch
pub mod Command
use hardware_in_the_loop.Base.{
  ℕ, zero, suc, ◌+◌, ◌-◌, ◌*◌, Bool, true, false, ◌||◌, ltb, leb, ◌==◌, if◌then◌else◌,
}
use hardware_in_the_loop.Base.Int.{ℤ, pos, negsuc, ltb_ℤ}
use hardware_in_the_loop.Gate.{
  Level, minus, flat, plus, Vector, vec_off, vec_pos, vec_zero_p, vec_zero, vec_zero_n, vec_neg,
}

-- The references of the three legs.
pub record Phases : Type 0 where
  pub va : ℤ
  pub vb : ℤ
  pub vc : ℤ

pub record MockPwm : Type 0 where
  pub carrier : ℕ
  pub dir : Bool
  pub reference : Phases
  pub latched : Phases

abbrev pub no_reference : Phases
no_reference = record { va = pos 0; vb = pos 0; vc = pos 0 }

-- One cycle of the carrier, with no reference taken over.
unfoldable pub advance : ℕ → MockPwm → MockPwm
advance cmax p =
    if p.dir
    then if leb (cmax - 1) p.carrier
      then record p { dir = false }
      else record p { carrier = p.carrier + 1 }
    else if p.carrier == 0
    then record p { dir = true }
    else record p { carrier = p.carrier - 1 }

unfoldable pub advance_by : ℕ → ℕ → MockPwm → MockPwm
advance_by cmax zero p = p
advance_by cmax (suc n) p = advance_by cmax n (advance cmax p)

-- All zero but the direction.
abbrev pub start : MockPwm
start = record { carrier = 0; dir = true; reference = no_reference; latched = no_reference }

-- `pwm_init`: the carrier has run for `phase` cycles.
unfoldable pub pwm_init : ℕ → ℕ → MockPwm
pwm_init phase cmax = advance_by cmax phase start

abbrev pub at_valley : MockPwm → Bool
at_valley p = if p.dir then false else p.carrier == 0

abbrev pub at_peak : ℕ → MockPwm → Bool
at_peak cmax p = if p.dir then leb (cmax - 1) p.carrier else false

abbrev pub latch : Bool → MockPwm → MockPwm
latch b p = if b then record p { latched = p.reference } else p

-- `pwm_step` of hil_fullstack_mock: a reference is taken over in the valley. Returns `valley`.
unfoldable pub pwm_step : ℕ → MockPwm → MockPwm × Bool
pwm_step cmax p = (latch (at_valley p) (advance cmax p), at_valley p)

-- `pwm_step` of top_fullstack_mock: a reference is taken over in the valley and at the peak.
unfoldable pub pwm_step_both_edges : ℕ → MockPwm → MockPwm × Bool
pwm_step_both_edges cmax p = (latch (at_valley p || at_peak cmax p) (advance cmax p), at_valley p)

-- `for (int k = 0; k < 13; k++) valley |= pwm_step(&pwm, cmax);`, for any number of rounds.
unfoldable pub pwm_steps : ℕ → ℕ → MockPwm × Bool → MockPwm × Bool
pwm_steps cmax zero s = s
pwm_steps cmax (suc n) (p, valley) =
    let (p', v) = pwm_step cmax p in pwm_steps cmax n (p', valley || v)

-- `abs_sat`
unfoldable pub abs_sat : ℤ → ℕ → ℕ
abs_sat (pos n) maxv = if ltb maxv n then maxv else n
abs_sat (negsuc n) maxv = if ltb maxv (suc n) then maxv else suc n

unfoldable pub npc_state : ℤ → ℕ → ℕ → Level
unfolding abs_sat
npc_state r carrier cmax =
    if ltb carrier (abs_sat r cmax) then if ltb_ℤ r (pos 0) then minus else plus else flat

-- Voltages in quarters of the DC link voltage: 0.5 * vdc is two quarters.
unfoldable pub gate_to_v : Vector → ℕ → ℤ
gate_to_v vec_pos vdc = pos (2 * vdc)
gate_to_v vec_neg vdc = if vdc == 0 then pos 0 else negsuc (2 * vdc - 1)
gate_to_v vec_zero_p vdc = pos vdc
gate_to_v vec_zero_n vdc = if vdc == 0 then pos 0 else negsuc (vdc - 1)
gate_to_v vec_zero vdc = pos 0
gate_to_v vec_off vdc = pos 0

-- top_fullstack_mock gives a dead state no voltage.
unfoldable pub gate_to_v_full : Vector → ℕ → ℤ
gate_to_v_full vec_pos vdc = pos (2 * vdc)
gate_to_v_full vec_neg vdc = if vdc == 0 then pos 0 else negsuc (2 * vdc - 1)
gate_to_v_full _ vdc = pos 0

unfoldable pub state_to_v : Level → ℕ → ℤ
state_to_v plus vdc = pos (2 * vdc)
state_to_v minus vdc = if vdc == 0 then pos 0 else negsuc (2 * vdc - 1)
state_to_v flat vdc = pos 0
