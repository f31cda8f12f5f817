-- ===== src/Gate.antt =====
-- The gate driver and the carrier of the native mocks: the C text in scripts/hil_fullstack_mock.py
-- and verification/cocotb/scripts/top_fullstack_mock.py. A C `int` that is used as a flag is a
-- `Bool`; counters are naturals, since they start at 0 and stop at a limit.
pub mod Carrier
pub mod Dwell
pub mod Safety
mod Tests
use hardware_in_the_loop.Base.{
  ℕ, suc, ◌+◌, ◌-◌, max, Bool, true, false, not, ◌&&◌, List, [], ◌∷◌, ltb, leb, if◌then◌else◌,
}

-- The three commands -1, 0 and 1 that `npc_state` returns.
pub data Level : Type 0 where
  minus flat plus : Level

-- G_OFF … G_WAIT.
pub data State : Type 0 where
  g_off g_pos g_pos_dead g_zero g_neg g_neg_dead g_wait : State

-- VEC_OFF … VEC_NEG.
pub data Vector : Type 0 where
  vec_off vec_pos vec_zero_p vec_zero vec_zero_n vec_neg : Vector

pub record GateDriver : Type 0 where
  pub state : State
  pub pwm : Vector
  pub ctr : ℕ
  pub ctr_wait : ℕ
  pub minw_ok : Bool
  pub dt_ok : Bool
  pub dt_ok_reg : Bool
  pub fault : Bool
  pub en_sync : Bool

-- The arguments of `gate_step` that stay the same for a run.
pub record Timing : Type 0 where
  pub min_pulse : ℕ
  pub dead_time : ℕ
  pub wait_cnt : ℕ

-- The arguments that change from step to step.
pub record Input : Type 0 where
  pub cmd : Level
  pub en : Bool
  pub sync : Bool

unfoldable pub gate_init : GateDriver
gate_init = record {
  state = g_off;
  pwm = vec_off;
  ctr = 0;
  ctr_wait = 0;
  minw_ok = false;
  dt_ok = false;
  dt_ok_reg = false;
  fault = false;
  en_sync = false;
}

abbrev pub is_plus : Level → Bool
is_plus plus = true
is_plus _ = false

abbrev pub is_minus : Level → Bool
is_minus minus = true
is_minus _ = false

abbrev pub is_flat : Level → Bool
is_flat flat = true
is_flat _ = false

-- `pwm_next`: the vector that each state drives.
abbrev pub vector_of : State → Vector
vector_of g_off = vec_off
vector_of g_pos = vec_pos
vector_of g_pos_dead = vec_zero_p
vector_of g_zero = vec_zero
vector_of g_neg = vec_neg
vector_of g_neg_dead = vec_zero_n
vector_of g_wait = vec_off

abbrev pub is_idle : State → Bool
is_idle g_off = true
is_idle g_wait = true
is_idle _ = false

-- `state_next` after the `switch`. `ready` is the test of G_OFF, `waited` that of G_WAIT.
abbrev pub switch : State → (ready minw_ok redge waited : Bool) → Level → State
switch g_off ready minw_ok redge waited cmd = if ready && is_flat cmd then g_zero else g_off
switch g_pos ready minw_ok redge waited cmd =
    if minw_ok then if is_plus cmd then g_pos else g_pos_dead else g_pos
switch g_pos_dead ready minw_ok redge waited cmd =
    if redge then if is_plus cmd then g_pos else g_zero else g_pos_dead
switch g_zero ready minw_ok redge waited cmd =
    if minw_ok
    then if is_plus cmd then g_pos_dead else if is_minus cmd then g_neg_dead else g_zero
    else g_zero
switch g_neg_dead ready minw_ok redge waited cmd =
    if redge then if is_minus cmd then g_neg else g_zero else g_neg_dead
switch g_neg ready minw_ok redge waited cmd =
    if minw_ok then if is_minus cmd then g_neg else g_neg_dead else g_neg
switch g_wait ready minw_ok redge waited cmd = if waited then g_off else g_wait

-- `if (!en && state != G_OFF && state != G_WAIT) state_next = G_WAIT;`
abbrev pub disable : Bool → State → State → State
disable en old next = if not en && not (is_idle old) then g_wait else next

abbrev pub same_state : State → State → Bool
same_state g_off g_off = true
same_state g_pos g_pos = true
same_state g_pos_dead g_pos_dead = true
same_state g_zero g_zero = true
same_state g_neg g_neg = true
same_state g_neg_dead g_neg_dead = true
same_state g_wait g_wait = true
same_state _ _ = false

abbrev pub wait_next : State → Bool → Bool → ℕ → ℕ
wait_next g_wait en more n = if en then n else if more then n + 1 else 0
wait_next _ en more n = n

-- The counters while the state stays: `ctr` stops at the larger of the two times.
abbrev hold : Timing → GateDriver → GateDriver
hold t g = record g {
  ctr = if ltb g.ctr (max t.min_pulse t.dead_time) then g.ctr + 1 else g.ctr;
  minw_ok = if leb (t.min_pulse - 1) g.ctr then true else g.minw_ok;
  dt_ok = if leb (t.dead_time - 1) g.ctr then true else g.dt_ok;
}

abbrev restart : GateDriver → GateDriver
restart g = record g { ctr = 0; minw_ok = false; dt_ok = false }

abbrev pub state_next : Timing → GateDriver → Input → State
state_next t g i =
    let waited = not i.en && not (ltb g.ctr_wait (t.wait_cnt - 1)) in
    disable i.en g.state (
      switch g.state (g.en_sync && not g.fault) g.minw_ok (g.dt_ok && not g.dt_ok_reg) waited i.cmd)

unfoldable pub gate_step : Timing → GateDriver → Input → GateDriver
gate_step t g i =
    let next = state_next t g i in
    let counted = if same_state next g.state then hold t g else restart g in
    record counted {
      state = next;
      pwm = vector_of g.state;
      ctr_wait = wait_next g.state i.en (ltb g.ctr_wait (t.wait_cnt - 1)) g.ctr_wait;
      dt_ok_reg = g.dt_ok;
      en_sync = if i.sync then i.en else g.en_sync;
    }

-- The calls that the main loop makes, one after the other.
unfoldable pub gate_run : Timing → GateDriver → List Input → GateDriver
gate_run t g [] = g
gate_run t g (i ∷ is) = gate_run t (gate_step t g i) is
