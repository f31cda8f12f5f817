-- ===== src/Gate/Dwell.antt =====
-- How long a leg stays in a state: the minimum pulse and the dead time.
use hardware_in_the_loop.Base.{
  ◌+◌, ◌≤◌, ◌<◌, Bool, true, false, ◌≡◌, ◌≢◌, refl, List, [], ◌∷◌, ◌∙◌, ap, length, All, arith,
  if◌then◌else◌,
}
use hardware_in_the_loop.Gate.{
  Level, State, g_pos, g_pos_dead, g_zero, g_neg, g_neg_dead, GateDriver, Timing, Input, is_plus,
  is_minus, gate_step, gate_run,
}

abbrev pub IsEnabled : List Input → Type 0
IsEnabled = All (λ i. i.en ≡ true)

abbrev pub is_level : State → Bool
is_level g_pos = true
is_level g_zero = true
is_level g_neg = true
is_level _ = false

step-level :
    (t : Timing) (g : GateDriver) (i : Input)
    → is_level g.state ≡ true
    → i.en ≡ true
    → g.minw_ok ≡ false
    → g.ctr + 1 ≤ t.min_pulse
    → ((gate_step t g i).state ≡ g.state)
      × ((gate_step t g i).ctr ≡ g.ctr + 1)
      × (g.ctr + 2 ≤ t.min_pulse → (gate_step t g i).minw_ok ≡ false)
unfolding gate_step
step-level t g i level en minw room = ground arith

-- The minimum pulse: a leg that is at a level, with `ctr` steps counted and the minimum-pulse flag
-- clear, stays there for as many enabled steps as are left up to `min_pulse`, whatever the
-- commands.
pub level_dwell :
    (t : Timing) (is : List Input) (g : GateDriver)
    → is_level g.state ≡ true
    → g.minw_ok ≡ false
    → IsEnabled is
    → g.ctr + length is ≤ t.min_pulse
    → (gate_run t g is).state ≡ g.state
unfolding gate_run
level_dwell t [] g level minw en room = refl
level_dwell t (i ∷ []) g level minw en room = (step-level t g i level en.0 minw (omega arith)).0
level_dwell t (i ∷ i' ∷ is) g level minw en room =
    let (same, count, flag) = step-level t g i level en.0 minw (omega arith) in
    level_dwell t (i' ∷ is) (gate_step t g i) (ap is_level same ∙ level) (flag (omega arith)) en.1
      (omega arith)
    ∙ same

abbrev pub is_dead : State → Bool
is_dead g_pos_dead = true
is_dead g_neg_dead = true
is_dead _ = false

step-dead :
    (t : Timing) (g : GateDriver) (i : Input)
    → is_dead g.state ≡ true
    → i.en ≡ true
    → g.dt_ok ≡ false
    → g.ctr + 1 ≤ t.dead_time
    → ((gate_step t g i).state ≡ g.state)
      × ((gate_step t g i).ctr ≡ g.ctr + 1)
      × (g.ctr + 2 ≤ t.dead_time → (gate_step t g i).dt_ok ≡ false)
      × (t.dead_time ≡ g.ctr + 1 → (gate_step t g i).dt_ok ≡ true)
      × ((gate_step t g i).dt_ok_reg ≡ false)
unfolding gate_step
step-dead t g i dead en dt room = ground arith

-- The state after the enabled steps that complete the dead time, and the flags it leaves.
dead_phase :
    (t : Timing) (i : Input) (is : List Input) (g : GateDriver)
    → is_dead g.state ≡ true
    → g.dt_ok ≡ false
    → IsEnabled (i ∷ is)
    → g.ctr + length (i ∷ is) ≡ t.dead_time
    → ((gate_run t g (i ∷ is)).state ≡ g.state)
      × ((gate_run t g (i ∷ is)).dt_ok ≡ true)
      × ((gate_run t g (i ∷ is)).dt_ok_reg ≡ false)
unfolding gate_run
dead_phase t i [] g dead dt en room =
    let (same, _, _, flag, reg) = step-dead t g i dead en.0 dt (omega arith) in
    (same, flag (omega arith), reg)
dead_phase t i (i' ∷ is) g dead dt en room =
    let (same, count, flag, _, _) = step-dead t g i dead en.0 dt (omega arith) in
    let (same', done, reg) =
      dead_phase t i' is (gate_step t g i) (ap is_dead same ∙ dead) (flag (omega arith)) en.1
        (omega arith) in
    (same' ∙ same, done, reg)

-- The level that a dead state leads to under a command.
abbrev pub after_dead : State → Level → State
after_dead g_pos_dead cmd = if is_plus cmd then g_pos else g_zero
after_dead g_neg_dead cmd = if is_minus cmd then g_neg else g_zero
after_dead s cmd = s

exit-dead :
    (t : Timing) (g : GateDriver) (i : Input)
    → is_dead g.state ≡ true
    → i.en ≡ true
    → g.dt_ok ≡ true
    → g.dt_ok_reg ≡ false
    → (gate_step t g i).state ≡ after_dead g.state i.cmd
unfolding gate_step
exit-dead t g i dead en dt reg = ground arith

-- The dead time, exactly, where it is not 0: a leg that has just entered a dead state (counter and flag clear) is
-- still there after `dead_time` enabled steps, whatever the commands, and the next enabled step
-- takes it to the level of its command if that is the side of the dead state, and else to zero.
pub dead_time_exact :
    (t : Timing) (is : List Input) (last : Input) (g : GateDriver)
    → is_dead g.state ≡ true
    → g.dt_ok ≡ false
    → g.ctr ≡ 0
    → 0 < t.dead_time
    → length is ≡ t.dead_time
    → IsEnabled is
    → last.en ≡ true
    → ((gate_run t g is).state ≡ g.state)
      × ((gate_step t (gate_run t g is) last).state ≡ after_dead g.state last.cmd)
dead_time_exact t [] last g dead dt ctr some_time room en en' = absurd (omega arith)
dead_time_exact t (i ∷ is) last g dead dt ctr some_time room en en' =
    let (same, done, reg) = dead_phase t i is g dead dt en (omega arith) in
    (
      same,
      exit-dead t (gate_run t g (i ∷ is)) last (ap is_dead same ∙ dead) en' done reg
          ∙ ap (λ s. after_dead s last.cmd) same,
    )

-- A step that changes the state of a leg leaves the counter and both flags clear, which is what
-- `level_dwell` and `dead_time_exact` start from.
pub gate_step_fresh :
    (t : Timing) (g : GateDriver) (i : Input)
    → (gate_step t g i).state ≢ g.state
    → ((gate_step t g i).ctr ≡ 0)
      × ((gate_step t g i).minw_ok ≡ false)
      × ((gate_step t g i).dt_ok ≡ false)
unfolding gate_step
gate_step_fresh t g i h = ground arith
