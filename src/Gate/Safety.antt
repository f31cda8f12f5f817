-- ===== src/Gate/Safety.antt =====
-- The order in which a leg may change state, on every step of the gate driver.
use hardware_in_the_loop.Base.{
  ◌≤◌, max, Bool, true, false, ◌≡◌, ◌⊎◌, inl, inr, List, [], ◌∷◌, ◌++◌, arith, refl, ap,
}
use hardware_in_the_loop.Gate.{
  State, g_off, g_pos, g_pos_dead, g_zero, g_neg, g_neg_dead, g_wait, GateDriver, Timing, Input,
  Level, minus, flat, plus, switch, disable, gate_init, gate_step, gate_run,
}

-- The edges of the driver's graph, read off the comments of the driver and not off its code: a leg
-- reaches a switched level only from its own dead state, and everything may be shut down.
pub data Edge : State → State → Type 0 where
  wake : Edge g_off g_zero
  rise : Edge g_zero g_pos_dead
  settle_pos : Edge g_pos_dead g_pos
  cancel_pos : Edge g_pos_dead g_zero
  leave_pos : Edge g_pos g_pos_dead
  fall : Edge g_zero g_neg_dead
  settle_neg : Edge g_neg_dead g_neg
  cancel_neg : Edge g_neg_dead g_zero
  leave_neg : Edge g_neg g_neg_dead
  trip : (s : State) → Edge s g_wait
  release : Edge g_wait g_off

-- What is between two steps: the flags never run ahead of the counter.
pub record IsTimed (t : Timing) (g : GateDriver) : Type 0 where
  pub capped : g.ctr ≤ max t.min_pulse t.dead_time
  pub minw_honest : g.minw_ok ≡ true → t.min_pulse ≤ g.ctr
  pub dt_honest : g.dt_ok ≡ true → t.dead_time ≤ g.ctr

pub gate_step-IsTimed :
    (t : Timing) (g : GateDriver) (i : Input) → IsTimed t g → IsTimed t (gate_step t g i)
unfolding gate_step
gate_step-IsTimed t g i h = ground arith

pub gate_run-IsTimed :
    (t : Timing) (is : List Input) (g : GateDriver) → IsTimed t g → IsTimed t (gate_run t g is)
unfolding gate_run
gate_run-IsTimed t [] g h = h
gate_run-IsTimed t (i ∷ is) g h =
    gate_run-IsTimed t is (gate_step t g i) (gate_step-IsTimed t g i h)

pub gate_init-IsTimed : (t : Timing) → IsTimed t gate_init
unfolding gate_init
gate_init-IsTimed t = ground arith

-- From reset, whatever the inputs, a minimum-pulse flag that is set means that the counter of the
-- present state has reached `min_pulse`, a dead-time flag that it has reached `dead_time`, and the
-- counter stays within the larger of the two.
pub reset-IsTimed : (t : Timing) (is : List Input) → IsTimed t (gate_run t gate_init is)
reset-IsTimed t is = gate_run-IsTimed t is gate_init (gate_init-IsTimed t)

Move : State → State → Type 0
Move s s' = (s' ≡ s) ⊎ Edge s s'

switch-Move :
    (s : State) (ready minw_ok redge waited : Bool) (cmd : Level)
    → Move s (switch s ready minw_ok redge waited cmd)
unfolding Move
switch-Move g_off true _ _ _ flat = inr wake
switch-Move g_off true _ _ _ minus = inl refl
switch-Move g_off true _ _ _ plus = inl refl
switch-Move g_off false _ _ _ _ = inl refl
switch-Move g_pos _ true _ _ plus = inl refl
switch-Move g_pos _ true _ _ minus = inr leave_pos
switch-Move g_pos _ true _ _ flat = inr leave_pos
switch-Move g_pos _ false _ _ _ = inl refl
switch-Move g_pos_dead _ _ true _ plus = inr settle_pos
switch-Move g_pos_dead _ _ true _ minus = inr cancel_pos
switch-Move g_pos_dead _ _ true _ flat = inr cancel_pos
switch-Move g_pos_dead _ _ false _ _ = inl refl
switch-Move g_zero _ true _ _ plus = inr rise
switch-Move g_zero _ true _ _ minus = inr fall
switch-Move g_zero _ true _ _ flat = inl refl
switch-Move g_zero _ false _ _ _ = inl refl
switch-Move g_neg_dead _ _ true _ minus = inr settle_neg
switch-Move g_neg_dead _ _ true _ plus = inr cancel_neg
switch-Move g_neg_dead _ _ true _ flat = inr cancel_neg
switch-Move g_neg_dead _ _ false _ _ = inl refl
switch-Move g_neg _ true _ _ minus = inl refl
switch-Move g_neg _ true _ _ plus = inr leave_neg
switch-Move g_neg _ true _ _ flat = inr leave_neg
switch-Move g_neg _ false _ _ _ = inl refl
switch-Move g_wait _ _ _ true _ = inr release
switch-Move g_wait _ _ _ false _ = inl refl

disable-Move : (en : Bool) (s s' : State) → Move s s' → Move s (disable en s s')
unfolding Move
disable-Move true s s' m = m
disable-Move false g_off s' m = m
disable-Move false g_wait s' m = m
disable-Move false g_pos s' m = inr (trip g_pos)
disable-Move false g_pos_dead s' m = inr (trip g_pos_dead)
disable-Move false g_zero s' m = inr (trip g_zero)
disable-Move false g_neg s' m = inr (trip g_neg)
disable-Move false g_neg_dead s' m = inr (trip g_neg_dead)

-- Every step keeps the state of the leg or follows an edge of the driver's graph.
pub gate_step-Edge :
    (t : Timing) (g : GateDriver) (i : Input)
    → ((gate_step t g i).state ≡ g.state) ⊎ Edge g.state (gate_step t g i).state
unfolding gate_step Move
gate_step-Edge t g i = disable-Move i.en g.state _ (switch-Move g.state _ _ _ _ i.cmd)

-- The states that the leg can be in after a positive level and before the next zero level.
abbrev pub before_zero : State → Bool
before_zero g_pos = true
before_zero g_pos_dead = true
before_zero g_wait = true
before_zero g_off = true
before_zero _ = false

step-before_zero :
    (t : Timing) (g : GateDriver) (i : Input)
    → before_zero g.state ≡ true
    → (before_zero (gate_step t g i).state ≡ true) ⊎ ((gate_step t g i).state ≡ g_zero)
unfolding gate_step
step-before_zero t g i h = ground arith

abbrev pub is_negative : State → Bool
is_negative g_neg = true
is_negative g_neg_dead = true
is_negative _ = false

positive_not_negative : (s : State) → before_zero s ≡ true → is_negative s ≡ true → ⊥
positive_not_negative s h n = ground arith

-- A leg that is positive (or in the positive dead state, or shut down) and later negative was at
-- the zero level in between: the inputs split at a moment at which the state is `g_zero`.
pub reversal_through_zero :
    (t : Timing) (is : List Input) (g : GateDriver)
    → before_zero g.state ≡ true
    → is_negative (gate_run t g is).state ≡ true
    → (before after : List Input) × (is ≡ before ++ after) × ((gate_run t g before).state ≡ g_zero)
unfolding gate_run
reversal_through_zero t [] g h n = absurd (positive_not_negative g.state h n)
reversal_through_zero t (i ∷ is) g h n = elim (step-before_zero t g i h) [
  | inl still ↦
      let (before, after, parts, zero) = reversal_through_zero t is (gate_step t g i) still n in
      (i ∷ before, after, ap (λ l. i ∷ l) parts, zero)
  | inr at_zero ↦ (i ∷ [], is, refl, at_zero)
]
