-- ===== src/Mock/Legs.antt =====
-- top_fullstack_mock.py: the three legs in the loop are those of the gate driver.
use hardware_in_the_loop.Base.{
  ℕ, zero, suc, ◌≤◌, List, [], ◌∷◌, ◌++◌, length, ◌≡◌, refl, ap, ◌∙◌, true, arith,
}
use mathlib.Core.Path.{subst}
use hardware_in_the_loop.Base.Int.{ℤ}
use hardware_in_the_loop.Gate.{GateDriver, g_zero, Timing, Input, gate_run}
use hardware_in_the_loop.Gate.Safety.{before_zero, is_negative, reversal_through_zero}
use hardware_in_the_loop.Gate.Carrier.{Phases, MockPwm, pwm_step_both_edges, npc_state}
use hardware_in_the_loop.Mock.{Bench, driven, cycle, cycles}

-- What a leg is given in so many cycles: it depends on the carrier and the references, and on no driver.
unfoldable pub inputs : ℕ → (Phases → ℤ) → ℕ → MockPwm → List Input
inputs cmax leg zero p = []
inputs cmax leg (suc n) p =
    let (p', valley) = pwm_step_both_edges cmax p in
    driven (npc_state (leg p'.latched) p'.carrier cmax) valley ∷ inputs cmax leg n p'

-- A leg, its driver and its reference.
pub data Leg : Type 0 where
  leg_a leg_b leg_c : Leg

abbrev pub gate_of : Leg → Bench → GateDriver
gate_of leg_a s = s.ga
gate_of leg_b s = s.gb
gate_of leg_c s = s.gc

abbrev pub reference_of : Leg → Phases → ℤ
reference_of leg_a p = p.va
reference_of leg_b p = p.vb
reference_of leg_c p = p.vc

-- In any number of cycles each leg is the gate driver run on commands that depend only on the carrier
-- and the reference of the leg: no driver acts on another one.
pub cycles-gate_run :
    (cmax : ℕ) (timing : Timing) (leg : Leg) (n : ℕ) (s : Bench)
    → gate_of leg (cycles cmax timing n s)
      ≡ gate_run timing (gate_of leg s) (inputs cmax (reference_of leg) n s.pwm)
unfolding cycles cycle inputs gate_run
cycles-gate_run cmax timing leg zero s = refl
cycles-gate_run cmax timing leg_a (suc n) s =
    cycles-gate_run cmax timing leg_a n (cycle cmax timing s)
cycles-gate_run cmax timing leg_b (suc n) s =
    cycles-gate_run cmax timing leg_b n (cycle cmax timing s)
cycles-gate_run cmax timing leg_c (suc n) s =
    cycles-gate_run cmax timing leg_c n (cycle cmax timing s)

abbrev tail : {A : Type 0} → List A → List A
tail [] = []
tail (x ∷ xs) = xs

abbrev head_or : {A : Type 0} → A → List A → A
head_or d [] = d
head_or d (x ∷ xs) = x

-- A first part of the commands is what a shorter run is given.
inputs-first :
    (cmax : ℕ) (leg : Phases → ℤ) (n : ℕ) (p : MockPwm) (first later : List Input)
    → inputs cmax leg n p ≡ first ++ later
    → (length first ≤ n) × (inputs cmax leg (length first) p ≡ first)
unfolding inputs
inputs-first cmax leg n p [] later e = (omega arith, refl)
inputs-first cmax leg zero p (i ∷ first) later e = absurd (ground (arith, e))
inputs-first cmax leg (suc n) p (i ∷ first) later e =
    let (le, same) =
      inputs-first cmax leg n (pwm_step_both_edges cmax p).0 first later (ap tail e) in
    (omega (arith, le), λ k. ap (head_or i) e k ∷ same k)

-- A leg that is positive (or in the positive dead state, or shut down) and after some cycles of the loop
-- is negative was at the zero level after some cycle in between.
pub cycles_through_zero :
    (cmax : ℕ) (timing : Timing) (leg : Leg) (n : ℕ) (s : Bench)
    → before_zero (gate_of leg s).state ≡ true
    → is_negative (gate_of leg (cycles cmax timing n s)).state ≡ true
    → (m : ℕ) × (m ≤ n) × ((gate_of leg (cycles cmax timing m s)).state ≡ g_zero)
cycles_through_zero cmax timing leg n s h neg =
    let is = inputs cmax (reference_of leg) n s.pwm in
    let (first, later, parts, flat) =
      reversal_through_zero timing is (gate_of leg s) h
        (subst (λ g. is_negative g.state ≡ true) (cycles-gate_run cmax timing leg n s) neg) in
    let (le, same) = inputs-first cmax (reference_of leg) n s.pwm first later parts in
    (
      length first,
      le,
      ap (λ g. g.state) (cycles-gate_run cmax timing leg (length first) s)
          ∙ ap (λ l. (gate_run timing (gate_of leg s) l).state) same
          ∙ flat,
    )
