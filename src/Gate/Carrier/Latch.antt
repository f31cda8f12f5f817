-- ===== src/Gate/Carrier/Latch.antt =====
-- When a new reference is taken over, in the loop of 13 carrier cycles to a solver step.
use hardware_in_the_loop.Base.{
  ℕ, zero, suc, ◌+◌, ◌*◌, ◌≤◌, ◌<◌, true, false, ◌≡◌, refl, inl, inr, Bool-cases, ◌∙◌, arith, leb,
  ◌==◌, if◌then◌else◌,
}
use hardware_in_the_loop.Gate.Carrier.{MockPwm, advance, pwm_step, pwm_steps}
use hardware_in_the_loop.Gate.Carrier.Period.{position, next_position}

-- One call of `pwm_step`, by its place in the period.
step_facts :
    (cmax : ℕ) (p : MockPwm)
    → p.carrier < cmax
    → ((pwm_step cmax p).0.carrier < cmax)
      × ((pwm_step cmax p).0.reference ≡ p.reference)
      × ((pwm_step cmax p).1 ≡ (position cmax p + 1 == 2 * cmax))
      × (position cmax (pwm_step cmax p).0 ≡ next_position cmax (position cmax p))
      × ((pwm_step cmax p).0.latched ≡ (if (pwm_step cmax p).1 then p.reference else p.latched))
unfolding pwm_step advance
step_facts cmax p h = ground arith

after_valley :
    (cmax n : ℕ) (p : MockPwm)
    → p.carrier < cmax
    → p.latched ≡ p.reference
    → let (p', valley) = pwm_steps cmax n (p, true) in
      (valley ≡ true) × (p'.latched ≡ p.reference) × (p'.reference ≡ p.reference)
unfolding pwm_steps
after_valley cmax zero p h same = (refl, same, refl)
after_valley cmax (suc n) p h same =
    let (bound, kept, _, _, taken) = step_facts cmax p h in
    let q : MockPwm = (pwm_step cmax p).0 in
    let (set, latched, reference) = after_valley cmax n q bound (ground arith) in
    (set, latched ∙ kept, reference ∙ kept)

-- Over up to a period of carrier cycles with the references unchanged, the valley flag is set
-- exactly if it was before or the cycles reach the end of the period, and the latched references
-- are the new ones exactly if a valley was met.
pub pwm_steps-valley :
    (cmax n : ℕ) (p : MockPwm)
    → p.carrier < cmax
    → n ≤ 2 * cmax
    → let (p', valley) = pwm_steps cmax n (p, false) in
      (valley ≡ leb (2 * cmax) (position cmax p + n))
      × (p'.latched ≡ (if valley then p.reference else p.latched))
      × (p'.reference ≡ p.reference)
unfolding pwm_steps
pwm_steps-valley cmax zero p h room = (ground arith, refl, refl)
pwm_steps-valley cmax (suc n) p h room =
    let (bound, kept, flag, moved, taken) = step_facts cmax p h in
    elim (Bool-cases (pwm_step cmax p).1) [
      | inl met ↦
          rw (met, pwm_steps)
            (let (set, latched, reference) =
                after_valley cmax n (pwm_step cmax p).0 bound (ground arith) in
              (set ∙ ground arith, rw set (latched ∙ kept), reference ∙ kept))
      | inr on ↦
          rw (on, pwm_steps)
            (let (set, latched, reference) =
                pwm_steps-valley cmax n (pwm_step cmax p).0 bound (omega arith) in
              (ground arith, ground arith, reference ∙ kept))
    ]
