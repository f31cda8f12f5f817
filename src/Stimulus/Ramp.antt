-- ===== src/Stimulus/Ramp.antt =====
-- vf_control.py, and VFStimulus of fpga_vs_c.py: where the ramp of the frequency ends.
use hardware_in_the_loop.Base.{ℕ, zero, suc, false, ◌≡◌, inl, inr, Bool-cases}
use hardware_in_the_loop.Number.{Number, OrderLaws, less, min_F, max_F, whole, ◌+F◌, ◌*F◌}
use hardware_in_the_loop.Stimulus.{
  VfStimulus, vf_stimulus, ramped, v_pu_of, vf_tick_ts, vf_tick, calls,
}

module _ {A : Type 0} ⦃n : Number A⦄ (laws : OrderLaws n) where
  min_F-bound : (a b : A) → less b (min_F a b) ≡ false
  min_F-bound a b = elim (Bool-cases (less b a)) [
    | inl h ↦ rw h (laws.irreflexive b)
    | inr h ↦ rw h h
  ]

  max_F-bound : (a b : A) → less (max_F a b) a ≡ false
  max_F-bound a b = elim (Bool-cases (less a b)) [
    | inl h ↦ rw h (laws.asymmetric a b h)
    | inr h ↦ rw h (laws.irreflexive a)
  ]

  ramped-bound :
      (step target f : A) → less target f ≡ false → less target (ramped step target f) ≡ false
  unfolding ramped
  ramped-bound step target f h = elim (Bool-cases (less f target)) [
    | inl b ↦ rw b (min_F-bound (f +F step) target)
    | inr b ↦ rw (b, h) h
  ]

  -- The frequency is not above its target, and the amplitude in per unit not above its limit.
  abbrev pub IsBounded : VfStimulus A → Type 0
  IsBounded v =
      (less v.f_target v.f_current ≡ false) × (less v.max_v_pu (v_pu_of v v.f_current) ≡ false)

  module _ (wave : A → A) (pi : A) where
    calls-IsBounded :
        (k : ℕ) (v : VfStimulus A)
        → less v.f_target v.f_current ≡ false
        → IsBounded (calls (vf_tick wave pi) k v).0
    unfolding calls vf_tick v_pu_of
    calls-IsBounded zero v h = (h, min_F-bound _ v.max_v_pu)
    calls-IsBounded (suc k) v h =
        calls-IsBounded k (vf_tick wave pi v).0
          (ramped-bound (v.accel *F vf_tick_ts) v.f_target v.f_current h)

    -- From the start, and after any number of ticks, the frequency of the stimulus is not above its
    -- target and the amplitude not above its limit, for whatever frequency, limit and acceleration
    -- are asked for; where the order of the numbers is irreflexive and asymmetric.
    pub vf_tick-IsBounded :
        (freq base_freq vdc max_v_pu accel_time : A) (k : ℕ)
        → IsBounded
            (calls (vf_tick wave pi) k (vf_stimulus freq base_freq vdc max_v_pu accel_time)).0
    unfolding vf_stimulus
    vf_tick-IsBounded freq base_freq vdc max_v_pu accel_time k =
        calls-IsBounded k (vf_stimulus freq base_freq vdc max_v_pu accel_time)
          (max_F-bound (whole 0) freq)
