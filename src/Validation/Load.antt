-- ===== src/Validation/Load.antt =====
-- validate_hil_pwm.py: the loop ends, and the load torque that it applies.
use hardware_in_the_loop.Base.{
  ℕ, zero, suc, ◌≤◌, some, List, [], ◌∷◌, false, ◌≡◌, refl, sym, ap, ◌∙◌, arith, inl, inr,
  Bool-cases, if_true, if_false,
}
use mathlib.Core.Path.{subst}
use mathlib.Core.Option.{some-injective}
use hardware_in_the_loop.Number.{Number}
use hardware_in_the_loop.Hilbin.Replay.{CModel, Channels}
use hardware_in_the_loop.Validation.{
  Clock, PwmPoint, Telem, NpcMode, Sums, RunState, follow, consume, run_step, run_loop, run_capture,
  first_run, end_time,
}

module _ {T A : Type 0} (clock : Clock T) (ts : T) where
  -- A sample that is not due at a time is followed by one that is not due a solver step later.
  abbrev pub IsApart : Telem T A → Telem T A → Type 0
  IsApart y y' = (t : T) → clock.at_most y.t t ≡ false → clock.at_most y'.t (clock.add t ts) ≡ false

  -- Any two samples that follow each other are at least a solver step apart.
  abbrev pub IsSpaced : List (Telem T A) → Type 0
  IsSpaced [] = Unit
  IsSpaced (y ∷ []) = Unit
  IsSpaced (y ∷ y' ∷ telem) = IsApart y y' × IsSpaced (y' ∷ telem)

  -- The second sample that is left is not due.
  abbrev pub IsAhead : T → List (Telem T A) → Type 0
  IsAhead t [] = Unit
  IsAhead t (y ∷ []) = Unit
  IsAhead t (y ∷ y' ∷ telem) = clock.at_most y'.t t ≡ false

  later-IsSpaced :
      (y : Telem T A) (telem : List (Telem T A)) → IsSpaced (y ∷ telem) → IsSpaced telem
  later-IsSpaced y [] sp = tt
  later-IsSpaced y (y' ∷ telem) sp = sp.1

  IsSpaced-IsAhead :
      (t : T) (y : Telem T A) (telem : List (Telem T A))
      → IsSpaced (y ∷ telem)
      → clock.at_most y.t t ≡ false
      → IsAhead (clock.add t ts) (y ∷ telem)
  IsSpaced-IsAhead t y [] sp h = tt
  IsSpaced-IsAhead t y (y' ∷ telem) sp h = sp.0 t h

  -- The first loop finds nothing to do.
  pub follow-ahead :
      (t : T) (y : Telem T A) (telem : List (Telem T A)) (tl : A)
      → IsAhead t (y ∷ telem)
      → follow clock t y telem tl ≡ (y ∷ telem, tl)
  unfolding follow
  follow-ahead t y [] tl ah = refl
  follow-ahead t y (y' ∷ telem) tl ah = rw ah refl

module _ {T A : Type 0} ⦃n : Number A⦄ (clock : Clock T) (skip ts t : T) (ref : Channels A) where
  consume-IsAhead :
      (telem : List (Telem T A)) (sums : Sums A)
      → IsSpaced clock ts telem
      → IsSpaced clock ts (consume clock skip t ref telem sums).0
        × IsAhead clock ts (clock.add t ts) (consume clock skip t ref telem sums).0
  unfolding consume
  consume-IsAhead [] sums sp = (tt, tt)
  consume-IsAhead (y ∷ telem) sums sp = elim (Bool-cases (clock.at_most y.t t)) [
    | inl h ↦ rw h (consume-IsAhead telem _ (later-IsSpaced clock ts y telem sp))
    | inr h ↦ rw h (sp, IsSpaced-IsAhead clock ts t y telem sp h)
  ]

module _ {S T A : Type 0} ⦃n : Number A⦄ (clock : Clock T) (m : CModel S A) (mode : NpcMode)
    (vdc : A) (skip ts : T) where
  pub run_step-tl :
      (y : Telem T A) (telem : List (Telem T A)) (s : RunState S T A)
      → IsSpaced clock ts (y ∷ telem)
      → IsAhead clock ts s.t (y ∷ telem)
      → ((run_step clock m mode vdc skip ts y telem s).tl ≡ s.tl)
        × IsSpaced clock ts (run_step clock m mode vdc skip ts y telem s).telem
        × IsAhead clock ts (clock.add s.t ts) (run_step clock m mode vdc skip ts y telem s).telem
  unfolding run_step
  run_step-tl y telem s sp ah =
      let found = follow-ahead clock ts s.t y telem s.tl ah in
      let (spaced, ahead) =
        consume-IsAhead clock skip ts s.t _ (follow clock s.t y telem s.tl).0 s.sums
          (subst (λ p. IsSpaced clock ts p.0) (sym found) sp) in
      (ap (λ p. p.1) found, spaced, ahead)

  run_loop-tl :
      (fuel : ℕ) (t_end : T) (telem : List (Telem T A)) (s end : RunState S T A)
      → IsSpaced clock ts telem
      → IsAhead clock ts s.t telem
      → run_loop clock m mode vdc skip ts fuel t_end telem s ≡ some end
      → end.tl ≡ s.tl
  unfolding run_loop
  run_loop-tl zero t_end telem s end sp ah e = absurd (ground (arith, e))
  run_loop-tl (suc fuel) t_end [] s end sp ah e = ap (λ r. r.tl) (some-injective _ _ (sym e))
  run_loop-tl (suc fuel) t_end (y ∷ telem) s end sp ah e =
      let s' = run_step clock m mode vdc skip ts y telem s in
      let (same, spaced, ahead) = run_step-tl y telem s sp ah in
      elim (Bool-cases (clock.at_most s.t (clock.add t_end ts))) [
        | inl h ↦ run_loop-tl fuel t_end s'.telem s' end spaced ahead (sym (if_true _ h) ∙ e) ∙ same
        | inr h ↦ ap (λ r. r.tl) (some-injective _ _ (sym e ∙ if_false _ h))
      ]

  -- Where the samples of the telemetry are at least a solver step apart, and the second one comes after
  -- the start, the load torque of the first one is applied for ever: whatever torques the later samples
  -- carry, the loop has not taken one of them when it ends, at whatever time that is.
  pub load-first :
      (fuel : ℕ) (t_end : T) (model : S) (row : PwmPoint T) (pwm : List (PwmPoint T))
      (y : Telem T A) (telem : List (Telem T A)) (end : RunState S T A)
      → IsSpaced clock ts (y ∷ telem)
      → IsAhead clock ts clock.start (y ∷ telem)
      → run_loop clock m mode vdc skip ts fuel t_end
          (y ∷ telem)
          (first_run clock m mode vdc skip ts model row pwm y telem)
        ≡ some end
      → end.tl ≡ y.tl
  load-first fuel t_end model row pwm y telem end sp ah e =
      run_loop-tl fuel t_end (y ∷ telem) (first_run clock m mode vdc skip ts model row pwm y telem)
        end sp ah e

  -- The time after so many steps.
  abbrev pub stepped : T → ℕ → T
  stepped t zero = t
  stepped t (suc k) = stepped (clock.add t ts) k

  run_loop-total :
      (k fuel : ℕ) (t_end : T) (telem : List (Telem T A)) (s : RunState S T A)
      → suc k ≤ fuel
      → clock.at_most (stepped s.t k) (clock.add t_end ts) ≡ false
      → (end : RunState S T A) × (run_loop clock m mode vdc skip ts fuel t_end telem s ≡ some end)
  unfolding run_loop
  run_loop-total k zero t_end telem s le h = absurd (omega (arith, le))
  run_loop-total k (suc fuel) t_end [] s le h = (s, refl)
  run_loop-total zero (suc fuel) t_end (y ∷ telem) s le h = (s, if_false _ h)
  run_loop-total (suc k) (suc fuel) t_end (y ∷ telem) s le h =
      let s' = run_step clock m mode vdc skip ts y telem s in
      let (end, e) = run_loop-total k fuel t_end s'.telem s' (omega (arith, le)) h in
      elim (Bool-cases (clock.at_most s.t (clock.add t_end ts))) [
        | inl i ↦ (end, if_true _ i ∙ e)
        | inr i ↦ (s, if_false _ i)
      ]

  -- If the time of the loop, advanced by `k` solver steps as floats add them up, is past the time of the
  -- last sample and a step, then the runner ends, and `k + 1` tests of its condition are enough. Nothing
  -- is said of a time that never gets there: an infinite end, a step that is not positive, or one that
  -- the sum rounds away.
  pub run_capture-total :
      (k fuel : ℕ) (model : S) (row : PwmPoint T) (pwm : List (PwmPoint T)) (y : Telem T A)
      (telem : List (Telem T A))
      → suc k ≤ fuel
      → clock.at_most
          (stepped clock.start k)
          (clock.add (end_time clock m mode vdc skip ts y telem) ts)
        ≡ false
      → (end : RunState S T A) × (run_capture clock m mode vdc skip ts fuel model row pwm y telem
          ≡ some end)
  unfolding run_capture
  run_capture-total k fuel model row pwm y telem le h =
      run_loop-total k fuel (end_time clock m mode vdc skip ts y telem) (y ∷ telem)
        (first_run clock m mode vdc skip ts model row pwm y telem) le h
