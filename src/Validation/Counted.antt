-- ===== src/Validation/Counted.antt =====
-- validate_hil_pwm.py: the samples that the metrics take in, and what they are compared with.
use hardware_in_the_loop.Base.{
  ℕ, zero, suc, some, List, [], ◌∷◌, true, false, ◌≡◌, refl, sym, ap, ◌∙◌, arith, if_true,
}
use mathlib.Core.Path.{subst}
use mathlib.Core.Option.{some-injective}
use hardware_in_the_loop.Number.{Number}
use hardware_in_the_loop.Hilbin.Replay.{CModel}
use hardware_in_the_loop.Validation.{
  Clock, PwmPoint, Telem, NpcMode, RunState, follow, run_step, run_loop, run_capture, first_run,
  end_time,
}
use hardware_in_the_loop.Validation.Pairs.{
  Pair, nothing-IsSummed, IsCompared, consume-IsCompared, IsUntil, IsLeft, consume-IsUntil,
}
use hardware_in_the_loop.Validation.Load.{IsSpaced, IsAhead, follow-ahead, run_step-tl}

-- What is true of the times that are numbers: the order is total and transitive, and rounding keeps it.
pub record ClockLaws {T : Type 0} (clock : Clock T) : Type 0 where
  pub total_order : (a b : T) → clock.at_most a b ≡ false → clock.at_most b a ≡ true
  pub transitive :
      (a b c : T) → clock.at_most a b ≡ true → clock.at_most b c ≡ true → clock.at_most a c ≡ true
  pub add_monotone :
      (a b ts : T)
      → clock.at_most a b ≡ true
      → clock.at_most (clock.add a ts) (clock.add b ts) ≡ true

module _ {S T A : Type 0} ⦃n : Number A⦄ (clock : Clock T) (laws : ClockLaws clock) (m : CModel S A)
    (mode : NpcMode) (vdc : A) (skip ts : T) where
  -- A round of the loop, and the state after so many.
  abbrev pub next_by : List (Telem T A) → RunState S T A → RunState S T A
  next_by [] s = s
  next_by (y ∷ telem) s = run_step clock m mode vdc skip ts y telem s

  abbrev pub state_after : RunState S T A → ℕ → RunState S T A
  state_after first zero = first
  state_after first (suc k) = let s = state_after first k in next_by s.telem s

  -- The channels are the filtered ones of a round at whose time the sample is due.
  abbrev pub IsOfRun : RunState S T A → Pair T A → Type 0
  IsOfRun first p =
      (k : ℕ) × (clock.at_most p.0.t (state_after first k).t ≡ true)
      × (p.1 ≡ (state_after first (suc k)).lp)

  -- While a sample is left, the loop goes on.
  abbrev IsInTime : T → T → List (Telem T A) → Type 0
  IsInTime t_end t [] = Unit
  IsInTime t_end t (y ∷ telem) = clock.at_most t (clock.add t_end ts) ≡ true

  left-IsInTime :
      (t_end t : T) (telem : List (Telem T A))
      → IsUntil clock skip t_end telem
      → IsLeft clock skip t telem
      → IsInTime t_end (clock.add t ts) telem
  left-IsInTime t_end t [] u l = tt
  left-IsInTime t_end t (y ∷ telem) u l =
      laws.add_monotone t t_end ts (laws.transitive t y.t t_end (laws.total_order y.t t l) u.0)

  module _ (first : RunState S T A) (all : List (Telem T A)) where
    -- The samples of a state, and what has been compared.
    abbrev IsRunning : T → RunState S T A → Type 0
    IsRunning t_end s =
        IsSpaced clock ts s.telem
        × IsAhead clock ts s.t s.telem
        × IsUntil clock skip t_end s.telem
        × IsInTime t_end s.t s.telem
        × IsCompared clock skip (IsOfRun first) all s.telem s.sums

    state_after-next :
        (k : ℕ) (y : Telem T A) (telem : List (Telem T A)) (s : RunState S T A)
        → s ≡ state_after first k
        → s.telem ≡ y ∷ telem
        → run_step clock m mode vdc skip ts y telem s ≡ state_after first (suc k)
    state_after-next k y telem s e l = sym (ap (λ r. next_by r s) l) ∙ ap (λ r. next_by r.telem r) e

    run_step-IsRunning :
        (t_end : T) (k : ℕ) (y : Telem T A) (telem : List (Telem T A)) (s : RunState S T A)
        → s ≡ state_after first k
        → s.telem ≡ y ∷ telem
        → IsRunning t_end s
        → IsRunning t_end (run_step clock m mode vdc skip ts y telem s)
    unfolding run_step
    run_step-IsRunning t_end k y telem s e l (sp, ah, un, it, co) =
        let sp' = subst (IsSpaced clock ts) l sp in
        let ah' = subst (IsAhead clock ts s.t) l ah in
        let un' = subst (IsUntil clock skip t_end) l un in
        let co' = subst (λ r. IsCompared clock skip (IsOfRun first) all r s.sums) l co in
        let found = sym (ap (λ p. p.0) (follow-ahead clock ts s.t y telem s.tl ah')) in
        let s' = run_step clock m mode vdc skip ts y telem s in
        let left = (follow clock s.t y telem s.tl).0 in
        let (same, spaced, ahead) = run_step-tl clock m mode vdc skip ts y telem s sp' ah' in
        let (until, rest) =
          consume-IsUntil clock skip t_end s.t s'.lp left s.sums
            (subst (IsUntil clock skip t_end) found un') in
        (
          spaced,
          ahead,
          until,
          left-IsInTime t_end s.t s'.telem until rest,
          consume-IsCompared clock skip (IsOfRun first) all s.t s'.lp
              (λ y' due. (
                k,
                ap (λ r. clock.at_most y'.t r.t) (sym e) ∙ due,
                ap (λ r. r.lp) (state_after-next k y telem s e l),
              ))
              left s.sums
              (subst (λ r. IsCompared clock skip (IsOfRun first) all r s.sums) found co'),
        )

    run_loop-IsCompared :
        (fuel : ℕ) (t_end : T) (k : ℕ) (telem : List (Telem T A)) (s end : RunState S T A)
        → s ≡ state_after first k
        → s.telem ≡ telem
        → IsRunning t_end s
        → run_loop clock m mode vdc skip ts fuel t_end telem s ≡ some end
        → IsCompared clock skip (IsOfRun first) all [] end.sums
    unfolding run_loop
    run_loop-IsCompared zero t_end k telem s end e l h r = absurd (ground (arith, r))
    run_loop-IsCompared (suc fuel) t_end k [] s end e l (sp, ah, un, it, co) r =
        subst (λ x. IsCompared clock skip (IsOfRun first) all [] x.sums) (some-injective _ _ r)
          (subst (λ x. IsCompared clock skip (IsOfRun first) all x s.sums) l co)
    run_loop-IsCompared (suc fuel) t_end k (y ∷ telem) s end e l h r =
        let s' = run_step clock m mode vdc skip ts y telem s in
        let go = subst (IsInTime t_end s.t) l h.3 in
        run_loop-IsCompared fuel t_end (suc k) s'.telem s' end (state_after-next k y telem s e l)
          refl (run_step-IsRunning t_end k y telem s e l h) (sym (if_true _ go) ∙ r)

  -- Where the samples of the telemetry are at least a solver step apart, the second one comes after the
  -- start and none later than the last one, and the loop is entered, each sample from `skip` on is
  -- compared exactly once when the runner ends, in the order of the file: with the filtered channels of
  -- a round of the loop at whose time it is due. The sums of the five channels are those of the errors
  -- squared, of their sizes, of the samples and of their squares, and the count is theirs. The order of
  -- the times is total and transitive, and the sum with the step keeps it, as floats do.
  pub run_capture-IsCompared :
      (fuel : ℕ) (model : S) (row : PwmPoint T) (pwm : List (PwmPoint T)) (y : Telem T A)
      (telem : List (Telem T A)) (end : RunState S T A)
      → IsSpaced clock ts (y ∷ telem)
      → IsAhead clock ts clock.start (y ∷ telem)
      → IsUntil clock skip (end_time clock m mode vdc skip ts y telem) (y ∷ telem)
      → clock.at_most clock.start (clock.add (end_time clock m mode vdc skip ts y telem) ts) ≡ true
      → run_capture clock m mode vdc skip ts fuel model row pwm y telem ≡ some end
      → IsCompared clock skip
          (IsOfRun (first_run clock m mode vdc skip ts model row pwm y telem))
          (y ∷ telem)
          []
          end.sums
  unfolding run_capture
  run_capture-IsCompared fuel model row pwm y telem end sp ah un it e =
      let first = first_run clock m mode vdc skip ts model row pwm y telem in
      run_loop-IsCompared first (y ∷ telem) fuel (end_time clock m mode vdc skip ts y telem) 0
        (y ∷ telem) first end refl refl (sp, ah, un, it, ([], refl, nothing-IsSummed T, tt)) e
