-- ===== src/Transient/Recovery.antt =====
-- What a recovery time means.
use hardware_in_the_loop.Base.{
  ℕ, ◌+◌, ◌-◌, ◌≤◌, ◌<◌, Bool, true, ◌||◌, some, List, [], ◌∷◌, ltb, all, All, ◌≡◌, sym, ◌∙◌, arith,
  Bool-cases, inl, inr, if_true, if_false,
}
use mathlib.Core.Option.{some-injective}
use hardware_in_the_loop.Transient.{Sample, recovery_from}

-- From so long after the step on, every sample is settled.
abbrev pub settled_since : (Sample → Bool) → ℕ → Sample → Bool
settled_since settled since s = ltb s.t since || settled s

abbrev pub Ascending : List Sample → Type 0
Ascending [] = Unit
Ascending (s ∷ []) = Unit
Ascending (s ∷ s' ∷ samples) = (s.t < s'.t) × Ascending (s' ∷ samples)

all-settled :
    (settled : Sample → Bool) (since : ℕ) (samples : List Sample)
    → all settled samples ≡ true
    → All (λ s. settled_since settled since s ≡ true) samples
all-settled settled since [] h = tt
all-settled settled since (s ∷ samples) h =
    (ground (arith, h), all-settled settled since samples (ground (arith, h)))

recovery_from-later :
    (settled : Sample → Bool) (t_step r : ℕ) (s : Sample) (samples : List Sample)
    → Ascending (s ∷ samples)
    → t_step ≤ s.t
    → recovery_from settled t_step (s ∷ samples) ≡ some r
    → s.t ≤ t_step + r
unfolding recovery_from
recovery_from-later settled t_step r s [] h l e = ground arith
recovery_from-later settled t_step r s (s' ∷ samples) h l e =
    elim (Bool-cases (all settled (s ∷ s' ∷ samples))) [
      | inl b ↦ omega (
        arith,
        some-injective _ _ (sym (if_true (recovery_from settled t_step (s' ∷ samples)) b) ∙ e),
      )
      | inr b ↦ omega (
        arith,
        h.0,
        recovery_from-later settled t_step r s' samples h.1 (omega (arith, h.0))
            (sym (if_false (some (s.t - t_step)) b) ∙ e),
      )
    ]

-- A recovery time is right: from that long after the step on, every sample of the window is within
-- the tolerance. The window holds the samples from the step on, in the order of time.
pub recovery_from-settled :
    (settled : Sample → Bool) (t_step r : ℕ) (samples : List Sample)
    → Ascending samples
    → All (λ s. t_step ≤ s.t) samples
    → recovery_from settled t_step samples ≡ some r
    → All (λ s. settled_since settled (t_step + r) s ≡ true) samples
unfolding recovery_from
recovery_from-settled settled t_step r [] h l e = tt
recovery_from-settled settled t_step r (s ∷ []) h l e = ground arith
recovery_from-settled settled t_step r (s ∷ s' ∷ samples) h l e =
    elim (Bool-cases (all settled (s ∷ s' ∷ samples))) [
      | inl b ↦ all-settled settled (t_step + r) (s ∷ s' ∷ samples) b
      | inr b ↦
          let e' = sym (if_false (some (s.t - t_step)) b) ∙ e in
          (
            ground (arith, recovery_from-later settled t_step r s' samples h.1 l.1.0 e', h.0),
            recovery_from-settled settled t_step r (s' ∷ samples) h.1 l.1 e',
          )
    ]
