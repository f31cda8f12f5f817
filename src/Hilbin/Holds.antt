-- ===== src/Hilbin/Holds.antt =====
-- What a repaired leg shows: no lost exit is left, and no captured level is changed.
use hardware_in_the_loop.Base.{
  ℕ, ◌+◌, ◌≤◌, ◌<◌, Bool, true, ◌&&◌, ◌||◌, [], ◌∷◌, ◌++◌, leb, any, All, ◌≡◌, refl, sym, ◌∙◌, ap,
  arith, Bool-cases, inl, inr, if_true, le→leb,
}
use mathlib.Core.Path.{subst}
use native.Mathlib.Decide.{dec_le}
use hardware_in_the_loop.Hilbin.Repair.{
  Leg, too_long, repaired_leg, is_dead, hold_limit, level_from, level_at,
}
use hardware_in_the_loop.Hilbin.Splice.{
  splice, exit_of, Ascending, repaired_leg-splice, too_long-late,
}

-- A dead state was captured at most the limit before `u`.
abbrev pub dead_lately : ℕ → Leg → ℕ → Bool
dead_lately dead_time leg u =
    any (λ e. is_dead e.1 && (leb e.0 u && leb u (e.0 + hold_limit dead_time))) leg

abbrev pub last_time : Leg → ℕ
last_time [] = 0
last_time ((t, g) ∷ []) = t
last_time ((t, g) ∷ (t', g') ∷ leg) = last_time ((t', g') ∷ leg)

-- The level from an event on, in the repaired leg.
abbrev level_after : ℕ → ℕ → ℕ → Leg → ℕ → ℕ
unfolding splice level_from
level_after dead_time t g leg u = level_from g (exit_of dead_time t g leg ++ splice dead_time leg) u

level_after-next :
    (dead_time t g t' g' u : ℕ) (leg : Leg)
    → t' ≤ u
    → level_after dead_time t g ((t', g') ∷ leg) u ≡ level_after dead_time t' g' leg u
unfolding splice level_from level_after
level_after-next dead_time t g t' g' u leg h = elim (Bool-cases (too_long dead_time t g t')) [
  | inl b ↦
      rw (b, level_from)
        (if_true _ (le→leb (t + dead_time) u (omega (arith, too_long-late dead_time t g t' b)))
          ∙ if_true _ (le→leb t' u h))
  | inr b ↦ rw (b, level_from) (if_true _ (le→leb t' u h))
]

or_right : (a b : Bool) → b ≡ true → (a || b) ≡ true
or_right a b h = ground (arith, h)

level_after-dead :
    (dead_time t g u : ℕ) (leg : Leg)
    → t ≤ u
    → u < last_time ((t, g) ∷ leg)
    → is_dead (level_after dead_time t g leg u) ≡ true
    → dead_lately dead_time ((t, g) ∷ leg) u ≡ true
unfolding splice level_from level_after
level_after-dead dead_time t g u [] l m d = absurd (omega arith)
level_after-dead dead_time t g u ((t', g') ∷ leg) l m d = elim (dec_le t' u) [
  | yes e ↦ or_right _ _ (
      level_after-dead dead_time t' g' u leg e m
        (ap is_dead (sym (level_after-next dead_time t g t' g' u leg e)) ∙ d))
  | no ne ↦ ground arith
]

-- Before the last event, a repaired leg shows a dead state only if the capture has an event, at most
-- five dead times earlier, at which the leg is in a dead state: a capture that is silent for longer
-- leaves no leg there. The events come in the order of time, and the leg has begun at `u`.
pub repaired_leg-dead :
    (dead_time t g u : ℕ) (leg : Leg)
    → Ascending ((t, g) ∷ leg)
    → t ≤ u
    → u < last_time ((t, g) ∷ leg)
    → is_dead (level_at (repaired_leg dead_time ((t, g) ∷ leg)) u) ≡ true
    → dead_lately dead_time ((t, g) ∷ leg) u ≡ true
unfolding splice level_at level_after
repaired_leg-dead dead_time t g u leg h l m d =
    level_after-dead dead_time t g u leg l m
      (ap (λ s. is_dead (level_at s u)) (sym (repaired_leg-splice dead_time ((t, g) ∷ leg) h)) ∙ d)

-- Strictly in the order of time, as the events of one leg are where no two share a time.
abbrev pub Strict : Leg → Type 0
Strict [] = Unit
Strict ((t, g) ∷ []) = Unit
Strict ((t, g) ∷ (t', g') ∷ leg) = (t < t') × Strict ((t', g') ∷ leg)

Strict-Ascending : (leg : Leg) → Strict leg → Ascending leg
Strict-Ascending [] h = tt
Strict-Ascending ((t, g) ∷ []) h = tt
Strict-Ascending ((t, g) ∷ (t', g') ∷ leg) h =
    (omega (arith, h.0), Strict-Ascending ((t', g') ∷ leg) h.1)

level_after-now :
    (dead_time t g : ℕ) (leg : Leg)
    → 0 < dead_time
    → Strict ((t, g) ∷ leg)
    → level_after dead_time t g leg t ≡ g
unfolding splice level_from level_after
level_after-now dead_time t g [] p h = refl
level_after-now dead_time t g ((t', g') ∷ leg) p h = ground (arith, h.0)

level_after-kept :
    (dead_time t g s : ℕ) (leg all : Leg)
    → s ≤ t
    → 0 < dead_time
    → Strict ((t, g) ∷ leg)
    → ((u : ℕ) → t ≤ u → level_at (splice dead_time all) u ≡ level_after dead_time t g leg u)
    → All (λ e. level_at (splice dead_time all) e.0 ≡ e.1) ((t, g) ∷ leg)
unfolding level_after
level_after-kept dead_time t g s [] all l p h f =
    (f t (omega arith) ∙ level_after-now dead_time t g [] p h, tt)
level_after-kept dead_time t g s ((t', g') ∷ leg) all l p h f = (
  f t (omega arith) ∙ level_after-now dead_time t g ((t', g') ∷ leg) p h,
  level_after-kept dead_time t' g' s leg all (omega (arith, h.0)) p h.1
      (λ u k. f u (omega (arith, h.0)) ∙ level_after-next dead_time t g t' g' u leg k),
)

-- At the time of every captured event, a repaired leg shows the captured level, so the repair adds
-- to the capture and changes nothing of it. The events of the leg are in order, no two of them share a
-- time, and the dead time is not 0.
pub repaired_leg-keeps :
    (dead_time : ℕ) (leg : Leg)
    → 0 < dead_time
    → Strict leg
    → All (λ e. level_at (repaired_leg dead_time leg) e.0 ≡ e.1) leg
unfolding splice level_at level_after
repaired_leg-keeps dead_time [] p h = tt
repaired_leg-keeps dead_time ((t, g) ∷ leg) p h =
    subst (λ s. All (λ e. level_at s e.0 ≡ e.1) ((t, g) ∷ leg))
      (sym (repaired_leg-splice dead_time ((t, g) ∷ leg) (Strict-Ascending ((t, g) ∷ leg) h)))
      (level_after-kept dead_time t g t leg ((t, g) ∷ leg) (omega arith) p h (λ u k. refl))
