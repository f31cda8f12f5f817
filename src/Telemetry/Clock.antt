-- ===== src/Telemetry/Clock.antt =====
-- `unwrap_cycles` recovers the run-local time from the 32-bit counter, while samples come in order.
use hardware_in_the_loop.Base.{
  ℕ, ◌+◌, ◌*◌, ◌/◌, ◌%◌, ◌≤◌, ◌<◌, ◌≡◌, ◌⊎◌, refl, ◌∙◌, ap, some, List, [], ◌∷◌, map, arith,
  if◌then◌else◌,
}
use hardware_in_the_loop.Telemetry.{half_wrap, wrap, wrapped, unwrap_from, unwrap_cycles}

-- One sample after another: later by less than half a period of the counter, or late, and then in
-- the same period of the counter.
abbrev pub Follows : ℕ → ℕ → Type 0
Follows t t' =
    ((t ≤ t') × (t' < t + half_wrap)) ⊎ ((t' < t) × (t < t' + half_wrap) × (t' / wrap ≡ t / wrap))

abbrev pub InOrder : ℕ → List ℕ → Type 0
InOrder t [] = Unit
InOrder t (t' ∷ ts) = Follows t t' × InOrder t' ts

-- The offset after a sample is the whole periods of its true time.
next_offset :
    (t t' : ℕ)
    → Follows t t'
    → (if wrapped (some (t % wrap)) (t' % wrap) then t / wrap * wrap + wrap else t / wrap * wrap)
      ≡ t' / wrap * wrap
next_offset t t' h = ground arith

unwrap_rest :
    (ts : List ℕ) (t : ℕ)
    → InOrder t ts
    → unwrap_from (t / wrap * wrap) (some (t % wrap)) (map (λ k. k % wrap) ts) ≡ ts
unfolding unwrap_from
unwrap_rest [] t h = refl
unwrap_rest (t' ∷ ts) t h = rw (next_offset t t' h.0) (
    ap (λ k. k ∷ unwrap_from (t' / wrap * wrap) (some (t' % wrap)) (map (λ k. k % wrap) ts))
      (omega arith)
    ∙ ap (λ l. t' ∷ l) (unwrap_rest ts t' h.1))

-- If the first sample lies in the first period of the 32-bit counter, and each later one comes less
-- than half a period after the one before it, or arrives late by less than half a period but in
-- the same period of the counter, then unwrapping the counter values gives the true times.
pub unwrap_cycles-mod :
    (t : ℕ) (ts : List ℕ)
    → t < wrap
    → InOrder t ts
    → unwrap_cycles (map (λ k. k % wrap) (t ∷ ts)) ≡ t ∷ ts
unfolding unwrap_cycles
unwrap_cycles-mod t ts h order =
    ap (λ k. k ∷ unwrap_from 0 (some (t % wrap)) (map (λ k. k % wrap) ts)) (omega arith)
    ∙ ap (λ off. t ∷ unwrap_from off (some (t % wrap)) (map (λ k. k % wrap) ts))
        {y = t / wrap * wrap} (omega arith)
    ∙ ap (λ l. t ∷ l) (unwrap_rest ts t order)

-- A sample that arrives late across the wrap, counter value `c` after the counter had gone on to
-- `x`, is placed one period too far, and so is every sample after it that is in order: `y` is given
-- two periods where one is right.
pub unwrap_cycles_late :
    (a x c y : ℕ)
    → a < wrap
    → c < wrap
    → x + half_wrap < a
    → x ≤ c
    → y + half_wrap < c
    → unwrap_cycles (a ∷ x ∷ c ∷ y ∷ []) ≡ a ∷ (wrap + x) ∷ (wrap + c) ∷ (wrap + wrap + y) ∷ []
unfolding unwrap_cycles
unwrap_cycles_late a x c y ha hc first late again = ground arith
