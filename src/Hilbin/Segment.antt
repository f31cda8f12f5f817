-- ===== src/Hilbin/Segment.antt =====
-- hilbin_vs_c.py: gaps in the events, the first segment of a capture, levels and loads; and what
-- these give.
use hardware_in_the_loop.Base.{
  ℕ, zero, suc, ◌+◌, ◌-◌, ◌≤◌, ◌<◌, ◌||◌, List, [], ◌∷◌, if◌then◌else◌, ltb, leb, ◌==◌, take, inl,
  inr, arith, Bool-cases,
}
use hardware_in_the_loop.Base.Int.{ℤ, pos, negsuc}

-- `_find_pwm_gaps`: the index before each gap, and its length.
unfoldable pub gaps_from : ℕ → ℕ → List ℕ → List (ℕ × ℕ)
gaps_from threshold i [] = []
gaps_from threshold i (t ∷ []) = []
gaps_from threshold i (t ∷ t' ∷ ts) =
    let rest = gaps_from threshold (i + 1) (t' ∷ ts) in
    if ltb (t + threshold) t' then (i, t' - t) ∷ rest else rest

unfoldable pub find_pwm_gaps : ℕ → List ℕ → List (ℕ × ℕ)
unfolding gaps_from
find_pwm_gaps threshold tev = gaps_from threshold 0 tev

-- `_first_monotonic_len`
unfoldable pub first_monotonic_len : List ℕ → ℕ
first_monotonic_len [] = 0
first_monotonic_len (t ∷ []) = 1
first_monotonic_len (t ∷ t' ∷ ts) =
    let rest = first_monotonic_len (t' ∷ ts) in if leb t' t then 1 else suc rest

-- `_gate_to_v_rtl`, in quarters of the DC link voltage.
unfoldable pub gate_to_v_rtl : ℤ → ℤ
gate_to_v_rtl (pos g) =
    if g == 3 || g == 1
    then pos 2
    else if g == 2
    then pos 1
    else if g == 4
    then negsuc 0
    else if g == 12
    then negsuc 1
    else pos 0
gate_to_v_rtl (negsuc n) = if n == 0 then negsuc 1 else pos 0

-- `make_load_step`: the load before and from the step on.
unfoldable pub make_load_step {ℓ} : {A : Type ℓ} → A → A → ℕ → ℕ → A
make_load_step tload_pre tload_post t_step t = if ltb t t_step then tload_pre else tload_post

abbrev pub Increasing : List ℕ → Type 0
Increasing [] = Unit
Increasing (t ∷ []) = Unit
Increasing (t ∷ t' ∷ ts) = (t < t') × Increasing (t' ∷ ts)

-- The next time, where there is one, is not later than the last of the segment.
abbrev pub Stops : ℕ → List ℕ → Type 0
Stops zero ts = Unit
Stops (suc n) [] = Unit
Stops (suc n) (t ∷ []) = Unit
Stops (suc zero) (t ∷ t' ∷ ts) = t' ≤ t
Stops (suc (suc n)) (t ∷ t' ∷ ts) = Stops (suc n) (t' ∷ ts)

first_monotonic_len-pos : (t : ℕ) (ts : List ℕ) → 0 < first_monotonic_len (t ∷ ts)
unfolding first_monotonic_len
first_monotonic_len-pos t [] = omega arith
first_monotonic_len-pos t (t' ∷ ts) = ground arith

segment_step :
    (t t' n : ℕ) (ts : List ℕ)
    → 0 < n
    → t < t'
    → Increasing (take n (t' ∷ ts)) × Stops n (t' ∷ ts)
    → Increasing (take (suc n) (t ∷ t' ∷ ts)) × Stops (suc n) (t ∷ t' ∷ ts)
segment_step t t' zero ts p h k = absurd (omega arith)
segment_step t t' (suc n) ts p h k = ((h, k.0), k.1)

-- The first segment of a capture is the longest beginning whose times strictly increase: it does
-- increase, and it ends with the capture or before a time that does not.
pub first_monotonic_len-longest :
    (ts : List ℕ)
    → Increasing (take (first_monotonic_len ts) ts) × Stops (first_monotonic_len ts) ts
unfolding first_monotonic_len
first_monotonic_len-longest [] = (tt, tt)
first_monotonic_len-longest (t ∷ []) = (tt, tt)
first_monotonic_len-longest (t ∷ t' ∷ ts) = elim (Bool-cases (leb t' t)) [
  | inl b ↦ rw b (tt, ground (arith, b))
  | inr b ↦ rw b (
      segment_step t t' (first_monotonic_len (t' ∷ ts)) ts (first_monotonic_len-pos t' ts)
        (ground (arith, b)) (first_monotonic_len-longest (t' ∷ ts)))
]
