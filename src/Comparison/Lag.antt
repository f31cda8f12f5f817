-- ===== src/Comparison/Lag.antt =====
-- fpga_vs_c.py: best_lag. np.interp and np.correlate are parameters.
use hardware_in_the_loop.Base.{
  ℕ, zero, suc, ◌+◌, ◌-◌, ◌*◌, ◌/◌, ◌≤◌, min, max, Option, none, some, List, [], ◌∷◌, if◌then◌else◌,
  ltb, length, take, drop, map, ◌≡◌, refl, sym, ◌∙◌, arith, length-take, inl, inr, Bool-cases,
  if_true, if_false,
}
use mathlib.Core.Path.{subst}
use mathlib.Core.Option.{some-injective}
use hardware_in_the_loop.Base.Int.{ℤ, pos, pos_part, neg_part, sub_ℕ}
use hardware_in_the_loop.Number.{Number, ◌-F◌, less}
use hardware_in_the_loop.Hilbin.Estimate.{Trajectory}
use hardware_in_the_loop.Comparison.Metrics.{mean}

-- 10 kHz, in cycles of 10 ns.
abbrev pub grid_dt : ℕ
grid_dt = 10000

-- `np.arange(t_lo, t_hi, dt)`
unfoldable pub grid_from : ℕ → ℕ → List ℕ
grid_from t zero = []
grid_from t (suc count) = t ∷ grid_from (t + grid_dt) count

abbrev pub arange : ℕ → ℕ → List ℕ
unfolding grid_from
arange lo hi = grid_from lo ((hi - lo + (grid_dt - 1)) / grid_dt)

abbrev pub final_time : {A : Type 0} → ℕ → Trajectory A → ℕ
final_time t [] = t
final_time t (x ∷ xs) = final_time x.0 xs

module _ {A : Type 0} ⦃n : Number A⦄ where
  -- The place of the first greatest value, `np.argmax`.
  unfoldable pub argmax_from : ℕ → A → ℕ → List A → ℕ
  argmax_from best x i [] = best
  argmax_from best x i (y ∷ ys) =
      if less x y then argmax_from i y (i + 1) ys else argmax_from best x (i + 1) ys

  unfoldable pub argmax : List A → ℕ
  unfolding argmax_from
  argmax [] = 0
  argmax (x ∷ xs) = argmax_from 0 x 1 xs

  abbrev pub centred : List A → List A
  centred xs = map (λ x. x -F mean xs) xs

  -- `seg` and its place: `xc[mid - max_k : mid + max_k + 1]`.
  abbrev pub lag_of : ℕ → ℕ → List A → ℤ
  unfolding argmax
  lag_of max_k mid xc =
      sub_ℕ (argmax (take (max_k + max_k + 1) (drop (mid - max_k) xc)) * grid_dt) (max_k * grid_dt)

  -- `best_lag`; without a sample `t_ref[0]` raises.
  module _ (interp : Trajectory A → ℕ → A) (correlate : List A → List A → List A) where
    unfoldable pub best_lag : ℕ → Trajectory A → Trajectory A → Option ℤ
    unfolding lag_of arange
    best_lag max_lag [] dut = none
    best_lag max_lag (r ∷ ref) [] = none
    best_lag max_lag (r ∷ ref) (d ∷ dut) =
        let t_lo = max r.0 d.0 in
        let t_hi = min (final_time r.0 ref) (final_time d.0 dut) in
        let grid = arange t_lo t_hi in
        let rs = centred (map (interp (r ∷ ref)) grid) in
        let ds = centred (map (interp (d ∷ dut)) grid) in
        if ltb t_hi (t_lo + 4 * max_lag)
        then some (pos 0)
        else some (lag_of (max_lag / grid_dt) (length ds - 1) (correlate rs ds))

length-grid_from : (t count : ℕ) → length (grid_from t count) ≡ count
unfolding grid_from
length-grid_from t zero = refl
length-grid_from t (suc count) = omega (arith, length-grid_from (t + grid_dt) count)

-- Where the overlap of the two signals passes the test, the slice of the correlation begins inside it:
-- `mid - max_k` is not negative, which Python would count from the end.
pub arange-inside :
    (t_lo t_hi max_lag : ℕ)
    → t_lo + 4 * max_lag ≤ t_hi
    → grid_dt ≤ max_lag
    → max_lag / grid_dt ≤ length (arange t_lo t_hi) - 1
unfolding arange
arange-inside t_lo t_hi max_lag h k =
    omega (arith, length-grid_from t_lo ((t_hi - t_lo + (grid_dt - 1)) / grid_dt))

-- Not more than `max_lag` in either direction.
abbrev pub IsLag : ℕ → ℤ → Type 0
IsLag max_lag lag = (pos_part lag ≤ max_lag) × (neg_part lag ≤ max_lag)

IsLag-at :
    (max_lag i : ℕ)
    → i ≤ max_lag / grid_dt + max_lag / grid_dt
    → IsLag max_lag (sub_ℕ (i * grid_dt) (max_lag / grid_dt * grid_dt))
IsLag-at max_lag i h = (ground arith, ground arith)

module _ {A : Type 0} ⦃n : Number A⦄ where
  argmax_from-bound :
      (best : ℕ) (x : A) (i : ℕ) (ys : List A) (b : ℕ)
      → best ≤ b
      → i + length ys ≤ suc b
      → argmax_from best x i ys ≤ b
  unfolding argmax_from
  argmax_from-bound best x i [] b h k = h
  argmax_from-bound best x i (y ∷ ys) b h k = elim (Bool-cases (less x y)) [
    | inl e ↦ rw e (argmax_from-bound i y (i + 1) ys b (omega (arith, k)) (omega (arith, k)))
    | inr e ↦ rw e (argmax_from-bound best x (i + 1) ys b h (omega (arith, k)))
  ]

  pub argmax-bound : (xs : List A) (b : ℕ) → length xs ≤ suc b → argmax xs ≤ b
  unfolding argmax
  argmax-bound [] b h = omega arith
  argmax-bound (x ∷ xs) b h = argmax_from-bound 0 x 1 xs b (omega arith) (omega (arith, h))

  lag_of-IsLag : (max_lag mid : ℕ) (xc : List A) → IsLag max_lag (lag_of (max_lag / grid_dt) mid xc)
  unfolding lag_of
  lag_of-IsLag max_lag mid xc =
      let k = max_lag / grid_dt in
      let seg = take (k + k + 1) (drop (mid - k) xc) in
      IsLag-at max_lag (argmax seg)
        (argmax-bound seg (k + k) (omega (arith, length-take (k + k + 1) (drop (mid - k) xc))))

  module _ (interp : Trajectory A → ℕ → A) (correlate : List A → List A → List A) where
    -- The lag that aligns two signals is not greater than `max_lag` in either direction, whatever the
    -- correlation is.
    pub best_lag-bound :
        (max_lag : ℕ) (ref dut : Trajectory A) (lag : ℤ)
        → best_lag interp correlate max_lag ref dut ≡ some lag
        → IsLag max_lag lag
    unfolding best_lag
    best_lag-bound max_lag [] dut lag e = absurd (ground (arith, e))
    best_lag-bound max_lag (r ∷ ref) [] lag e = absurd (ground (arith, e))
    best_lag-bound max_lag (r ∷ ref) (d ∷ dut) lag e =
        let t_lo = max r.0 d.0 in
        let t_hi = min (final_time r.0 ref) (final_time d.0 dut) in
        elim (Bool-cases (ltb t_hi (t_lo + 4 * max_lag))) [
          | inl h ↦
              subst (IsLag max_lag) (some-injective _ _ (sym (if_true _ h) ∙ e))
                (omega arith, omega arith)
          | inr h ↦
              subst (IsLag max_lag) (some-injective _ _ (sym (if_false _ h) ∙ e))
                (lag_of-IsLag max_lag _ _)
        ]
