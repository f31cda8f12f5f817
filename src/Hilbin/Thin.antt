-- ===== src/Hilbin/Thin.antt =====
-- hilbin_vs_c.py: _align_and_decimate. The edges of the bins are exact fractions, rounded down.
pub mod Kept
mod Tests
use hardware_in_the_loop.Base.{
  ℕ, zero, suc, ◌+◌, ◌-◌, ◌*◌, ◌/◌, ◌≤◌, ◌<◌, max, Bool, List, [], ◌∷◌, ◌++◌, if◌then◌else◌, ltb,
  leb, ◌==◌, length, take, drop, map, get_or, All, All-append, length-append, ◌≡◌, refl, arith, inl,
  inr, Bool-cases, length-take, length-drop,
}
use native.Mathlib.Nat.{div-le_of_le-mul, mul-le-mul_right}
use hardware_in_the_loop.Number.{Number, less}
use hardware_in_the_loop.Hilbin.Repair.{insert_unique, unique}
use hardware_in_the_loop.Hilbin.Estimate.{Trajectory}
use hardware_in_the_loop.Hilbin.Replay.{Channels}
use hardware_in_the_loop.Comparison.Lag.{argmax, argmax-bound}

-- `np.arange(n)`
unfoldable pub indices_from : ℕ → ℕ → List ℕ
indices_from i zero = []
indices_from i (suc k) = i ∷ indices_from (i + 1) k

-- `int(edges[i])` of `np.linspace(0, n, bins + 1)`
abbrev pub edge : ℕ → ℕ → ℕ → ℕ
edge n bins i = i * n / bins

module _ {A : Type 0} ⦃num : Number A⦄ where
  -- The place of the first least value, `np.argmin`.
  unfoldable pub argmin_from : ℕ → A → ℕ → List A → ℕ
  argmin_from best x i [] = best
  argmin_from best x i (y ∷ ys) =
      if less y x then argmin_from i y (i + 1) ys else argmin_from best x (i + 1) ys

  unfoldable pub argmin : List A → ℕ
  unfolding argmin_from
  argmin [] = 0
  argmin (x ∷ xs) = argmin_from 0 x 1 xs

  -- The two places that a bin from `lo` to before `hi` keeps.
  abbrev pub kept_in : List A → ℕ → ℕ → List ℕ
  unfolding argmin argmax
  kept_in ia lo hi =
      let seg = take (hi - lo) (drop lo ia) in
      if leb hi lo then [] else (lo + argmin seg) ∷ (lo + argmax seg) ∷ []

  -- So many bins from bin `i` on.
  unfoldable pub bins_from : List A → ℕ → ℕ → ℕ → List ℕ
  unfolding kept_in
  bins_from ia bins i zero = []
  bins_from ia bins i (suc k) =
      kept_in ia (edge (length ia) bins i) (edge (length ia) bins (i + 1))
      ++ bins_from ia bins (i + 1) k

  -- `idx`
  unfoldable pub kept_indices : ℕ → List A → List ℕ
  unfolding bins_from indices_from unique
  kept_indices target ia =
      let bins = max 1 (target / 2) in
      if leb (length ia) target
      then indices_from 0 (length ia)
      else unique (bins_from ia bins 0 bins)

  -- `fpga_dec` and `cmod_dec`: the same times, from the samples of the FPGA and from the C model
  -- interpolated at all of them.
  unfoldable pub align_and_decimate :
      (Trajectory (Channels A) → ℕ → Channels A)
      → ℕ
      → Trajectory (Channels A)
      → Trajectory (Channels A)
      → Trajectory (Channels A) × Trajectory (Channels A)
  unfolding kept_indices
  align_and_decimate interp target [] cmod = ([], [])
  align_and_decimate interp target (first ∷ samples) cmod =
      let fpga = first ∷ samples in
      let idx = kept_indices target (map (λ x. x.1.ia) fpga) in
      let sample = λ (i : ℕ). get_or fpga i first in
      (map sample idx, map (λ i. ((sample i).0, interp cmod (sample i).0)) idx)
