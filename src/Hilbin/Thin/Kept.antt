-- ===== src/Hilbin/Thin/Kept.antt =====
-- hilbin_vs_c.py: the samples that _align_and_decimate keeps.
use hardware_in_the_loop.Base.{
  ℕ, zero, suc, ◌+◌, ◌-◌, ◌*◌, ◌/◌, ◌≤◌, ◌<◌, max, List, [], ◌∷◌, ltb, leb, ◌==◌, length, take,
  drop, All, All-append, length-append, ◌≡◌, refl, arith, inl, inr, Bool-cases, length-take,
}
use native.Mathlib.Nat.{div-le_of_le-mul, mul-le-mul_right}
use hardware_in_the_loop.Number.{Number, less}
use hardware_in_the_loop.Hilbin.Repair.{insert_unique, unique}
use hardware_in_the_loop.Comparison.Lag.{argmax-bound}
use hardware_in_the_loop.Hilbin.Thin.{
  indices_from, edge, argmin_from, argmin, kept_in, bins_from, kept_indices,
}

edge-bound : (n bins i : ℕ) → i ≤ bins → edge n bins i ≤ n
edge-bound n bins i h = div-le_of_le-mul bins (mul-le-mul_right n h)

module _ {A : Type 0} ⦃num : Number A⦄ where
  argmin_from-bound :
      (best : ℕ) (x : A) (i : ℕ) (ys : List A) (b : ℕ)
      → best ≤ b
      → i + length ys ≤ suc b
      → argmin_from best x i ys ≤ b
  unfolding argmin_from
  argmin_from-bound best x i [] b h k = h
  argmin_from-bound best x i (y ∷ ys) b h k = elim (Bool-cases (less y x)) [
    | inl e ↦ rw e (argmin_from-bound i y (i + 1) ys b (omega (arith, k)) (omega (arith, k)))
    | inr e ↦ rw e (argmin_from-bound best x (i + 1) ys b h (omega (arith, k)))
  ]

  argmin-bound : (xs : List A) (b : ℕ) → length xs ≤ suc b → argmin xs ≤ b
  unfolding argmin
  argmin-bound [] b h = omega arith
  argmin-bound (x ∷ xs) b h = argmin_from-bound 0 x 1 xs b (omega arith) (omega (arith, h))

  kept_in-bound :
      (ia : List A) (lo hi : ℕ)
      → hi ≤ length ia
      → All (λ i. i < length ia) (kept_in ia lo hi) × (length (kept_in ia lo hi) ≤ 2)
  unfolding kept_in
  kept_in-bound ia lo hi h = elim (Bool-cases (leb hi lo)) [
    | inl e ↦ rw e (tt, omega arith)
    | inr e ↦
        let seg = take (hi - lo) (drop lo ia) in
        let short : length seg ≤ suc (hi - lo - 1) =
          ground (arith, length-take (hi - lo) (drop lo ia)) in
        rw e (
          (
            ground (arith, argmin-bound seg (hi - lo - 1) short),
            (ground (arith, argmax-bound seg (hi - lo - 1) short), tt),
          ),
          omega arith,
        )
  ]

  bins_from-bound :
      (ia : List A) (bins i k : ℕ)
      → i + k ≤ bins
      → All (λ i. i < length ia) (bins_from ia bins i k) × (length (bins_from ia bins i k) ≤ 2 * k)
  unfolding bins_from
  bins_from-bound ia bins i zero h = (tt, omega arith)
  bins_from-bound ia bins i (suc k) h =
      let lo = edge (length ia) bins i in
      let hi = edge (length ia) bins (i + 1) in
      let (in_bin, two) =
        kept_in-bound ia lo hi (edge-bound (length ia) bins (i + 1) (omega (arith, h))) in
      let (in_rest, rest) = bins_from-bound ia bins (i + 1) k (omega (arith, h)) in
      (
        All-append (λ i. i < length ia) (kept_in ia lo hi) (bins_from ia bins (i + 1) k) in_bin
            in_rest,
        omega (arith, length-append (kept_in ia lo hi) (bins_from ia bins (i + 1) k), two, rest),
      )

insert_unique-bound :
    (n t : ℕ) (us : List ℕ)
    → t < n
    → All (λ i. i < n) us
    → All (λ i. i < n) (insert_unique t us) × (length (insert_unique t us) ≤ suc (length us))
unfolding insert_unique
insert_unique-bound n t [] h k = ((h, tt), omega arith)
insert_unique-bound n t (u ∷ us) h (k, ks) =
    let (a, l) = insert_unique-bound n t us h ks in
    elim (Bool-cases (ltb t u)) [
      | inl e ↦ rw e ((h, (k, ks)), omega arith)
      | inr e ↦ elim (Bool-cases (t == u)) [
        | inl e' ↦ rw (e, e') ((k, ks), omega arith)
        | inr e' ↦ rw (e, e') ((k, a), omega (arith, l))
      ]
    ]

unique-bound :
    (n : ℕ) (ts : List ℕ)
    → All (λ i. i < n) ts
    → All (λ i. i < n) (unique ts) × (length (unique ts) ≤ length ts)
unfolding unique
unique-bound n [] h = (tt, omega arith)
unique-bound n (t ∷ ts) (h, hs) =
    let (a, l) = unique-bound n ts hs in
    let (b, m) = insert_unique-bound n t (unique ts) h a in (b, omega (arith, l, m))

indices_from-bound :
    (n i k : ℕ) → i + k ≤ n → All (λ j. j < n) (indices_from i k) × (length (indices_from i k) ≡ k)
unfolding indices_from
indices_from-bound n i zero h = (tt, refl)
indices_from-bound n i (suc k) h =
    let (a, l) = indices_from-bound n (i + 1) k (omega (arith, h)) in
    ((omega (arith, h), a), omega (arith, l))

-- The samples that are kept for a plot are samples of the capture, and no more than were asked for,
-- where at least two are asked for.
pub kept_indices-bound :
    {A : Type 0} ⦃num : Number A⦄ (target : ℕ) (ia : List A)
    → 2 ≤ target
    → All (λ i. i < length ia) (kept_indices target ia) × (length (kept_indices target ia) ≤ target)
unfolding kept_indices
kept_indices-bound target ia h =
    let bins = max 1 (target / 2) in
    let (a, l) = bins_from-bound ia bins 0 bins (omega arith) in
    let (b, m) = unique-bound (length ia) (bins_from ia bins 0 bins) a in
    let (c, k) = indices_from-bound (length ia) 0 (length ia) (omega arith) in
    elim (Bool-cases (leb (length ia) target)) [
      | inl e ↦ rw e (c, ground (arith, k))
      | inr e ↦ rw e (b, omega (arith, l, m))
    ]
