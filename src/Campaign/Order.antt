-- ===== src/Campaign/Order.antt =====
-- A campaign stops at its first failure; the overlay's rows are fewer than twice what is asked.
use hardware_in_the_loop.Base.{
  ℕ, zero, suc, ◌+◌, ◌-◌, ◌*◌, ◌/◌, ◌≤◌, ◌<◌, max, some, List, [], ◌∷◌, ◌++◌, if◌then◌else◌, select,
  length, ◌≡◌, refl, sym, ◌∙◌, ap, arith, Bool-cases, inl, inr,
}
use hardware_in_the_loop.Base.Int.{ℤ, pos}
use native.Mathlib.Nat.{suc-mul, mul-le-mul_right, div-add-mod', mod-lt}
use native.Mathlib.Decide.{dec_lt}
use mathlib.Core.List.{append-nil, append_assoc}
use Prim.Native.String.{String}
use hardware_in_the_loop.Campaign.Sequence.{
  every_from, csv_rows, Run, update_summary, Experiment, is_zero, taken_up, main,
}

abbrev pub entry : (Experiment → ℤ) → Experiment → Run
entry run e = record { id = e.id; returncode = run e }

-- The runs up to the first that fails, and its return code.
abbrev pub up_to_failure : (Experiment → ℤ) → List Experiment → List Run × ℤ
up_to_failure run [] = ([], pos 0)
up_to_failure run (e ∷ exps) =
    let rest = up_to_failure run exps in
    if is_zero (run e) then (entry run e ∷ rest.0, rest.1) else (entry run e ∷ [], run e)

-- A campaign with a summary of earlier runs takes up the enabled experiments that --only names (all
-- of them without --only) in their order, adds each run to the summary, and stops at the first
-- whose return code is not 0; that code is its own exit code, and 0 if there is none.
pub main-up_to_failure :
    (run : Experiment → ℤ) (only : List String) (exps : List Experiment) (runs : List Run)
    → main run only exps (some runs) ≡ (
      some (runs ++ (up_to_failure run (select (taken_up only) exps)).0),
      (up_to_failure run (select (taken_up only) exps)).1,
    )
unfolding main update_summary
main-up_to_failure run only [] runs = ap (λ l. (some l, pos 0)) (sym (append-nil runs))
main-up_to_failure run only (e ∷ exps) runs = elim (Bool-cases (taken_up only e)) [
  | inl t ↦ elim (Bool-cases (is_zero (run e))) [
    | inl z ↦
        rw (t, z, main)
          (main-up_to_failure run only exps (runs ++ entry run e ∷ [])
            ∙ ap (λ l. (some l, (up_to_failure run (select (taken_up only) exps)).1))
                (append_assoc runs (entry run e ∷ [])
                  (up_to_failure run (select (taken_up only) exps)).0))
    | inr z ↦ rw (t, z, main) refl
  ]
  | inr t ↦ rw (t, main) (main-up_to_failure run only exps runs)
]

grow : (q m : ℕ) → 2 * suc m * suc q ≡ q * m * 2 + 2 * q + 2 * m + 2
grow q m = ground arith

product_bound : (l q m n : ℕ) → 0 < q → 0 < m → l * q < n + q → n < q * m + m → l < 2 * m
product_bound l (suc q) (suc m) n a b h k = elim (dec_lt l (2 * suc m)) [
  | yes e ↦ e
  | no ne ↦
      absurd
        (omega (arith, mul-le-mul_right {m = 2 * suc m} {n = l} (suc q) (omega arith), grow q m))
]
product_bound l zero m n a b h k = absurd (omega arith)
product_bound l (suc q) zero n a b h k = absurd (omega arith)

quotient_bound : (n m : ℕ) → 0 < m → n < max 1 (n / m) * m + m
quotient_bound n m h = omega (
  arith,
  div-add-mod' n m,
  mod-lt n h,
  mul-le-mul_right {m = n / m} {n = max 1 (n / m)} m (omega arith),
)

module _ {ℓ} {A : Type ℓ} where
  length-every_from :
      (skip stride : ℕ) (xs : List A)
      → skip < stride
      → length (every_from skip stride xs) * stride + skip < length xs + stride
  unfolding every_from
  length-every_from skip stride [] h = omega (arith, h)
  length-every_from zero zero (x ∷ xs) h = absurd (omega (arith, h))
  length-every_from zero (suc s) (x ∷ xs) h = omega (
    arith,
    suc-mul (length (every_from (suc s - 1) (suc s) xs)) (suc s),
    length-every_from (suc s - 1) (suc s) xs (omega arith),
  )
  length-every_from (suc skip) stride (x ∷ xs) h =
      omega (arith, length-every_from skip stride xs (omega arith))

  every_from-fewer :
      (skip stride : ℕ) (xs : List A) → length (every_from skip stride xs) ≤ length xs
  unfolding every_from
  every_from-fewer skip stride [] = omega arith
  every_from-fewer zero stride (x ∷ xs) = omega (arith, every_from-fewer (stride - 1) stride xs)
  every_from-fewer (suc skip) stride (x ∷ xs) = omega (arith, every_from-fewer skip stride xs)

  -- The overlay gets fewer than twice `max_points` rows, and at most as many as there are.
  pub csv_rows-bound :
      (max_points : ℕ) (rows : List A)
      → 0 < max_points
      → (length (csv_rows max_points rows) < 2 * max_points)
        × (length (csv_rows max_points rows) ≤ length rows)
  unfolding csv_rows
  csv_rows-bound max_points rows h =
      let q = max 1 (length rows / max_points) in
      (
        product_bound (length (every_from 0 q rows)) q max_points (length rows) (omega arith) h
            (omega (arith, length-every_from 0 q rows (omega arith)))
            (quotient_bound (length rows) max_points h),
        every_from-fewer 0 q rows,
      )
