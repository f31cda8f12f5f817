-- ===== src/Base/Laws.antt =====
-- Laws of the list functions that the components share.
use Prim.Native.Nat.{ℕ, zero, suc, ◌+◌, ◌-◌, ◌≤◌, min}
use mathlib.Core.Path.{◌≡◌, refl, ap}
use mathlib.Core.Bool.{Bool, true, false, ◌||◌}
use hardware_in_the_loop.Base.Tests.{if◌then◌else◌, Bool-cases}
use mathlib.Core.Logic.{inl, inr}
use mathlib.Core.List.{List, [], ◌∷◌, ◌++◌}
use native.Mathlib.Omega.{arith}
use hardware_in_the_loop.Base.Lists.{length, take, drop, select, get_or, All}

module _ {ℓ} {A : Type ℓ} where
  pub length-append : (xs ys : List A) → length (xs ++ ys) ≡ length xs + length ys
  length-append [] ys = omega arith
  length-append (x ∷ xs) ys = omega (arith, length-append xs ys)

  pub take-append : (xs ys : List A) → take (length xs) (xs ++ ys) ≡ xs
  take-append [] ys = refl
  take-append (x ∷ xs) ys = rw (take-append xs ys)

  pub drop-append : (xs ys : List A) → drop (length xs) (xs ++ ys) ≡ ys
  drop-append [] ys = refl
  drop-append (x ∷ xs) ys = drop-append xs ys

  pub length-take : (n : ℕ) (xs : List A) → length (take n xs) ≡ min n (length xs)
  length-take zero xs = omega arith
  length-take (suc n) [] = omega arith
  length-take (suc n) (x ∷ xs) = omega (arith, length-take n xs)

  pub length-drop : (n : ℕ) (xs : List A) → length (drop n xs) ≡ length xs - n
  length-drop zero xs = omega arith
  length-drop (suc n) [] = omega arith
  length-drop (suc n) (x ∷ xs) = omega (arith, length-drop n xs)

  pub length-select : (p : A → Bool) (xs : List A) → length (select p xs) ≤ length xs
  length-select p [] = omega arith
  length-select p (x ∷ xs) = ground (arith, length-select p xs)

  pub take-append_at : (n : ℕ) (xs ys : List A) → n ≡ length xs → take n (xs ++ ys) ≡ xs
  take-append_at n xs ys e = rw e (take-append xs ys)

  pub get_or-append :
      (xs ys : List A) (n k : ℕ) (d : A) → n ≡ length xs + k → get_or (xs ++ ys) n d ≡ get_or ys k d
  get_or-append [] ys n k d e = ap (λ j. get_or ys j d) (omega arith)
  get_or-append (x ∷ xs) ys zero k d e = absurd (omega arith)
  get_or-append (x ∷ xs) ys (suc n) k d e = get_or-append xs ys n k d (omega arith)

module _ {ℓ κ} {A : Type ℓ} (P : A → Type κ) where
  pub All-append : (xs ys : List A) → All P xs → All P ys → All P (xs ++ ys)
  All-append [] ys h k = k
  All-append (x ∷ xs) ys h k = (h.0, All-append xs ys h.1 k)

  select_parts :
      (b : Bool) (x : A) (rest : List A)
      → All P (if b then x ∷ rest else rest)
      → All P rest × (b ≡ true → P x)
  select_parts true x rest h = (h.1, λ e. h.0)
  select_parts false x rest h = (h, λ e. ground arith)

  -- A predicate on the elements that pass either of two tests, where each passes one.
  pub All-select :
      (p q : A → Bool) (xs : List A)
      → All (λ x. (p x || q x) ≡ true) xs
      → All P (select p xs)
      → All P (select q xs)
      → All P xs
  All-select p q [] h a b = tt
  All-select p q (x ∷ xs) h a b =
      let (a', f) = select_parts (p x) x (select p xs) a in
      let (b', g) = select_parts (q x) x (select q xs) b in
      (
        elim (Bool-cases (p x)) [ inl e ↦ f e | inr e ↦ g (ground (arith, h.0)) ],
        All-select p q xs h.1 a' b',
      )

module _ {ℓ} {A : Type ℓ} where
  -- No element passes a test that fails on each.
  pub select-All : (p : A → Bool) (xs : List A) → All (λ x. p x ≡ false) xs → select p xs ≡ []
  select-All p [] h = refl
  select-All p (x ∷ xs) h = rw h.0 (select-All p xs h.1)

  pub select-IsSelected : (p : A → Bool) (xs : List A) → All (λ x. p x ≡ true) (select p xs)
  select-IsSelected p [] = tt
  select-IsSelected p (x ∷ xs) = elim (Bool-cases (p x)) [
    | inl e ↦ rw e (e, select-IsSelected p xs)
    | inr e ↦ rw e (select-IsSelected p xs)
  ]

module _ {ℓ κ μ} {A : Type ℓ} {P : A → Type κ} {Q : A → Type μ} where
  pub All-imply : (xs : List A) → ((x : A) → P x → Q x) → All P xs → All Q xs
  All-imply [] f h = tt
  All-imply (x ∷ xs) f h = (f x h.0, All-imply xs f h.1)
