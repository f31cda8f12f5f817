-- ===== src/Motor/Symmetry.antt =====
-- The model in Python: what its equations keep.
use hardware_in_the_loop.Base.{ℕ, zero, suc, List, [], ◌∷◌, replicate, ◌≡◌, refl, ap, ◌∙◌}
use hardware_in_the_loop.Number.{Number, SignLaws, ZeroLaws, neg, whole}
use hardware_in_the_loop.Motor.{ImPhysicalParams, Motor, step, at_rest}

-- The same machine with every current and every flux reversed.
abbrev pub reversed : {A : Type 0} ⦃n : Number A⦄ → Motor A → Motor A
reversed m = record {
  is_alpha = neg m.is_alpha;
  is_beta = neg m.is_beta;
  flux_alpha = neg m.flux_alpha;
  flux_beta = neg m.flux_beta;
  wm = m.wm;
}

module _ {A : Type 0} ⦃n : Number A⦄ (laws : SignLaws n) (root_3 : A) (p : ImPhysicalParams A) where
  pub step-reversed :
      (va vb vc tload : A) (m : Motor A)
      → step root_3 p (neg va) (neg vb) (neg vc) tload (reversed m)
        ≡ reversed (step root_3 p va vb vc tload m)
  unfolding step
  step-reversed va vb vc tload m =
      simp (laws.neg_neg, laws.add_neg, laws.sub_neg, laws.neg_mul, laws.mul_neg, laws.neg_div) refl

-- The inputs of a step: the three voltages and the load.
abbrev pub Inputs : Type 0 → Type 0
Inputs A = A × A × A × A

-- The model stepped through a sequence of inputs.
unfoldable pub run :
    {A : Type 0} ⦃n : Number A⦄ → A → ImPhysicalParams A → List (Inputs A) → Motor A → Motor A
unfolding step
run root_3 p [] m = m
run root_3 p ((va, vb, vc, tload) ∷ inputs) m = run root_3 p inputs (step root_3 p va vb vc tload m)

module _ {A : Type 0} ⦃n : Number A⦄ where
  -- Every voltage reversed.
  abbrev pub opposite : Inputs A → Inputs A
  opposite (va, vb, vc, tload) = (neg va, neg vb, neg vc, tload)

module _ {A : Type 0} ⦃n : Number A⦄ (laws : ZeroLaws n) (root_3 : A) (p : ImPhysicalParams A) where
  step-at_rest : step root_3 p (whole 0) (whole 0) (whole 0) (whole 0) at_rest ≡ at_rest
  unfolding step
  step-at_rest =
      simp (laws.zero_add, laws.sub_zero, laws.mul_zero, laws.zero_mul, laws.zero_div) refl

  -- Without voltage and without load, a machine at rest stays at rest for any number of steps.
  pub run-at_rest :
      (k : ℕ) → run root_3 p (replicate k (whole 0, whole 0, whole 0, whole 0)) at_rest ≡ at_rest
  unfolding run
  run-at_rest zero = refl
  run-at_rest (suc k) =
      ap (run root_3 p (replicate k (whole 0, whole 0, whole 0, whole 0))) step-at_rest
      ∙ run-at_rest k
