-- ===== src/Number/Totals.antt =====
-- Sums over a list, added up from the left as the loops of the scripts do.
use hardware_in_the_loop.Base.{List, [], ◌∷◌, ◌++◌, ◌≡◌, refl, sym, ◌∙◌, ap}
use hardware_in_the_loop.Number.{Number, ◌+F◌}

module _ {A P : Type 0} ⦃n : Number A⦄ (f : P → A) where
  unfoldable pub total : A → List P → A
  total x [] = x
  total x (p ∷ ps) = total (x +F f p) ps

  pub total-snoc : (x : A) (ps : List P) (p : P) → total x (ps ++ p ∷ []) ≡ total x ps +F f p
  unfolding total
  total-snoc x [] p = refl
  total-snoc x (q ∷ ps) p = total-snoc (x +F f q) ps p

  -- One more term.
  pub total-more :
      (s x : A) (ps : List P) (p : P) → s ≡ total x ps → s +F f p ≡ total x (ps ++ p ∷ [])
  total-more s x ps p e = ap (λ y. y +F f p) e ∙ sym (total-snoc x ps p)
