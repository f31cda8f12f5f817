-- ===== src/SpaceVector/Peaks.antt =====
-- space_vector_metrics.py: the lag that is found is in its range, and no other one has a higher
-- correlation.
use hardware_in_the_loop.Base.{
  ℕ, zero, suc, ◌+◌, ◌≤◌, Option, none, some, List, [], ◌∷◌, ◌++◌, true, false, length, map, All,
  ◌≡◌, ◌≢◌, refl, sym, ap, ◌∙◌, arith, inl, inr, Bool-cases, Option-cases, if_true, length-take,
  length-drop,
}
use mathlib.Core.Path.{subst}
use mathlib.Core.Option.{some-injective}
use hardware_in_the_loop.Base.Int.{ℤ, pos, negsuc}
use hardware_in_the_loop.Number.{Number, less, decimal, WeakOrderLaws}
use hardware_in_the_loop.SpaceVector.{
  stop_at, lags_below, lags_from, lag_range, Best, peak, found_peak, segments, corr_at, exceeds,
  better_lag, search_lags, norm_of, bounded_xcorr_lag,
}
use hardware_in_the_loop.Comparison.Lag.{centred}

-- The size of a lag.
abbrev pub size : ℤ → ℕ
size (pos n) = n
size (negsuc n) = suc n

lags_from-size :
    (bound k count : ℕ) → k + count ≤ suc bound → All (λ l. size l ≤ bound) (lags_from k count)
lags_from-size bound k zero h = tt
lags_from-size bound k (suc count) h =
    (omega (arith, h), lags_from-size bound (k + 1) count (omega (arith, h)))

append-All : {A : Type 0} (P : A → Type 0) (xs ys : List A) → All P xs → All P ys → All P (xs ++ ys)
append-All P [] ys h k = k
append-All P (x ∷ xs) ys (h, hs) k = (h, append-All P xs ys hs k)

map-All :
    {A : Type 0} (P Q : A → Type 0) (xs : List A) → ((x : A) → P x → Q x) → All P xs → All Q xs
map-All P Q [] f h = tt
map-All P Q (x ∷ xs) f (h, hs) = (f x h, map-All P Q xs f hs)

lags_below-size : (bound k : ℕ) → k ≤ bound → All (λ l. size l ≤ bound) (lags_below k)
lags_below-size bound zero h = tt
lags_below-size bound (suc k) h = (omega (arith, h), lags_below-size bound k (omega (arith, h)))

lag_range-size : (max_lag : ℕ) → All (λ l. size l ≤ max_lag) (lag_range max_lag)
lag_range-size max_lag =
    append-All (λ l. size l ≤ max_lag) (lags_below max_lag) (lags_from 0 (suc max_lag))
      (lags_below-size max_lag max_lag (omega arith))
      (lags_from-size max_lag 0 (suc max_lag) (omega arith))

pub length-map : {A B : Type 0} (f : A → B) (xs : List A) → length (map f xs) ≡ length xs
length-map f [] = refl
length-map f (x ∷ xs) = ap suc (length-map f xs)

module _ {A : Type 0} ⦃n : Number A⦄ (norm : A) (a b : List A) where
  pub search-none :
      (lag : ℤ) (lags : List ℤ) (best : Best A)
      → corr_at norm a b lag ≡ none
      → search_lags norm a b (lag ∷ lags) best ≡ none
  unfolding search_lags
  search-none lag lags best k = rw (k, search_lags) refl

  pub search-some :
      (lag : ℤ) (lags : List ℤ) (best : Best A) (found : Option A)
      → corr_at norm a b lag ≡ some found
      → search_lags norm a b (lag ∷ lags) best
        ≡ search_lags norm a b lags (better_lag lag found best)
  unfolding search_lags
  search-some lag lags best found k = rw (k, search_lags) refl

  -- The best lag is the one that the best correlation is of; without one it is 0.
  abbrev pub IsFound : Best A → Type 0
  IsFound (lag, none) = lag ≡ pos 0
  IsFound (lag, some c) = corr_at norm a b lag ≡ some (some c)

  better_lag-kept :
      (P : Best A → Type 0) (lag : ℤ) (found : Option A) (best : Best A)
      → corr_at norm a b lag ≡ some found
      → P best
      → ((c : A) → corr_at norm a b lag ≡ some (some c) → P (lag, some c))
      → P (better_lag lag found best)
  better_lag-kept P lag none best e p q = p
  better_lag-kept P lag (some c) best e p q = elim (Bool-cases (exceeds c best.1)) [
    | inl k ↦ rw k (q c e)
    | inr k ↦ rw k p
  ]

  -- A lag within the traces.
  corr_at-within :
      (lag : ℤ) → length a ≡ length b → size lag ≤ length a → corr_at norm a b lag ≢ none
  unfolding corr_at segments
  corr_at-within (pos k) same h e =
      ground (arith, e, h, same, length-take (stop_at (length a) k) a, length-drop k b)
  corr_at-within (negsuc k) same h e =
      ground (arith, e, h, same, length-drop (suc k) a, length-take (stop_at (length a) (suc k)) b)

  search-total :
      (P : Best A → Type 0) (lags : List ℤ) (best : Best A)
      → All (λ lag. corr_at norm a b lag ≢ none) lags
      → P best
      → All (λ lag. (c : A) → corr_at norm a b lag ≡ some (some c) → P (lag, some c)) lags
      → (end : Best A) × (search_lags norm a b lags best ≡ some end) × P end
  unfolding search_lags
  search-total P [] best h p hs = (best, refl, p)
  search-total P (lag ∷ lags) best (h, hs) p (q, qs) = elim (Option-cases (corr_at norm a b lag)) [
    | inl k ↦ absurd (h k)
    | inr (found, k) ↦
        let (end, e, last) =
          search-total P lags (better_lag lag found best) hs
            (better_lag-kept P lag found best k p q) qs in
        (end, search-some lag lags best found k ∙ e, last)
  ]

module _ {A : Type 0} ⦃n : Number A⦄ (laws : WeakOrderLaws n) (norm : A) (a b : List A) where
  -- A lag whose correlation is not above the best one.
  abbrev pub IsBelow : Best A → ℤ → Type 0
  IsBelow best lag = (c : A) → corr_at norm a b lag ≡ some (some c) → exceeds c best.1 ≡ false

  exceeds-better_lag :
      (lag : ℤ) (found : Option A) (best : Best A) (c : A)
      → exceeds c best.1 ≡ false
      → exceeds c (better_lag lag found best).1 ≡ false
  exceeds-better_lag lag none best c h = h
  exceeds-better_lag lag (some d) (l, none) c h = absurd (ground (arith, h))
  exceeds-better_lag lag (some d) (l, some e) c h = elim (Bool-cases (less e d)) [
    | inl k ↦ rw k (elim (Bool-cases (less d c)) [
      | inl m ↦ absurd (ground (arith, h, laws.transitive e d c k m))
      | inr m ↦ m
    ])
    | inr k ↦ rw k h
  ]

  below-better_lag :
      (lag : ℤ) (c : A) (best : Best A) → exceeds c (better_lag lag (some c) best).1 ≡ false
  below-better_lag lag c (l, none) = laws.irreflexive c
  below-better_lag lag c (l, some e) = elim (Bool-cases (less e c)) [
    | inl k ↦ rw k (laws.irreflexive c)
    | inr k ↦ rw k k
  ]

  -- From a step on, what was below stays below.
  search-keeps :
      (lags : List ℤ) (best end : Best A) (c : A)
      → search_lags norm a b lags best ≡ some end
      → exceeds c best.1 ≡ false
      → exceeds c end.1 ≡ false
  unfolding search_lags
  search-keeps [] best end c e h = subst (λ x. exceeds c x.1 ≡ false) (some-injective _ _ e) h
  search-keeps (lag ∷ lags) best end c e h = elim (Option-cases (corr_at norm a b lag)) [
    | inl k ↦ absurd (ground (arith, sym (search-none norm a b lag lags best k) ∙ e))
    | inr (found, k) ↦
        search-keeps lags (better_lag lag found best) end c
          (sym (search-some norm a b lag lags best found k) ∙ e)
          (exceeds-better_lag lag found best c h)
  ]

  search-All :
      (lags : List ℤ) (best end : Best A)
      → search_lags norm a b lags best ≡ some end
      → All (IsBelow end) lags
  unfolding search_lags
  search-All [] best end e = tt
  search-All (lag ∷ lags) best end e = elim (Option-cases (corr_at norm a b lag)) [
    | inl k ↦ absurd (ground (arith, sym (search-none norm a b lag lags best k) ∙ e))
    | inr (found, k) ↦
        let e' = sym (search-some norm a b lag lags best found k) ∙ e in
        (
          λ c same. search-keeps lags (better_lag lag found best) end c e' (
              subst (λ f. exceeds c (better_lag lag f best).1 ≡ false)
                (some-injective _ _ (sym same ∙ k)) (below-better_lag lag c best)),
          search-All lags (better_lag lag found best) end e',
        )
  ]

module _ {A : Type 0} ⦃n : Number A⦄ (laws : WeakOrderLaws n) (sqrt : A → A) where
  -- What the lag is sought in.
  abbrev pub norm_centred : List A → List A → A
  norm_centred xs ys = norm_of sqrt (centred xs) (centred ys)

  -- With two traces of one length that are not constant, and lags that are not longer than they are,
  -- there is a result: its lag is in the range, its correlation is the one at this lag, and no lag of
  -- the range has a higher one. Where no lag leaves ten samples in common, the lag is 0, with -inf. The
  -- order of the numbers is irreflexive and transitive.
  pub bounded_xcorr_lag-best :
      (xs ys : List A) (max_lag : ℕ)
      → length xs ≡ length ys
      → max_lag ≤ length xs
      → less (decimal 1 12) (norm_centred xs ys) ≡ true
      → (best : Best A) × (bounded_xcorr_lag sqrt xs ys max_lag ≡ some (peak best))
        × (size best.0 ≤ max_lag)
        × IsFound (norm_centred xs ys) (centred xs) (centred ys) best
        × All (IsBelow laws (norm_centred xs ys) (centred xs) (centred ys) best) (lag_range max_lag)
  unfolding bounded_xcorr_lag
  bounded_xcorr_lag-best xs ys max_lag same le lively =
      let a = centred xs in
      let b = centred ys in
      let norm = norm_centred xs ys in
      let (end, e, (within, found)) =
        search-total norm a b (λ best. (size best.0 ≤ max_lag) × IsFound norm a b best)
          (lag_range max_lag) (pos 0, none)
          (map-All (λ lag. size lag ≤ max_lag) (λ lag. corr_at norm a b lag ≢ none)
            (lag_range max_lag)
            (λ lag h.
              corr_at-within norm a b lag (omega (arith, same, length-map _ xs, length-map _ ys))
                (omega (arith, h, le, length-map _ xs)))
            (lag_range-size max_lag))
          (omega arith, refl)
          (map-All (λ lag. size lag ≤ max_lag)
            (λ lag.
              (c : A)
              → corr_at norm a b lag ≡ some (some c)
              → (size lag ≤ max_lag) × IsFound norm a b (lag, some c))
            (lag_range max_lag) (λ lag h c at_lag. (h, at_lag)) (lag_range-size max_lag)) in
      (
        end,
        if_true _ lively ∙ ap found_peak e,
        within,
        found,
        search-All laws norm a b (lag_range max_lag) (pos 0, none) end e,
      )
