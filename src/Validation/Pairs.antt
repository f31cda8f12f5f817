-- ===== src/Validation/Pairs.antt =====
-- validate_hil_pwm.py: the sums over the samples that are compared.
use hardware_in_the_loop.Base.{
  suc, List, [], ◌∷◌, ◌++◌, true, false, if◌then◌else◌, length, map, select, All, ◌≡◌, refl, sym,
  ap, ◌∙◌, inl, inr, Bool-cases,
}
use hardware_in_the_loop.Number.{Number, ◌+F◌, ◌-F◌, ◌*F◌, whole}
use hardware_in_the_loop.Number.Totals.{total, total-more}
use hardware_in_the_loop.Hilbin.Replay.{Channels, zeros}
use hardware_in_the_loop.Validation.{Clock, Telem, Sums, fabs, consume, add_sample}

-- A sample, and the filtered channels that it is compared with.
abbrev pub Pair : Type 0 → Type 0 → Type 0
Pair T A = Telem T A × Channels A

abbrev pub samples_of : {T A : Type 0} → List (Pair T A) → List (Telem T A)
samples_of pairs = map (λ p. p.0) pairs

module _ {T A : Type 0} ⦃n : Number A⦄ where
  -- The sums of one channel are those over all pairs, from 0.
  abbrev pub IsSummedBy : (Channels A → A) → List (Pair T A) → Sums A → Type 0
  IsSummedBy of pairs s =
      (of s.se
        ≡ total (λ p. (of p.0.channels -F of p.1) *F (of p.0.channels -F of p.1)) (whole 0) pairs)
      × (of s.sae ≡ total (λ p. fabs (of p.0.channels -F of p.1)) (whole 0) pairs)
      × (of s.sy ≡ total (λ p. of p.0.channels) (whole 0) pairs)
      × (of s.sy2 ≡ total (λ p. of p.0.channels *F of p.0.channels) (whole 0) pairs)

  abbrev pub IsSummed : List (Pair T A) → Sums A → Type 0
  IsSummed pairs s =
      IsSummedBy (λ c. c.ia) pairs s
      × IsSummedBy (λ c. c.ib) pairs s
      × IsSummedBy (λ c. c.flux_a) pairs s
      × IsSummedBy (λ c. c.flux_b) pairs s
      × IsSummedBy (λ c. c.speed) pairs s
      × (s.cnt ≡ length pairs)

  length-snoc :
      (pairs : List (Pair T A)) (p : Pair T A) → length (pairs ++ p ∷ []) ≡ suc (length pairs)
  length-snoc [] p = refl
  length-snoc (q ∷ pairs) p = ap suc (length-snoc pairs p)

  more-by :
      (of : Channels A → A) (y : Telem T A) (ref : Channels A) (pairs : List (Pair T A))
      (s : Sums A)
      → IsSummedBy of pairs s
      → (of s.se +F (of y.channels -F of ref) *F (of y.channels -F of ref)
          ≡ total
              (λ p. (of p.0.channels -F of p.1) *F (of p.0.channels -F of p.1))
              (whole 0)
              (pairs ++ (y, ref) ∷ []))
        × (of s.sae +F fabs (of y.channels -F of ref)
            ≡ total (λ p. fabs (of p.0.channels -F of p.1)) (whole 0) (pairs ++ (y, ref) ∷ []))
        × (of s.sy +F of y.channels
            ≡ total (λ p. of p.0.channels) (whole 0) (pairs ++ (y, ref) ∷ []))
        × (of s.sy2 +F of y.channels *F of y.channels
            ≡ total (λ p. of p.0.channels *F of p.0.channels) (whole 0) (pairs ++ (y, ref) ∷ []))
  more-by of y ref pairs s (a, b, c, d) = (
    total-more _ _ _ pairs (y, ref) a,
    total-more _ _ _ pairs (y, ref) b,
    total-more _ _ _ pairs (y, ref) c,
    total-more _ _ _ pairs (y, ref) d,
  )

  add_sample-IsSummed :
      (y : Telem T A) (ref : Channels A) (pairs : List (Pair T A)) (s : Sums A)
      → IsSummed pairs s
      → IsSummed (pairs ++ (y, ref) ∷ []) (add_sample ref y.channels s)
  unfolding add_sample
  add_sample-IsSummed y ref pairs s (ia, ib, fa, fb, speed, cnt) = (
    more-by (λ c. c.ia) y ref pairs s ia,
    more-by (λ c. c.ib) y ref pairs s ib,
    more-by (λ c. c.flux_a) y ref pairs s fa,
    more-by (λ c. c.flux_b) y ref pairs s fb,
    more-by (λ c. c.speed) y ref pairs s speed,
    ap suc cnt ∙ sym (length-snoc pairs (y, ref)),
  )

module _ {A : Type 0} (T : Type 0) ⦃n : Number A⦄ where
  pub nothing-IsSummed :
      IsSummed {T = T} {A = A} []
        (record { se = zeros; sae = zeros; sy = zeros; sy2 = zeros; cnt = 0 })
  unfolding total
  nothing-IsSummed = (
    (refl, refl, refl, refl),
    (refl, refl, refl, refl),
    (refl, refl, refl, refl),
    (refl, refl, refl, refl),
    (refl, refl, refl, refl),
    refl,
  )

pub append_assoc : {A : Type 0} (xs ys zs : List A) → (xs ++ ys) ++ zs ≡ xs ++ (ys ++ zs)
append_assoc [] ys zs = refl
append_assoc (x ∷ xs) ys zs = ap (λ l. x ∷ l) (append_assoc xs ys zs)

append-nil : {A : Type 0} (xs : List A) → xs ++ [] ≡ xs
append-nil [] = refl
append-nil (x ∷ xs) = ap (λ l. x ∷ l) (append-nil xs)

samples_of-append :
    {T A : Type 0} (xs ys : List (Pair T A))
    → samples_of (xs ++ ys) ≡ samples_of xs ++ samples_of ys
samples_of-append [] ys = refl
samples_of-append (x ∷ xs) ys = ap (λ l. x.0 ∷ l) (samples_of-append xs ys)

pub snoc-All :
    {P : Type 0} (Q : P → Type 0) (xs : List P) (x : P) → All Q xs → Q x → All Q (xs ++ x ∷ [])
snoc-All Q [] x h q = (q, tt)
snoc-All Q (y ∷ xs) x h q = (h.0, snoc-All Q xs x h.1 q)

module _ {T A : Type 0} ⦃n : Number A⦄ (clock : Clock T) (skip : T) where
  -- The samples from `skip` on.
  abbrev pub from_skip : List (Telem T A) → List (Telem T A)
  from_skip telem = select (λ y. clock.at_most skip y.t) telem

  -- What has been compared, and what is left, are the samples from `skip` on.
  abbrev pub IsCompared :
      (Pair T A → Type 0) → List (Telem T A) → List (Telem T A) → Sums A → Type 0
  IsCompared Q all telem s =
      (pairs : List (Pair T A)) × (samples_of pairs ++ from_skip telem ≡ from_skip all)
      × IsSummed pairs s
      × All Q pairs

  take_one :
      (Q : Pair T A → Type 0) (all : List (Telem T A)) (y : Telem T A) (ref : Channels A)
      (telem : List (Telem T A)) (s : Sums A)
      → Q (y, ref)
      → IsCompared Q all (y ∷ telem) s
      → IsCompared Q all telem (if clock.at_most skip y.t then add_sample ref y.channels s else s)
  take_one Q all y ref telem s q (pairs, parts, sums, qs) =
      elim (Bool-cases (clock.at_most skip y.t)) [
        | inl h ↦ rw h (
          pairs ++ (y, ref) ∷ [],
          ap (λ l. l ++ from_skip telem) (samples_of-append pairs ((y, ref) ∷ []))
              ∙ append_assoc (samples_of pairs) (y ∷ []) (from_skip telem)
              ∙ sym (rw h refl)
              ∙ parts,
          add_sample-IsSummed y ref pairs s sums,
          snoc-All Q pairs (y, ref) qs q,
        )
        | inr h ↦ rw h (pairs, sym (rw h refl) ∙ parts, sums, qs)
      ]

  pub consume-IsCompared :
      (Q : Pair T A → Type 0) (all : List (Telem T A)) (t : T) (ref : Channels A)
      (due : (y : Telem T A) → clock.at_most y.t t ≡ true → Q (y, ref)) (telem : List (Telem T A))
      (s : Sums A)
      → IsCompared Q all telem s
      → IsCompared Q all (consume clock skip t ref telem s).0 (consume clock skip t ref telem s).1
  unfolding consume
  consume-IsCompared Q all t ref due [] s h = h
  consume-IsCompared Q all t ref due (y ∷ telem) s h = elim (Bool-cases (clock.at_most y.t t)) [
    | inl e ↦
        rw e (consume-IsCompared Q all t ref due telem _ (take_one Q all y ref telem s (due y e) h))
    | inr e ↦ rw e h
  ]

  -- No sample is later than a time.
  abbrev pub IsUntil : T → List (Telem T A) → Type 0
  IsUntil t_end telem = All (λ y. clock.at_most y.t t_end ≡ true) telem

  -- The first sample that is left is not due.
  abbrev pub IsLeft : T → List (Telem T A) → Type 0
  IsLeft t [] = Unit
  IsLeft t (y ∷ telem) = clock.at_most y.t t ≡ false

  pub consume-IsUntil :
      (t_end t : T) (ref : Channels A) (telem : List (Telem T A)) (s : Sums A)
      → IsUntil t_end telem
      → IsUntil t_end (consume clock skip t ref telem s).0
        × IsLeft t (consume clock skip t ref telem s).0
  unfolding consume
  consume-IsUntil t_end t ref [] s h = (tt, tt)
  consume-IsUntil t_end t ref (y ∷ telem) s h = elim (Bool-cases (clock.at_most y.t t)) [
    | inl e ↦ rw e (consume-IsUntil t_end t ref telem _ h.1)
    | inr e ↦ rw e (h, e)
  ]
