-- ===== src/Mock/Sums.antt =====
-- top_fullstack_mock.py: the sums over the rows that have been compared.
use hardware_in_the_loop.Base.{
  ℕ, suc, List, [], ◌∷◌, ◌++◌, true, leb, length, map, select, All, ◌≡◌, refl, sym, ap, ◌∙◌, inl,
  inr, Bool-cases,
}
use hardware_in_the_loop.Number.{Number, ◌+F◌, ◌-F◌, ◌*F◌, whole}
use hardware_in_the_loop.Number.Totals.{total, total-more}
use hardware_in_the_loop.Gate.{Vector}
use hardware_in_the_loop.Hilbin.Replay.{Channels}
use hardware_in_the_loop.Validation.{fabs}
use hardware_in_the_loop.Validation.Pairs.{snoc-All}
use hardware_in_the_loop.Mock.{CsvRow, MockTally, no_rows, row_tally}

-- A row, and the channels of the motor that it is compared with.
abbrev pub Pair : Type 0 → Type 0
Pair A = CsvRow A × Channels A

abbrev pub rows_of : {A : Type 0} → List (Pair A) → List (CsvRow A)
rows_of pairs = map (λ p. p.0) pairs

-- The rows from `skip` on.
abbrev pub from_skip : {A : Type 0} → ℕ → List (CsvRow A) → List (CsvRow A)
from_skip skip rows = select (λ r. leb skip r.t) rows

module _ {A : Type 0} ⦃n : Number A⦄ where
  -- The sums of one channel are those over all pairs, from 0.
  abbrev pub IsSummedBy : (Channels A → A) → List (Pair A) → MockTally A → Type 0
  IsSummedBy of pairs s =
      (of s.se ≡ total (λ p. (of p.0.y -F of p.1) *F (of p.0.y -F of p.1)) (whole 0) pairs)
      × (of s.sae ≡ total (λ p. fabs (of p.0.y -F of p.1)) (whole 0) pairs)

  abbrev pub IsSummed : List (Pair A) → MockTally A → Type 0
  IsSummed pairs s =
      IsSummedBy (λ c. c.ia) pairs s
      × IsSummedBy (λ c. c.ib) pairs s
      × IsSummedBy (λ c. c.flux_a) pairs s
      × IsSummedBy (λ c. c.flux_b) pairs s
      × IsSummedBy (λ c. c.speed) pairs s
      × (s.ref2.0 ≡ total (λ p. p.1.ia *F p.1.ia) (whole 0) pairs)
      × (s.ref2.1 ≡ total (λ p. p.1.ib *F p.1.ib) (whole 0) pairs)
      × (s.cnt ≡ length pairs)

  length-snoc : (pairs : List (Pair A)) (p : Pair A) → length (pairs ++ p ∷ []) ≡ suc (length pairs)
  length-snoc [] p = refl
  length-snoc (q ∷ pairs) p = ap suc (length-snoc pairs p)

  rows_of-snoc :
      (pairs : List (Pair A)) (r : CsvRow A) (c : Channels A) (rows : List (CsvRow A))
      → rows_of (pairs ++ (r, c) ∷ []) ++ rows ≡ rows_of pairs ++ r ∷ rows
  rows_of-snoc [] r c rows = refl
  rows_of-snoc (p ∷ pairs) r c rows = ap (λ l. p.0 ∷ l) (rows_of-snoc pairs r c rows)

  more-by :
      (of : Channels A → A) (r : CsvRow A) (c : Channels A) (pairs : List (Pair A))
      (s : MockTally A)
      → IsSummedBy of pairs s
      → (of s.se +F (of r.y -F of c) *F (of r.y -F of c)
          ≡ total
              (λ p. (of p.0.y -F of p.1) *F (of p.0.y -F of p.1))
              (whole 0)
              (pairs ++ (r, c) ∷ []))
        × (of s.sae +F fabs (of r.y -F of c)
            ≡ total (λ p. fabs (of p.0.y -F of p.1)) (whole 0) (pairs ++ (r, c) ∷ []))
  more-by of r c pairs s (a, b) = (total-more _ _ _ pairs (r, c) a, total-more _ _ _ pairs (r, c) b)

module _ {A : Type 0} ⦃n : Number A⦄ (skip rec_int : ℕ) where
  pub no_rows-IsSummed : IsSummed {A = A} [] (no_rows skip rec_int)
  unfolding total
  no_rows-IsSummed =
      ((refl, refl), (refl, refl), (refl, refl), (refl, refl), (refl, refl), refl, refl, refl)

  row_tally-IsSummed :
      (c : Channels A) (volts : A × A × A) (vectors : Vector × Vector × Vector) (r : CsvRow A)
      (pairs : List (Pair A)) (s : MockTally A)
      → leb skip r.t ≡ true
      → IsSummed pairs s
      → IsSummed (pairs ++ (r, c) ∷ []) (row_tally skip rec_int c volts vectors r s)
  row_tally-IsSummed c volts vectors r pairs s h (ia, ib, fa, fb, speed, a, b, cnt) = rw h (
    more-by (λ x. x.ia) r c pairs s ia,
    more-by (λ x. x.ib) r c pairs s ib,
    more-by (λ x. x.flux_a) r c pairs s fa,
    more-by (λ x. x.flux_b) r c pairs s fb,
    more-by (λ x. x.speed) r c pairs s speed,
    total-more _ _ _ pairs (r, c) a,
    total-more _ _ _ pairs (r, c) b,
    ap suc cnt ∙ sym (length-snoc pairs (r, c)),
  )

  -- What has been compared, and what is left, are the rows from `skip` on.
  abbrev pub IsCompared :
      (Pair A → Type 0) → List (CsvRow A) → List (CsvRow A) → MockTally A → Type 0
  IsCompared Q all rows s =
      (pairs : List (Pair A)) × (rows_of pairs ++ from_skip skip rows ≡ from_skip skip all)
      × IsSummed pairs s
      × All Q pairs

  pub take_one :
      (Q : Pair A → Type 0) (all : List (CsvRow A)) (c : Channels A) (volts : A × A × A)
      (vectors : Vector × Vector × Vector) (r : CsvRow A) (rows : List (CsvRow A)) (s : MockTally A)
      → Q (r, c)
      → IsCompared Q all (r ∷ rows) s
      → IsCompared Q all rows (row_tally skip rec_int c volts vectors r s)
  take_one Q all c volts vectors r rows s q (pairs, parts, sums, qs) =
      elim (Bool-cases (leb skip r.t)) [
        | inl h ↦ (
          pairs ++ (r, c) ∷ [],
          rows_of-snoc pairs r c (from_skip skip rows) ∙ sym (rw h refl) ∙ parts,
          row_tally-IsSummed c volts vectors r pairs s h sums,
          snoc-All Q pairs (r, c) qs q,
        )
        | inr h ↦ (pairs, sym (rw h refl) ∙ parts, rw h sums, qs)
      ]
