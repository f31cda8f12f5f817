-- ===== src/Mock/Rows.antt =====
-- top_fullstack_mock.py: the loop over the rows that are due.
use hardware_in_the_loop.Base.{
  ℕ, suc, ◌+◌, ◌≤◌, ◌<◌, some, List, [], ◌∷◌, if◌then◌else◌, leb, length, All, ◌≡◌, refl, arith,
  inl, inr, Bool-cases, le→leb, ne→==, if_false,
}
use hardware_in_the_loop.Number.{Number}
use hardware_in_the_loop.Gate.{Vector}
use hardware_in_the_loop.Hilbin.Replay.{Channels}
use hardware_in_the_loop.Mock.{CsvRow, MockTally, row_tally, compare_row, due_rows}
use hardware_in_the_loop.Mock.Sums.{Pair, IsCompared, take_one}

-- The times of the rows do not go down.
abbrev pub IsAscending : {A : Type 0} → List (CsvRow A) → Type 0
IsAscending [] = Unit
IsAscending (r ∷ []) = Unit
IsAscending (r ∷ r' ∷ rows) = (r.t ≤ r'.t) × IsAscending (r' ∷ rows)

later-IsAscending :
    {A : Type 0} (r : CsvRow A) (rows : List (CsvRow A)) → IsAscending (r ∷ rows) → IsAscending rows
later-IsAscending r [] up = tt
later-IsAscending r (r' ∷ rows) up = up.1

abbrev pub IsUntil : {A : Type 0} → ℕ → List (CsvRow A) → Type 0
IsUntil bound rows = All (λ r. r.t ≤ bound) rows

-- No row is more than half a step before a time.
abbrev pub IsLate : {A : Type 0} → ℕ → ℕ → List (CsvRow A) → Type 0
IsLate half t rows = All (λ r. t < r.t + half) rows

IsLate-rows :
    {A : Type 0} (half t : ℕ) (r : CsvRow A) (rows : List (CsvRow A))
    → IsAscending (r ∷ rows)
    → t < r.t + half
    → IsLate half t (r ∷ rows)
IsLate-rows half t r [] up h = (h, tt)
IsLate-rows half t r (r' ∷ rows) (le, up) h =
    (h, IsLate-rows half t r' rows up (omega (arith, le, h)))

module _ {A : Type 0} ⦃n : Number A⦄ (skip rec_int : ℕ) (positive : 0 < rec_int) (bound : ℕ)
    (c : Channels A) (volts : A × A × A) (vectors : Vector × Vector × Vector) where
  -- The loop over the rows where nothing is divided by zero.
  abbrev pub due : List (CsvRow A) → MockTally A → List (CsvRow A) × MockTally A
  due [] s = ([], s)
  due (r ∷ rows) s =
      let rest = due rows (row_tally skip rec_int c volts vectors r s) in
      if leb r.t bound then rest else (r ∷ rows, s)

  compared :
      (r : CsvRow A) (s : MockTally A)
      → compare_row skip rec_int c volts vectors r s
        ≡ some (row_tally skip rec_int c volts vectors r s)
  unfolding compare_row
  compared r s = if_false _ (ne→== rec_int 0 (λ e. omega (arith, e, positive)))

  pub due_rows-due :
      (rows : List (CsvRow A)) (s : MockTally A)
      → due_rows skip rec_int bound c volts vectors rows s ≡ some (due rows s)
  unfolding due_rows
  due_rows-due [] s = refl
  due_rows-due (r ∷ rows) s = elim (Bool-cases (leb r.t bound)) [
    | inl h ↦ rw (h, compared r s) (due_rows-due rows (row_tally skip rec_int c volts vectors r s))
    | inr h ↦ rw h refl
  ]

  -- Every row is taken in once or left.
  pub due-outn :
      (rows : List (CsvRow A)) (s : MockTally A)
      → (due rows s).1.outn + length (due rows s).0 ≡ s.outn + length rows
  due-outn [] s = refl
  due-outn (r ∷ rows) s = elim (Bool-cases (leb r.t bound)) [
    | inl h ↦
        rw h
          (omega (arith, due-outn rows (row_tally skip rec_int c volts vectors r s), row_outn r s))
    | inr h ↦ rw h refl
  ]
    where
      row_outn :
          (r : CsvRow A) (s : MockTally A)
          → (row_tally skip rec_int c volts vectors r s).outn ≡ suc s.outn
      row_outn r s = refl

  pub due-IsUntil :
      (b : ℕ) (rows : List (CsvRow A)) (s : MockTally A) → IsUntil b rows → IsUntil b (due rows s).0
  due-IsUntil b [] s h = tt
  due-IsUntil b (r ∷ rows) s h = elim (Bool-cases (leb r.t bound)) [
    | inl e ↦ rw e (due-IsUntil b rows _ h.1)
    | inr e ↦ rw e h
  ]

  -- Where all of them are due, none is left.
  pub due-all :
      (rows : List (CsvRow A)) (s : MockTally A) → IsUntil bound rows → (due rows s).0 ≡ []
  due-all [] s h = refl
  due-all (r ∷ rows) s (h, hs) = rw (le→leb r.t bound h) (due-all rows _ hs)

  pub due-IsLate :
      (half t : ℕ) (rows : List (CsvRow A)) (s : MockTally A)
      → t ≤ bound + half
      → IsAscending rows
      → IsAscending (due rows s).0 × IsLate half t (due rows s).0
  due-IsLate half t [] s le up = (tt, tt)
  due-IsLate half t (r ∷ rows) s le up = elim (Bool-cases (leb r.t bound)) [
    | inl e ↦ rw e (due-IsLate half t rows _ le (later-IsAscending r rows up))
    | inr e ↦ rw e (up, IsLate-rows half t r rows up (ground (arith, le, e)))
  ]

  pub due-IsCompared :
      (Q : Pair A → Type 0) (P : CsvRow A → Type 0) (all rows : List (CsvRow A)) (s : MockTally A)
      (near : (r : CsvRow A) → r.t ≤ bound → P r → Q (r, c))
      → All P rows
      → IsCompared skip rec_int Q all rows s
      → IsCompared skip rec_int Q all (due rows s).0 (due rows s).1
  due-IsCompared Q P all [] s near ps h = h
  due-IsCompared Q P all (r ∷ rows) s near (p, ps) h = elim (Bool-cases (leb r.t bound)) [
    | inl e ↦ rw e (
        due-IsCompared Q P all rows _ near ps
          (take_one skip rec_int Q all c volts vectors r rows s (near r (ground (arith, e)) p) h))
    | inr e ↦ rw e h
  ]
