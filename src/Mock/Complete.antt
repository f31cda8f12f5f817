-- ===== src/Mock/Complete.antt =====
-- top_fullstack_mock.py: the loop ends, and every row has been compared with the motor.
use hardware_in_the_loop.Base.{
  ℕ, zero, suc, ◌+◌, ◌*◌, ◌/◌, ◌≤◌, ◌<◌, some, List, [], ◌∷◌, ltb, length, ◌≡◌, refl, sym, ap, ◌∙◌,
  arith, inl, inr, Bool-cases, if_true, if_false, true, false, All-imply,
}
use mathlib.Core.Path.{subst}
use native.Mathlib.Nat.{div-add-mod', mod-lt}
use hardware_in_the_loop.Base.Int.{ℤ}
use hardware_in_the_loop.Number.{Number}
use hardware_in_the_loop.Hilbin.Replay.{CModel}
use hardware_in_the_loop.Mock.{
  Bench, CsvRow, MockRun, MockSetup, powered, driven_motor, mock_step, mock_loop, mock_main,
  last_row_time, first_mock, leg_volts, shown_vector,
}
use hardware_in_the_loop.Mock.Sums.{Pair, no_rows-IsSummed, IsCompared}
use hardware_in_the_loop.Mock.Rows.{
  IsAscending, IsUntil, IsLate, due, due_rows-due, due-outn, due-IsUntil, due-all, due-IsLate,
  due-IsCompared,
}

module _ {S A : Type 0} ⦃n : Number A⦄ (sin : A → A) (pi : A) (trunc : A → ℤ) (seconds : ℕ → A)
    (m : CModel S A) (o : MockSetup A) (model : S) (positive : 0 < o.rec_int) where
  -- The time of a step.
  abbrev pub step_time : ℕ → ℕ
  step_time k = k * (2 * o.half)

  -- The bench and the motor after so many steps, without the rows.
  abbrev pub motor_after : ℕ → Bench × S
  motor_after zero = ((first_mock sin pi trunc seconds m o model []).bench, model)
  motor_after (suc k) =
      let (b, x) = motor_after k in
      let b' = powered sin pi trunc seconds m o (step_time k) b in
      (b', driven_motor sin pi trunc seconds m o b' x)

  -- The channels are those of the motor after the step that is nearest to the row: no more than half a
  -- step before it, and less than half a step after.
  abbrev pub IsNearest : Pair A → Type 0
  IsNearest p =
      (k : ℕ) × (step_time k < p.0.t + o.half)
      × (p.0.t ≤ step_time k + o.half)
      × (p.1 ≡ m.state (motor_after (suc k)).1)

  module _ (all : List (CsvRow A)) (t_end total : ℕ) where
    abbrev IsRunning : ℕ → MockRun S A → Type 0
    IsRunning k s =
        (motor_after k ≡ (s.bench, s.model))
        × IsAscending s.rows
        × IsLate o.half (step_time k) s.rows
        × IsUntil t_end s.rows
        × (s.tally.outn + length s.rows ≡ total)
        × IsCompared o.skip o.rec_int IsNearest all s.rows s.tally

    -- The step where nothing is divided by zero.
    abbrev stepped : ℕ → MockRun S A → MockRun S A
    stepped t s =
        let b = powered sin pi trunc seconds m o t s.bench in
        let x = driven_motor sin pi trunc seconds m o b s.model in
        let pa = shown_vector o.step_cycles b.ga in
        let pb = shown_vector o.step_cycles b.gb in
        let pc = shown_vector o.step_cycles b.gc in
        let left =
          due o.skip o.rec_int positive (t + o.half) (m.state x)
            (leg_volts o.vdc pa, leg_volts o.vdc pb, leg_volts o.vdc pc) (pa, pb, pc) s.rows
            s.tally in
        record { bench = b; model = x; rows = left.0; tally = left.1 }

    mock_step-stepped :
        (t : ℕ) (s : MockRun S A) → mock_step sin pi trunc seconds m o t s ≡ some (stepped t s)
    unfolding mock_step
    mock_step-stepped t s =
        let b = powered sin pi trunc seconds m o t s.bench in
        let x = driven_motor sin pi trunc seconds m o b s.model in
        let pa = shown_vector o.step_cycles b.ga in
        let pb = shown_vector o.step_cycles b.gb in
        let pc = shown_vector o.step_cycles b.gc in
        rw
          (
            due_rows-due o.skip o.rec_int positive (t + o.half) (m.state x)
                (leg_volts o.vdc pa, leg_volts o.vdc pb, leg_volts o.vdc pc) (pa, pb, pc) s.rows
                s.tally,
            mock_step,
          )
          refl

    stepped-IsRunning :
        (k : ℕ) (s : MockRun S A) → IsRunning k s → IsRunning (suc k) (stepped (step_time k) s)
    stepped-IsRunning k s (at_k, up, late, until, sum, co) =
        let s' = stepped (step_time k) s in
        let next : motor_after (suc k) ≡ (s'.bench, s'.model) =
          ap
            (λ (p : Bench × S).
              let b = powered sin pi trunc seconds m o (step_time k) p.0 in
              (b, driven_motor sin pi trunc seconds m o b p.1))
            at_k in
        let (up', late') =
          due-IsLate o.skip o.rec_int positive (step_time k + o.half) _ _ _ o.half
            (step_time (suc k)) s.rows s.tally (omega arith) up in
        (
          next,
          up',
          late',
          due-IsUntil o.skip o.rec_int positive (step_time k + o.half) _ _ _ t_end s.rows s.tally
              until,
          due-outn o.skip o.rec_int positive (step_time k + o.half) _ _ _ s.rows s.tally ∙ sum,
          due-IsCompared o.skip o.rec_int positive (step_time k + o.half) (m.state s'.model) _ _
              IsNearest (λ r. step_time k < r.t + o.half) all s.rows s.tally
              (λ r le near. (k, near, le, ap (λ p. m.state p.1) (sym next))) late co,
        )

    goes_on : (t : ℕ) → t ≤ t_end + o.half → ltb (t_end + o.half) t ≡ false
    goes_on t le = ground arith

    mock_loop-past :
        (fuel t : ℕ) (s : MockRun S A)
        → ltb (t_end + o.half) t ≡ true
        → mock_loop sin pi trunc seconds m o (suc fuel) t_end t s ≡ some s
    unfolding mock_loop
    mock_loop-past fuel t s h = if_true _ h

    mock_loop-next :
        (fuel t : ℕ) (s : MockRun S A)
        → ltb (t_end + o.half) t ≡ false
        → mock_loop sin pi trunc seconds m o (suc fuel) t_end t s
          ≡ mock_loop sin pi trunc seconds m o fuel t_end (t + 2 * o.half) (stepped t s)
    unfolding mock_loop
    mock_loop-next fuel t s h = if_false _ h ∙ rw (mock_step-stepped t s) refl

    -- One step more: either the next one is past the end, or all goes on.
    mock_loop-all :
        (fuel k : ℕ) (s : MockRun S A)
        → step_time k ≤ t_end + o.half
        → t_end + o.half < step_time k + fuel * (2 * o.half)
        → IsRunning k s
        → (end : MockRun S A) × (mock_loop sin pi trunc seconds m o (suc fuel) t_end (step_time k) s
            ≡ some end)
          × (end.rows ≡ [])
          × (end.tally.outn ≡ total)
          × IsCompared o.skip o.rec_int IsNearest all [] end.tally
    mock_loop-all zero k s le lt h = absurd (omega (arith, le, lt))
    mock_loop-all (suc fuel) k s le lt h =
        let s' = stepped (step_time k) s in
        let (at_k, up, late, until, sum, co) = stepped-IsRunning k s h in
        let same : step_time (suc k) ≡ step_time k + 2 * o.half = omega arith in
        elim (Bool-cases (ltb (t_end + o.half) (step_time k + 2 * o.half))) [
          | inl past ↦
              let nearly : t_end ≤ step_time k + o.half = ground (arith, past) in
              let none_left : s'.rows ≡ [] =
                due-all o.skip o.rec_int positive (step_time k + o.half) _ _ _ s.rows s.tally
                  (All-imply s.rows (λ r until_end. omega (arith, until_end, nearly)) h.3) in
              (
                s',
                mock_loop-next (suc fuel) (step_time k) s (goes_on (step_time k) le)
                    ∙ mock_loop-past fuel (step_time k + 2 * o.half) s' past,
                none_left,
                omega (arith, sum, ap length none_left),
                subst (λ r. IsCompared o.skip o.rec_int IsNearest all r s'.tally) none_left co,
              )
          | inr go ↦
              let (end, e, none_left, outn, compared) =
                mock_loop-all fuel (suc k) s' (ground (arith, go, same)) (omega (arith, lt, same))
                  (at_k, up, late, until, sum, co) in
              (
                end,
                mock_loop-next (suc fuel) (step_time k) s (goes_on (step_time k) le)
                    ∙ subst
                        (λ t. mock_loop sin pi trunc seconds m o (suc fuel) t_end t s' ≡ some end)
                        same e,
                none_left,
                outn,
                compared,
              )
        ]

  last_row_time-IsUntil :
      (r : CsvRow A) (rows : List (CsvRow A))
      → IsAscending (r ∷ rows)
      → (r.t ≤ last_row_time sin pi trunc seconds m o r rows)
        × IsUntil (last_row_time sin pi trunc seconds m o r rows) (r ∷ rows)
  last_row_time-IsUntil r [] up = (omega arith, (omega arith, tt))
  last_row_time-IsUntil r (r' ∷ rows) (le, up) =
      let (le', h) = last_row_time-IsUntil r' rows up in
      (omega (arith, le, le'), (omega (arith, le, le'), h))

  first-IsLate : (rows : List (CsvRow A)) → 0 < o.half → IsLate o.half (step_time 0) rows
  first-IsLate [] pos = tt
  first-IsLate (r ∷ rows) pos = (omega (arith, pos), first-IsLate rows pos)

  -- Where the rows ascend, a step is not 0, and neither is the interval of the rows that are written, main
  -- ends, no row is left, and all are counted. Each row from `skip` on is compared exactly once, in the
  -- order of the file, with the motor after the step nearest to its time, where the motor and its bench
  -- run as they do without any rows; and the sums are those of the errors squared and of their sizes,
  -- for each of the five channels, and those of the squares of the currents of the motor.
  pub mock_main-all :
      (r : CsvRow A) (rows : List (CsvRow A))
      → 0 < o.half
      → IsAscending (r ∷ rows)
      → (end : MockRun S A) × (mock_main sin pi trunc seconds m o model r rows ≡ some end)
        × (end.rows ≡ [])
        × (end.tally.outn ≡ suc (length rows))
        × IsCompared o.skip o.rec_int IsNearest (r ∷ rows) [] end.tally
  unfolding mock_main
  mock_main-all r rows pos up =
      let t_end = last_row_time sin pi trunc seconds m o r rows in
      let wide : 0 < 2 * o.half = omega (arith, pos) in
      let start : step_time 0 ≡ 0 = omega arith in
      let (end, e, none_left, outn, compared) =
        mock_loop-all (r ∷ rows) t_end (suc (length rows)) (t_end / (2 * o.half) + 2) 0
          (first_mock sin pi trunc seconds m o model (r ∷ rows)) (omega arith)
          (omega (arith, pos, div-add-mod' t_end (2 * o.half), mod-lt t_end wide))
          (
            refl,
            up,
            first-IsLate (r ∷ rows) pos,
            (last_row_time-IsUntil r rows up).1,
            omega arith,
            ([], refl, no_rows-IsSummed o.skip o.rec_int, tt),
          ) in
      (
        end,
        subst
            (λ t.
              mock_loop sin pi trunc seconds m o (suc (t_end / (2 * o.half) + 2)) t_end t
                (first_mock sin pi trunc seconds m o model (r ∷ rows))
              ≡ some end)
            start e,
        none_left,
        outn,
        compared,
      )
