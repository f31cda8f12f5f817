-- ===== src/Hilbin/Replay/Tests.antt =====
-- Tests of the replay, and its theorems at concrete inputs.
use hardware_in_the_loop.Base.{ℕ, suc, ◌+◌, ◌*◌, some, List, [], ◌∷◌, length, ◌≡◌, refl, arith}
use hardware_in_the_loop.Base.Int.{ℤ, pos, ◌+ℤ◌}
use hardware_in_the_loop.Number.Integers.{integers}
use hardware_in_the_loop.Hilbin.Repair.{Row}
use hardware_in_the_loop.Hilbin.Segment.{find_pwm_gaps}
use hardware_in_the_loop.Hilbin.Replay.{
  CModel, Channels, Fpga, Loop, gap_reseed_threshold, steps, loop_start, place_at,
  run_c_model_seeded, round_ratio,
}
use hardware_in_the_loop.Hilbin.Replay.Pointer.{applied, stepped_by, caught_up, steps-applied}
use hardware_in_the_loop.Hilbin.Replay.Reseeds.{times_of_rows, total_of, IsReseeded, steps-reseeds}

abbrev channels : ℤ → Channels ℤ
channels x = record { ia = x; ib = pos 0; flux_a = pos 1; flux_b = pos 2; speed = pos 3 }

-- A model whose first current adds up the first voltage.
abbrev adder : CModel (Channels ℤ) ℤ
adder = record {
  set_out = λ s wr model. s;
  step = λ va vb vc load model. channels (model.ia +ℤ va);
  state = λ model. model;
}

abbrev event : ℕ → ℕ → Row
event t a = record { t = t; a = a; b = 6; c = 12 }

-- Events with a gap of 30 ms between the second and the third.
abbrev events : List Row
events = event 20 3 ∷ event 3000020 2 ∷ event 3000033 4 ∷ []

abbrev capture : Fpga ℤ
capture =
    some ((0, channels (pos 64)), (3000000, channels (pos 96)) ∷ (3000040, channels (pos 32)) ∷ [])

-- After four steps.
abbrev so_far : Loop (Channels ℤ) ℤ
unfolding steps loop_start
so_far =
    (steps adder (pos 2) (pos 400) capture (pos 5) (λ t. pos 0) 13 0 2 4 0
      (loop_start adder (pos 2) (pos 400) capture (pos 5) 0 (channels (pos 0)) (channels (pos 0))
        (event 0 12) events)).1

steps-applied_example :
    (steps adder
      (pos 2)
      (pos 400)
      capture
      (pos 5)
      (λ t. pos 0)
      13
      0
      2
      (suc 4)
      0
      (loop_start adder
        (pos 2)
        (pos 400)
        capture
        (pos 5)
        0
        (channels (pos 0))
        (channels (pos 0))
        (event 0 12)
        events)).1.model
    ≡ stepped_by adder
        (pos 2)
        (pos 400)
        capture
        (pos 0)
        (applied (pos 5) (event 0 12) events (0 + 4 * 13))
        (caught_up adder (pos 2) (pos 400) capture (pos 5) (0 + 4 * 13) so_far).model
unfolding so_far
steps-applied_example =
    steps-applied adder (pos 2) (pos 400) capture (pos 5) (λ t. pos 0) 13 0 2 4 (channels (pos 0))
      (channels (pos 0)) (event 0 12) events (omega arith, (omega arith, (omega arith, tt)))

abbrev all_gaps : List (ℕ × ℕ)
all_gaps = find_pwm_gaps gap_reseed_threshold (times_of_rows (event 0 12 ∷ events))

steps-reseeds_example :
    IsReseeded adder
      (pos 2)
      (pos 400)
      (0, channels (pos 64))
      []
      (pos 0)
      5000000
      (length all_gaps)
      (total_of all_gaps)
      (steps adder
        (pos 2)
        (pos 400)
        (some ((0, channels (pos 64)), []))
        (pos 0)
        (λ t. pos 0)
        1000000
        0
        2
        5
        0
        (loop_start adder
          (pos 2)
          (pos 400)
          (some ((0, channels (pos 64)), []))
          (pos 0)
          0
          (channels (pos 0))
          (channels (pos 0))
          (event 0 12)
          events)).1
unfolding place_at
steps-reseeds_example =
    steps-reseeds adder (pos 2) (pos 400) (0, channels (pos 64)) [] (pos 0) (λ t. pos 0) 1000000 0 2
      5 5000000 (channels (pos 0)) (channels (pos 0)) (event 0 12) events refl

-- The capture is used once, for the one gap.
one_reseed :
    (run_c_model_seeded adder
      (pos 2)
      (pos 400)
      capture
      (pos 0)
      (λ t. pos 0)
      1000000
      100
      0
      4000000
      (channels (pos 0))
      (channels (pos 0))
      (event 0 12 ∷ events)).gap_count
    ≡ 1
unfolding run_c_model_seeded
one_reseed = refl

half_to_even : (round_ratio 25 10 ≡ 2) × (round_ratio 35 10 ≡ 4) × (round_ratio 26 10 ≡ 3)
unfolding round_ratio
half_to_even = (refl, refl, refl)
