-- ===== src/Validation/Tests.antt =====
-- Tests of the validation, and its theorems at concrete inputs.
use hardware_in_the_loop.Base.{
  ℕ, Option, none, some, List, [], ◌∷◌, ◌++◌, replicate, leb, ◌+◌, ◌≤◌, ◌≡◌, refl, arith,
}
use hardware_in_the_loop.Base.Int.{ℤ, pos, ◌+ℤ◌}
use hardware_in_the_loop.Number.Integers.{integers}
use hardware_in_the_loop.Hilbin.Parse.{magic}
use hardware_in_the_loop.Hilbin.Replay.{CModel, Channels}
use hardware_in_the_loop.Validation.{
  Tables, tables, rd_u32, read_tables, Clock, PwmPoint, Telem, dead_mid, RunState, run_loop,
  run_capture, first_run,
}
use hardware_in_the_loop.Validation.Layout.{IsSafe, read_tables-IsSafe}
use hardware_in_the_loop.Validation.Load.{IsApart, IsSpaced, load-first, run_capture-total}
use hardware_in_the_loop.Validation.Pairs.{IsCompared}
use hardware_in_the_loop.Validation.Counted.{ClockLaws, IsOfRun, run_capture-IsCompared}

-- One sample and one event, without metadata.
abbrev file : List ℕ
file =
    magic
    ++ (1 ∷ replicate 8 0 ++ (1 ∷ 0 ∷ 0 ∷ 0 ∷ replicate 28 0 ++ (1 ∷ 0 ∷ 0 ∷ 0 ∷ replicate 8 0)))

abbrev found : Tables
found = record { telem = 20; tn = 1; pwm = 52; pn = 1 }

read_tables-IsSafe_example : IsSafe file (read_tables file)
read_tables-IsSafe_example = read_tables-IsSafe file

tables_of_file : read_tables file ≡ some (tables found)
unfolding read_tables rd_u32
tables_of_file = refl

-- Times that are whole numbers.
abbrev ticks : Clock ℕ
ticks = record { start = 0; add = λ a b. a + b; at_most = leb }

ticks-ClockLaws : ClockLaws ticks
ticks-ClockLaws = record {
  total_order = λ a b h. ground (arith, h);
  transitive = λ a b c h k. ground (arith, h, k);
  add_monotone = λ a b ts h. ground (arith, h);
}

abbrev channels : ℤ → Channels ℤ
channels x = record { ia = x; ib = pos 0; flux_a = pos 0; flux_b = pos 0; speed = pos 0 }

-- A model whose state is the sum of the loads.
abbrev load_sum : CModel ℤ ℤ
load_sum = record {
  set_out = λ s wr model. model;
  step = λ va vb vc load model. model +ℤ load;
  state = channels;
}

abbrev sample : ℕ → ℕ → Telem ℕ ℤ
sample t load = record { t = t; channels = channels (pos 0); tl = pos load }

-- The load goes from 4 to 9 at time 26.
abbrev later : List (Telem ℕ ℤ)
later = sample 13 4 ∷ sample 26 9 ∷ sample 52 9 ∷ []

abbrev zero_row : PwmPoint ℕ
zero_row = record { t = 0; a = 6; b = 6; c = 6 }

abbrev ending : Option (RunState ℤ ℕ ℤ)
unfolding run_capture
ending =
    run_capture ticks load_sum dead_mid (pos 1240) 20 13 8 (pos 0) zero_row [] (sample 0 4) later

abbrev run_or : RunState ℤ ℕ ℤ → Option (RunState ℤ ℕ ℤ) → RunState ℤ ℕ ℤ
run_or r none = r
run_or r (some s) = s

abbrev at_start : RunState ℤ ℕ ℤ
at_start = first_run ticks load_sum dead_mid (pos 1240) 20 13 (pos 0) zero_row [] (sample 0 4) later

abbrev end_run : RunState ℤ ℕ ℤ
unfolding ending
end_run = run_or at_start ending

IsApart-later : (a b x y : ℕ) → a + 13 ≤ b → IsApart ticks 13 (sample a x) (sample b y)
IsApart-later a b x y le t h = ground (arith, le, h)

later-IsSpaced : IsSpaced ticks 13 (sample 0 4 ∷ later)
later-IsSpaced = (
  IsApart-later 0 13 4 4 (omega arith),
  (IsApart-later 13 26 4 9 (omega arith), (IsApart-later 26 52 9 9 (omega arith), tt)),
)

load-first_example : end_run.tl ≡ pos 4
unfolding end_run ending run_capture run_loop
load-first_example =
    load-first ticks load_sum dead_mid (pos 1240) 20 13 8 52 (pos 0) zero_row [] (sample 0 4) later
      end_run later-IsSpaced refl refl

run_capture-total_example :
    (end : RunState ℤ ℕ ℤ) × (run_capture ticks load_sum dead_mid
        (pos 1240)
        20
        13
        8
        (pos 0)
        zero_row
        []
        (sample 0 4)
        later
      ≡ some end)
run_capture-total_example =
    run_capture-total ticks load_sum dead_mid (pos 1240) 20 13 6 8 (pos 0) zero_row [] (sample 0 4)
      later (omega arith) refl

run_capture-IsCompared_example :
    IsCompared ticks 20
      (IsOfRun ticks ticks-ClockLaws load_sum dead_mid (pos 1240) 20 13 at_start)
      (sample 0 4 ∷ later)
      []
      end_run.sums
unfolding end_run ending run_capture run_loop
run_capture-IsCompared_example =
    run_capture-IsCompared ticks ticks-ClockLaws load_sum dead_mid (pos 1240) 20 13 8 (pos 0)
      zero_row [] (sample 0 4) later end_run later-IsSpaced refl (refl, (refl, (refl, (refl, tt))))
      refl refl
