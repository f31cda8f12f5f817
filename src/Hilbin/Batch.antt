-- ===== src/Hilbin/Batch.antt =====
-- hilbin_vs_c.py: run_one and main. Files, plots and printing are not modelled; the C model, its
-- numbers and numpy's sampling and correlation are parameters. An exception is `none`.
pub mod Run
pub mod Inside
mod Tests
use hardware_in_the_loop.Base.{
  ℕ, zero, suc, ◌+◌, ◌-◌, ◌*◌, ◌/◌, ◌==◌, min, max, Bool, true, false, not, ◌&&◌, ◌||◌, Option,
  none, some, List, [], ◌∷◌, if◌then◌else◌, ltb, leb, map, select, length,
}
use hardware_in_the_loop.Base.Int.{ℤ, pos, pos_part, sub_ℕ, ◌+ℤ◌, leb_ℤ}
use hardware_in_the_loop.Number.{Number, ◌+F◌, less, decimal}
use hardware_in_the_loop.Hilbin.Repair.{Row}
use hardware_in_the_loop.Hilbin.Estimate.{
  Trajectory, clip_fpga, seed_at, window, repair, Windows, windows_of, is_reported,
}
use hardware_in_the_loop.Hilbin.Replay.{CModel, Channels, Replayed, run_c_model_seeded}
use hardware_in_the_loop.Comparison.Metrics.{Metrics, metrics_over, channel}
use hardware_in_the_loop.Comparison.Lag.{best_lag, final_time}

-- 0.1 s, 50 ms and 10 ms, in cycles of 10 ns.
abbrev pub shortest_segment : ℕ
shortest_segment = 10000000

abbrev pub shortest_window : ℕ
shortest_window = 5000000

abbrev pub longest_lag : ℕ
longest_lag = 1000000

-- 1 / 50 kHz
abbrev pub coarse_period : ℕ
coarse_period = 2000

-- 20 ms
abbrev pub tail_length : ℕ
tail_length = 2000000

-- `np.arange(-auto_us, auto_us + 0.1, 50)` in cycles, for whole microseconds; no sweep for 0.
unfoldable pub delays_from : ℕ → ℕ → ℕ → List ℤ
delays_from auto_us i zero = []
delays_from auto_us i (suc count) =
    sub_ℕ (i * 5000) (auto_us * 100) ∷ delays_from auto_us (i + 1) count

abbrev pub delays : ℕ → List ℤ
unfolding delays_from
delays auto_us = if auto_us == 0 then [] else delays_from auto_us 0 (2 * auto_us / 50 + 1)

-- Insertion that keeps the order of equal times, for `np.argsort(…, kind="stable")`.
unfoldable pub insert_row : Row → List Row → List Row
insert_row r [] = r ∷ []
insert_row r (r' ∷ rows) =
    let rest = insert_row r rows in if leb r.t r'.t then r ∷ r' ∷ rows else r' ∷ rest

unfoldable pub sort_rows : List Row → List Row
unfolding insert_row
sort_rows [] = []
sort_rows (r ∷ rows) = insert_row r (sort_rows rows)

abbrev pub row_since : ℕ → Row → Row
row_since t0 r = record { t = r.t - t0; a = r.a; b = r.b; c = r.c }

-- `_rezero` and the sort, where the first event is the earliest: the times stay whole numbers.
unfoldable pub rezeroed : List Row → List Row
unfolding sort_rows
rezeroed [] = []
rezeroed (r ∷ rows) = sort_rows (map (row_since r.t) (r ∷ rows))

-- What the command line gives to every capture.
pub record Options (A : Type 0) : Type 0 where
  pub window : ℕ
  pub period : ℕ
  pub delay : ℤ
  pub ts : ℕ
  pub fallback : ℕ
  pub tload : ℕ → A
  pub t_step : Option ℕ

-- A window: `skipped`, or what `_metrics` has given, where `none` is its error.
pub data WindowResult (A : Type 0) : Type 0 where
  skipped : WindowResult A
  measured : Option (Metrics A) → WindowResult A

pub data RunReport (A : Type 0) : Type 0 where
  insufficient_data : RunReport A
  no_segment : RunReport A
  empty_replay : RunReport A
  reported : WindowResult A → WindowResult A → ℕ → ℕ → RunReport A

module _ {A : Type 0} where
  -- The times of a clipped capture, which start at 0 and increase.
  abbrev pub naturals : List (ℤ × A) → Trajectory A
  naturals xs = map (λ x. (pos_part x.0, x.1)) xs

  -- `cmod["t"] + lag`, and the window of it: a time below 0 lies in no window.
  unfoldable pub window_after : ℤ → ℕ × ℕ → Trajectory A → Trajectory A
  unfolding ◌+ℤ◌
  window_after lag w xs = naturals (
      select (λ x. leb_ℤ (pos w.0) x.0 && leb_ℤ x.0 (pos w.1))
        (map (λ x. (pos x.0 +ℤ lag, x.1)) xs))

  abbrev pub end_of : Trajectory A → ℕ
  end_of xs = final_time 0 xs

-- An entry of summary.json: the report, or what was raised.
pub data Entry (F A : Type 0) : Type 0 where
  result : F → RunReport A → Entry F A
  failed : F → Entry F A

-- How main ends.
pub data Ending (F A : Type 0) : Type 0 where
  usage : Ending F A
  summary : List (Entry F A) → Ending F A

-- The arguments that choose the captures and the load step.
pub record BatchArgs (F : Type 0) : Type 0 where
  pub all : Bool
  pub capture : Option F
  pub tload2 : Bool
  pub t_step_s : Bool

-- `files`: the sorted captures of the run directory; `run`: run_one on the parsed file.
module _ {F A : Type 0} (files : List F) (run : F → Option (RunReport A)) where
  abbrev pub entry_of : F → Option (RunReport A) → Entry F A
  entry_of f none = failed f
  entry_of f (some report) = result f report

  -- The loop keeps the batch going.
  unfoldable pub run_batch : List F → List (Entry F A)
  run_batch [] = []
  run_batch (f ∷ fs) = entry_of f (run f) ∷ run_batch fs

  abbrev pub chosen : Bool → Option F → List F
  chosen true capture = files
  chosen false (some f) = f ∷ []
  chosen false none = []

  abbrev pub same_flag : Bool → Bool → Bool
  same_flag true b = b
  same_flag false b = not b

  abbrev pub summarised : Bool → List F → Ending F A
  unfolding run_batch
  summarised paired [] = usage
  summarised true (f ∷ fs) = summary (run_batch (f ∷ fs))
  summarised false (f ∷ fs) = usage

  unfoldable pub main : BatchArgs F → Ending F A
  unfolding summarised
  main args = summarised (same_flag args.tload2 args.t_step_s) (chosen args.all args.capture)
