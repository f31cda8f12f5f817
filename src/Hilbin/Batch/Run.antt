-- ===== src/Hilbin/Batch/Run.antt =====
-- hilbin_vs_c.py: run_one, from the parsed capture.
use hardware_in_the_loop.Base.{
  ℕ, ◌-◌, min, max, Bool, false, not, ◌||◌, Option, none, some, List, [], ◌∷◌, if◌then◌else◌, ltb,
  length,
}
use hardware_in_the_loop.Base.Int.{ℤ}
use hardware_in_the_loop.Number.{Number, ◌+F◌, less, decimal}
use hardware_in_the_loop.Hilbin.Repair.{Row}
use hardware_in_the_loop.Hilbin.Estimate.{
  Trajectory, clip_fpga, seed_at, window, repair, Windows, windows_of, is_reported,
}
use hardware_in_the_loop.Hilbin.Replay.{CModel, Channels, Replayed, run_c_model_seeded}
use hardware_in_the_loop.Hilbin.Batch.{
  Options, RunReport, WindowResult, skipped, measured, insufficient_data, no_segment, empty_replay,
  reported, naturals, window_after, end_of, rezeroed, coarse_period, tail_length, shortest_segment,
  shortest_window, longest_lag,
}
use hardware_in_the_loop.Comparison.Metrics.{Metrics, metrics_over, channel}
use hardware_in_the_loop.Comparison.Lag.{best_lag}

abbrev pub delay_or : {A : Type 0} → ℤ → Option (Option A × ℤ) → ℤ
delay_or delay none = delay
delay_or delay (some (score, best)) = best

module _ {A : Type 0} ⦃n : Number A⦄ where
  -- `score`: `none` is `nan`; a comparison without samples counts 1e9 for each channel.
  abbrev pub add_scores : Option A → Option A → Option A
  add_scores (some a) (some b) = some (a +F b)
  add_scores (some a) none = none
  add_scores none b = none

  abbrev pub score_of : Option (Metrics A) → Option A
  score_of none = some (decimal 1000000000 0 +F decimal 1000000000 0)
  score_of (some x) = add_scores x.compared.ia_nrmse x.compared.ib_nrmse

  -- `score < best[0]`: never with `nan`.
  abbrev pub is_better : Option A → Option A → Bool
  is_better (some score) (some best) = less score best
  is_better (some score) none = false
  is_better none best = false

  abbrev pub better : Option (Option A × ℤ) → Option A → ℤ → Option (Option A × ℤ)
  better none score cand = some (score, cand)
  better (some (best, delay)) score cand =
      if is_better score best then some (score, cand) else some (best, delay)

-- `model`: a new C model; `sqrt`, `interp` and `correlate`: of numpy.
module _ {S A : Type 0} ⦃n : Number A⦄ (m : CModel S A) (model : S) (npp vdc : A) (sqrt : A → A)
    (interp : Trajectory A → ℕ → A) (correlate : List A → List A → List A) where
  -- A replay of a part of the capture, seeded from the sample at its beginning.
  abbrev pub replayed_run :
      Options A → ℕ → ℤ → ℕ → ℕ → ℕ × Channels A → Trajectory (Channels A) → List Row → Replayed A
  unfolding run_c_model_seeded seed_at
  replayed_run o period delay t_start t_end first samples rows =
      run_c_model_seeded m npp vdc (some (first, samples)) delay o.tload o.ts period t_start t_end
        (seed_at first.1 (first ∷ samples) t_start) model rows

  -- The sweep over the delays, on the end `swa`, `tb` of the second window.
  unfoldable pub sweep :
      Options A
      → ℕ
      → ℕ
      → ℕ × Channels A
      → Trajectory (Channels A)
      → List Row
      → Option (Option A × ℤ)
      → List ℤ
      → Option (Option A × ℤ)
  unfolding replayed_run metrics_over window
  sweep o swa tb first samples rows best [] = best
  sweep o swa tb first samples rows best (cand ∷ cands) =
      let ctest =
        (replayed_run o (max o.period coarse_period) cand swa tb first samples rows).stored in
      let mtest = metrics_over sqrt interp (window swa tb (first ∷ samples)) ctest swa tb in
      let next = if ltb (length ctest) 8 then best else better best (score_of mtest) cand in
      sweep o swa tb first samples rows next cands

  unfoldable pub selected_delay :
      Options A → List ℤ → ℕ × ℕ → ℕ × Channels A → Trajectory (Channels A) → List Row → ℤ
  unfolding sweep
  selected_delay o cands regime first samples rows =
      let swa = max regime.0 (regime.1 - min tail_length (regime.1 - regime.0)) in
      delay_or o.delay (sweep o swa regime.1 first samples rows none cands)

  -- One of the two windows of the continuous run.
  unfoldable pub window_result :
      ℤ → Trajectory (Channels A) → Trajectory (Channels A) → ℕ × ℕ → WindowResult A
  unfolding window window_after metrics_over
  window_result lag fpga cmod w =
      let cwin = window_after lag w cmod in
      if not (is_reported shortest_window w)
      then skipped
      else if ltb (length cwin) 8
      then skipped
      else measured (metrics_over sqrt interp (window w.0 w.1 fpga) cwin w.0 w.1)

  -- From the lag of the whole run on.
  abbrev pub report_of :
      Windows → Trajectory (Channels A) → Replayed A → Option ℤ → Option (RunReport A)
  unfolding window_result
  report_of ws fpga cmod none = none
  report_of ws fpga cmod (some lag) = some (
      reported (window_result lag fpga cmod.stored ws.partida)
        (window_result lag fpga cmod.stored ws.regime) cmod.gap_count cmod.gap_total)

  -- The clipped capture and the repaired events.
  unfoldable pub compared_run :
      Options A → List ℤ → Trajectory (Channels A) → List Row → Option (RunReport A)
  unfolding selected_delay replayed_run report_of best_lag windows_of
  compared_run o cands [] rows = none
  compared_run o cands (first ∷ samples) rows =
      let fpga = first ∷ samples in
      let seg_dur = end_of fpga in
      let ws = windows_of o.window seg_dur o.t_step in
      let delay = selected_delay o cands ws.regime first samples rows in
      let cmod = replayed_run o o.period delay 0 seg_dur first samples rows in
      let lag =
        best_lag interp correlate longest_lag (channel sqrt interp (λ c. c.ia) fpga)
          (channel sqrt interp (λ c. c.ia) cmod.stored) in
      if ltb seg_dur shortest_segment || ltb (length rows) 4
      then some no_segment
      else if ltb (length cmod.stored) 8
      then some empty_replay
      else report_of ws fpga cmod lag

  abbrev pub clipped_run :
      Options A → List ℤ → Option (List (ℤ × Channels A)) → List Row → Option (RunReport A)
  unfolding compared_run
  clipped_run o cands none rows = none
  clipped_run o cands (some clipped) rows = compared_run o cands (naturals clipped) rows

  -- `run_one`, from the parsed capture; `cands`: the delays of the sweep, empty without one.
  unfoldable pub run_one :
      Options A → List ℤ → Trajectory (Channels A) → List Row → Option (RunReport A)
  unfolding clipped_run clip_fpga rezeroed repair
  run_one o cands fpga pwm =
      if ltb (length fpga) 8 || ltb (length pwm) 4
      then some insufficient_data
      else clipped_run o cands (clip_fpga fpga) (repair o.fallback (rezeroed pwm)).0
