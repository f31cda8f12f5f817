-- ===== src/Hilbin/Batch/Inside.antt =====
-- hilbin_vs_c.py: what run_one measures lies in the capture, and main loses no capture.
use hardware_in_the_loop.Base.{
  ℕ, ◌+◌, ◌≤◌, Bool, true, false, Option, none, some, List, [], ◌∷◌, if◌then◌else◌, ltb, length,
  map, max, ◌≡◌, ◌≢◌, ◌⊎◌, refl, ap, sym, ◌∙◌, arith, inl, inr, Bool-cases,
}
use hardware_in_the_loop.Base.Int.{ℤ}
use hardware_in_the_loop.Number.{Number}
use hardware_in_the_loop.Hilbin.Repair.{Row}
use hardware_in_the_loop.Hilbin.Estimate.{Trajectory, windows_of, is_reported, window}
use hardware_in_the_loop.Hilbin.Replay.{CModel, Channels}
use hardware_in_the_loop.Hilbin.Batch.{
  Options, RunReport, Entry, result, failed, Ending, usage, summary, BatchArgs, run_batch, chosen,
  summarised, main, entry_of, same_flag, shortest_window, coarse_period,
}
use hardware_in_the_loop.Hilbin.Batch.Run.{
  sweep, selected_delay, better, is_better, score_of, replayed_run, delay_or,
}
use hardware_in_the_loop.Comparison.Metrics.{metrics_over}

-- A window of at least 50 ms in a segment.
abbrev pub IsInside : ℕ → ℕ × ℕ → Type 0
IsInside seg_dur w = (w.0 + shortest_window ≤ w.1) × (w.1 ≤ seg_dur)

windows_of-at :
    (seg_dur : ℕ) (w : ℕ × ℕ)
    → w.1 ≤ seg_dur
    → is_reported shortest_window w ≡ true
    → IsInside seg_dur w
windows_of-at seg_dur w h e = (ground arith, h)

-- Each of the two windows that run_one measures is at least 50 ms long and ends with the segment at
-- the latest, with or without a load step, wherever the step is.
pub windows_of-IsInside :
    (window_length seg_dur : ℕ) (t_step : Option ℕ)
    → (is_reported shortest_window (windows_of window_length seg_dur t_step).partida ≡ true
        → IsInside seg_dur (windows_of window_length seg_dur t_step).partida)
      × (is_reported shortest_window (windows_of window_length seg_dur t_step).regime ≡ true
          → IsInside seg_dur (windows_of window_length seg_dur t_step).regime)
unfolding windows_of
windows_of-IsInside window_length seg_dur none = (
  windows_of-at seg_dur (windows_of window_length seg_dur none).partida (omega arith),
  windows_of-at seg_dur (windows_of window_length seg_dur none).regime (omega arith),
)
windows_of-IsInside window_length seg_dur (some t_step) = (
  windows_of-at seg_dur (windows_of window_length seg_dur (some t_step)).partida (omega arith),
  windows_of-at seg_dur (windows_of window_length seg_dur (some t_step)).regime (omega arith),
)

module _ {F A : Type 0} (files : List F) (run : F → Option (RunReport A)) where
  abbrev pub name_of : Entry F A → F
  name_of (result f report) = f
  name_of (failed f) = f

  name_of-entry_of : (f : F) (r : Option (RunReport A)) → name_of (entry_of files run f r) ≡ f
  name_of-entry_of f none = refl
  name_of-entry_of f (some report) = refl

  run_batch-names : (fs : List F) → map name_of (run_batch files run fs) ≡ fs
  unfolding run_batch
  run_batch-names [] = refl
  run_batch-names (f ∷ fs) = rw (name_of-entry_of f (run f), run_batch-names fs) refl

  entries_of : List (Entry F A) → Ending F A → List (Entry F A)
  entries_of others usage = others
  entries_of others (summary entries) = entries

  summarised-names :
      (paired : Bool) (fs : List F) (entries : List (Entry F A))
      → summarised files run paired fs ≡ summary entries
      → map name_of entries ≡ fs
  unfolding summarised entries_of
  summarised-names paired [] entries e = absurd (ground (arith, e))
  summarised-names true (f ∷ fs) entries e =
      ap (λ x. map name_of (entries_of [] x)) (sym e) ∙ run_batch-names (f ∷ fs)
  summarised-names false (f ∷ fs) entries e = absurd (ground (arith, e))

  -- A summary has one entry for each chosen capture, in their order, whichever of them fail.
  pub main-names :
      (args : BatchArgs F) (entries : List (Entry F A))
      → main files run args ≡ summary entries
      → map name_of entries ≡ chosen files run args.all args.capture
  unfolding main
  main-names args entries e =
      summarised-names (same_flag files run args.tload2 args.t_step_s)
        (chosen files run args.all args.capture) entries e

-- A delay is one of a list.
abbrev pub IsOneOf : ℤ → List ℤ → Type 0
IsOneOf d [] = d ≢ d
IsOneOf d (cand ∷ cands) = (d ≡ cand) ⊎ IsOneOf d cands

module _ {A : Type 0} ⦃n : Number A⦄ where
  better-one :
      (best : Option (Option A × ℤ)) (score : Option A) (delay cand : ℤ) (too_short : Bool)
      → (delay_or delay (if too_short then best else better best score cand) ≡ delay_or delay best)
        ⊎ (delay_or delay (if too_short then best else better best score cand) ≡ cand)
  better-one best score delay cand true = inl refl
  better-one none score delay cand false = inr refl
  better-one (some (best, chosen)) score delay cand false =
      elim (Bool-cases (is_better score best)) [ inl e ↦ rw e (inr refl) | inr e ↦ rw e (inl refl) ]

module _ {S A : Type 0} ⦃n : Number A⦄ (m : CModel S A) (model : S) (npp vdc : A) (sqrt : A → A)
    (interp : Trajectory A → ℕ → A) (correlate : List A → List A → List A) where
  sweep-one :
      (o : Options A) (swa tb : ℕ) (first : ℕ × Channels A) (samples : Trajectory (Channels A))
      (rows : List Row) (best : Option (Option A × ℤ)) (cands : List ℤ) (delay : ℤ)
      → IsOneOf
          (delay_or delay
            (sweep m model npp vdc sqrt interp correlate o swa tb first samples rows best cands))
          (delay_or delay best ∷ cands)
  unfolding sweep
  sweep-one o swa tb first samples rows best [] delay = inl refl
  sweep-one o swa tb first samples rows best (cand ∷ cands) delay =
      let ctest =
        (replayed_run m model npp vdc sqrt interp correlate o (max o.period coarse_period) cand swa
          tb first samples rows).stored in
      let score =
        score_of (metrics_over sqrt interp (window swa tb (first ∷ samples)) ctest swa tb) in
      let short = ltb (length ctest) 8 in
      elim (sweep-one o swa tb first samples rows (if short then best else better best score cand)
        cands delay) [
          | inl e ↦ elim (better-one best score delay cand short) [
            | inl e' ↦ inl (e ∙ e')
            | inr e' ↦ inr (inl (e ∙ e'))
          ]
          | inr later ↦ inr (inr later)
        ]

  -- The delay that a run uses is the one of the command line or one that the sweep has tried.
  pub selected_delay-one :
      (o : Options A) (cands : List ℤ) (regime : ℕ × ℕ) (first : ℕ × Channels A)
      (samples : Trajectory (Channels A)) (rows : List Row)
      → IsOneOf
          (selected_delay m model npp vdc sqrt interp correlate o cands regime first samples rows)
          (o.delay ∷ cands)
  unfolding selected_delay
  selected_delay-one o cands regime first samples rows =
      sweep-one o _ regime.1 first samples rows none cands o.delay
