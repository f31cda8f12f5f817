-- ===== src/Hilbin/Verdict.antt =====
-- When a capture passes its check.
use hardware_in_the_loop.Base.{
  ℕ, ◌+◌, ◌≤◌, Bool, true, not, ◌&&◌, some, List, [], ◌∷◌, leb, length, any, ◌≡◌, refl, ◌∙◌, arith,
}
use hardware_in_the_loop.Hilbin.Check.{Gap, gaps_of, is_critical, errors_of, check_file, is_empty}

-- No event comes later than `gap` after the one before.
abbrev pub no_gap_over : ℕ → List ℕ → Bool
no_gap_over gap [] = true
no_gap_over gap (t ∷ []) = true
no_gap_over gap (t ∷ t' ∷ ts) = leb t' (t + gap) && no_gap_over gap (t' ∷ ts)

gaps_of-critical :
    (warn crit : ℕ) (ts : List ℕ)
    → warn ≤ crit
    → any is_critical (gaps_of warn crit ts) ≡ not (no_gap_over crit ts)
unfolding gaps_of
gaps_of-critical warn crit [] h = refl
gaps_of-critical warn crit (t ∷ []) h = refl
gaps_of-critical warn crit (t ∷ t' ∷ ts) h = ground (arith, gaps_of-critical warn crit (t' ∷ ts) h)

is_empty-errors_of :
    (samples events : ℕ) (gaps : List Gap)
    → is_empty (errors_of samples events gaps)
      ≡ (leb 8 samples && (leb 4 events && not (any is_critical gaps)))
is_empty-errors_of samples events gaps = ground arith

-- A capture that can be parsed passes exactly if it has at least 8 samples and 4 events, and no
-- event comes later than the critical gap after the one before in the file, where the critical gap is
-- no shorter than that of a warning. An event that is earlier than the one before is no gap of its own.
pub check_file-ok :
    (warn crit : ℕ) (t_fpga t_pwm : List ℕ)
    → warn ≤ crit
    → (check_file warn crit (some (t_fpga, t_pwm))).ok
      ≡ (leb 8 (length t_fpga) && (leb 4 (length t_pwm) && no_gap_over crit t_pwm))
unfolding check_file
check_file-ok warn crit t_fpga t_pwm h =
    is_empty-errors_of (length t_fpga) (length t_pwm) (gaps_of warn crit t_pwm)
    ∙ ground (arith, gaps_of-critical warn crit t_pwm h)
