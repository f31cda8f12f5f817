-- ===== src/Hilbin/Estimate.antt =====
-- hilbin_vs_c.py: _estimate_dead_time_s, and the functions that cut a capture to size. The median of
-- an even number of durations is a mean of two, which is exact where all times are even: the unit is
-- then half a cycle.
use hardware_in_the_loop.Base.{
  ℕ, Bool, suc, ◌+◌, ◌-◌, ◌/◌, ◌%◌, min, max, ◌&&◌, Option, none, some, List, [], ◌∷◌, ◌++◌,
  if◌then◌else◌, ltb, leb, ◌==◌, map, select, length, take, get_or,
}
use hardware_in_the_loop.Base.Int.{ℤ, pos, sub_ℕ, leb_ℤ}
use hardware_in_the_loop.Campaign.Sequence.{every_from}
use hardware_in_the_loop.Hilbin.Repair.{
  Row, Leg, is_dead, leg_of, repair_pwm_dead_time_holds, Report,
}
use hardware_in_the_loop.Hilbin.Segment.{first_monotonic_len}

-- The durations of the dead states of a leg, from the state `g` since `t` on; the last one has no
-- end and is left out.
unfoldable pub dead_durations : ℕ → ℕ → Leg → List ℕ
dead_durations t g [] = []
dead_durations t g ((t', g') ∷ leg) =
    let same = dead_durations t g leg in
    let rest = dead_durations t' g' leg in
    if g == g' then same else if is_dead g then (t' - t) ∷ rest else rest

unfoldable pub durations_of : Leg → List ℕ
unfolding dead_durations
durations_of [] = []
durations_of ((t, g) ∷ leg) = dead_durations t g leg

unfoldable pub insert_sorted : ℕ → List ℕ → List ℕ
insert_sorted n [] = n ∷ []
insert_sorted n (m ∷ ms) = let rest = insert_sorted n ms in if leb n m then n ∷ m ∷ ms else m ∷ rest

unfoldable pub sorted : List ℕ → List ℕ
unfolding insert_sorted
sorted [] = []
sorted (n ∷ ns) = insert_sorted n (sorted ns)

-- `np.median` of a list that is not empty.
abbrev pub median : List ℕ → ℕ
unfolding sorted
median ns =
    let half = length ns / 2 in
    if length ns % 2 == 1
    then get_or (sorted ns) half 0
    else (get_or (sorted ns) (half - 1) 0 + get_or (sorted ns) half 0) / 2

abbrev pub median_or : ℕ → List ℕ → ℕ
unfolding median
median_or fallback [] = fallback
median_or fallback (n ∷ ns) = median (n ∷ ns)

-- `fallback`: DEAD_TIME_FALLBACK_S.
unfoldable pub estimate_dead_time : ℕ → List Row → ℕ
unfolding durations_of median_or
estimate_dead_time fallback rows =
    if ltb (length rows) 2
    then fallback
    else median_or fallback (
        durations_of (leg_of (λ r. r.a) rows)
        ++ (durations_of (leg_of (λ r. r.b) rows) ++ durations_of (leg_of (λ r. r.c) rows)))

-- As run_one calls it.
unfoldable pub repair : ℕ → List Row → List Row × Report
unfolding repair_pwm_dead_time_holds estimate_dead_time
repair fallback rows = repair_pwm_dead_time_holds (estimate_dead_time fallback) rows

-- A trajectory: times, which may become negative, and what was sampled at each.
abbrev pub Trajectory : Type 0 → Type 0
Trajectory A = List (ℕ × A)

module _ {A : Type 0} where
  abbrev pub times : Trajectory A → List ℕ
  times xs = map (λ x. x.0) xs

  -- `t - t0` of each.
  abbrev pub shifted : ℕ → Trajectory A → List (ℤ × A)
  shifted t0 xs = map (λ x. (sub_ℕ x.0 t0, x.1)) xs

  -- `_clip_fpga`; `none` where there is no sample, since `t[0]` raises.
  unfoldable pub clip_fpga : Trajectory A → Option (List (ℤ × A))
  unfolding first_monotonic_len
  clip_fpga [] = none
  clip_fpga (x ∷ xs) = some (shifted x.0 (take (first_monotonic_len (times (x ∷ xs))) (x ∷ xs)))

  -- `_rezero`
  unfoldable pub rezero : Trajectory A → List (ℤ × A)
  rezero [] = []
  rezero (x ∷ xs) = shifted x.0 (x ∷ xs)

  -- `_clip_pwm`
  unfoldable pub clip_pwm : ℕ → Trajectory A → List (ℤ × A)
  unfolding rezero
  clip_pwm max_t xs = select (λ x. leb_ℤ x.0 (pos max_t)) (rezero xs)

  -- `_win`, `_win_cmod`: both ends belong to the window.
  unfoldable pub window : ℕ → ℕ → Trajectory A → Trajectory A
  window ta tb xs = select (λ x. leb ta x.0 && leb x.0 tb) xs

  -- `np.searchsorted(t, t_start)`: how many times of an ascending list lie before.
  unfoldable pub count_before : ℕ → Trajectory A → ℕ
  count_before t_start [] = 0
  count_before t_start (x ∷ xs) =
      let rest = count_before t_start xs in if ltb x.0 t_start then suc rest else 0

  -- `_seed_at`: the first sample that is not before the start, or the last one.
  unfoldable pub seed_at : A → Trajectory A → ℕ → A
  unfolding count_before
  seed_at default xs t_start =
      get_or (map (λ x. x.1) xs) (min (count_before t_start xs) (length xs - 1)) default

  -- `_decim`
  unfoldable pub decim : ℕ → Trajectory A → Trajectory A
  unfolding every_from
  decim target xs =
      if leb (length xs) target then xs else every_from 0 (max 1 (length xs / target)) xs

-- run_one: the beginning and the end of the two windows, `partida` and `regime`. Subtraction stops at
-- 0, as `max(0.0, …)` does; a load step is given by its time.
pub record Windows : Type 0 where
  pub partida : ℕ × ℕ
  pub regime : ℕ × ℕ

unfoldable pub windows_of : ℕ → ℕ → Option ℕ → Windows
windows_of window seg_dur none = record {
  partida = (0, min window seg_dur);
  regime = (seg_dur - window, seg_dur);
}
windows_of window seg_dur (some t_step) = record {
  partida = (t_step - window, min t_step seg_dur);
  regime = (min t_step seg_dur, min seg_dur (t_step + window));
}

-- A window that is too short gives no result: `shortest` is 50 ms.
abbrev pub is_reported : ℕ → ℕ × ℕ → Bool
is_reported shortest w = leb (w.0 + shortest) w.1
