-- ===== src/Hilbin/Replay.antt =====
-- hilbin_vs_c.py: run_c_model_seeded, with the filter of the telemetry. Times are cycles of the capture
-- clock, and so is the solver step; the C model is a parameter, and so are its numbers.
pub mod Pointer
pub mod Reseeds
mod Tests
use hardware_in_the_loop.Base.{
  ℕ, zero, suc, ◌+◌, ◌-◌, ◌*◌, ◌/◌, ◌%◌, max, Bool, ◌||◌, Option, none, some, List, [], ◌∷◌,
  if◌then◌else◌, ltb, leb, ◌==◌, map, length,
}
use hardware_in_the_loop.Base.Int.{ℤ, pos, ◌+ℤ◌, leb_ℤ}
use hardware_in_the_loop.Number.{Number, ◌+F◌, ◌-F◌, ◌*F◌, ◌/F◌, neg, whole, decimal}
use hardware_in_the_loop.Hilbin.Repair.{Row}
use hardware_in_the_loop.Hilbin.Estimate.{Trajectory, seed_at}
use hardware_in_the_loop.Hilbin.Segment.{find_pwm_gaps}

-- The five channels that a capture and the replay share.
pub record Channels (A : Type 0) : Type 0 where
  pub ia : A
  pub ib : A
  pub flux_a : A
  pub flux_b : A
  pub speed : A

-- What the replay uses of the C model: `priv.out`, set from a seed and the electrical speed, `step`
-- from three voltages and a load, and the state that it returns.
pub record CModel (S A : Type 0) : Type 0 where
  pub set_out : Channels A → A → S → S
  pub step : A → A → A → A → S → S
  pub state : S → Channels A

-- `GAP_RESEED_THRESHOLD_S`: 20 ms at 100 MHz.
abbrev pub gap_reseed_threshold : ℕ
gap_reseed_threshold = 2000000

-- `round(a / b)`, where a half goes to the even neighbour.
unfoldable pub round_ratio : ℕ → ℕ → ℕ
round_ratio a b =
    let q = a / b in
    let r = 2 * (a % b) in if ltb r b then q else if ltb b r then q + 1 else q + q % 2

-- Whether an event is due: `tev[j + 1] <= t + pwm_delay_s`.
unfoldable pub is_due : ℤ → ℕ → ℕ → Bool
unfolding ◌+ℤ◌
is_due delay t event = leb_ℤ (pos event) (pos t +ℤ delay)

module _ {A : Type 0} ⦃n : Number A⦄ where
  -- `_gate_to_v_rtl`, of a captured gate state, which is not negative.
  unfoldable pub gate_volts : ℕ → A → A
  gate_volts g vdc =
      if g == 3 || g == 1
      then decimal 5 1 *F vdc
      else if g == 2
      then decimal 25 2 *F vdc
      else if g == 4
      then neg (decimal 25 2) *F vdc
      else if g == 12
      then neg (decimal 5 1) *F vdc
      else whole 0

  -- `_svf_step`
  unfoldable pub svf_step : A → A → A → A × A
  svf_step lp bp raw = (
    lp +F bp /F whole 32,
    bp +F raw /F whole 32 -F lp /F whole 32 -F (decimal 14375 4 *F bp) /F whole 32,
  )

  -- The filter on each channel: low-pass and band-pass values.
  unfoldable pub svf_channels : Channels A → Channels A → Channels A → Channels A × Channels A
  unfolding svf_step
  svf_channels lp bp raw =
      let ia = svf_step lp.ia bp.ia raw.ia in
      let ib = svf_step lp.ib bp.ib raw.ib in
      let fa = svf_step lp.flux_a bp.flux_a raw.flux_a in
      let fb = svf_step lp.flux_b bp.flux_b raw.flux_b in
      let speed = svf_step lp.speed bp.speed raw.speed in
      (
        record { ia = ia.0; ib = ib.0; flux_a = fa.0; flux_b = fb.0; speed = speed.0 },
        record { ia = ia.1; ib = ib.1; flux_a = fa.1; flux_b = fb.1; speed = speed.1 },
      )

  abbrev pub zeros : Channels A
  zeros = record { ia = whole 0; ib = whole 0; flux_a = whole 0; flux_b = whole 0; speed = whole 0 }

-- The variables of the loop: the model, the position `j`, the event at it and those after it, the gaps
-- that are left, the filter, and the count of reseeds.
pub record Loop (S A : Type 0) : Type 0 where
  pub model : S
  pub j : ℕ
  pub current : Row
  pub later : List Row
  pub gaps : List (ℕ × ℕ)
  pub lp : Channels A
  pub bp : Channels A
  pub gap_count : ℕ
  pub gap_total : ℕ

-- A capture with a first sample, where there is one.
abbrev pub Fpga : Type 0 → Type 0
Fpga A = Option ((ℕ × Channels A) × Trajectory (Channels A))

pub record Replayed (A : Type 0) : Type 0 where
  pub stored : Trajectory (Channels A)
  pub gap_count : ℕ
  pub gap_total : ℕ

-- The position at the start: the last event that is due then, or the first one.
unfoldable pub place_at : ℤ → ℕ → ℕ → Row → List Row → ℕ × Row × List Row
unfolding is_due
place_at delay t j current [] = (j, current, [])
place_at delay t j current (event ∷ later) =
    let rest = place_at delay t (j + 1) event later in
    if is_due delay t event.t then rest else (j, current, event ∷ later)

abbrev pub result_of : {S A : Type 0} → Trajectory (Channels A) × Loop S A → Replayed A
result_of (stored, s) = record { stored = stored; gap_count = s.gap_count; gap_total = s.gap_total }

-- `npp`: of the parameters; `fpga`: the capture, for the reseeding; `vdc`: the DC link.
module _ {S A : Type 0} ⦃n : Number A⦄ (m : CModel S A) (npp vdc : A) (fpga : Fpga A) where
  abbrev pub apply_seed : Channels A → S → S
  apply_seed s model = m.set_out s (s.speed *F npp) model

  -- The reseeding after a gap of `dt` that the event at time `t` ends.
  unfoldable pub reseeded_from : Fpga A → ℕ → ℕ → Loop S A → Loop S A
  unfolding seed_at
  reseeded_from none t dt s = s
  reseeded_from (some (first, samples)) t dt s =
      let seed = seed_at first.1 (first ∷ samples) t in
      record {
        model = apply_seed seed s.model;
        j = s.j;
        current = s.current;
        later = s.later;
        gaps = s.gaps;
        lp = seed;
        bp = zeros;
        gap_count = suc s.gap_count;
        gap_total = s.gap_total + dt;
      }

  abbrev pub moved : ℕ → Row → List Row → List (ℕ × ℕ) → Loop S A → Loop S A
  moved j event later gaps s = record {
    model = s.model;
    j = j;
    current = event;
    later = later;
    gaps = gaps;
    lp = s.lp;
    bp = s.bp;
    gap_count = s.gap_count;
    gap_total = s.gap_total;
  }

  -- `j += 1`, and the reseeding if the next gap ends there.
  unfoldable pub entered : List (ℕ × ℕ) → Row → List Row → Loop S A → Loop S A
  unfolding reseeded_from
  entered [] event later s = moved (s.j + 1) event later [] s
  entered ((i, dt) ∷ gaps) event later s =
      if i + 1 == s.j + 1
      then reseeded_from fpga event.t dt (moved (s.j + 1) event later gaps s)
      else moved (s.j + 1) event later ((i, dt) ∷ gaps) s

  -- The inner loop, over the events that are left.
  unfoldable pub catch_up : ℤ → ℕ → List Row → Loop S A → Loop S A
  unfolding is_due entered
  catch_up delay t [] s = s
  catch_up delay t (event ∷ later) s =
      let rest = catch_up delay t later (entered s.gaps event later s) in
      if is_due delay t event.t then rest else s

  -- A solver step from the voltages of the current event, and the filter.
  unfoldable pub solved : A → Loop S A → Loop S A
  unfolding gate_volts svf_channels
  solved load s =
      let model =
        m.step (gate_volts s.current.a vdc) (gate_volts s.current.b vdc)
          (gate_volts s.current.c vdc) load s.model in
      let (lp, bp) = svf_channels s.lp s.bp (m.state model) in
      record {
        model = model;
        j = s.j;
        current = s.current;
        later = s.later;
        gaps = s.gaps;
        lp = lp;
        bp = bp;
        gap_count = s.gap_count;
        gap_total = s.gap_total;
      }

  module _ (delay : ℤ) (tload : ℕ → A) where
    unfoldable pub tick : ℕ → Loop S A → Loop S A
    unfolding catch_up solved
    tick t s = solved (tload t) (catch_up delay t s.later s)

    -- So many steps from step `k` on: what is stored, and the loop after them.
    module _ (ts t_start store_every : ℕ) where
      unfoldable pub steps : ℕ → ℕ → Loop S A → Trajectory (Channels A) × Loop S A
      unfolding tick
      steps zero k s = ([], s)
      steps (suc count) k s =
          let t = t_start + k * ts in
          let s' = tick t s in
          let (rest, end) = steps count (k + 1) s' in
          (if k % store_every == 0 then (t, s'.lp) ∷ rest else rest, end)

  abbrev pub loop_at : Channels A → S → List (ℕ × ℕ) → ℕ × Row × List Row → Loop S A
  loop_at seed model gaps (j, current, later) = record {
    model = apply_seed seed model;
    j = j;
    current = current;
    later = later;
    gaps = gaps;
    lp = seed;
    bp = zeros;
    gap_count = 0;
    gap_total = 0;
  }

  unfoldable pub loop_start : ℤ → ℕ → Channels A → S → Row → List Row → Loop S A
  unfolding place_at find_pwm_gaps
  loop_start delay t_start seed model first later =
      loop_at seed model (find_pwm_gaps gap_reseed_threshold (map (λ r. r.t) (first ∷ later)))
        (place_at delay t_start 0 first later)

  -- `period`: 1 / output_hz.
  unfoldable pub run_c_model_seeded :
      ℤ → (ℕ → A) → ℕ → ℕ → ℕ → ℕ → Channels A → S → List Row → Replayed A
  unfolding steps loop_start round_ratio
  run_c_model_seeded delay tload ts period t_start t_end seed model [] = record {
    stored = [];
    gap_count = 0;
    gap_total = 0;
  }
  run_c_model_seeded delay tload ts period t_start t_end seed model (first ∷ later) = result_of (
      steps delay tload ts t_start (max 1 (round_ratio period ts)) ((t_end - t_start) / ts + 1) 0
        (loop_start delay t_start seed model first later))
