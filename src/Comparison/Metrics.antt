-- ===== src/Comparison/Metrics.antt =====
-- fpga_vs_c.py: lowpass, the metrics and what main compares; and _metrics of hilbin_vs_c.py.
-- np.interp, np.correlate, np.median and the square root are parameters; nothing is rounded.
use hardware_in_the_loop.Base.{
  ℕ, ◌+◌, ◌-◌, min, Option, none, some, List, [], ◌∷◌, if◌then◌else◌, ltb, length, map,
}
use hardware_in_the_loop.Number.{Number, ◌+F◌, ◌-F◌, ◌*F◌, ◌/F◌, neg, less, whole, decimal, max_F}
use hardware_in_the_loop.Hilbin.Estimate.{Trajectory, window}
use hardware_in_the_loop.Hilbin.Replay.{Channels}

module _ {A : Type 0} ⦃n : Number A⦄ where
  unfoldable pub sum : List A → A
  sum [] = whole 0
  sum (x ∷ xs) = x +F sum xs

  unfoldable pub mean : List A → A
  unfolding sum
  mean xs = sum xs /F whole (length xs)

  -- `dut - ref`, sample by sample.
  unfoldable pub differences : List A → List A → List A
  differences [] dut = []
  differences (r ∷ ref) [] = []
  differences (r ∷ ref) (d ∷ dut) = (d -F r) ∷ differences ref dut

  abbrev pub abs_F : A → A
  abs_F x = if less x (whole 0) then neg x else x

  abbrev pub square : A → A
  square x = x *F x

  unfoldable pub mae : List A → List A → A
  unfolding mean differences
  mae ref dut = mean (map abs_F (differences ref dut))

  abbrev pub greatest : A → List A → A
  greatest x [] = x
  greatest x (y ∷ ys) = greatest (if less x y then y else x) ys

  abbrev pub least : A → List A → A
  least x [] = x
  least x (y ∷ ys) = least (if less y x then y else x) ys

  -- `y[i] = y[i - 1] + a * (x[i] - y[i - 1])`
  unfoldable pub low_from : A → A → List A → List A
  low_from a y [] = []
  low_from a y (x ∷ xs) = let y' = y +F a *F (x -F y) in y' ∷ low_from a y' xs

  unfoldable pub lowpass_by : A → List A → List A
  unfolding low_from
  lowpass_by a [] = []
  lowpass_by a (x ∷ xs) = x ∷ low_from a x xs

  -- `median`: np.median of the differences of the times.
  unfoldable pub lowpass : (List A → A) → A → A → List A → List A → List A
  unfolding lowpass_by differences
  lowpass median pi fc [] x = x
  lowpass median pi fc (t ∷ []) x = x
  lowpass median pi fc (t ∷ t' ∷ ts) x =
      let dt = median (differences (t ∷ t' ∷ ts) (t' ∷ ts)) in
      lowpass_by (dt /F (dt +F whole 1 /F (whole 2 *F pi *F fc))) x

  module _ (sqrt : A → A) where
    -- `none` is `nan`.
    unfoldable pub nrmse : List A → List A → Option A
    unfolding mean differences
    nrmse [] dut = none
    nrmse (r ∷ ref) dut =
        let range = greatest r ref -F least r ref in
        if less (decimal 1 12) range
        then some (sqrt (mean (map square (differences (r ∷ ref) dut))) /F range *F whole 100)
        else none

    unfoldable pub fundamental_amp : List A → A
    unfolding mean
    fundamental_amp x = sqrt (whole 2) *F sqrt (mean (map (λ v. square (v -F mean x)) x))

-- What a comparison gives; `compare` of fpga_vs_c.py prints it.
pub record Compared (A : Type 0) : Type 0 where
  pub n_fpga : ℕ
  pub ia_nrmse : Option A
  pub ib_nrmse : Option A
  pub flux_a_mae : A
  pub flux_b_mae : A
  pub speed_mae : A
  pub ia_fund_fpga : A
  pub ia_fund_c : A
  pub ia_fund_delta_pct : A
  pub speed_mean_fpga : A
  pub speed_mean_c : A

-- `_metrics` adds two.
pub record Metrics (A : Type 0) : Type 0 where
  pub compared : Compared A
  pub ia_mae : A
  pub ib_mae : A

module _ {A : Type 0} ⦃n : Number A⦄ (sqrt : A → A) (interp : Trajectory A → ℕ → A) where
  -- A channel of a trajectory.
  abbrev pub channel : (Channels A → A) → Trajectory (Channels A) → Trajectory A
  channel c xs = map (λ x. (x.0, c x.1)) xs

  abbrev pub values : (Channels A → A) → Trajectory (Channels A) → List A
  values c xs = map (λ x. c x.1) xs

  -- `np.interp(tf, cmod["t"], cmod[key])`
  abbrev pub resampled :
      (Channels A → A) → Trajectory (Channels A) → Trajectory (Channels A) → List A
  resampled c cmod fpga = map (λ x. interp (channel c cmod) x.0) fpga

  unfoldable pub compared_over : Trajectory (Channels A) → Trajectory (Channels A) → Compared A
  unfolding nrmse mae fundamental_amp mean
  compared_over fpga cmod =
      let a_f = fundamental_amp sqrt (values (λ c. c.ia) fpga) in
      let a_c = fundamental_amp sqrt (resampled (λ c. c.ia) cmod fpga) in
      record {
        n_fpga = length fpga;
        ia_nrmse = nrmse sqrt (resampled (λ c. c.ia) cmod fpga) (values (λ c. c.ia) fpga);
        ib_nrmse = nrmse sqrt (resampled (λ c. c.ib) cmod fpga) (values (λ c. c.ib) fpga);
        flux_a_mae = mae (resampled (λ c. c.flux_a) cmod fpga) (values (λ c. c.flux_a) fpga);
        flux_b_mae = mae (resampled (λ c. c.flux_b) cmod fpga) (values (λ c. c.flux_b) fpga);
        speed_mae = mae (resampled (λ c. c.speed) cmod fpga) (values (λ c. c.speed) fpga);
        ia_fund_fpga = a_f;
        ia_fund_c = a_c;
        ia_fund_delta_pct = whole 100 *F (a_f -F a_c) /F max_F a_c (decimal 1 9);
        speed_mean_fpga = mean (values (λ c. c.speed) fpga);
        speed_mean_c = mean (resampled (λ c. c.speed) cmod fpga);
      }

  -- `compare`; fewer than 8 samples are an empty window.
  unfoldable pub compare_window :
      Trajectory (Channels A) → Trajectory (Channels A) → ℕ → ℕ → Option (Compared A)
  unfolding compared_over window
  compare_window fpga cmod t_lo t_hi =
      let f = window t_lo t_hi fpga in
      if ltb (length f) 8 then none else some (compared_over f cmod)

  -- `_metrics` of hilbin_vs_c.py
  unfoldable pub metrics_over :
      Trajectory (Channels A) → Trajectory (Channels A) → ℕ → ℕ → Option (Metrics A)
  unfolding compared_over window mae
  metrics_over fpga cmod t_lo t_hi =
      let f = window t_lo t_hi fpga in
      if ltb (length f) 8
      then none
      else some (record {
        compared = compared_over f cmod;
        ia_mae = mae (resampled (λ c. c.ia) cmod f) (values (λ c. c.ia) f);
        ib_mae = mae (resampled (λ c. c.ib) cmod f) (values (λ c. c.ib) f);
      })

-- `--scenario`
pub data ToCompare : Type 0 where
  steady : ToCompare
  ramp : ToCompare
  both : ToCompare

-- 0.2 s and 0.3 s in cycles.
abbrev pub settled : ℕ
settled = 20000000

abbrev pub after_ramp : ℕ
after_ramp = 30000000

-- main: what it compares, by the beginning and the end of each window. `ramp_cycles` is the time that
-- the ramp to the frequency takes, `first` the first time of the C model, at least 0.
unfoldable pub windows_to_compare : ToCompare → ℕ → ℕ → ℕ → List (ℕ × ℕ)
windows_to_compare scenario ramp_cycles first tend =
    let starting : ℕ × ℕ = (first, min (ramp_cycles + after_ramp) tend) in
    let running : ℕ × ℕ = (tend - settled, tend) in
    elim scenario [ steady ↦ running ∷ [] | ramp ↦ starting ∷ [] | both ↦ starting ∷ running ∷ [] ]
