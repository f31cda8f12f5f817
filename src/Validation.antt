-- ===== src/Validation.antt =====
-- scripts/validate_hil_pwm.py: the C runner that it writes and compiles. Floats are a parameter, and so
-- are times, with the sum and the order of `double`; a 32-bit sum keeps its wrap-around.
pub mod Layout
pub mod Load
pub mod Pairs
pub mod Counted
mod Tests
use hardware_in_the_loop.Base.{
  ℕ, zero, suc, ◌+◌, ◌-◌, ◌*◌, ◌/◌, ◌%◌, ◌^◌, Bool, not, ◌&&◌, ◌||◌, Option, none, some, List, [],
  ◌∷◌, if◌then◌else◌, ltb, leb, ◌==◌, length, take, drop,
}
use hardware_in_the_loop.Number.{Number, ◌+F◌, ◌-F◌, ◌*F◌, ◌/F◌, neg, less, whole, decimal}
use hardware_in_the_loop.Hilbin.Parse.{magic, same_bytes, word_of}
use hardware_in_the_loop.Hilbin.Repair.{Row}
use hardware_in_the_loop.Hilbin.Replay.{CModel, Channels, svf_channels, zeros}

-- What the runner finds in a file: where the two tables begin, and their lengths.
pub record Tables : Type 0 where
  pub telem : ℕ
  pub tn : ℕ
  pub pwm : ℕ
  pub pn : ℕ

pub data Read : Type 0 where
  bad_hilbin : Read
  truncated_telem_count : Read
  truncated_telem : Read
  truncated_pwm : Read
  empty : Read
  tables : Tables → Read

-- `rd_u32(buf + off)`; `none` is an access beyond the end of the buffer.
unfoldable pub rd_u32 : List ℕ → ℕ → Option ℕ
rd_u32 buf off = if leb (off + 4) (length buf) then some (word_of (drop off buf)) else none

-- `(12u + json_len + 7u) & ~7u`, in 32 bits.
abbrev pub table_offset : ℕ → ℕ
table_offset json_len = (12 + json_len + 7) % 4294967296 / 8 * 8

-- The checks after the count of the events has been read.
abbrev pub tables_with : List ℕ → ℕ → ℕ → ℕ → Read
tables_with buf off tn pn =
    let end = off + 4 + tn * 28 in
    if ltb (length buf) (end + 4 + pn * 8)
    then truncated_pwm
    else if tn == 0 || pn == 0
    then empty
    else tables (record { telem = off + 4; tn = tn; pwm = end + 4; pn = pn })

abbrev pub tables_at : List ℕ → ℕ → ℕ → Option Read
tables_at buf off tn =
    let end = off + 4 + tn * 28 in
    if ltb (length buf) (end + 4)
    then some truncated_telem
    else elim (rd_u32 buf end) [ none ↦ none | some pn ↦ some (tables_with buf off tn pn) ]

abbrev pub tables_from : List ℕ → ℕ → Option Read
tables_from buf off =
    if ltb (length buf) (off + 4)
    then some truncated_telem_count
    else elim (rd_u32 buf off) [ none ↦ none | some tn ↦ tables_at buf off tn ]

-- The checks before the loop; `none` where a count is read beyond the end of the buffer.
unfoldable pub read_tables : List ℕ → Option Read
read_tables buf =
    if ltb (length buf) 16 || not (same_bytes (take 7 buf) magic)
    then some bad_hilbin
    else elim (rd_u32 buf 8) [
      | none ↦ none
      | some json_len ↦ tables_from buf (table_offset json_len)
    ]

-- `double` as a time: the sum as it is rounded, and `<=`, which is false of a NaN.
pub record Clock (T : Type 0) : Type 0 where
  pub start : T
  pub add : T → T → T
  pub at_most : T → T → Bool

-- `Pwm`; a captured state is not negative.
pub record PwmPoint (T : Type 0) : Type 0 where
  pub t : T
  pub a : ℕ
  pub b : ℕ
  pub c : ℕ

-- `Telem`
pub record Telem (T A : Type 0) : Type 0 where
  pub t : T
  pub channels : Channels A
  pub tl : A

-- `npc_mode`: 0, 1 and 2.
pub data NpcMode : Type 0 where
  zero_mode : NpcMode
  hold : NpcMode
  dead_mid : NpcMode

module _ {A : Type 0} ⦃n : Number A⦄ where
  abbrev pub dead_level : NpcMode → ℕ → A
  dead_level dead_mid s =
      if s == 2 then decimal 5 1 else if s == 4 then neg (decimal 5 1) else whole 0
  dead_level zero_mode s = whole 0
  dead_level hold s = whole 0

  -- `level_rtl`; a captured state is not negative.
  unfoldable pub level_rtl : NpcMode → ℕ → A
  level_rtl mode s =
      if s == 3 || s == 1 then whole 1 else if s == 12 then neg (whole 1) else dead_level mode s

  unfoldable pub level_hold_invalid : ℕ → A → A
  level_hold_invalid s prev =
      if s == 3 || s == 1
      then whole 1
      else if s == 12
      then neg (whole 1)
      else if s == 6 || s == 0
      then whole 0
      else prev

  abbrev pub level : NpcMode → ℕ → A → A
  unfolding level_hold_invalid level_rtl
  level hold s prev = level_hold_invalid s prev
  level dead_mid s prev = level_rtl dead_mid s
  level zero_mode s prev = level_rtl zero_mode s

  abbrev pub each : (A → A → A) → Channels A → Channels A → Channels A
  each f x y = record {
    ia = f x.ia y.ia;
    ib = f x.ib y.ib;
    flux_a = f x.flux_a y.flux_a;
    flux_b = f x.flux_b y.flux_b;
    speed = f x.speed y.speed;
  }

  abbrev pub fabs : A → A
  fabs x = if less x (whole 0) then neg x else x

-- `se`, `sae`, `sy`, `sy2` and `cnt`.
pub record Sums (A : Type 0) : Type 0 where
  pub se : Channels A
  pub sae : Channels A
  pub sy : Channels A
  pub sy2 : Channels A
  pub cnt : ℕ

module _ {A : Type 0} ⦃n : Number A⦄ where
  -- A sample against the filtered reference.
  unfoldable pub add_sample : Channels A → Channels A → Sums A → Sums A
  add_sample last_ref y s =
      let e = each ◌-F◌ y last_ref in
      record {
        se = each (λ a b. a +F b *F b) s.se e;
        sae = each (λ a b. a +F fabs b) s.sae e;
        sy = each ◌+F◌ s.sy y;
        sy2 = each (λ a b. a +F b *F b) s.sy2 y;
        cnt = suc s.cnt;
      }

module _ {T A : Type 0} ⦃n : Number A⦄ (clock : Clock T) where
  -- The last loop of a step: the samples that are due.
  unfoldable pub consume :
      T → T → Channels A → List (Telem T A) → Sums A → List (Telem T A) × Sums A
  unfolding add_sample
  consume skip t last_ref [] sums = ([], sums)
  consume skip t last_ref (y ∷ telem) sums =
      let counted = if clock.at_most skip y.t then add_sample last_ref y.channels sums else sums in
      let rest = consume skip t last_ref telem counted in
      if clock.at_most y.t t then rest else (y ∷ telem, sums)

module _ {T A : Type 0} (clock : Clock T) where
  -- The loop that moves `ti` on, and takes the load torque of the sample it comes to.
  unfoldable pub follow : T → Telem T A → List (Telem T A) → A → List (Telem T A) × A
  follow t y [] tl = (y ∷ [], tl)
  follow t y (y' ∷ telem) tl =
      let rest = follow t y' telem y'.tl in
      if clock.at_most y'.t t then rest else (y ∷ y' ∷ telem, tl)

module _ {T : Type 0} (clock : Clock T) where
  -- The loop that moves `pi` on.
  unfoldable pub follow_pwm : T → PwmPoint T → List (PwmPoint T) → PwmPoint T × List (PwmPoint T)
  follow_pwm t r [] = (r, [])
  follow_pwm t r (r' ∷ pwm) =
      let rest = follow_pwm t r' pwm in if clock.at_most r'.t t then rest else (r, r' ∷ pwm)

-- The variables of the loop; `telem` is what is left from `ti` on.
pub record RunState (S T A : Type 0) : Type 0 where
  pub model : S
  pub t : T
  pub row : PwmPoint T
  pub pwm : List (PwmPoint T)
  pub telem : List (Telem T A)
  pub tl : A
  pub la : A
  pub lb : A
  pub lc : A
  pub lp : Channels A
  pub bp : Channels A
  pub sums : Sums A
  pub steps : ℕ

module _ {S T A : Type 0} ⦃n : Number A⦄ (clock : Clock T) (m : CModel S A) (mode : NpcMode)
    (vdc : A) (skip ts : T) where
  -- A step with a sample left.
  unfoldable pub run_step : Telem T A → List (Telem T A) → RunState S T A → RunState S T A
  unfolding follow follow_pwm level svf_channels consume
  run_step y telem s =
      let (row, pwm) = follow_pwm clock s.t s.row s.pwm in
      let (left, tl) = follow clock s.t y telem s.tl in
      let la = level mode row.a s.la in
      let lb = level mode row.b s.lb in
      let lc = level mode row.c s.lc in
      let model =
        m.step (la *F vdc *F decimal 5 1) (lb *F vdc *F decimal 5 1) (lc *F vdc *F decimal 5 1) tl
          s.model in
      let (lp, bp) = svf_channels s.lp s.bp (m.state model) in
      let (rest, sums) = consume clock skip s.t lp left s.sums in
      record {
        model = model;
        t = clock.add s.t ts;
        row = row;
        pwm = pwm;
        telem = rest;
        tl = tl;
        la = la;
        lb = lb;
        lc = lc;
        lp = lp;
        bp = bp;
        sums = sums;
        steps = suc s.steps;
      }

  -- The loop, on fuel: `none` where it is used up.
  unfoldable pub run_loop : ℕ → T → List (Telem T A) → RunState S T A → Option (RunState S T A)
  unfolding run_step
  run_loop zero t_end telem s = none
  run_loop (suc fuel) t_end [] s = some s
  run_loop (suc fuel) t_end (y ∷ telem) s =
      let s' = run_step y telem s in
      let rest = run_loop fuel t_end s'.telem s' in
      if clock.at_most s.t (clock.add t_end ts) then rest else some s

  abbrev pub no_sums : Sums A
  no_sums = record { se = zeros; sae = zeros; sy = zeros; sy2 = zeros; cnt = 0 }

  abbrev pub first_run :
      S → PwmPoint T → List (PwmPoint T) → Telem T A → List (Telem T A) → RunState S T A
  first_run model row pwm y telem = record {
    model = model;
    t = clock.start;
    row = row;
    pwm = pwm;
    telem = y ∷ telem;
    tl = y.tl;
    la = whole 0;
    lb = whole 0;
    lc = whole 0;
    lp = zeros;
    bp = zeros;
    sums = no_sums;
    steps = 0;
  }

  abbrev pub end_time : Telem T A → List (Telem T A) → T
  end_time y [] = y.t
  end_time y (y' ∷ telem) = end_time y' telem

  -- The runner from its tables, with so many tests of the loop's condition at most.
  unfoldable pub run_capture :
      ℕ
      → S
      → PwmPoint T
      → List (PwmPoint T)
      → Telem T A
      → List (Telem T A)
      → Option (RunState S T A)
  unfolding run_loop
  run_capture fuel model row pwm y telem =
      run_loop fuel (end_time y telem) (y ∷ telem) (first_run model row pwm y telem)
