-- ===== src/Hilbin/Repair.antt =====
-- hilbin_vs_c.py: repair_pwm_dead_time_holds, from a given dead time.
use hardware_in_the_loop.Base.{
  ℕ, ◌+◌, ◌-◌, ◌*◌, Bool, ◌&&◌, ◌||◌, List, [], ◌∷◌, ◌++◌, if◌then◌else◌, ltb, leb, ◌==◌, map,
  length,
}

-- A captured event: the time, and the gate states of the three legs from then on.
pub record Row : Type 0 where
  pub t : ℕ
  pub a : ℕ
  pub b : ℕ
  pub c : ℕ

abbrev pub npc_zero_p : ℕ
npc_zero_p = 2

abbrev pub npc_zero : ℕ
npc_zero = 6

abbrev pub npc_zero_n : ℕ
npc_zero_n = 4

-- `g in _NPC_DEAD_STATES`
abbrev pub is_dead : ℕ → Bool
is_dead g = g == npc_zero_p || g == npc_zero_n

-- `dead_time * DEAD_TIME_HOLD_TOL`
abbrev pub hold_limit : ℕ → ℕ
hold_limit dead_time = dead_time * 5

abbrev pub same_row : Row → Row → Bool
same_row r s = (r.t == s.t) && ((r.a == s.a) && ((r.b == s.b) && (r.c == s.c)))

unfoldable pub keep_changes : Row → List Row → List Row
keep_changes last [] = []
keep_changes last (r ∷ rs) =
    let rest = keep_changes r rs in if same_row last r then rest else r ∷ rest

-- The events that are no re-read of the event before.
unfoldable pub drop_duplicates : List Row → List Row
unfolding keep_changes
drop_duplicates [] = []
drop_duplicates (r ∷ rs) = r ∷ keep_changes r rs

-- A leg on its own: times and levels.
abbrev pub Leg : Type 0
Leg = List (ℕ × ℕ)

abbrev pub leg_of : (Row → ℕ) → List Row → Leg
leg_of phase rows = map (λ r. (r.t, phase r)) rows

-- Whether an event with a level is followed too late by the next one.
abbrev pub too_long : ℕ → ℕ → ℕ → ℕ → Bool
too_long dead_time t g next = is_dead g && ltb (t + hold_limit dead_time) next

-- `ex_t`, `ex_v`: the exits that were lost.
unfoldable pub lost_exits : ℕ → Leg → Leg
lost_exits dead_time [] = []
lost_exits dead_time ((t, g) ∷ []) = []
lost_exits dead_time ((t, g) ∷ (t', g') ∷ leg) =
    let rest = lost_exits dead_time ((t', g') ∷ leg) in
    if too_long dead_time t g t' then (t + dead_time, npc_zero) ∷ rest else rest

-- `np.argsort(st, kind="stable")`: equal times keep their order.
unfoldable pub insert_event : ℕ × ℕ → Leg → Leg
insert_event e [] = e ∷ []
insert_event e (d ∷ leg) = if leb e.0 d.0 then e ∷ d ∷ leg else d ∷ insert_event e leg

unfoldable pub sort_leg : Leg → Leg
unfolding insert_event
sort_leg [] = []
sort_leg (e ∷ leg) = insert_event e (sort_leg leg)

-- The level of the last event that is not after `u`.
unfoldable pub level_from : ℕ → Leg → ℕ → ℕ
level_from level [] u = level
level_from level ((t, g) ∷ leg) u = if leb t u then level_from g leg u else level

-- `sv[np.clip(searchsorted(st, u, side="right") - 1, 0, …)]`: before the first event, its level.
unfoldable pub level_at : Leg → ℕ → ℕ
unfolding level_from
level_at [] u = 0
level_at ((t, g) ∷ leg) u = level_from g leg u

unfoldable pub repaired_leg : ℕ → Leg → Leg
unfolding sort_leg lost_exits
repaired_leg dead_time leg = sort_leg (leg ++ lost_exits dead_time leg)

-- `np.unique`
unfoldable pub insert_unique : ℕ → List ℕ → List ℕ
insert_unique t [] = t ∷ []
insert_unique t (u ∷ us) =
    let rest = insert_unique t us in
    if ltb t u then t ∷ u ∷ us else if t == u then u ∷ us else u ∷ rest

unfoldable pub unique : List ℕ → List ℕ
unfolding insert_unique
unique [] = []
unique (t ∷ ts) = insert_unique t (unique ts)

pub record Report : Type 0 where
  pub inserted : ℕ
  pub duplicates_dropped : ℕ
  pub dead_time : ℕ

abbrev pub times_of : Leg → List ℕ
times_of leg = map (λ e. e.0) leg

-- Every leg on the union of all times.
unfoldable pub resample : ℕ → List Row → List Row
unfolding repaired_leg lost_exits unique level_at
resample dead_time work =
    let a = leg_of (λ r. r.a) work in
    let b = leg_of (λ r. r.b) work in
    let c = leg_of (λ r. r.c) work in
    let union = unique (
      map (λ r. r.t) work
      ++ (times_of (lost_exits dead_time a)
          ++ (times_of (lost_exits dead_time b) ++ times_of (lost_exits dead_time c)))) in
    map
      (λ u. record {
        t = u;
        a = level_at (repaired_leg dead_time a) u;
        b = level_at (repaired_leg dead_time b) u;
        c = level_at (repaired_leg dead_time c) u;
      })
      union

abbrev pub exits_in : ℕ → List Row → ℕ
unfolding lost_exits
exits_in dead_time work =
    length (lost_exits dead_time (leg_of (λ r. r.a) work))
    + length (lost_exits dead_time (leg_of (λ r. r.b) work))
    + length (lost_exits dead_time (leg_of (λ r. r.c) work))

-- From two events on.
unfoldable pub repair_events : ℕ → List Row → List Row × Report
unfolding drop_duplicates exits_in resample
repair_events dead_time rows =
    let work = drop_duplicates rows in
    let report : Report = record {
      inserted = exits_in dead_time work;
      duplicates_dropped = length rows - length work;
      dead_time = dead_time;
    } in
    if exits_in dead_time work == 0 then (work, report) else (resample dead_time work, report)

-- `estimate` is the dead time that is measured on the events without duplicates.
unfoldable pub repair_pwm_dead_time_holds : (List Row → ℕ) → List Row → List Row × Report
unfolding repair_events drop_duplicates
repair_pwm_dead_time_holds estimate rows =
    if ltb (length rows) 2
    then (rows, record { inserted = 0; duplicates_dropped = 0; dead_time = 0 })
    else repair_events (estimate (drop_duplicates rows)) rows
