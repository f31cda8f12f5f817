-- ===== src/Hilbin/Replay/Pointer.antt =====
-- The event that the replay of hilbin_vs_c.py applies at each step.
use hardware_in_the_loop.Base.{
  ℕ, zero, suc, ◌+◌, ◌*◌, ◌≤◌, ◌==◌, none, some, true, false, List, [], ◌∷◌, select, All, ◌≡◌, refl,
  ap, ◌∙◌, arith, inl, inr, Bool-cases, select-All,
}
use hardware_in_the_loop.Base.Int.{ℤ, ◌+ℤ◌}
use hardware_in_the_loop.Number.{Number}
use hardware_in_the_loop.Hilbin.Repair.{Row}
use hardware_in_the_loop.Hilbin.Replay.{
  CModel, Channels, Loop, Fpga, is_due, entered, reseeded_from, catch_up, solved, tick, steps,
  place_at, loop_start, gate_volts,
}
use mathlib.Core.Path.{subst}

-- The last event that is due, looked for from the beginning: the specification of `j`.
abbrev pub last_or : Row → List Row → Row
last_or r [] = r
last_or r (event ∷ events) = last_or event events

abbrev pub applied : ℤ → Row → List Row → ℕ → Row
applied delay first later t = last_or first (select (λ r. is_due delay t r.t) later)

abbrev pub Ascending : List Row → Type 0
Ascending [] = Unit
Ascending (r ∷ []) = Unit
Ascending (r ∷ r' ∷ rows) = (r.t ≤ r'.t) × Ascending (r' ∷ rows)

is_due-later :
    (delay : ℤ) (t t' event : ℕ)
    → t ≤ t'
    → is_due delay t event ≡ true
    → is_due delay t' event ≡ true
unfolding is_due ◌+ℤ◌
is_due-later delay t t' event le h = ground arith

is_due-earlier :
    (delay : ℤ) (t event event' : ℕ)
    → event ≤ event'
    → is_due delay t event ≡ false
    → is_due delay t event' ≡ false
unfolding is_due ◌+ℤ◌
is_due-earlier delay t event event' le h = ground arith

later-Ascending : (r : Row) (rows : List Row) → Ascending (r ∷ rows) → Ascending rows
later-Ascending r [] asc = tt
later-Ascending r (r' ∷ rows) asc = asc.1

none_due :
    (delay : ℤ) (t : ℕ) (r : Row) (rows : List Row)
    → Ascending (r ∷ rows)
    → is_due delay t r.t ≡ false
    → All (λ e. is_due delay t e.t ≡ false) (r ∷ rows)
none_due delay t r [] asc h = (h, tt)
none_due delay t r (r' ∷ rows) (le, asc) h =
    (h, none_due delay t r' rows asc (is_due-earlier delay t r.t r'.t le h))

place_at-seen :
    (delay : ℤ) (t t' j : ℕ) (current : Row) (later : List Row)
    → t ≤ t'
    → last_or
        (place_at delay t j current later).1
        (select (λ r. is_due delay t' r.t) (place_at delay t j current later).2)
      ≡ applied delay current later t'
unfolding place_at
place_at-seen delay t t' j current [] le = refl
place_at-seen delay t t' j current (event ∷ later) le = elim (Bool-cases (is_due delay t event.t)) [
  | inl h ↦
      rw (h, is_due-later delay t t' event.t le h) (place_at-seen delay t t' (j + 1) event later le)
  | inr h ↦ rw h refl
]

place_at-Ascending :
    (delay : ℤ) (t j : ℕ) (current : Row) (later : List Row)
    → Ascending later
    → Ascending (place_at delay t j current later).2
unfolding place_at
place_at-Ascending delay t j current [] asc = tt
place_at-Ascending delay t j current (event ∷ later) asc =
    elim (Bool-cases (is_due delay t event.t)) [
      | inl h ↦
          rw h (place_at-Ascending delay t (j + 1) event later (later-Ascending event later asc))
      | inr h ↦ rw h asc
    ]

module _ {S A : Type 0} ⦃n : Number A⦄ (m : CModel S A) (npp vdc : A) (fpga : Fpga A) where
  reseeded_from-place :
      (f : Fpga A) (t dt : ℕ) (s : Loop S A)
      → ((reseeded_from m npp vdc fpga f t dt s).current ≡ s.current)
        × ((reseeded_from m npp vdc fpga f t dt s).later ≡ s.later)
  unfolding reseeded_from
  reseeded_from-place none t dt s = (refl, refl)
  reseeded_from-place (some (first, samples)) t dt s = (refl, refl)

  pub entered-place :
      (gaps : List (ℕ × ℕ)) (event : Row) (later : List Row) (s : Loop S A)
      → ((entered m npp vdc fpga gaps event later s).current ≡ event)
        × ((entered m npp vdc fpga gaps event later s).later ≡ later)
  unfolding entered
  entered-place [] event later s = (refl, refl)
  entered-place ((i, dt) ∷ gaps) event later s = elim (Bool-cases (i + 1 == s.j + 1)) [
    | inl e ↦ rw e (reseeded_from-place fpga event.t dt _)
    | inr e ↦ rw e (refl, refl)
  ]

  -- The last event that is due at `t'`, as seen from the position.
  abbrev pub seen : ℤ → ℕ → Loop S A → Row
  seen delay t' s = last_or s.current (select (λ r. is_due delay t' r.t) s.later)

  seen-entered :
      (delay : ℤ) (t' : ℕ) (event : Row) (later : List Row) (s : Loop S A)
      → s.later ≡ event ∷ later
      → is_due delay t' event.t ≡ true
      → seen delay t' (entered m npp vdc fpga s.gaps event later s) ≡ seen delay t' s
  seen-entered delay t' event later s e h =
      let (c, l) = entered-place s.gaps event later s in rw (c, l, e, h) refl

  -- The inner loop does not change what is seen at its time, or at a later one.
  seen-catch_up :
      (delay : ℤ) (t t' : ℕ) (later : List Row) (s : Loop S A)
      → t ≤ t'
      → s.later ≡ later
      → seen delay t' (catch_up m npp vdc fpga delay t later s) ≡ seen delay t' s
  unfolding catch_up
  seen-catch_up delay t t' [] s le e = refl
  seen-catch_up delay t t' (event ∷ later) s le e = elim (Bool-cases (is_due delay t event.t)) [
    | inl h ↦ rw h (
        seen-catch_up delay t t' later (entered m npp vdc fpga s.gaps event later s) le
          ((entered-place s.gaps event later s).1)
        ∙ seen-entered delay t' event later s e (is_due-later delay t t' event.t le h))
    | inr h ↦ rw h refl
  ]

  -- After it, no event that is left is due.
  current-catch_up :
      (delay : ℤ) (t : ℕ) (later : List Row) (s : Loop S A)
      → s.later ≡ later
      → Ascending later
      → (catch_up m npp vdc fpga delay t later s).current
        ≡ seen delay t (catch_up m npp vdc fpga delay t later s)
  unfolding catch_up
  current-catch_up delay t [] s e asc = rw e refl
  current-catch_up delay t (event ∷ later) s e asc = elim (Bool-cases (is_due delay t event.t)) [
    | inl h ↦ rw h (
        current-catch_up delay t later (entered m npp vdc fpga s.gaps event later s)
          ((entered-place s.gaps event later s).1) (later-Ascending event later asc))
    | inr h ↦
        rw (h, e)
          (rw
            (select-All (λ r. is_due delay t r.t) (event ∷ later)
              (none_due delay t event later asc h))
            refl)
  ]

  catch_up-Ascending :
      (delay : ℤ) (t : ℕ) (later : List Row) (s : Loop S A)
      → s.later ≡ later
      → Ascending later
      → Ascending (catch_up m npp vdc fpga delay t later s).later
  unfolding catch_up
  catch_up-Ascending delay t [] s e asc = rw e tt
  catch_up-Ascending delay t (event ∷ later) s e asc = elim (Bool-cases (is_due delay t event.t)) [
    | inl h ↦ rw h (
        catch_up-Ascending delay t later (entered m npp vdc fpga s.gaps event later s)
          ((entered-place s.gaps event later s).1) (later-Ascending event later asc))
    | inr h ↦ rw (h, e) asc
  ]

  -- The model stepped with the voltages of an event and a load.
  abbrev pub stepped_by : A → Row → S → S
  unfolding gate_volts
  stepped_by load event model =
      m.step (gate_volts event.a vdc) (gate_volts event.b vdc) (gate_volts event.c vdc) load model

  -- The loop after the events that are due at a time have been entered, and the gaps among them reseeded.
  abbrev pub caught_up : ℤ → ℕ → Loop S A → Loop S A
  unfolding catch_up
  caught_up delay t s = catch_up m npp vdc fpga delay t s.later s

  module _ (delay : ℤ) (tload : ℕ → A) (ts t_start store_every : ℕ) (first : Row)
      (rows : List Row) where
    -- The position holds what the specification looks for, at `t` and from then on.
    abbrev pub IsPlaced : ℕ → Loop S A → Type 0
    IsPlaced t s =
        Ascending s.later × ((t' : ℕ) → t ≤ t' → seen delay t' s ≡ applied delay first rows t')

    tick-IsPlaced :
        (t : ℕ) (s : Loop S A)
        → IsPlaced t s
        → IsPlaced t (tick m npp vdc fpga delay tload t s)
          × ((tick m npp vdc fpga delay tload t s).model
              ≡ stepped_by (tload t) (applied delay first rows t) (caught_up delay t s).model)
    unfolding tick solved stepped_by caught_up
    tick-IsPlaced t s (asc, h) = (
      (
        catch_up-Ascending delay t s.later s refl asc,
        λ t' le. seen-catch_up delay t t' s.later s le refl ∙ h t' le,
      ),
      ap (λ r. stepped_by (tload t) r (caught_up delay t s).model)
          (current-catch_up delay t s.later s refl asc
            ∙ (seen-catch_up delay t t s.later s (omega arith) refl ∙ h t (omega arith))),
    )

    -- The loop after so many steps from step `k` on.
    abbrev loop_after : ℕ → ℕ → Loop S A → Loop S A
    loop_after count k s = (steps m npp vdc fpga delay tload ts t_start store_every count k s).1

    model-steps :
        (count k i : ℕ) (s : Loop S A)
        → k + count ≡ i
        → IsPlaced (t_start + k * ts) s
        → (loop_after (suc count) k s).model
          ≡ stepped_by
              (tload (t_start + i * ts))
              (applied delay first rows (t_start + i * ts))
              (caught_up delay (t_start + i * ts) (loop_after count k s)).model
    unfolding steps
    model-steps zero k i s e h =
        subst
          (λ j.
            (tick m npp vdc fpga delay tload (t_start + k * ts) s).model
            ≡ stepped_by (tload (t_start + j * ts)) (applied delay first rows (t_start + j * ts))
                (caught_up delay (t_start + j * ts) s).model)
          (omega (arith, e)) ((tick-IsPlaced (t_start + k * ts) s h).1)
    model-steps (suc count) k i s e (asc, h) =
        let ((asc', h'), _) = tick-IsPlaced (t_start + k * ts) s (asc, h) in
        model-steps count (k + 1) i (tick m npp vdc fpga delay tload (t_start + k * ts) s)
          (omega (arith, e)) (asc', λ t' le. h' t' (omega (arith, le)))

  -- Where the events are in order, a step gives the model, as the reseeding at this step has left it, the
  -- voltages of the last event that is due at the time of the step, or of the first one where none is,
  -- leg by leg, and the load at that time, whatever gaps have been reseeded before: the position that
  -- moves on equals a search from the beginning.
  pub steps-applied :
      (delay : ℤ) (tload : ℕ → A) (ts t_start store_every count : ℕ) (seed : Channels A) (model : S)
      (first : Row) (later : List Row)
      → Ascending (first ∷ later)
      → (steps m npp vdc fpga delay tload ts t_start store_every
          (suc count)
          0
          (loop_start m npp vdc fpga delay t_start seed model first later)).1.model
        ≡ stepped_by
            (tload (t_start + count * ts))
            (applied delay first later (t_start + count * ts))
            (caught_up delay
              (t_start + count * ts)
              (steps m npp vdc fpga delay tload ts t_start store_every count 0
                (loop_start m npp vdc fpga delay t_start seed model first later)).1).model
  unfolding loop_start
  steps-applied delay tload ts t_start store_every count seed model first later asc =
      model-steps delay tload ts t_start store_every first later count 0 count
        (loop_start m npp vdc fpga delay t_start seed model first later) (omega arith)
        (
          place_at-Ascending delay t_start 0 first later (later-Ascending first later asc),
          λ t' le. place_at-seen delay t_start t' 0 first later (omega (arith, le)),
        )
