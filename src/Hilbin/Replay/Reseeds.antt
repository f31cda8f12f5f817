-- ===== src/Hilbin/Replay/Reseeds.antt =====
-- The gaps that the replay of hilbin_vs_c.py reseeds at.
use hardware_in_the_loop.Base.{
  ℕ, zero, suc, ◌+◌, ◌-◌, ◌*◌, ◌≤◌, true, false, some, List, [], ◌∷◌, ltb, if◌then◌else◌, map,
  length, ◌≡◌, refl, sym, ap, ◌∙◌, arith, inl, inr, Bool-cases, eq→==, ne→==,
}
use mathlib.Core.Path.{subst}
use hardware_in_the_loop.Base.Int.{ℤ}
use hardware_in_the_loop.Number.{Number, ◌*F◌}
use hardware_in_the_loop.Hilbin.Repair.{Row}
use hardware_in_the_loop.Hilbin.Segment.{gaps_from, find_pwm_gaps}
use hardware_in_the_loop.Hilbin.Estimate.{Trajectory, seed_at}
use hardware_in_the_loop.Hilbin.Replay.Pointer.{entered-place}
use hardware_in_the_loop.Hilbin.Replay.{
  CModel, Channels, Loop, is_due, entered, reseeded_from, catch_up, solved, tick, steps, place_at,
  loop_start, gap_reseed_threshold, zeros,
}

abbrev pub times_of_rows : List Row → List ℕ
times_of_rows rows = map (λ r. r.t) rows

-- The gaps that begin at the event of the position or later.
abbrev pub gaps_left : {S A : Type 0} → Loop S A → List (ℕ × ℕ)
gaps_left s = gaps_from gap_reseed_threshold s.j (times_of_rows (s.current ∷ s.later))

abbrev pub total_of : List (ℕ × ℕ) → ℕ
total_of [] = 0
total_of ((i, dt) ∷ gaps) = dt + total_of gaps

gaps_from-index :
    (threshold k i dt : ℕ) (ts : List ℕ) (gaps : List (ℕ × ℕ))
    → gaps_from threshold k ts ≡ (i, dt) ∷ gaps
    → k ≤ i
unfolding gaps_from
gaps_from-index threshold k i dt [] gaps e = ground (arith, e)
gaps_from-index threshold k i dt (t ∷ []) gaps e = ground (arith, e)
gaps_from-index threshold k i dt (t ∷ t' ∷ ts) gaps e =
    ground (arith, e, gaps_from-index threshold (k + 1) i dt (t' ∷ ts) gaps)

module _ {S A : Type 0} (s : Loop S A) (event : Row) (later : List Row)
    (e : s.later ≡ event ∷ later) where
  abbrev gaps_after : List (ℕ × ℕ)
  gaps_after = gaps_from gap_reseed_threshold (s.j + 1) (times_of_rows (event ∷ later))

  found_gap :
      ltb (s.current.t + gap_reseed_threshold) event.t ≡ true
      → gaps_left s ≡ (s.j, event.t - s.current.t) ∷ gaps_after
  unfolding gaps_from
  found_gap h = rw (e, h) refl

  found_none : ltb (s.current.t + gap_reseed_threshold) event.t ≡ false → gaps_left s ≡ gaps_after
  unfolding gaps_from
  found_none h = rw (e, h) refl

module _ {S A : Type 0} ⦃n : Number A⦄ (m : CModel S A) (npp vdc : A) (sample : ℕ × Channels A)
    (samples : Trajectory (Channels A)) where
  -- Every gap is either counted or left.
  abbrev pub IsCounted : ℕ → ℕ → Loop S A → Type 0
  IsCounted count total s =
      (s.gaps ≡ gaps_left s)
      × (s.gap_count + length s.gaps ≡ count)
      × (s.gap_total + total_of s.gaps ≡ total)

  abbrev enter : List (ℕ × ℕ) → Row → List Row → Loop S A → Loop S A
  enter = entered m npp vdc (some (sample, samples))

  enter-gap :
      (i dt count total : ℕ) (gaps : List (ℕ × ℕ)) (event : Row) (later : List Row) (s : Loop S A)
      → i ≡ s.j
      → gaps ≡ gaps_from gap_reseed_threshold (s.j + 1) (times_of_rows (event ∷ later))
      → s.gap_count + suc (length gaps) ≡ count
      → s.gap_total + (dt + total_of gaps) ≡ total
      → IsCounted count total (enter ((i, dt) ∷ gaps) event later s)
  unfolding entered reseeded_from
  enter-gap i dt count total gaps event later s e g c d =
      rw (eq→== (i + 1) (s.j + 1) (omega (arith, e))) (g, omega (arith, c), omega (arith, d))

  enter-other :
      (count total : ℕ) (gaps : List (ℕ × ℕ)) (event : Row) (later : List Row) (s : Loop S A)
      → gaps ≡ gaps_from gap_reseed_threshold (s.j + 1) (times_of_rows (event ∷ later))
      → s.gap_count + length gaps ≡ count
      → s.gap_total + total_of gaps ≡ total
      → IsCounted count total (enter gaps event later s)
  unfolding entered
  enter-other count total [] event later s g c d = (g, c, d)
  enter-other count total ((i, dt) ∷ gaps) event later s g c d =
      let le = gaps_from-index gap_reseed_threshold (s.j + 1) i dt _ gaps (sym g) in
      rw (ne→== (i + 1) (s.j + 1) (λ e. omega (arith, e, le))) (g, c, d)

  enter-IsCounted :
      (count total : ℕ) (event : Row) (later : List Row) (s : Loop S A)
      → s.later ≡ event ∷ later
      → IsCounted count total s
      → IsCounted count total (enter s.gaps event later s)
  enter-IsCounted count total event later s e (g, c, d) =
      elim (Bool-cases (ltb (s.current.t + gap_reseed_threshold) event.t)) [
        | inl h ↦
            let found = g ∙ found_gap s event later e h in
            subst (λ l. IsCounted count total (enter l event later s)) (sym found)
              (enter-gap s.j (event.t - s.current.t) count total _ event later s refl refl
                (ap (λ l. s.gap_count + length l) (sym found) ∙ c)
                (ap (λ l. s.gap_total + total_of l) (sym found) ∙ d))
        | inr h ↦
            enter-other count total s.gaps event later s (g ∙ found_none s event later e h) c d
      ]

  catch_up-IsCounted :
      (delay : ℤ) (t count total : ℕ) (later : List Row) (s : Loop S A)
      → s.later ≡ later
      → IsCounted count total s
      → IsCounted count total (catch_up m npp vdc (some (sample, samples)) delay t later s)
  unfolding catch_up
  catch_up-IsCounted delay t count total [] s e h = h
  catch_up-IsCounted delay t count total (event ∷ later) s e h =
      elim (Bool-cases (is_due delay t event.t)) [
        | inl d ↦ rw d (
            catch_up-IsCounted delay t count total later (enter s.gaps event later s)
              ((entered-place m npp vdc (some (sample, samples)) s.gaps event later s).1)
              (enter-IsCounted count total event later s e h))
        | inr d ↦ rw d h
      ]

  -- What a reseeding sets: the model and the two filters.
  abbrev pub Seeded : Type 0
  Seeded = S × Channels A × Channels A

  abbrev pub seeded_of : Loop S A → Seeded
  seeded_of s = (s.model, s.lp, s.bp)

  -- The model gets the channels of the capture at a time, and the electrical speed; the filters start
  -- from them.
  abbrev pub reseed_at : ℕ → Seeded → Seeded
  reseed_at t x =
      let seed = seed_at sample.1 (sample ∷ samples) t in
      (m.set_out seed (seed.speed *F npp) x.0, seed, zeros)

  -- The specification, which looks at the times of the events and keeps no list of gaps: of the events
  -- that are due, each one that comes later than the threshold after the one before reseeds.
  unfoldable pub reseeded : ℤ → ℕ → Row → List Row → Seeded → Seeded
  reseeded delay t prev [] x = x
  reseeded delay t prev (event ∷ later) x =
      let here = if ltb (prev.t + gap_reseed_threshold) event.t then reseed_at event.t x else x in
      let rest = reseeded delay t event later here in if is_due delay t event.t then rest else x

  enter-at_gap :
      (i dt : ℕ) (gaps : List (ℕ × ℕ)) (event : Row) (later : List Row) (s : Loop S A)
      → i ≡ s.j
      → seeded_of (enter ((i, dt) ∷ gaps) event later s) ≡ reseed_at event.t (seeded_of s)
  unfolding entered reseeded_from
  enter-at_gap i dt gaps event later s e = rw (eq→== (i + 1) (s.j + 1) (omega (arith, e))) refl

  enter-elsewhere :
      (gaps : List (ℕ × ℕ)) (event : Row) (later : List Row) (s : Loop S A)
      → gaps ≡ gaps_from gap_reseed_threshold (s.j + 1) (times_of_rows (event ∷ later))
      → seeded_of (enter gaps event later s) ≡ seeded_of s
  unfolding entered
  enter-elsewhere [] event later s g = refl
  enter-elsewhere ((i, dt) ∷ gaps) event later s g =
      let le = gaps_from-index gap_reseed_threshold (s.j + 1) i dt _ gaps (sym g) in
      rw (ne→== (i + 1) (s.j + 1) (λ e. omega (arith, e, le))) refl

  enter-reseeds :
      (event : Row) (later : List Row) (s : Loop S A)
      → s.later ≡ event ∷ later
      → s.gaps ≡ gaps_left s
      → seeded_of (enter s.gaps event later s) ≡ (
          if ltb (s.current.t + gap_reseed_threshold) event.t
          then reseed_at event.t (seeded_of s)
          else seeded_of s)
  enter-reseeds event later s e g =
      elim (Bool-cases (ltb (s.current.t + gap_reseed_threshold) event.t)) [
        | inl h ↦ rw h (
            ap (λ l. seeded_of (enter l event later s)) (g ∙ found_gap s event later e h)
            ∙ enter-at_gap s.j (event.t - s.current.t) _ event later s refl)
        | inr h ↦ rw h (enter-elsewhere s.gaps event later s (g ∙ found_none s event later e h))
      ]

  catch_up-reseeded :
      (delay : ℤ) (t count total : ℕ) (later : List Row) (s : Loop S A)
      → s.later ≡ later
      → IsCounted count total s
      → seeded_of (catch_up m npp vdc (some (sample, samples)) delay t later s)
        ≡ reseeded delay t s.current later (seeded_of s)
  unfolding catch_up reseeded
  catch_up-reseeded delay t count total [] s e h = refl
  catch_up-reseeded delay t count total (event ∷ later) s e h =
      let s' = enter s.gaps event later s in
      let (at_event, left) =
        entered-place m npp vdc (some (sample, samples)) s.gaps event later s in
      elim (Bool-cases (is_due delay t event.t)) [
        | inl d ↦ rw d (
            catch_up-reseeded delay t count total later s' left
              (enter-IsCounted count total event later s e h)
            ∙ ap (λ r. reseeded delay t r later (seeded_of s')) at_event
            ∙ ap (reseeded delay t event later) (enter-reseeds event later s e h.0))
        | inr d ↦ rw d refl
      ]

  -- All gaps are accounted for, and the inner loop at a time reseeds as the specification says.
  abbrev pub IsReseeded : ℤ → ℕ → ℕ → ℕ → Loop S A → Type 0
  IsReseeded delay t count total s =
      IsCounted count total s
      × (seeded_of (catch_up m npp vdc (some (sample, samples)) delay t s.later s)
          ≡ reseeded delay t s.current s.later (seeded_of s))

  module _ (delay : ℤ) (tload : ℕ → A) (ts t_start store_every count total : ℕ) where
    steps-IsCounted :
        (k i : ℕ) (s : Loop S A)
        → IsCounted count total s
        → IsCounted count total
            (steps m npp vdc (some (sample, samples)) delay tload ts t_start store_every k i s).1
    unfolding steps tick solved
    steps-IsCounted zero i s h = h
    steps-IsCounted (suc k) i s h =
        steps-IsCounted k (i + 1)
          (tick m npp vdc (some (sample, samples)) delay tload (t_start + i * ts) s)
          (catch_up-IsCounted delay (t_start + i * ts) count total s.later s refl h)

  -- With a capture to seed from, and no event but the first that is due at the start, after any number
  -- of steps: the reseeds counted, and the gaps that begin at the current event or later, are all the gaps
  -- of the events, and so are their lengths in sum; and what the next step has done to the model and to
  -- the filters before it solves is what the times of the events say: for each event that has become due
  -- and comes later than the threshold after the one before, the model is set to the channels of the
  -- capture at its time and their electrical speed, and the filters start from them again.
  pub steps-reseeds :
      (delay : ℤ) (tload : ℕ → A) (ts t_start store_every k t : ℕ) (seed : Channels A) (model : S)
      (first : Row) (later : List Row)
      → place_at delay t_start 0 first later ≡ (0, first, later)
      → IsReseeded delay t
          (length (find_pwm_gaps gap_reseed_threshold (times_of_rows (first ∷ later))))
          (total_of (find_pwm_gaps gap_reseed_threshold (times_of_rows (first ∷ later))))
          (steps m npp vdc
            (some (sample, samples))
            delay
            tload
            ts
            t_start
            store_every
            k
            0
            (loop_start m npp vdc (some (sample, samples)) delay t_start seed model first later)).1
  unfolding loop_start find_pwm_gaps
  steps-reseeds delay tload ts t_start store_every k t seed model first later e =
      let s =
        (steps m npp vdc (some (sample, samples)) delay tload ts t_start store_every k 0
          (loop_start m npp vdc (some (sample, samples)) delay t_start seed model first later)).1 in
      let h =
        steps-IsCounted delay tload ts t_start store_every _ _ k 0
          (loop_start m npp vdc (some (sample, samples)) delay t_start seed model first later)
          (rw e (refl, omega arith, omega arith)) in
      (h, catch_up-reseeded delay t _ _ s.later s refl h)
