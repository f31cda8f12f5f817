-- ===== src/Acquisition/Order.antt =====
-- The order of the calls in a campaign on the board, and its exit code.
use hardware_in_the_loop.Base.{
  ℕ, zero, suc, any, take, ltb, ◌≢◌, ◌+◌, Bool, true, false, ◌||◌, sym, Option, none, some, List,
  [], ◌∷◌, ◌++◌, if◌then◌else◌, length, ◌≡◌, refl, ◌∙◌, ap, arith, Bool-cases, inl, inr,
}
use mathlib.Core.Path.{subst}
use Prim.Native.String.{String}
use text.Mathlib.Text.{◌==◌ as str_eq}
use hardware_in_the_loop.Acquisition.{
  Scenario, Event, get_status, set_all, run, wait_until, set_torque, stop, pause, copied, Answers,
  Outcome, captured, no_capture, is_raised, cut_off, scenario_events, wait_idle, torque_events,
  after_stop, run_scenario, run_cases, main, tail_buffer,
}

-- Whether the motor runs, as the calls have it: `none` after a call at the wrong time. It is set up
-- only at rest, its load changes only while it runs, and a capture is taken only at rest.
abbrev pub next : Bool → Event → Option Bool
next running get_status = some running
next running (set_all t_acc torque) = if running then none else some false
next running run = if running then none else some true
next running (wait_until t) = if running then some true else none
next running (set_torque torque) = if running then some true else none
next running stop = if running then some false else none
next running (pause t) = some running
next running (copied file) = if running then none else some false

abbrev pub drive : Option Bool → List Event → Option Bool
drive none events = none
drive (some running) [] = some running
drive (some running) (e ∷ events) = drive (next running e) events

drive-append : (o : Option Bool) (xs ys : List Event) → drive o (xs ++ ys) ≡ drive (drive o xs) ys
drive-append none xs ys = refl
drive-append (some b) [] ys = refl
drive-append (some b) (e ∷ xs) ys = drive-append (next b e) xs ys

wait_idle-drive :
    (states : List String) (later : List Event)
    → drive (some false) (wait_idle states ++ later) ≡ drive (some false) later
unfolding wait_idle
wait_idle-drive [] later = refl
wait_idle-drive (st ∷ states) later = elim (Bool-cases (str_eq st "stopped")) [
  | inl e ↦ rw e refl
  | inr e ↦ rw e (wait_idle-drive states later)
]

after_stop-drive :
    (state : String) (capture : Option String) (states : List String) (raises : Option ℕ)
    → drive (some false) (
        after_stop
          (record { state = state; capture = capture; states_after = states; raises = raises }))
      ≡ some false
unfolding after_stop
after_stop-drive state none states raises = refl
after_stop-drive state (some file) states raises = wait_idle-drive states (pause 2000 ∷ [])

torque_events-drive :
    (step : Option (ℕ × String)) (later : List Event)
    → drive (some true) (torque_events step ++ later) ≡ drive (some true) later
torque_events-drive none later = refl
torque_events-drive (some (t, torque)) later = refl

scenario_events-drive :
    (s : Scenario) (a : Answers) → drive (some false) (scenario_events s a).0 ≡ some false
unfolding scenario_events after_stop
scenario_events-drive s a = elim (Bool-cases (str_eq a.state "stopped")) [
  | inl e ↦ rw e (
      torque_events-drive s.load_step
        (wait_until (s.duration + tail_buffer) ∷ stop ∷ pause 1000 ∷ after_stop a)
      ∙ after_stop-drive a.state a.capture a.states_after a.raises)
  | inr e ↦ rw e refl
]

drive-first :
    (o : Option Bool) (k : ℕ) (events : List Event)
    → drive o events ≢ none
    → drive o (take k events) ≢ none
drive-first none k events h = absurd (h refl)
drive-first (some b) zero events h = λ e. ground (arith, e)
drive-first (some b) (suc k) [] h = h
drive-first (some b) (suc k) (e ∷ events) h = drive-first (next b e) k events h

-- After a call has raised, all that is said is that the calls were in order; else the motor stands.
abbrev pub IsDriven : Bool → Option Bool → Type 0
IsDriven true o = o ≢ none
IsDriven false o = o ≡ some false

-- A campaign that has not been cut off, with the motor at rest: it is in order.
at_rest-IsDriven : (b : Bool) (o : Option Bool) → o ≡ some false → IsDriven b o
at_rest-IsDriven true o e = λ k. ground (arith, e, k)
at_rest-IsDriven false o e = e

cut_off-drive :
    (raises : Option ℕ) (results : List Event × Outcome)
    → drive (some false) results.0 ≡ some false
    → is_raised results.1 ≡ false
    → IsDriven
        (is_raised (cut_off raises results).1)
        (drive (some false) (cut_off raises results).0)
cut_off-drive none results h k = at_rest-IsDriven _ _ h
cut_off-drive (some place) (events, outcome) h k = elim (Bool-cases (ltb place (length events))) [
  | inl e ↦ rw e (drive-first (some false) place events (λ n. ground (arith, h, n)))
  | inr e ↦ rw e (at_rest-IsDriven _ _ h)
]

outcome_of-raised :
    (capture : Option String)
    → is_raised (elim capture [ none ↦ no_capture | some file ↦ captured file ]) ≡ false
outcome_of-raised none = refl
outcome_of-raised (some file) = refl

scenario_events-raised : (s : Scenario) (a : Answers) → is_raised (scenario_events s a).1 ≡ false
unfolding scenario_events
scenario_events-raised s a = elim (Bool-cases (str_eq a.state "stopped")) [
  | inl e ↦ rw e (outcome_of-raised a.capture)
  | inr e ↦ rw e refl
]

run_scenario-IsDriven :
    (s : Scenario) (a : Answers)
    → IsDriven (is_raised (run_scenario s a).1) (drive (some false) (run_scenario s a).0)
unfolding run_scenario
run_scenario-IsDriven s a =
    cut_off-drive a.raises (scenario_events s a) (scenario_events-drive s a)
      (scenario_events-raised s a)

run_cases-IsDriven :
    (cases : List (Scenario × Answers))
    → IsDriven (any is_raised (run_cases cases).1) (drive (some false) (run_cases cases).0)
unfolding run_cases
run_cases-IsDriven [] = refl
run_cases-IsDriven ((s, a) ∷ cases) =
    let one = run_scenario s a in
    let rest = run_cases cases in
    let here = run_scenario-IsDriven s a in
    elim (Bool-cases (is_raised one.1)) [
      | inl e ↦ rw e (
          subst (λ b. IsDriven (b || false) (drive (some false) one.0)) (sym e)
            (subst (λ b. IsDriven b (drive (some false) one.0)) e here))
      | inr e ↦ rw e (
          subst (λ b. IsDriven (b || any is_raised rest.1) (drive (some false) (one.0 ++ rest.0)))
            (sym e)
            (subst (IsDriven (any is_raised rest.1))
              (sym (
                drive-append (some false) one.0 rest.0
                ∙ ap (λ o. drive o rest.0)
                    (subst (λ b. IsDriven b (drive (some false) one.0)) e here)))
              (run_cases-IsDriven cases)))
    ]

-- A campaign on the board makes its calls in a safe order, whatever the gateway answers and wherever a
-- call raises: the motor is set up and a capture copied only while it stands, the load changes only
-- while it runs, and no run starts during another. If no call raises, every run is stopped, and at the
-- end the motor stands, as the calls have it.
pub main-drive :
    (reachable : Bool) (cases : List (Scenario × Answers))
    → IsDriven (any is_raised (run_cases cases).1) (drive (some false) (main reachable cases).0)
unfolding main
main-drive false cases = at_rest-IsDriven _ _ refl
main-drive true cases = run_cases-IsDriven cases
