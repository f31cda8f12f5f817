-- ===== src/Watchdog/Streak.antt =====
-- When the controller is restarted.
use hardware_in_the_loop.Base.{
  ℕ, suc, ◌%◌, Bool, true, false, ◌&&◌, List, [], ◌∷◌, if◌then◌else◌, ◌==◌, map, any, ◌≡◌, refl,
  ◌∙◌, ap, arith,
}
use mathlib.Core.Path.{ap₂}
use hardware_in_the_loop.Watchdog.{
  Action, kill_controller, start_controller, log_recovered, restart, watch_step, watch,
}

abbrev is_kill : Action → Bool
is_kill kill_controller = true
is_kill _ = false

abbrev is_start : Action → Bool
is_start start_controller = true
is_start _ = false

-- Whether the controller is started again, for each ping: at some place after it is killed.
abbrev started_after : List Action → Bool
started_after [] = false
started_after (kill_controller ∷ actions) = any is_start actions
started_after (_ ∷ actions) = started_after actions

abbrev pub starts : List (List Action) → List Bool
starts rounds = map started_after rounds

-- The pings at which the first command of a restart comes through.
abbrev pub reached_of : List (Bool × Bool) → List Bool
reached_of pings = map (λ p. p.1) pings

abbrev pub both : List Bool → List Bool → List Bool
both [] ys = []
both (x ∷ xs) [] = []
both (x ∷ xs) (y ∷ ys) = (x && y) ∷ both xs ys

-- Whether the controller is killed, for each ping.
abbrev pub kills : List (List Action) → List Bool
kills rounds = map (λ actions. any is_kill actions) rounds

-- For each ping: it failed, and so did an odd number of pings just before it.
abbrev pub even_streaks : ℕ → List (Bool × Bool) → List Bool
even_streaks streak [] = []
even_streaks streak ((true, reached) ∷ pings) = false ∷ even_streaks 0 pings
even_streaks streak ((false, reached) ∷ pings) =
    (suc streak % 2 == 0) ∷ even_streaks (suc streak) pings

watch_step-kills :
    (streak : ℕ) (reached : Bool)
    → any is_kill (watch_step (streak % 2) reached false).1 ≡ (suc streak % 2 == 0)
unfolding watch_step restart
watch_step-kills streak true = ground arith
watch_step-kills streak false = ground arith

watch_step-count :
    (streak : ℕ) (reached : Bool) → (watch_step (streak % 2) reached false).0 ≡ suc streak % 2
unfolding watch_step
watch_step-count streak reached = ground arith

no_kill : (n : ℕ) → any is_kill (if n == 0 then [] else log_recovered n ∷ []) ≡ false
no_kill n = ground arith

kills_from :
    (streak : ℕ) (pings : List (Bool × Bool))
    → kills (watch (streak % 2) pings) ≡ even_streaks streak pings
unfolding watch
kills_from streak [] = refl
kills_from streak ((true, reached) ∷ pings) =
    ap₂ (λ b bs. b ∷ bs) (no_kill (streak % 2)) (kills_from 0 pings)
kills_from streak ((false, reached) ∷ pings) =
    ap₂ (λ b bs. b ∷ bs) (watch_step-kills streak reached)
      (ap (λ n. kills (watch n pings)) (watch_step-count streak reached)
        ∙ kills_from (suc streak) pings)

watch_step-starts :
    (streak : ℕ) (reached : Bool)
    → started_after (watch_step (streak % 2) reached false).1 ≡ ((suc streak % 2 == 0) && reached)
unfolding watch_step restart
watch_step-starts streak true = ground arith
watch_step-starts streak false = ground arith

no_start : (n : ℕ) → started_after (if n == 0 then [] else log_recovered n ∷ []) ≡ false
no_start n = ground arith

starts_from :
    (streak : ℕ) (pings : List (Bool × Bool))
    → starts (watch (streak % 2) pings) ≡ both (even_streaks streak pings) (reached_of pings)
unfolding watch
starts_from streak [] = refl
starts_from streak ((true, reached) ∷ pings) =
    ap₂ (λ b bs. b ∷ bs) (no_start (streak % 2)) (starts_from 0 pings)
starts_from streak ((false, reached) ∷ pings) =
    ap₂ (λ b bs. b ∷ bs) (watch_step-starts streak reached)
      (ap (λ n. starts (watch n pings)) (watch_step-count streak reached)
        ∙ starts_from (suc streak) pings)

-- The controller is killed at every second failure in a row, and never else: at a ping exactly if it
-- fails and the failures in a row, itself included, are even in number. After it has been killed, it is
-- started again exactly if the command that kills it came through.
pub watch-kills :
    (pings : List (Bool × Bool))
    → (kills (watch 0 pings) ≡ even_streaks 0 pings)
      × (starts (watch 0 pings) ≡ both (even_streaks 0 pings) (reached_of pings))
watch-kills pings = (kills_from 0 pings, starts_from 0 pings)
