-- ===== src/Watchdog.antt =====
-- scripts/hil-watchdog.py: the loop over the answers of the board. The commands over SSH are actions.
pub mod Streak
mod Tests
use hardware_in_the_loop.Base.{
  ℕ, suc, ◌+◌, Bool, true, false, List, [], ◌∷◌, ◌++◌, if◌then◌else◌, leb, ◌==◌,
}

abbrev pub threshold : ℕ
threshold = 2

abbrev pub interval : ℕ
interval = 30

pub data Action : Type 0 where
  sleep : ℕ → Action
  log_recovered : ℕ → Action
  log_unresponsive : ℕ → Action
  kill_controller : Action
  start_controller : Action

-- `restart`: whatever fails within it is logged, and the loop goes on. `reached` says that the
-- first command came through. What is logged of a restart is left out.
unfoldable pub restart : Bool → List Action
restart reached = kill_controller ∷ (if reached then sleep 2 ∷ start_controller ∷ [] else [])

-- The counter and the actions after one ping.
unfoldable pub watch_step : ℕ → Bool → Bool → ℕ × List Action
unfolding restart
watch_step fails reached true =
    (0, sleep interval ∷ (if fails == 0 then [] else log_recovered fails ∷ []))
watch_step fails reached false =
    let warned = sleep interval ∷ log_unresponsive (fails + 1) ∷ [] in
    if leb threshold (fails + 1)
    then (0, warned ++ (restart reached ++ sleep 10 ∷ []))
    else (fails + 1, warned)

-- The pings in their order; `reached` as for `restart`.
unfoldable pub watch : ℕ → List (Bool × Bool) → List (List Action)
unfolding watch_step
watch fails [] = []
watch fails ((answered, reached) ∷ pings) =
    let next = watch_step fails reached answered in next.1 ∷ watch next.0 pings
