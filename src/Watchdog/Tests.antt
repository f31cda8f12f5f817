-- ===== src/Watchdog/Tests.antt =====
-- Tests of the watchdog, and its theorem at a concrete input.
use hardware_in_the_loop.Base.{Bool, true, false, List, [], ◌∷◌, ◌≡◌}
use hardware_in_the_loop.Watchdog.{watch}
use hardware_in_the_loop.Watchdog.Streak.{kills, starts, watch-kills}

abbrev pings : List (Bool × Bool)
pings =
    (false, true)
    ∷ (true, true)
    ∷ (false, true)
    ∷ (false, false)
    ∷ (false, true)
    ∷ (false, true)
    ∷ []

watch-kills_example :
    (kills (watch 0 pings) ≡ false ∷ false ∷ false ∷ true ∷ false ∷ true ∷ [])
    × (starts (watch 0 pings) ≡ false ∷ false ∷ false ∷ false ∷ false ∷ true ∷ [])
watch-kills_example = watch-kills pings
