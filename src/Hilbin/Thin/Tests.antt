-- ===== src/Hilbin/Thin/Tests.antt =====
-- The thinning of a plot at a concrete signal.
use hardware_in_the_loop.Base.{List, [], ◌∷◌, ◌≡◌, refl}
use hardware_in_the_loop.Base.Int.{ℤ, pos, negsuc}
use hardware_in_the_loop.Number.Integers.{integers}
use hardware_in_the_loop.Hilbin.Thin.{kept_indices}

abbrev signal : List ℤ
signal = pos 1 ∷ pos 5 ∷ pos 2 ∷ pos 0 ∷ pos 7 ∷ negsuc 2 ∷ pos 4 ∷ []

-- Two bins of three and four samples: the least and the greatest of each.
envelope : kept_indices 4 signal ≡ 0 ∷ 1 ∷ 4 ∷ 5 ∷ []
unfolding kept_indices integers
envelope = refl
