-- ===== src/Campaign/Log.antt =====
-- run_campaign_matrix.py: _cocotb_run_passed. A line is the list of its code points; of the classes
-- \s and \d the ASCII members are modelled. The expression never has to go back: after a class
-- comes a character outside it.
use hardware_in_the_loop.Base.{
  ℕ, ◌+◌, ◌-◌, ◌*◌, Bool, false, ◌&&◌, ◌||◌, Option, none, some, List, [], ◌∷◌, if◌then◌else◌, leb,
  ◌==◌,
}
use Prim.Native.String.{String}
use Prim.Native.Char.{code}
use hardware_in_the_loop.Campaign.{◌>>=◌}

abbrev pub codes : String → List ℕ
codes String.[] = []
codes (String.◌∷◌ first rest) = code first ∷ codes rest

abbrev pub is_digit : ℕ → Bool
is_digit c = leb 48 c && leb c 57

abbrev pub is_space : ℕ → Bool
is_space c = (leb 9 c && leb c 13) || (leb 28 c && leb c 32)

-- What is left of a text after a given beginning.
unfoldable pub after : List ℕ → List ℕ → Option (List ℕ)
after [] cs = some cs
after (k ∷ ks) [] = none
after (k ∷ ks) (c ∷ cs) = if k == c then after ks cs else none

-- `\s*`
unfoldable pub skip_spaces : List ℕ → List ℕ
skip_spaces [] = []
skip_spaces (c ∷ cs) = let rest = skip_spaces cs in if is_space c then rest else c ∷ cs

-- `\s+`
unfoldable pub some_spaces : List ℕ → Option (List ℕ)
unfolding skip_spaces
some_spaces [] = none
some_spaces (c ∷ cs) = if is_space c then some (skip_spaces cs) else none

unfoldable pub digits_of : List ℕ → List ℕ × List ℕ
digits_of [] = ([], [])
digits_of (c ∷ cs) =
    let rest = digits_of cs in if is_digit c then (c ∷ rest.0, rest.1) else ([], c ∷ cs)

abbrev pub not_empty : List ℕ × List ℕ → Option (List ℕ × List ℕ)
not_empty ([], cs) = none
not_empty (d ∷ ds, cs) = some (d ∷ ds, cs)

-- `\d+`
unfoldable pub some_digits : List ℕ → Option (List ℕ × List ℕ)
unfolding digits_of
some_digits cs = not_empty (digits_of cs)

-- The expression at one place: its third group.
unfoldable pub match_here : List ℕ → Option (List ℕ)
unfolding after skip_spaces some_spaces some_digits
match_here cs = do
  a ← after (codes "**") cs
  b ← after (codes "TESTS=") (skip_spaces a)
  (tests, c) ← some_digits b
  d ← some_spaces c
  e ← after (codes "PASS=") d
  (passed, f) ← some_digits e
  g ← some_spaces f
  h ← after (codes "FAIL=") g
  (failed, i) ← some_digits h
  j ← some_spaces i
  k ← after (codes "SKIP=") j
  (skips, l) ← some_digits k
  some failed

-- `_COCOTB_SUMMARY_RE.search`: the first place that matches.
unfoldable pub search_line : List ℕ → Option (List ℕ)
unfolding match_here
search_line [] = none
search_line (c ∷ cs) = elim (match_here (c ∷ cs)) [ none ↦ search_line cs | some m ↦ some m ]

unfoldable pub last_match : Option (List ℕ) → List (List ℕ) → Option (List ℕ)
unfolding search_line
last_match found [] = found
last_match found (line ∷ lines) = elim (search_line line) [
  | none ↦ last_match found lines
  | some m ↦ last_match (some m) lines
]

-- `int(digits)`
unfoldable pub number_from : ℕ → List ℕ → ℕ
number_from v [] = v
number_from v (d ∷ ds) = number_from (v * 10 + (d - 48)) ds

-- `none`: there is no log.
unfoldable pub cocotb_run_passed : Option (List (List ℕ)) → Bool
unfolding last_match number_from
cocotb_run_passed none = false
cocotb_run_passed (some lines) = elim (last_match none lines) [
  | none ↦ false
  | some failed ↦ number_from 0 failed == 0
]
