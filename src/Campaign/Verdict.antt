-- ===== src/Campaign/Verdict.antt =====
-- The verdict on a log with the summary that cocotb prints.
use hardware_in_the_loop.Base.{
  ℕ, ◌+◌, ◌-◌, ◌*◌, true, false, ◌&&◌, Option, none, some, List, [], ◌∷◌, ◌++◌, ◌==◌, ◌≡◌, refl, ap,
  All, all, arith, Option-cases, inl, inr,
}
use hardware_in_the_loop.Campaign.Log.{
  codes, is_digit, after, skip_spaces, some_spaces, digits_of, some_digits, match_here, search_line,
  last_match, number_from, cocotb_run_passed, not_empty,
}

abbrev pub IsDigits : List ℕ → Type 0
IsDigits ds = All (λ c. is_digit c ≡ true) ds

-- `** TESTS=t PASS=p FAIL=f SKIP=s`, and what follows on the line.
abbrev pub summary_line : List ℕ → List ℕ → List ℕ → List ℕ → List ℕ → List ℕ
summary_line t p f s rest =
    codes "** TESTS="
    ++ (t ++ (codes " PASS=" ++ (p ++ (codes " FAIL=" ++ (f ++ (codes " SKIP=" ++ (s ++ rest)))))))

digits_of-append :
    (ds : List ℕ) (c : ℕ) (cs : List ℕ)
    → IsDigits ds
    → is_digit c ≡ false
    → digits_of (ds ++ c ∷ cs) ≡ (ds, c ∷ cs)
unfolding digits_of
digits_of-append [] c cs h k = rw k refl
digits_of-append (d ∷ ds) c cs h k = rw (h.0, digits_of-append ds c cs h.1 k) refl

some_digits-append :
    (d : ℕ) (ds : List ℕ) (c : ℕ) (cs : List ℕ)
    → IsDigits (d ∷ ds)
    → is_digit c ≡ false
    → some_digits (d ∷ ds ++ c ∷ cs) ≡ some (d ∷ ds, c ∷ cs)
unfolding some_digits
some_digits-append d ds c cs h k = ap not_empty (digits_of-append (d ∷ ds) c cs h k)

match_here-other : (c : ℕ) (cs : List ℕ) → (c == 42) ≡ false → match_here (c ∷ cs) ≡ none
unfolding match_here after
match_here-other c cs h = ground arith

last_match-none :
    (found : Option (List ℕ)) (lines : List (List ℕ))
    → All (λ l. search_line l ≡ none) lines
    → last_match found lines ≡ found
unfolding last_match
last_match-none found [] h = refl
last_match-none found (l ∷ lines) h = rw (h.0, last_match) (last_match-none found lines h.1)

last_match-last :
    (found : Option (List ℕ)) (before : List (List ℕ)) (line m : List ℕ) (lines : List (List ℕ))
    → search_line line ≡ some m
    → All (λ l. search_line l ≡ none) lines
    → last_match found (before ++ line ∷ lines) ≡ some m
unfolding last_match
last_match-last found [] line m lines e h = rw (e, last_match) (last_match-none (some m) lines h)
last_match-last found (b ∷ before) line m lines e h = elim (Option-cases (search_line b)) [
  | inl n ↦ rw (n, last_match) (last_match-last found before line m lines e h)
  | inr (k, n) ↦ rw (n, last_match) (last_match-last (some k) before line m lines e h)
]

-- Digits that are not all 0 are no 0.
number_from-zero :
    (v : ℕ) (ds : List ℕ)
    → IsDigits ds
    → (number_from v ds == 0) ≡ ((v == 0) && all (λ d. d == 48) ds)
unfolding number_from
number_from-zero v [] h = ground arith
number_from-zero v (d ∷ ds) h = ground (arith, number_from-zero (v * 10 + (d - 48)) ds h.1)

module _ (t : ℕ) (ts : List ℕ) (p : ℕ) (ps : List ℕ) (f : ℕ) (fs : List ℕ) (s : ℕ) (ss : List ℕ)
    (end : ℕ) (rest : List ℕ) (ht : IsDigits (t ∷ ts)) (hp : IsDigits (p ∷ ps))
    (hf : IsDigits (f ∷ fs)) (hs : IsDigits (s ∷ ss)) (he : is_digit end ≡ false) where
  match_here-summary :
      match_here (summary_line (t ∷ ts) (p ∷ ps) (f ∷ fs) (s ∷ ss) (end ∷ rest)) ≡ some (f ∷ fs)
  unfolding match_here after skip_spaces some_spaces
  match_here-summary =
      let skips = s ∷ ss ++ end ∷ rest in
      let fails = f ∷ fs ++ (codes " SKIP=" ++ skips) in
      let passes = p ∷ ps ++ (codes " FAIL=" ++ fails) in
      rw
        (
          match_here,
          some_digits-append t ts 32 (codes "PASS=" ++ passes) ht refl,
          some_digits-append p ps 32 (codes "FAIL=" ++ fails) hp refl,
          some_digits-append f fs 32 (codes "SKIP=" ++ skips) hf refl,
          some_digits-append s ss end rest hs he,
        )
        refl

  -- Before the summary, the line holds no `*`.
  search_line-summary :
      (before : List ℕ)
      → All (λ c. (c == 42) ≡ false) before
      → search_line (before ++ summary_line (t ∷ ts) (p ∷ ps) (f ∷ fs) (s ∷ ss) (end ∷ rest))
        ≡ some (f ∷ fs)
  unfolding search_line
  search_line-summary [] h = rw (match_here-summary, search_line) refl
  search_line-summary (c ∷ before) h =
      rw
        (
          match_here-other c
              (before ++ summary_line (t ∷ ts) (p ∷ ps) (f ∷ fs) (s ∷ ss) (end ∷ rest)) h.0,
          search_line,
        )
        (search_line-summary before h.1)

  -- Take a log with a line that has a summary in cocotb's layout, `** TESTS=t PASS=p FAIL=f SKIP=s` with
  -- one space between the parts, a character that is no digit after it, and no `*` before it in the
  -- line; and let no line after it have a summary. The run passed exactly if all digits of `f` are zeros,
  -- whatever stands in the lines before.
  pub cocotb_run_passed-summary :
      (earlier : List (List ℕ)) (before : List ℕ) (later : List (List ℕ))
      → All (λ c. (c == 42) ≡ false) before
      → All (λ l. search_line l ≡ none) later
      → cocotb_run_passed (
          some (
            earlier
            ++ (before ++ summary_line (t ∷ ts) (p ∷ ps) (f ∷ fs) (s ∷ ss) (end ∷ rest)) ∷ later))
        ≡ all (λ d. d == 48) (f ∷ fs)
  unfolding cocotb_run_passed
  cocotb_run_passed-summary earlier before later h k =
      rw
        (
          last_match-last none earlier
              (before ++ summary_line (t ∷ ts) (p ∷ ps) (f ∷ fs) (s ∷ ss) (end ∷ rest)) (f ∷ fs)
              later (search_line-summary before h) k,
          cocotb_run_passed,
        )
        (number_from-zero 0 (f ∷ fs) hf)
