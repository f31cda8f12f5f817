-- ===== src/Telemetry/Capture/Runs.antt =====
-- The run that is picked, and the time order of its samples.
use hardware_in_the_loop.Base.{
  ℕ, zero, suc, ◌+◌, ◌≤◌, ◌<◌, ◌≡◌, refl, inl, inr, Bool-cases, ap, List, [], ◌∷◌, All, ltb, arith,
}
use mathlib.Core.List.{Perm}
use mathlib.Core.List.Perm
use hardware_in_the_loop.Telemetry.Capture.{
  bin, argmax_bin, list_max, run_epoch, insert_time, sort_times,
}

argmax_bin-best : (n e : ℕ) (xs : List ℕ) → e < n → bin e xs ≤ bin (argmax_bin n xs) xs
unfolding argmax_bin
argmax_bin-best zero e xs h = absurd (omega arith)
argmax_bin-best (suc n) e xs h =
    ground (arith, argmax_bin-best n e xs, ap (λ k. bin k xs) {x = e} {y = n})

bin_past_max : (e : ℕ) (xs : List ℕ) → list_max xs < e → bin e xs ≡ 0
unfolding bin list_max
bin_past_max e [] h = refl
bin_past_max e (x ∷ xs) h = ground (arith, bin_past_max e xs)

-- The epoch that is taken for the run is a most frequent one: no epoch occurs in more of the
-- received samples.
pub run_epoch_most_frequent :
    (e : ℕ) (epochs : List ℕ) → bin e epochs ≤ bin (run_epoch epochs) epochs
unfolding run_epoch
run_epoch_most_frequent e epochs =
    ground (arith, argmax_bin-best (list_max epochs + 1) e epochs, bin_past_max e epochs)

module _ {A : Type 0} where
  -- Times in non-decreasing order.
  abbrev pub Ascending : List (ℕ × A) → Type 0
  Ascending [] = Unit
  Ascending (p ∷ ps) = All (λ q. p.0 ≤ q.0) ps × Ascending ps

  All-insert_time :
      (k : ℕ) (p : ℕ × A) (qs : List (ℕ × A))
      → k ≤ p.0
      → All (λ q. k ≤ q.0) qs
      → All (λ q. k ≤ q.0) (insert_time p qs)
  unfolding insert_time
  All-insert_time k p [] h all = (h, tt)
  All-insert_time k p (q ∷ qs) h all = ground (arith, All-insert_time k p qs h all.1)

  All-weaken : (k l : ℕ) (qs : List (ℕ × A)) → k ≤ l → All (λ q. l ≤ q.0) qs → All (λ q. k ≤ q.0) qs
  All-weaken k l [] h all = tt
  All-weaken k l (q ∷ qs) h all = (omega arith, All-weaken k l qs h all.1)

  insert_time-Ascending :
      (p : ℕ × A) (qs : List (ℕ × A)) → Ascending qs → Ascending (insert_time p qs)
  unfolding insert_time
  insert_time-Ascending p [] asc = (tt, tt)
  insert_time-Ascending p (q ∷ qs) asc =
      ground
        (arith, All-insert_time q.0 p qs, insert_time-Ascending p qs asc.1, All-weaken p.0 q.0 qs)

  insert_time-perm : (p : ℕ × A) (qs : List (ℕ × A)) → Perm (insert_time p qs) (p ∷ qs)
  unfolding insert_time
  insert_time-perm p [] = Perm.refl (p ∷ [])
  insert_time-perm p (q ∷ qs) = elim (Bool-cases (ltb q.0 p.0)) [
    | inl e ↦ rw e (Perm.trans (Perm.cons q (insert_time-perm p qs)) (Perm.swap p q qs))
    | inr e ↦ rw e (Perm.refl (p ∷ q ∷ qs))
  ]

  -- Sorting by time leaves the times in non-decreasing order, and the items are those that went in,
  -- as often.
  pub sort_times-Ascending :
      (ps : List (ℕ × A)) → Ascending (sort_times ps) × Perm (sort_times ps) ps
  unfolding sort_times
  sort_times-Ascending [] = (tt, Perm.refl [])
  sort_times-Ascending (p ∷ ps) =
      let (asc, perm) = sort_times-Ascending ps in
      (
        insert_time-Ascending p (sort_times ps) asc,
        Perm.trans (insert_time-perm p (sort_times ps)) (Perm.cons p perm),
      )
