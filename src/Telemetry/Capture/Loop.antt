-- ===== src/Telemetry/Capture/Loop.antt =====
-- What the receiving loop has gathered when it ends.
use hardware_in_the_loop.Base.{
  ℕ, suc, ◌+◌, ◌-◌, ◌≤◌, ◌<◌, Bool, true, false, ◌&&◌, ◌||◌, ◌≡◌, refl, sym, ◌∙◌, ap, inl, inr,
  Bool-cases, Option, none, some, List, [], ◌∷◌, ◌++◌, length, take, ltb, lt→ltb, arith,
  if◌then◌else◌,
}
use mathlib.Core.List.{append-nil}
use hardware_in_the_loop.Telemetry.{Sample, Verdict, ignored, bad_crc, accepted, decode}
use hardware_in_the_loop.Telemetry.Capture.{
  PwmEvent, PwmMessage, Datagram, telemetry, pwm_port, CaptureState, overflow_bit, take_datagram,
  take_ready, capture_loop, maybe_punch, is_none_ready,
}

-- What one datagram contributes, apart from the loop: samples, damaged packets, events, overflow.
abbrev pub Tally : Type 0
Tally = List Sample × ℕ × List PwmEvent × Bool

abbrev pub verdict_tally : Verdict → Tally
verdict_tally ignored = ([], 0, [], false)
verdict_tally bad_crc = ([], 1, [], false)
verdict_tally (accepted ss) = (ss, 0, [], false)

abbrev pub message_tally : Option PwmMessage → Tally
message_tally none = ([], 0, [], false)
message_tally (some m) =
    if m.is_pwm_events then ([], 0, m.events, overflow_bit m.status) else ([], 0, [], false)

abbrev pub tally : Datagram → Tally
tally (telemetry bytes) = verdict_tally (decode bytes)
tally (pwm_port m) = message_tally m

-- Two tallies in order of arrival.
abbrev pub join : Tally → Tally → Tally
join (ss, n, es, o) (ss', n', es', o') = (ss ++ ss', n + n', es ++ es', o || o')

abbrev pub none_yet : Tally
none_yet = ([], 0, [], false)

abbrev pub tally_of : CaptureState → Tally
tally_of s = (s.recs, s.bad_crc_count, s.pwm, s.pwm_overflow)

-- The datagrams of some rounds, in order.
abbrev pub arrivals : List (ℕ × List Datagram) → List Datagram
arrivals [] = []
arrivals ((now, ds) ∷ rounds) = ds ++ arrivals rounds

abbrev pub join_all : Tally → List Datagram → Tally
join_all t [] = t
join_all t (d ∷ ds) = join_all (join t (tally d)) ds

or_false : (b : Bool) → (b || false) ≡ b
or_false true = refl
or_false false = refl

take_datagram-tally :
    (now : ℕ) (d : Datagram) (s : CaptureState)
    → tally_of (take_datagram now d s) ≡ join (tally_of s) (tally d)
unfolding take_datagram
take_datagram-tally now (telemetry bytes) s =
    ground (arith, append-nil s.recs, append-nil s.pwm, or_false s.pwm_overflow)
take_datagram-tally now (pwm_port none) s =
    ground (arith, append-nil s.recs, append-nil s.pwm, or_false s.pwm_overflow)
take_datagram-tally now (pwm_port (some m)) s =
    ground (arith, append-nil s.recs, append-nil s.pwm, or_false s.pwm_overflow)

take_ready-tally :
    (now : ℕ) (ds : List Datagram) (s : CaptureState)
    → tally_of (take_ready now ds s) ≡ join_all (tally_of s) ds
unfolding take_ready
take_ready-tally now [] s = refl
take_ready-tally now (d ∷ ds) s =
    take_ready-tally now ds (take_datagram now d s)
    ∙ ap (λ t. join_all t ds) (take_datagram-tally now d s)

maybe_punch-tally : (now : ℕ) (s : CaptureState) → tally_of (maybe_punch now s) ≡ tally_of s
maybe_punch-tally now s = ground arith

join_all-append :
    (t : Tally) (ds es : List Datagram) → join_all t (ds ++ es) ≡ join_all (join_all t ds) es
join_all-append t [] es = refl
join_all-append t (d ∷ ds) es = join_all-append (join t (tally d)) ds es

-- The loop gathers exactly what arrived in the rounds that it ran, in order: there is a number of
-- rounds such that the samples, the count of damaged packets, the PWM events and the overflow
-- flag are those of the datagrams of that many first rounds, each read by its own port, and
-- nothing else.
pub capture_loop_gathers :
    (t0 duration : ℕ) (rounds : List (ℕ × List Datagram)) (s : CaptureState)
    → (n : ℕ) × (n ≤ length rounds)
      × (tally_of (capture_loop t0 duration rounds s)
          ≡ join_all (tally_of s) (arrivals (take n rounds)))
unfolding capture_loop
capture_loop_gathers t0 duration [] s = (0, omega arith, refl)
capture_loop_gathers t0 duration ((now, ready) ∷ rounds) s =
    elim (Bool-cases (ltb (now - t0) (duration + 500))) [
      | inr over ↦ (0, omega arith, rw over refl)
      | inl open_ ↦
          elim (Bool-cases (is_none_ready ready && ltb 2000 (now - (maybe_punch now s).last_rx))) [
            | inl idle ↦ (0, omega arith, rw (open_, idle) (maybe_punch-tally now s))
            | inr busy ↦
                let (n, bound, rest) =
                  capture_loop_gathers t0 duration rounds
                    (take_ready now ready (maybe_punch now s)) in
                (
                  suc n,
                  omega arith,
                  rw (open_, busy)
                      (rest
                        ∙ ap (λ t. join_all t (arrivals (take n rounds)))
                            (take_ready-tally now ready (maybe_punch now s)
                              ∙ ap (λ t. join_all t ready) (maybe_punch-tally now s))
                        ∙ sym (join_all-append (tally_of s) ready (arrivals (take n rounds)))),
                )
          ]
    ]

-- While every round starts in time and finds something, the loop takes them all.
abbrev pub Busy : ℕ → ℕ → List (ℕ × List Datagram) → Type 0
Busy t0 duration [] = Unit
Busy t0 duration ((now, ready) ∷ rounds) =
    (now - t0 < duration + 500) × (is_none_ready ready ≡ false) × Busy t0 duration rounds

-- If every round starts before the end of the capture and finds a datagram, nothing that arrives is
-- lost: the loop gathers the datagrams of all rounds.
pub capture_loop_complete :
    (t0 duration : ℕ) (rounds : List (ℕ × List Datagram)) (s : CaptureState)
    → Busy t0 duration rounds
    → tally_of (capture_loop t0 duration rounds s) ≡ join_all (tally_of s) (arrivals rounds)
unfolding capture_loop
capture_loop_complete t0 duration [] s busy = refl
capture_loop_complete t0 duration ((now, ready) ∷ rounds) s busy =
    rw (lt→ltb (now - t0) (duration + 500) busy.0, busy.1)
      (capture_loop_complete t0 duration rounds (take_ready now ready (maybe_punch now s)) busy.2
        ∙ ap (λ t. join_all t (arrivals rounds))
            (take_ready-tally now ready (maybe_punch now s)
              ∙ ap (λ t. join_all t ready) (maybe_punch-tally now s))
        ∙ sym (join_all-append (tally_of s) ready (arrivals rounds)))
