-- ===== src/Telemetry/Capture.antt =====
-- The receiving loop of `capture_fpga`, and how it makes one run out of what arrived. Sockets and
-- the clock are parameters: a round of the loop is the time at which it starts, in milliseconds,
-- and the datagrams that `select` found ready. A round with none ends `select` by its timeout.
pub mod Loop
pub mod Runs
use hardware_in_the_loop.Base.{
  ℕ, zero, suc, ◌+◌, ◌-◌, ◌*◌, ◌/◌, ◌%◌, Bool, true, false, not, ◌&&◌, ◌||◌, Option, none, some,
  List, [], ◌∷◌, ◌++◌, map, select, length, ltb, leb, ◌==◌, if◌then◌else◌,
}
use hardware_in_the_loop.Telemetry.{
  Sample, Verdict, ignored, bad_crc, accepted, decode, unwrap_cycles,
}

-- `(t_cycles, epoch, a, b, c)`
pub record PwmEvent : Type 0 where
  pub t_cycles : ℕ
  pub epoch : ℕ
  pub a : ℕ
  pub b : ℕ
  pub c : ℕ

-- The object that `json.loads` finds in a datagram of the PWM port: whether its type is
-- "pwm_events", its status word, and its events.
pub record PwmMessage : Type 0 where
  pub is_pwm_events : Bool
  pub status : ℕ
  pub events : List PwmEvent

-- A datagram, by the socket that it came in on; `none` is one that is no JSON.
pub data Datagram : Type 0 where
  telemetry : List ℕ → Datagram
  pwm_port : Option PwmMessage → Datagram

pub record CaptureState : Type 0 where
  pub recs : List Sample
  pub pwm : List PwmEvent
  pub bad_crc_count : ℕ
  pub pwm_overflow : Bool
  pub last_punch : ℕ
  pub last_rx : ℕ
  pub punches : ℕ

unfoldable pub capture_start : ℕ → CaptureState
capture_start t0 = record {
  recs = [];
  pwm = [];
  bad_crc_count = 0;
  pwm_overflow = false;
  last_punch = t0;
  last_rx = t0;
  punches = 0;
}

abbrev take_verdict : Verdict → CaptureState → CaptureState
take_verdict ignored s = s
take_verdict bad_crc s = record s { bad_crc_count = s.bad_crc_count + 1 }
take_verdict (accepted samples) s = record s { recs = s.recs ++ samples }

-- `obj.get("status", 0) & 0x2`
abbrev pub overflow_bit : ℕ → Bool
overflow_bit status = status / 2 % 2 == 1

abbrev take_message : Option PwmMessage → CaptureState → CaptureState
take_message none s = s
take_message (some m) s =
    if m.is_pwm_events
    then record s {
      pwm_overflow = s.pwm_overflow || overflow_bit m.status;
      pwm = s.pwm ++ m.events;
    }
    else s

-- The body of `for s in ready`.
unfoldable pub take_datagram : ℕ → Datagram → CaptureState → CaptureState
take_datagram now (telemetry bytes) s = take_verdict (decode bytes) (record s { last_rx = now })
take_datagram now (pwm_port m) s = take_message m (record s { last_rx = now })

unfoldable pub take_ready : ℕ → List Datagram → CaptureState → CaptureState
take_ready now [] s = s
take_ready now (d ∷ ds) s = take_ready now ds (take_datagram now d s)

-- `if now - last_punch > 0.5: punch(); last_punch = now`
abbrev pub maybe_punch : ℕ → CaptureState → CaptureState
maybe_punch now s =
    if ltb 500 (now - s.last_punch)
    then record s { last_punch = now; punches = s.punches + 1 }
    else s

abbrev is_none_ready : List Datagram → Bool
is_none_ready [] = true
is_none_ready (d ∷ ds) = false

-- The loop over its rounds: it ends when the time is up, or when nothing has been ready for more
-- than two seconds. Both times of a round are read at its start.
unfoldable pub capture_loop : ℕ → ℕ → List (ℕ × List Datagram) → CaptureState → CaptureState
capture_loop t0 duration [] s = s
capture_loop t0 duration ((now, ready) ∷ rounds) s =
    let s' = maybe_punch now s in
    let go_on = capture_loop t0 duration rounds (take_ready now ready s') in
    if ltb (now - t0) (duration + 500)
    then if is_none_ready ready && ltb 2000 (now - s'.last_rx) then s' else go_on
    else s

-- How often `e` is among the epochs: a bin of `np.bincount`.
unfoldable pub bin : ℕ → List ℕ → ℕ
bin e [] = 0
bin e (x ∷ xs) = if x == e then suc (bin e xs) else bin e xs

-- `argmax` over the bins `0 … n - 1`, the first of the largest.
unfoldable pub argmax_bin : ℕ → List ℕ → ℕ
argmax_bin zero xs = 0
argmax_bin (suc n) xs =
    let best = argmax_bin n xs in if ltb (bin best xs) (bin n xs) then n else best

unfoldable pub list_max : List ℕ → ℕ
list_max [] = 0
list_max (x ∷ xs) = let m = list_max xs in if ltb m x then x else m

-- `int(np.bincount(epoch - epoch.min()).argmax() + epoch.min())`. The shift by the minimum only
-- leaves out empty bins, so the bins are counted from 0.
unfoldable pub run_epoch : List ℕ → ℕ
unfolding list_max
run_epoch epochs = argmax_bin (list_max epochs + 1) epochs

module _ {A : Type 0} where
  -- Each item with its unwrapped time.
  abbrev pub zip_times : List ℕ → List A → List (ℕ × A)
  zip_times (t ∷ ts) (s ∷ ss) = (t, s) ∷ zip_times ts ss
  zip_times _ _ = []

  -- One step of a stable insertion sort: before the times that are no earlier.
  unfoldable pub insert_time : ℕ × A → List (ℕ × A) → List (ℕ × A)
  insert_time p [] = p ∷ []
  insert_time p (q ∷ qs) = if ltb q.0 p.0 then q ∷ insert_time p qs else p ∷ q ∷ qs

  -- The items in the order of `np.argsort(t, kind="stable")`.
  unfoldable pub sort_times : List (ℕ × A) → List (ℕ × A)
  unfolding insert_time
  sort_times [] = []
  sort_times (p ∷ ps) = insert_time p (sort_times ps)

  -- The items of one run, in time order.
  unfoldable pub run_items : (A → ℕ) → (A → ℕ) → ℕ → List A → List (ℕ × A)
  run_items epoch_of cycles_of run items =
      let kept = select (λ x. epoch_of x == run) items in
      sort_times (zip_times (unwrap_cycles (map cycles_of kept)) kept)

-- What `capture_fpga` returns; `SystemExit` if no telemetry came is `none`. The zeroed times `t`
-- are `t_abs` less its first time, and the columns of the arrays are the fields of the samples.
pub record Captured : Type 0 where
  pub samples : List (ℕ × Sample)
  pub events : List (ℕ × PwmEvent)
  pub damaged : ℕ
  pub overflow : Bool

sample_epoch : Sample → ℕ
sample_epoch s = s.epoch

finish : CaptureState → List Sample → Option Captured
unfolding sample_epoch
finish s [] = none
finish s (r ∷ rs) =
    let run = run_epoch (map sample_epoch (r ∷ rs)) in
    some (record {
      samples = run_items sample_epoch (λ x. x.t_cycles) run (r ∷ rs);
      events = run_items (λ x. x.epoch) (λ x. x.t_cycles) run s.pwm;
      damaged = s.bad_crc_count;
      overflow = s.pwm_overflow;
    })

unfoldable pub capture_fpga : ℕ → ℕ → List (ℕ × List Datagram) → Option Captured
unfolding finish
capture_fpga t0 duration rounds =
    let s = capture_loop t0 duration rounds (capture_start t0) in finish s s.recs
