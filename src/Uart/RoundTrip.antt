-- ===== src/Uart/RoundTrip.antt =====
-- The receiver against the transmitter, at one bit period.
use hardware_in_the_loop.Base.{
  ℕ, ◌+◌, ◌-◌, ◌*◌, ◌/◌, ◌%◌, ◌^◌, ◌≤◌, ◌<◌, false, ◌≡◌, refl, ◌∙◌, ap, List, [], ◌∷◌, ◌++◌, map,
  length, arith,
}
use mathlib.Core.List.{append_assoc, append-nil}
use mathlib.Core.Path.{subst}
use hardware_in_the_loop.Uart.{
  Pin, Wave, done, is_low, level_of, sample_bits, send_byte, send_bytes, recv_byte, recv_bytes,
}
use hardware_in_the_loop.Uart.Waveform.{
  level_at, Plays, frame_start, frame_bit, frame_stop, frame_end,
}
use hardware_in_the_loop.Uart.Receive.{wait_start_lem, sample_bits_lem}

-- The line is not low from `now` until `s`.
abbrev pub IdleUntil : Pin → ℕ → ℕ → Type 0
IdleUntil pin now s = (t : ℕ) → now ≤ t → t < s → is_low (pin t) ≡ false

-- Eight samples, the first of them one and a half bit periods after a poll in the start bit.
sample_frame :
    (pin : Pin) (period s b r : ℕ) (w : Wave)
    → 10 ≤ period
    → s ≤ r
    → r < s + period / 10
    → Plays pin s (send_byte period b ++ w)
    → sample_bits 8 pin period 0 0 (r + (period + period / 2))
      ≡ done (b % 256) (r + (period + period / 2) + 8 * period)
sample_frame pin period s b r w big from_start in_time plays =
    ap (λ a. sample_bits 8 pin period 0 a (r + (period + period / 2))) {x = 0} {y = b % 2 ^ 0}
      (omega arith)
    ∙ sample_bits_lem 8 pin period 0 b (r + (period + period / 2)) (omega arith) (λ k h.
      plays (r + (period + period / 2) + k * period) (omega arith)
      ∙ frame_bit period b w k (r + (period + period / 2) + k * period - s) h (omega arith)
          (omega arith)
      ∙ ap (λ j. level_of (b / 2 ^ j % 2)) {x = k} (omega arith))

-- One byte: the receiver gets the low eight bits of what was sent, in the last nanosecond of the
-- frame at the earliest and one poll interval after the frame at the latest.
pub recv_byte_frame :
    (pin : Pin) (period timeout now s b : ℕ) (w : Wave)
    → 10 ≤ period
    → now < s + period / 10
    → s + period / 10 ≤ now + timeout
    → IdleUntil pin now s
    → Plays pin s (send_byte period b ++ w)
    → (e : ℕ) × (recv_byte pin period timeout now ≡ done (b % 256) e)
      × (s + 10 * period ≤ e + 1)
      × (e < s + 10 * period + period / 10)
unfolding recv_byte
recv_byte_frame pin period timeout now s b w big near room idle plays =
    let (r, found, from_start, from_now, in_time) =
      wait_start_lem (timeout + 1) pin (period / 10) timeout 0 now s (omega arith) near
        (omega arith) (omega arith) idle
        (λ t a c. ap is_low (plays t a ∙ frame_start period b w (t - s) (omega arith))) in
    (
      r + (period + period / 2) + 8 * period + period / 2,
      rw (found, sample_frame pin period s b r w big from_start in_time plays),
      omega arith,
      omega arith,
    )

-- What is left to play after the first byte.
Plays-rest :
    (pin : Pin) (period s b : ℕ) (w : Wave)
    → Plays pin s (send_byte period b ++ w)
    → Plays pin (s + 10 * period) w
Plays-rest pin period s b w plays t h =
    plays t (omega arith)
    ∙ frame_end period b w (t - s) (omega arith)
    ∙ ap (level_at w) (omega arith)

idle_stop :
    (pin : Pin) (period s b e : ℕ) (w : Wave)
    → 10 ≤ period
    → s + 10 * period ≤ e + 1
    → Plays pin s (send_byte period b ++ w)
    → IdleUntil pin e (s + 10 * period)
idle_stop pin period s b e w big late plays t lo hi =
    ap is_low (plays t (omega arith) ∙ frame_stop period b w (t - s) (omega arith) (omega arith))

-- The receiver waits on an idle line, or has just missed the start of a frame, and the wave plays
-- from time `s` on, within the timeout.
pub record Listens (pin : Pin) (period timeout now s : ℕ) (w : Wave) : Type 0 where
  pub near : now < s + period / 10
  pub room : s + period / 10 ≤ now + timeout
  pub idle : IdleUntil pin now s
  pub plays : Plays pin s w

module _ (pin : Pin) (period timeout : ℕ) (big : 10 ≤ period)
    (patient : period / 10 < timeout) where
  pub recv_byte-Listens :
      (now s b : ℕ) (w : Wave)
      → Listens pin period timeout now s (send_byte period b ++ w)
      → (e : ℕ) × (recv_byte pin period timeout now ≡ done (b % 256) e)
        × Listens pin period timeout e (s + 10 * period) w
  recv_byte-Listens now s b w l =
      let (e, got, late, soon) =
        recv_byte_frame pin period timeout now s b w big l.near l.room l.idle l.plays in
      (
        e,
        got,
        record {
          near = soon;
          room = omega arith;
          idle = idle_stop pin period s b e w big late l.plays;
          plays = Plays-rest pin period s b w l.plays;
        },
      )

  pub recv_bytes-Listens :
      (bs : List ℕ) (now s : ℕ) (w : Wave)
      → Listens pin period timeout now s (send_bytes period bs ++ w)
      → (e s' : ℕ) × (recv_bytes (length bs) pin period timeout now
          ≡ done (map (λ b. b % 256) bs) e)
        × Listens pin period timeout e s' w
  unfolding recv_bytes send_bytes
  recv_bytes-Listens [] now s w l = (now, s, refl, l)
  recv_bytes-Listens (b ∷ bs) now s w l =
      let (e, got, l') = recv_byte-Listens now s b (send_bytes period bs ++ w) (
        subst (Listens pin period timeout now s)
          (append_assoc (send_byte period b) (send_bytes period bs) w) l) in
      let (e', s', rest, l'') = recv_bytes-Listens bs e (s + 10 * period) w l' in
      (e', s', rw (got, rest), l'')

-- Back-to-back frames do not make the receiver drift: if it listens on an idle line before the
-- transmitter starts at time `s` (or up to a tenth of a bit later), and the period is at least
-- 10 ns, and the timeout covers the wait, then for every list of bytes that `send_bytes` sends,
-- `recv_bytes` of that many bytes ends with exactly the low eight bits of each, in order.
pub recv_bytes-send_bytes :
    (bs : List ℕ) (pin : Pin) (period timeout now s : ℕ)
    → 10 ≤ period
    → period / 10 < timeout
    → now < s + period / 10
    → s + period / 10 ≤ now + timeout
    → IdleUntil pin now s
    → Plays pin s (send_bytes period bs)
    → (e : ℕ) × (recv_bytes (length bs) pin period timeout now ≡ done (map (λ b. b % 256) bs) e)
recv_bytes-send_bytes bs pin period timeout now s big patient near room idle plays =
    let (e, s', got, _) = recv_bytes-Listens pin period timeout big patient bs now s [] (record {
      near = near;
      room = room;
      idle = idle;
      plays = rw (append-nil (send_bytes period bs)) plays;
    }) in
    (e, got)
