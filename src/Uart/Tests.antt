-- ===== src/Uart/Tests.antt =====
-- Concrete lines and bytes.
use hardware_in_the_loop.Base.{
  ℕ, ◌-◌, ◌≡◌, refl, List, [], ◌∷◌, ltb, le→ltb, lt→ltb, arith, if◌then◌else◌,
}
use hardware_in_the_loop.Uart.{
  Pin, Wave, high, done, send_byte, send_bytes, recv_byte, recv_bytes, wait_start, sample_bits,
}
use hardware_in_the_loop.Uart.Waveform.{level_at, Plays}
use hardware_in_the_loop.Uart.RoundTrip.{IdleUntil, recv_bytes-send_bytes}

-- A line that is idle until `s` and then carries the wave.
pub line : ℕ → Wave → Pin
line s w t = if ltb t s then high else level_at w (t - s)

pub line-Plays : (s : ℕ) (w : Wave) → Plays (line s w) s w
unfolding line
line-Plays s w t h = rw (le→ltb t s h)

pub line-IdleUntil : (now s : ℕ) (w : Wave) → IdleUntil (line s w) now s
unfolding line
line-IdleUntil now s w t lo hi = rw (lt→ltb t s hi)

abbrev message : List ℕ
message = 0x57 ∷ 0x1FF ∷ 0 ∷ []

recv_bytes-send_bytes_example :
    (e : ℕ) × (recv_bytes 3 (line 35 (send_bytes 10 message)) 10 100 0
      ≡ done (0x57 ∷ 0xFF ∷ 0 ∷ []) e)
recv_bytes-send_bytes_example =
    recv_bytes-send_bytes message (line 35 (send_bytes 10 message)) 10 100 0 35 (omega arith)
      (omega arith) (omega arith) (omega arith) (line-IdleUntil 0 35 (send_bytes 10 message))
      (line-Plays 35 (send_bytes 10 message))

one_byte : recv_byte (line 7 (send_byte 20 0xA5)) 20 100 0 ≡ done 0xA5 208
unfolding line send_byte recv_byte wait_start sample_bits
one_byte = refl
