-- ===== src/Uart.antt =====
-- verification/cocotb/drivers/uart_driver.py. Time is in nanoseconds. What a coroutine drives on a
-- pin is the list of the levels with the times for which it waits; what it reads of one is a
-- function of time. `Timer(n)` adds `n` to the present time.
pub mod Waveform
pub mod Receive
pub mod RoundTrip
pub mod Tests
use hardware_in_the_loop.Base.{
  ℕ, zero, suc, ◌+◌, ◌-◌, ◌*◌, ◌/◌, ◌%◌, ◌^◌, Bool, true, false, List, [], ◌∷◌, ◌++◌, ltb, leb,
  ◌==◌, bit_or, if◌then◌else◌,
}

-- `undefined` is a value that `int()` refuses: 'U', 'X' and so on.
pub data PinLevel : Type 0 where
  low high undefined : PinLevel

abbrev pub Wave : Type 0
Wave = List (PinLevel × ℕ)

abbrev pub Pin : Type 0
Pin = ℕ → PinLevel

-- The constructor of either driver: `bit_period_ns = int(1e9 / baud_rate)`.
unfoldable pub bit_period_ns : ℕ → ℕ
bit_period_ns baud_rate = 1000000000 / baud_rate

abbrev pub level_of : ℕ → PinLevel
level_of b = if b == 0 then low else high

-- The data bits of `send_byte` from bit `i` on, `n` of them.
unfoldable pub data_bits : ℕ → ℕ → ℕ → ℕ → Wave
data_bits period byte i zero = []
data_bits period byte i (suc n) =
    (level_of (byte / 2 ^ i % 2), period) ∷ data_bits period byte (i + 1) n

unfoldable pub send_byte : ℕ → ℕ → Wave
unfolding data_bits
send_byte period byte = (low, period) ∷ (data_bits period byte 0 8 ++ ((high, period) ∷ []))

unfoldable pub send_bytes : ℕ → List ℕ → Wave
send_bytes period [] = []
send_bytes period (b ∷ bs) = send_byte period b ++ send_bytes period bs

-- A received value with the time at which it is there, or a raised error. `stuck` is no outcome of
-- the driver: the polling loop of the model ran out of fuel.
pub data Outcome {ℓ} (A : Type ℓ) : Type ℓ where
  done : A → ℕ → Outcome A
  timed_out : Outcome A
  stuck : Outcome A

infixl 5 ◌>>=◌
abbrev pub ◌>>=◌ {ℓ κ} : {A : Type ℓ} {B : Type κ} → Outcome A → (A × ℕ → Outcome B) → Outcome B
done a now >>= f = f (a, now)
timed_out >>= f = timed_out
stuck >>= f = stuck

abbrev pub is_low : PinLevel → Bool
is_low low = true
is_low _ = false

-- A data bit: an undefined level counts as 0.
abbrev pub bit_value : PinLevel → ℕ
bit_value high = 1
bit_value _ = 0

-- The loop that waits for the start bit, an undefined level counting as idle.
unfoldable pub wait_start : ℕ → Pin → ℕ → ℕ → ℕ → ℕ → Outcome (Unit {0})
wait_start zero pin poll timeout elapsed now = stuck
wait_start (suc fuel) pin poll timeout elapsed now =
    let again = wait_start fuel pin poll timeout (elapsed + poll) (now + poll) in
    if is_low (pin now)
    then done tt now
    else if leb timeout (elapsed + poll)
    then timed_out
    else again

-- `data |= bit << i`, then a wait of one bit period, for `n` bits from bit `i` on.
unfoldable pub sample_bits : ℕ → Pin → ℕ → ℕ → ℕ → ℕ → Outcome ℕ
sample_bits zero pin period i acc now = done acc now
sample_bits (suc n) pin period i acc now =
    sample_bits n pin period (i + 1) (bit_or acc (bit_value (pin now) * 2 ^ i)) (now + period)

-- `recv_byte`; a poll takes at least 1 ns if the period is 10 ns or more, so `timeout + 1` rounds
-- of polling are enough.
unfoldable pub recv_byte : Pin → ℕ → ℕ → ℕ → Outcome ℕ
recv_byte pin period timeout now = do
  (_, start) ← wait_start (timeout + 1) pin (period / 10) timeout 0 now
  (byte, last) ← sample_bits 8 pin period 0 0 (start + (period + period / 2))
  done byte (last + period / 2)

-- The default of `timeout_ns`.
abbrev pub default_timeout : ℕ → ℕ
default_timeout period = period * 200

unfoldable pub recv_bytes : ℕ → Pin → ℕ → ℕ → ℕ → Outcome (List ℕ)
recv_bytes zero pin period timeout now = done [] now
recv_bytes (suc count) pin period timeout now = do
  (b, now') ← recv_byte pin period timeout now
  (bs, now'') ← recv_bytes count pin period timeout now'
  done (b ∷ bs) now''
