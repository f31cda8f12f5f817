-- ===== src/Serial.antt =====
-- verification/cocotb/drivers/serial_manager_driver.py: the register protocol over the UART. A
-- register value is a Python int, here a ℤ; what comes back from the wire is a natural number.
pub mod RegAddr
pub mod Words
pub mod Protocol
mod Tests
use hardware_in_the_loop.Base.{
  ℕ, zero, suc, ◌+◌, ◌-◌, ◌*◌, ◌/◌, ◌%◌, ◌^◌, Bool, true, false, Option, none, some, List, [], ◌∷◌,
  ◌++◌, ltb, ◌==◌, bit_or, if◌then◌else◌,
}
use hardware_in_the_loop.Base.Int.{ℤ, pos, negsuc, ◌+ℤ◌, sub_ℕ, ltb_ℤ}
use hardware_in_the_loop.Uart.{
  Wave, Pin, Outcome, done, ◌>>=◌, send_bytes, send_byte, recv_byte, recv_bytes, default_timeout,
}

abbrev pub cmd_write : ℕ
cmd_write = 0x57

abbrev pub cmd_read : ℕ
cmd_read = 0x52

abbrev pub cmd_read_all : ℕ
cmd_read_all = 0x41

abbrev pub rsp_single : ℕ
rsp_single = 0xAA

abbrev pub rsp_all : ℕ
rsp_all = 0x55

pub record ReadResponse : Type 0 where
  pub header : ℕ
  pub address : ℕ
  pub value : ℕ

-- `registers` in the order in which the dictionary is filled, by address from 0.
pub record ReadAllResponse : Type 0 where
  pub header : ℕ
  pub registers : List (ℕ × ℕ)

-- `val - (1 << width)` if bit `width - 1` of `val` is set, and else `val`.
unfoldable pub signed_value : ℕ → ℕ → ℤ
signed_value width val = if val / 2 ^ (width - 1) % 2 == 1 then sub_ℕ val (2 ^ width) else pos val

-- `registers.get(addr, 0)`
unfoldable pub register_or_zero : List (ℕ × ℕ) → ℕ → ℕ
register_or_zero [] addr = 0
register_or_zero ((a, v) ∷ rs) addr = if a == addr then v else register_or_zero rs addr

unfoldable pub ReadAllResponse_signed_value : ReadAllResponse → ℕ → ℕ → ℤ
unfolding signed_value register_or_zero
ReadAllResponse_signed_value r addr width = signed_value width (register_or_zero r.registers addr)

-- 6 for 42 bits.
abbrev pub bytes_per_word : ℕ → ℕ
bytes_per_word data_width = (data_width + 7) / 8

-- `(value >> (i * 8)) & 0xFF` of a Python int: the shift rounds down.
abbrev pub byte_at : ℕ → ℤ → ℕ
byte_at i (pos m) = m / 256 ^ i % 256
byte_at i (negsuc m) = 255 - m / 256 ^ i % 256

-- `for i in range(n - 1, -1, -1)`
unfoldable pub big_endian : ℕ → ℤ → List ℕ
big_endian zero value = []
big_endian (suc i) value = byte_at i value ∷ big_endian i value

unfoldable pub value_to_bytes : ℕ → ℤ → List ℕ
unfolding big_endian
value_to_bytes words value =
    big_endian words (if ltb_ℤ value (pos 0) then value +ℤ pos (2 ^ (words * 8)) else value)

-- `value = (value << 8) | b`
unfoldable pub bytes_from : ℕ → List ℕ → ℕ
bytes_from value [] = value
bytes_from value (b ∷ bs) = bytes_from (bit_or (value * 256) b) bs

unfoldable pub bytes_to_value : List ℕ → ℕ
unfolding bytes_from
bytes_to_value bs = bytes_from 0 bs

-- What `write_register` puts on the line.
unfoldable pub write_register : ℕ → ℕ → ℕ → ℤ → Wave
write_register period words addr value =
    send_bytes period (cmd_write ∷ addr % 256 ∷ value_to_bytes words value)

unfoldable pub read_request : ℕ → ℕ → Wave
read_request period addr = send_bytes period (cmd_read ∷ addr % 256 ∷ [])

-- `read_register` from the moment at which the request has been sent.
unfoldable pub read_register : Pin → ℕ → ℕ → ℕ → Outcome ReadResponse
read_register pin period words now = do
  (header, t) ← recv_byte pin period (default_timeout period) now
  (rd_addr, t') ← recv_byte pin period (default_timeout period) t
  (data_bytes, t'') ← recv_bytes words pin period (default_timeout period) t'
  done (record { header = header; address = rd_addr; value = bytes_to_value data_bytes }) t''

unfoldable pub read_registers : ℕ → Pin → ℕ → ℕ → ℕ → ℕ → ℕ → Outcome (List (ℕ × ℕ))
read_registers zero pin period timeout words reg_addr now = done [] now
read_registers (suc n) pin period timeout words reg_addr now = do
  (data_bytes, t) ← recv_bytes words pin period timeout now
  (rest, t') ← read_registers n pin period timeout words (reg_addr + 1) t
  done ((reg_addr, bytes_to_value data_bytes) ∷ rest) t'

abbrev pub read_all_timeout : ℕ → ℕ → ℕ
read_all_timeout period words = period * 12 * (1 + RegAddr.num_regs * words) * 4

-- `read_all` from the moment at which the command has been sent.
unfoldable pub read_all : Pin → ℕ → ℕ → ℕ → Outcome ReadAllResponse
unfolding read_registers
read_all pin period words now = do
  (header, t) ← recv_byte pin period (read_all_timeout period words) now
  (registers, t') ←
      read_registers RegAddr.num_regs pin period (read_all_timeout period words) words 0 t
  done (record { header = header; registers = registers }) t'
