-- ===== src/Telemetry.antt =====
-- verification/cocotb/scripts/fpga_vs_c.py: the telemetry packets of the board, their checksum, and
-- the run-local clock. A byte string is a list of numbers below 256. A float32 on the wire is kept
-- as its 32-bit pattern: nothing here computes with it.
pub mod Crc
pub mod Frame
pub mod Clock
pub mod Capture
mod Tests
use hardware_in_the_loop.Base.{
  ℕ, zero, suc, ◌+◌, ◌-◌, ◌*◌, ◌/◌, ◌%◌, ◌^◌, Bool, true, false, not, ◌&&◌, ◌||◌, Option, none,
  some, List, [], ◌∷◌, ◌++◌, length, take, drop, get_or, ltb, leb, ◌==◌, bit_and, bit_or, bit_xor,
  if◌then◌else◌,
}

-- One round of the inner loop of `crc16`.
unfoldable pub crc_bit : ℕ → ℕ
crc_bit crc = if bit_and crc 0x8000 == 0 then crc * 2 % 65536 else bit_xor (crc * 2) 0x1021 % 65536

unfoldable pub crc_bits : ℕ → ℕ → ℕ
crc_bits zero crc = crc
crc_bits (suc n) crc = crc_bits n (crc_bit crc)

-- `crc ^= b << 8` and eight rounds.
unfoldable pub crc_byte : ℕ → ℕ → ℕ
crc_byte crc b = crc_bits 8 (bit_xor crc (b * 256))

unfoldable pub crc_from : ℕ → List ℕ → ℕ
crc_from crc [] = crc
crc_from crc (b ∷ bs) = crc_from (crc_byte crc b) bs

unfoldable pub crc16 : List ℕ → ℕ
crc16 bytes = crc_from 0xFFFF bytes

abbrev pub telem_sync : List ℕ
telem_sync = 0x48 ∷ 0x49 ∷ 0x4C ∷ 0x5A ∷ []

abbrev pub hdr_size : ℕ
hdr_size = 10

abbrev pub sample_bytes : ℕ
sample_bytes = 26

-- `(t_cycles, epoch, ia, ib, flux_a, flux_b, speed)`
pub record Sample : Type 0 where
  pub t_cycles : ℕ
  pub epoch : ℕ
  pub ia : ℕ
  pub ib : ℕ
  pub flux_a : ℕ
  pub flux_b : ℕ
  pub speed : ℕ

-- `struct.unpack_from` of a little-endian field of two or four bytes.
abbrev pub u16_at : List ℕ → ℕ → ℕ
u16_at bytes pos = get_or bytes pos 0 + get_or bytes (pos + 1) 0 * 256

abbrev pub u32_at : List ℕ → ℕ → ℕ
u32_at bytes pos = u16_at bytes pos + u16_at bytes (pos + 2) * 65536

-- The two calls of `unpack_from` for the sample at the front.
unfoldable pub sample_at : List ℕ → Sample
sample_at bytes = record {
  t_cycles = u32_at bytes 0;
  epoch = u16_at bytes 4;
  ia = u32_at bytes 6;
  ib = u32_at bytes 10;
  flux_a = u32_at bytes 14;
  flux_b = u32_at bytes 18;
  speed = u32_at bytes 22;
}

-- The loop over the `n` samples; the list is what stands from `pos` on.
unfoldable pub samples_at : ℕ → List ℕ → List Sample
samples_at zero bytes = []
samples_at (suc n) bytes = sample_at bytes ∷ samples_at n (drop sample_bytes bytes)

unfoldable pub same_bytes : List ℕ → List ℕ → Bool
same_bytes [] [] = true
same_bytes [] (y ∷ ys) = false
same_bytes (x ∷ xs) [] = false
same_bytes (x ∷ xs) (y ∷ ys) = x == y && same_bytes xs ys

-- What the receiving loop does with a datagram of the telemetry port.
pub data Verdict : Type 0 where
  ignored : Verdict
  bad_crc : Verdict
  accepted : List Sample → Verdict

-- The bytes that a packet with `n` samples needs.
abbrev pub frame_length : ℕ → ℕ
frame_length n = hdr_size + n * sample_bytes + 2

abbrev check_crc : List ℕ → ℕ → Verdict
check_crc bytes n =
    let body = hdr_size + n * sample_bytes in
    if crc16 (take body bytes) == bit_or (get_or bytes body 0) (get_or bytes (body + 1) 0 * 256)
    then accepted (samples_at n (drop hdr_size bytes))
    else bad_crc

unfoldable pub decode : List ℕ → Verdict
unfolding same_bytes
decode bytes =
    let n = get_or bytes 9 0 in
    if ltb (length bytes) (hdr_size + 2) || not (same_bytes (take 4 bytes) telem_sync)
    then ignored
    else if ltb (length bytes) (frame_length n)
    then ignored
    else check_crc bytes n

-- `prev - r > (1 << 31)` and the counter's period.
abbrev pub half_wrap : ℕ
half_wrap = 2 ^ 31

abbrev pub wrap : ℕ
wrap = 2 ^ 32

abbrev pub wrapped : Option ℕ → ℕ → Bool
wrapped none r = false
wrapped (some prev) r = ltb r prev && ltb half_wrap (prev - r)

-- `unwrap_cycles`, in cycles: the division by the clock frequency is left out.
unfoldable pub unwrap_from : ℕ → Option ℕ → List ℕ → List ℕ
unwrap_from off prev [] = []
unwrap_from off prev (r ∷ rs) =
    let off' = if wrapped prev r then off + wrap else off in
    (off' + r) ∷ unwrap_from off' (some r) rs

unfoldable pub unwrap_cycles : List ℕ → List ℕ
unfolding unwrap_from
unwrap_cycles raw = unwrap_from 0 none raw
