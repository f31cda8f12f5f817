-- ===== src/Telemetry/Tests.antt =====
-- Concrete packets, counters and captures.
use hardware_in_the_loop.Base.{
  ℕ, ◌%◌, ◌<◌, ◌≡◌, ◌≢◌, refl, none, inl, List, [], ◌∷◌, ◌++◌, map, replicate, arith,
}
use hardware_in_the_loop.Telemetry.{
  Sample, accepted, bad_crc, crc_bit, crc_bits, crc_byte, crc_from, crc16, decode, wrap,
  unwrap_cycles,
}
use hardware_in_the_loop.Telemetry.Crc.{crc16_detects}
use hardware_in_the_loop.Telemetry.Clock.{unwrap_cycles-mod}
use hardware_in_the_loop.Telemetry.Frame.{
  Header, header_bytes, packet, samples_layout, decode_layout, decode_damaged,
}
use hardware_in_the_loop.Telemetry.Capture.{
  Datagram, telemetry, pwm_port, capture_start, capture_loop,
}
use hardware_in_the_loop.Telemetry.Capture.Loop.{
  tally_of, join_all, arrivals, capture_loop_complete,
}

-- The check value of CRC-16/CCITT-FALSE, over "123456789".
crc16_check : crc16 (0x31 ∷ 0x32 ∷ 0x33 ∷ 0x34 ∷ 0x35 ∷ 0x36 ∷ 0x37 ∷ 0x38 ∷ 0x39 ∷ []) ≡ 0x29B1
unfolding crc16 crc_from crc_byte crc_bits crc_bit
crc16_check = refl

crc16_detects_example :
    (crc16 (7 ∷ 1 ∷ 9 ∷ []) < 65536) × (crc16 (7 ∷ 1 ∷ 9 ∷ []) ≢ crc16 (7 ∷ 129 ∷ 9 ∷ []))
crc16_detects_example =
    crc16_detects (7 ∷ []) (9 ∷ []) 1 129 (omega arith) (omega arith) (omega arith) (omega arith)
      (omega arith)

abbrev header : Header
header = record { m4 = 1; m5 = 0; m6 = 0; m7 = 0; m8 = 3; count = 1 }

abbrev sample : Sample
sample = record {
  t_cycles = 0xFFFFFFF0;
  epoch = 3;
  ia = 0x3F800000;
  ib = 0;
  flux_a = 1;
  flux_b = 2;
  speed = 0x43390000;
}

decode_layout_example :
    decode (
      packet header
        (samples_layout (sample ∷ []))
        (crc16 (header_bytes header ++ samples_layout (sample ∷ []))))
    ≡ accepted (sample ∷ [])
decode_layout_example = decode_layout header (sample ∷ []) (omega arith) (omega arith) refl

abbrev tail_bytes : List ℕ
tail_bytes = replicate 25 0

decode_damaged_example :
    decode (
      packet header
        ([] ++ (1 ∷ tail_bytes))
        (crc16 (header_bytes header ++ ([] ++ (0 ∷ tail_bytes)))))
    ≡ bad_crc
decode_damaged_example =
    decode_damaged header [] tail_bytes 0 1 (omega arith) tt (omega arith) (omega arith)
      (omega arith) (omega arith) refl

unwrap_cycles-mod_example :
    unwrap_cycles (map (λ k. k % wrap) (4294967290 ∷ 4294967300 ∷ []))
    ≡ 4294967290 ∷ 4294967300 ∷ []
unwrap_cycles-mod_example =
    unwrap_cycles-mod 4294967290 (4294967300 ∷ []) (omega arith)
      (inl (omega arith, omega arith), tt)

abbrev rounds : List (ℕ × List Datagram)
rounds = (10, telemetry [] ∷ []) ∷ (600, pwm_port none ∷ []) ∷ []

capture_loop_complete_example :
    tally_of (capture_loop 0 1000 rounds (capture_start 0))
    ≡ join_all (tally_of (capture_start 0)) (arrivals rounds)
capture_loop_complete_example =
    capture_loop_complete 0 1000 rounds (capture_start 0)
      (omega arith, refl, (omega arith, refl, tt))

abbrev late : List (ℕ × ℕ)
late = (30, 0) ∷ (10, 1) ∷ (20, 2) ∷ []
