-- ===== src/Telemetry/Crc.antt =====
-- The checksum notices every change of one byte.
use hardware_in_the_loop.Base.{
  ℕ, zero, suc, ◌+◌, ◌*◌, ◌/◌, ◌%◌, ◌<◌, true, ◌≡◌, ◌≢◌, refl, sym, ◌∙◌, ap, List, [], ◌∷◌, ◌++◌,
  All, ◌==◌, ==_iff, arith, bit_xor, if◌then◌else◌, Bool,
}
use hardware_in_the_loop.Base.Bits.{table, row, bit_xor_cancel, bit_xor_comm, bit_xor_fits}
use hardware_in_the_loop.Telemetry.{crc_bit, crc_bits, crc_byte, crc_from, crc16}

abbrev pub IsByte : ℕ → Type 0
IsByte b = b < 256

-- The round before: a set low bit shows that the polynomial was added.
back : ℕ → ℕ
back c = if c % 2 == 1 then bit_xor c 0x1021 / 2 + 32768 else c / 2

back_entry : ℕ → ℕ → Bool
back_entry h l = back (crc_bit (h * 256 + l)) == h * 256 + l

back_table : table (λ h. table (back_entry h) 256) 256 ≡ true
unfolding table back_entry back crc_bit
back_table = refl

back-crc_bit : (c : ℕ) → c < 65536 → back (crc_bit c) ≡ c
unfolding back_entry
back-crc_bit c h =
    ap (λ k. back (crc_bit k)) {x = c} {y = c / 256 * 256 + c % 256} (omega arith)
    ∙ (==_iff (back (crc_bit (c / 256 * 256 + c % 256))) (c / 256 * 256 + c % 256)).0 (
        row (back_entry (c / 256)) 256 (c % 256) (omega arith)
          (row (λ h. table (back_entry h) 256) 256 (c / 256) (omega arith) back_table))
    ∙ omega arith

crc_bit-fits : (c : ℕ) → crc_bit c < 65536
unfolding crc_bit
crc_bit-fits c = ground arith

crc_bits-fits : (n c : ℕ) → c < 65536 → crc_bits n c < 65536
unfolding crc_bits
crc_bits-fits zero c h = h
crc_bits-fits (suc n) c h = crc_bits-fits n (crc_bit c) (crc_bit-fits c)

crc_bits-cancel : (n c d : ℕ) → c < 65536 → d < 65536 → crc_bits n c ≡ crc_bits n d → c ≡ d
unfolding crc_bits
crc_bits-cancel zero c d h k e = e
crc_bits-cancel (suc n) c d h k e =
    sym (back-crc_bit c h)
    ∙ ap back (crc_bits-cancel n (crc_bit c) (crc_bit d) (crc_bit-fits c) (crc_bit-fits d) e)
    ∙ back-crc_bit d k

mixed-fits : (c b : ℕ) → c < 65536 → IsByte b → bit_xor c (b * 256) < 65536
mixed-fits c b h k = bit_xor_fits 16 c (b * 256) h (omega arith)

pub crc_byte-fits : (c b : ℕ) → c < 65536 → IsByte b → crc_byte c b < 65536
unfolding crc_byte
crc_byte-fits c b h k = crc_bits-fits 8 _ (mixed-fits c b h k)

-- For a fixed byte the update loses nothing of the checksum so far.
crc_byte-cancel :
    (c d b : ℕ) → c < 65536 → d < 65536 → IsByte b → crc_byte c b ≡ crc_byte d b → c ≡ d
unfolding crc_byte
crc_byte-cancel c d b h k l e =
    bit_xor_cancel c d (b * 256) (crc_bits-cancel 8 _ _ (mixed-fits c b h l) (mixed-fits d b k l) e)

-- For a fixed checksum so far it loses nothing of the byte.
crc_byte-cancel_byte :
    (c a b : ℕ) → c < 65536 → IsByte a → IsByte b → crc_byte c a ≡ crc_byte c b → a ≡ b
unfolding crc_byte
crc_byte-cancel_byte c a b h k l e = omega (
  arith,
  bit_xor_cancel (a * 256) (b * 256) c (
      bit_xor_comm (a * 256) c
      ∙ crc_bits-cancel 8 _ _ (mixed-fits c a h k) (mixed-fits c b h l) e
      ∙ bit_xor_comm c (b * 256)),
)

crc_from-fits : (bs : List ℕ) (c : ℕ) → c < 65536 → All IsByte bs → crc_from c bs < 65536
unfolding crc_from
crc_from-fits [] c h all = h
crc_from-fits (b ∷ bs) c h all = crc_from-fits bs (crc_byte c b) (crc_byte-fits c b h all.0) all.1

crc_from-cancel :
    (bs : List ℕ) (c d : ℕ)
    → c < 65536
    → d < 65536
    → All IsByte bs
    → crc_from c bs ≡ crc_from d bs
    → c ≡ d
unfolding crc_from
crc_from-cancel [] c d h k all e = e
crc_from-cancel (b ∷ bs) c d h k all e = crc_byte-cancel c d b h k all.0 (
    crc_from-cancel bs (crc_byte c b) (crc_byte d b) (crc_byte-fits c b h all.0)
      (crc_byte-fits d b k all.0) all.1 e)

crc_from-append : (xs ys : List ℕ) (c : ℕ) → crc_from c (xs ++ ys) ≡ crc_from (crc_from c xs) ys
unfolding crc_from
crc_from-append [] ys c = refl
crc_from-append (x ∷ xs) ys c = crc_from-append xs ys (crc_byte c x)

-- The checksum is a 16-bit number, and it notices every change of a single byte: two byte strings
-- that differ in exactly one place have different checksums.
pub crc16_detects :
    (xs ys : List ℕ) (a b : ℕ)
    → All IsByte xs
    → All IsByte ys
    → IsByte a
    → IsByte b
    → a ≢ b
    → (crc16 (xs ++ (a ∷ ys)) < 65536) × (crc16 (xs ++ (a ∷ ys)) ≢ crc16 (xs ++ (b ∷ ys)))
unfolding crc16 crc_from
crc16_detects xs ys a b all all' ha hb ne =
    let c = crc_from 0xFFFF xs in
    let fits = crc_from-fits xs 0xFFFF (omega arith) all in
    (
      rw (crc_from-append xs (a ∷ ys) 0xFFFF)
          (crc_from-fits ys (crc_byte c a) (crc_byte-fits c a fits ha) all'),
      λ e. ne (
          crc_byte-cancel_byte c a b fits ha hb (
            crc_from-cancel ys (crc_byte c a) (crc_byte c b) (crc_byte-fits c a fits ha)
              (crc_byte-fits c b fits hb) all'
              (sym (crc_from-append xs (a ∷ ys) 0xFFFF) ∙ e ∙ crc_from-append xs (b ∷ ys) 0xFFFF))),
    )

pub crc16-fits : (bs : List ℕ) → All IsByte bs → crc16 bs < 65536
unfolding crc16
crc16-fits bs all = crc_from-fits bs 0xFFFF (omega arith) all
