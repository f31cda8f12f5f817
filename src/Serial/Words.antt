-- ===== src/Serial/Words.antt =====
-- Register words: bytes to values and back, and the sign.
use hardware_in_the_loop.Base.{
  ℕ, zero, suc, ◌+◌, ◌-◌, ◌*◌, ◌/◌, ◌%◌, ◌^◌, ◌≤◌, ◌<◌, ◌≡◌, refl, sym, ◌∙◌, ap, arith,
  if◌then◌else◌,
}
use native.Mathlib.Nat.{
  pow-suc, div-eq_of_lt, one-le-pow, mod-lt, div-add-mod, mod-eq_of_lt, add-mul-mod_self_left,
}
use native.Mathlib.Numerals.{towards_suc}
use hardware_in_the_loop.Base.Bits.{bit_or_byte}
use hardware_in_the_loop.Base.Int.{ℤ, pos, negsuc, ◌+ℤ◌, ltb_ℤ}
use hardware_in_the_loop.Serial.{
  big_endian, value_to_bytes, bytes_from, bytes_to_value, signed_value,
}

-- The digit above `p` joins the digits below it.
digit_split : (m p : ℕ) → 0 < p → m / p % 256 * p + m % p ≡ m % (p * 256)
digit_split m p h =
    sym (mod-eq_of_lt (below (m / p % 256) (m % p) (mod-lt m h) (omega arith)))
    ∙ sym (add-mul-mod_self_left (m / p % 256 * p + m % p) (p * 256) (m / p / 256))
    ∙ ap (λ k. k % (p * 256)) (whole (m / p) (div-add-mod m p))
  where
    below : (d r : ℕ) → r < p → d < 256 → d * p + r < p * 256
    below d r hr hd = grind arith

    whole : (q : ℕ) → p * q + m % p ≡ m → q % 256 * p + m % p + p * 256 * (q / 256) ≡ m
    whole q e = omega (arith, ap (λ (k : ℕ). p * k) (div-add-mod q 256))

bytes_from-big_endian :
    (n m acc : ℕ) → bytes_from acc (big_endian n (pos m)) ≡ acc * 256 ^ n + m % 256 ^ n
unfolding bytes_from big_endian
bytes_from-big_endian zero m acc = omega arith
bytes_from-big_endian (suc n) m acc =
    ap (λ k. bytes_from k (big_endian n (pos m)))
      (bit_or_byte acc (m / 256 ^ n % 256) (omega arith))
    ∙ bytes_from-big_endian n m (acc * 256 + m / 256 ^ n % 256)
    ∙ omega (
      arith,
      digit_split m (256 ^ n) (one-le-pow n 256 (omega arith)),
      ap (λ (k : ℕ). acc * k) (pow-suc 256 n),
      ap (λ k. m % k) (pow-suc 256 n),
    )

bytes_to_value-big_endian :
    (words m : ℕ) → m < 256 ^ words → bytes_to_value (big_endian words (pos m)) ≡ m
unfolding bytes_to_value
bytes_to_value-big_endian words m h = bytes_from-big_endian words m 0 ∙ omega arith ∙ mod-eq_of_lt h

grow_pow : (k : ℕ) → 2 ^ (k + 8) ≡ 2 ^ k * 256
grow_pow k = simp towards_suc (omega arith)

two_pow_bytes : (words : ℕ) → 2 ^ (words * 8) ≡ 256 ^ words
two_pow_bytes zero = refl
two_pow_bytes (suc words) =
    ap (λ k. 2 ^ k) {y = words * 8 + 8} (omega arith)
    ∙ grow_pow (words * 8)
    ∙ ap (λ k. k * 256) (two_pow_bytes words)
    ∙ sym (pow-suc 256 words)

-- The unsigned word that stands for an integer in `bits` bits.
abbrev pub word_of : ℕ → ℤ → ℕ
word_of bits (pos m) = m
word_of bits (negsuc m) = 2 ^ bits - 1 - m

abbrev pub Fits : ℕ → ℤ → Type 0
Fits bits (pos m) = m < 2 ^ bits
Fits bits (negsuc m) = m < 2 ^ bits

complement :
    (bits : ℕ) (value : ℤ)
    → Fits bits value
    → (if ltb_ℤ value (pos 0) then value +ℤ pos (2 ^ bits) else value) ≡ pos (word_of bits value)
unfolding ◌+ℤ◌
complement bits (pos m) h = ground arith
complement bits (negsuc m) h = ground arith

word_of_bound : (bits : ℕ) (value : ℤ) → Fits bits value → word_of bits value < 2 ^ bits
word_of_bound bits (pos m) h = h
word_of_bound bits (negsuc m) h = omega arith

-- Encoding a register value as big-endian bytes and reading them as an unsigned number gives the
-- two's complement word of the value in the width of the bytes, for every value in range.
pub bytes_to_value-value_to_bytes :
    (words : ℕ) (value : ℤ)
    → Fits (words * 8) value
    → bytes_to_value (value_to_bytes words value) ≡ word_of (words * 8) value
unfolding value_to_bytes
bytes_to_value-value_to_bytes words value h =
    ap (λ v. bytes_to_value (big_endian words v)) (complement (words * 8) value h)
    ∙ bytes_to_value-big_endian words (word_of (words * 8) value)
        (omega (arith, two_pow_bytes words, word_of_bound (words * 8) value h))

quotient_one : (q r p : ℕ) → r < p → p ≤ p * q + r → p * q + r < 2 * p → q ≡ 1
quotient_one zero r p h lo hi = absurd (omega arith)
quotient_one (suc zero) r p h lo hi = refl
quotient_one (suc (suc q)) r p h lo hi = absurd (omega arith)

-- The sign test at `p`, the half of the modulus.
sign_clear : (p m : ℕ) → m < p → m / p % 2 ≡ 0
sign_clear p m h = ap (λ q. q % 2) (div-eq_of_lt h)

sign_set : (p x : ℕ) → p ≤ x → x < 2 * p → x / p % 2 ≡ 1
sign_set p x lo hi =
    ap (λ q. q % 2)
      (quotient_one (x / p) (x % p) p (mod-lt x (omega arith)) (omega (arith, div-add-mod x p))
        (omega (arith, div-add-mod x p)))

-- Reading the sign back in the width in which a word was made recovers the integer, for every
-- integer in the range of that width (one bit more than `k`).
pub signed_value-word_of :
    (k : ℕ) (value : ℤ) → Fits k value → signed_value (suc k) (word_of (suc k) value) ≡ value
unfolding signed_value
signed_value-word_of k (pos m) h =
    ground
      (arith, ap (λ j. m / 2 ^ j % 2) {x = suc k - 1} {y = k} (omega arith), sign_clear (2 ^ k) m h)
signed_value-word_of k (negsuc m) h = ground (
  arith,
  pow-suc 2 k,
  ap (λ j. (2 ^ suc k - 1 - m) / 2 ^ j % 2) {x = suc k - 1} {y = k} (omega arith),
  sign_set (2 ^ k) (2 ^ suc k - 1 - m) (omega (arith, pow-suc 2 k)) (omega (arith, pow-suc 2 k)),
)

-- The word that SerialManager.vhd sends for a negative register is sign-extended to 48 bits, and
-- the driver reads its sign as that of a 42-bit word: every negative value comes out as a large
-- positive one.
pub signed_value_extended :
    (m : ℕ)
    → m < 2 ^ 41
    → signed_value 42 (bytes_to_value (value_to_bytes 6 (negsuc m))) ≡ pos (2 ^ 48 - 2 ^ 42 - 1 - m)
unfolding signed_value
signed_value_extended m h =
    rw (bytes_to_value-value_to_bytes 6 (negsuc m) (omega arith)) (ground arith)
