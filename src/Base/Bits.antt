-- ===== src/Base/Bits.antt =====
-- Facts about `bit_or` and `bit_xor` at variables, digit by digit, and tables over a small range.
use Prim.Native.Nat.{
  ℕ, zero, suc, ◌+◌, ◌*◌, ◌/◌, ◌%◌, ◌^◌, ◌≤◌, ◌<◌, max, bit_or, bit_xor, digits, differ,
  bit_or-bitwise, bit_xor-bitwise,
}
use mathlib.Core.Path.{◌≡◌, refl, ◌∙◌, ap, sym}
use mathlib.Core.Bool.{Bool, true, false}
use native.Mathlib.Decide.{ℕ_discrete}
use hardware_in_the_loop.Base.Tests.{if◌then◌else◌}
use native.Mathlib.Nat.{pow-suc}
use native.Mathlib.Omega.{arith}

-- A table: the test at each number under a bound, evaluated.
unfoldable pub table : (ℕ → Bool) → ℕ → Bool
table test zero = true
table test (suc k) = if test k then table test k else false

last_row : (test : ℕ → Bool) (k : ℕ) → table test (suc k) ≡ true → test k ≡ true
unfolding table
last_row test k checked = ground arith

other_rows : (test : ℕ → Bool) (k : ℕ) → table test (suc k) ≡ true → table test k ≡ true
unfolding table
other_rows test k checked = ground arith

-- Any row of a table that came out true.
pub row : (test : ℕ → Bool) (k i : ℕ) → i < k → table test k ≡ true → test i ≡ true
unfolding table
row test zero i below checked = absurd (omega arith)
row test (suc k) i below checked = elim (ℕ_discrete i k) [
  | yes e ↦ rw e (last_row test k checked)
  | no ne ↦ row test k i (omega arith) (other_rows test k checked)
]

-- An operation that keeps the second number once the first has run out.
module _ (f : ℕ → ℕ → ℕ) (f-zero : (y : ℕ) → f 0 y ≡ y) where
  by_digits : ℕ → ℕ → ℕ → ℕ
  by_digits n a b = digits (λ y. y) f n a b

  no_digits : (n b : ℕ) → by_digits n 0 b ≡ b
  unfolding by_digits
  no_digits zero b = refl
  no_digits (suc n) b = refl

  -- The count of digits does not matter, once it covers the first number.
  any_count : (a n m b : ℕ) → a ≤ n → a ≤ m → by_digits n a b ≡ by_digits m a b
  unfolding by_digits
  any_count zero n m b p q = no_digits n b ∙ sym (no_digits m b)
  any_count (suc a) zero m b p q = absurd (omega arith)
  any_count (suc a) (suc n) zero b p q = absurd (omega arith)
  any_count (suc a) (suc n) (suc m) b p q =
      ap (λ k. k * 2 + f (suc a % 2) (b % 2))
        (any_count (suc a / 2) n m (b / 2) (omega arith) (omega arith))

  low_digit :
      (a b : ℕ) → by_digits a a b ≡ by_digits (a / 2) (a / 2) (b / 2) * 2 + f (a % 2) (b % 2)
  unfolding by_digits
  low_digit zero b = omega (arith, f-zero (b % 2))
  low_digit (suc a) b =
      ap (λ k. k * 2 + f (suc a % 2) (b % 2))
        (any_count (suc a / 2) a (suc a / 2) (b / 2) (omega arith) (omega arith))

max_zero : (y : ℕ) → max 0 y ≡ y
max_zero y = omega arith

differ_zero : (y : ℕ) → differ 0 y ≡ y
differ_zero y = refl

differ_digits : (x y : ℕ) → x < 2 → y < 2 → differ x y ≡ (x + y) % 2
differ_digits zero y h k = omega arith
differ_digits (suc zero) zero h k = refl
differ_digits (suc zero) (suc zero) h k = refl
differ_digits (suc zero) (suc (suc y)) h k = absurd (omega arith)
differ_digits (suc (suc x)) y h k = absurd (omega arith)

pub bit_or_step : (a b : ℕ) → bit_or a b ≡ bit_or (a / 2) (b / 2) * 2 + max (a % 2) (b % 2)
unfolding by_digits
bit_or_step a b =
    bit_or-bitwise a b
    ∙ low_digit max max_zero a b
    ∙ ap (λ k. k * 2 + max (a % 2) (b % 2)) (sym (bit_or-bitwise (a / 2) (b / 2)))

pub bit_xor_step : (a b : ℕ) → bit_xor a b ≡ bit_xor (a / 2) (b / 2) * 2 + (a % 2 + b % 2) % 2
unfolding by_digits
bit_xor_step a b =
    bit_xor-bitwise a b
    ∙ low_digit differ differ_zero a b
    ∙ ap (λ k. k * 2 + differ (a % 2) (b % 2)) (sym (bit_xor-bitwise (a / 2) (b / 2)))
    ∙ ap (λ k. bit_xor (a / 2) (b / 2) * 2 + k)
        (differ_digits (a % 2) (b % 2) (omega arith) (omega arith))

bit_or_none : (n a : ℕ) → a ≤ n → bit_or a 0 ≡ a
bit_or_none n zero h = refl
bit_or_none zero (suc a) h = absurd (omega arith)
bit_or_none (suc n) (suc a) h =
    omega (arith, bit_or_step (suc a) 0, bit_or_none n (suc a / 2) (omega arith))

or_double : (q r : ℕ) → bit_or (q * 2) r ≡ bit_or q (r / 2) * 2 + r % 2
or_double q r =
    bit_or_step (q * 2) r
    ∙ ap (λ k. bit_or k (r / 2) * 2 + max (q * 2 % 2) (r % 2)) {y = q} (omega arith)
    ∙ omega arith

-- `(value << 8) | byte` is a sum.
pub bit_or_byte : (v b : ℕ) → b < 256 → bit_or (v * 256) b ≡ v * 256 + b
bit_or_byte v b h =
    ap (λ k. bit_or k b) {y = v * 2 * 2 * 2 * 2 * 2 * 2 * 2 * 2} (omega arith)
    ∙ omega (
      arith,
      or_double (v * 2 * 2 * 2 * 2 * 2 * 2 * 2) b,
      or_double (v * 2 * 2 * 2 * 2 * 2 * 2) (b / 2),
      or_double (v * 2 * 2 * 2 * 2 * 2) (b / 2 / 2),
      or_double (v * 2 * 2 * 2 * 2) (b / 2 / 2 / 2),
      or_double (v * 2 * 2 * 2) (b / 2 / 2 / 2 / 2),
      or_double (v * 2 * 2) (b / 2 / 2 / 2 / 2 / 2),
      or_double (v * 2) (b / 2 / 2 / 2 / 2 / 2 / 2),
      or_double v (b / 2 / 2 / 2 / 2 / 2 / 2 / 2),
      ap (bit_or v) {x = b / 2 / 2 / 2 / 2 / 2 / 2 / 2 / 2} {y = 0} (omega arith),
      bit_or_none v v (omega arith),
    )

or_comm_fuel : (n a b : ℕ) → a ≤ n → b ≤ n → bit_or a b ≡ bit_or b a
or_comm_fuel zero zero zero h k = refl
or_comm_fuel zero zero (suc b) h k = absurd (omega arith)
or_comm_fuel zero (suc a) b h k = absurd (omega arith)
or_comm_fuel (suc n) a b h k = omega (
  arith,
  bit_or_step a b,
  bit_or_step b a,
  or_comm_fuel n (a / 2) (b / 2) (omega arith) (omega arith),
)

-- `low | (high << 8)` is a sum.
pub bit_or_high_byte : (v b : ℕ) → b < 256 → bit_or b (v * 256) ≡ v * 256 + b
bit_or_high_byte v b h =
    or_comm_fuel (b + v * 256) b (v * 256) (omega arith) (omega arith) ∙ bit_or_byte v b h

xor_cancel_fuel : (n a b c : ℕ) → a ≤ n → b ≤ n → bit_xor a c ≡ bit_xor b c → a ≡ b
xor_cancel_fuel zero a b c h k e = omega arith
xor_cancel_fuel (suc n) a b c h k e =
    let halves : a / 2 ≡ b / 2 =
      xor_cancel_fuel n (a / 2) (b / 2) (c / 2) (omega arith) (omega arith)
        (omega (arith, bit_xor_step a c, bit_xor_step b c)) in
    omega (arith, halves, bit_xor_step a c, bit_xor_step b c, ap (λ k. bit_xor k (c / 2)) halves)

-- Exclusive or by one number loses nothing.
pub bit_xor_cancel : (a b c : ℕ) → bit_xor a c ≡ bit_xor b c → a ≡ b
bit_xor_cancel a b c = xor_cancel_fuel (a + b) a b c (omega arith) (omega arith)

xor_comm_fuel : (n a b : ℕ) → a ≤ n → b ≤ n → bit_xor a b ≡ bit_xor b a
xor_comm_fuel zero zero zero h k = refl
xor_comm_fuel zero zero (suc b) h k = absurd (omega arith)
xor_comm_fuel zero (suc a) b h k = absurd (omega arith)
xor_comm_fuel (suc n) a b h k = omega (
  arith,
  bit_xor_step a b,
  bit_xor_step b a,
  xor_comm_fuel n (a / 2) (b / 2) (omega arith) (omega arith),
)

pub bit_xor_comm : (a b : ℕ) → bit_xor a b ≡ bit_xor b a
bit_xor_comm a b = xor_comm_fuel (a + b) a b (omega arith) (omega arith)

-- Exclusive or stays within a width that both numbers have.
pub bit_xor_fits : (k a b : ℕ) → a < 2 ^ k → b < 2 ^ k → bit_xor a b < 2 ^ k
bit_xor_fits zero zero zero h l = omega arith
bit_xor_fits zero zero (suc b) h l = absurd (omega arith)
bit_xor_fits zero (suc a) b h l = absurd (omega arith)
bit_xor_fits (suc k) a b h l = omega (
  arith,
  pow-suc 2 k,
  bit_xor_step a b,
  bit_xor_fits k (a / 2) (b / 2) (omega (arith, pow-suc 2 k)) (omega (arith, pow-suc 2 k)),
)
