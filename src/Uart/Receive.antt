-- ===== src/Uart/Receive.antt =====
-- The receiver alone: finding the start bit, and putting eight samples together.
use hardware_in_the_loop.Base.{
  ℕ, zero, suc, ◌+◌, ◌-◌, ◌*◌, ◌/◌, ◌%◌, ◌^◌, ◌≤◌, ◌<◌, Bool, true, false, ◌&&◌, ◌==◌, ◌≡◌, refl,
  ◌∙◌, ap, ==_iff, lt→leb, arith, bit_or,
}
use mathlib.Core.Path.{ap₂}
use native.Mathlib.Nat.{mod-lt, one-le-pow}
use native.Mathlib.Decide.{dec_le}
use hardware_in_the_loop.Base.Bits.{table, row}
use hardware_in_the_loop.Uart.{Pin, done, is_low, bit_value, level_of, wait_start, sample_bits}

or_entry : ℕ → ℕ → Bool
or_entry i d = (bit_or d (0 * 2 ^ i) == d) && (bit_or d (1 * 2 ^ i) == d + 2 ^ i)

or_table : table (λ i. table (or_entry i) (2 ^ i)) 8 ≡ true
unfolding table or_entry
or_table = refl

or_row :
    (i d : ℕ)
    → i < 8
    → d < 2 ^ i
    → ((bit_or d (0 * 2 ^ i) == d) && (bit_or d (1 * 2 ^ i) == d + 2 ^ i)) ≡ true
unfolding or_entry
or_row i d h k = row (or_entry i) (2 ^ i) d k (row (λ i. table (or_entry i) (2 ^ i)) 8 i h or_table)

and_parts : (a b : Bool) → (a && b) ≡ true → (a ≡ true) × (b ≡ true)
and_parts a b h = ground arith

or_low : (i d c : ℕ) → i < 8 → d < 2 ^ i → c < 2 → bit_or d (c * 2 ^ i) ≡ d + c * 2 ^ i
or_low i d zero h k c =
    (==_iff (bit_or d (0 * 2 ^ i)) d).0 (and_parts _ _ (or_row i d h k)).0 ∙ omega arith
or_low i d (suc zero) h k c =
    (==_iff (bit_or d (1 * 2 ^ i)) (d + 2 ^ i)).0 (and_parts _ _ (or_row i d h k)).1 ∙ omega arith
or_low i d (suc (suc c)) h k l = absurd (omega arith)

-- The next higher bit joins the bits below it.
low_bits_grow : (i b : ℕ) → i < 8 → b % 2 ^ i + b / 2 ^ i % 2 * 2 ^ i ≡ b % 2 ^ (i + 1)
low_bits_grow zero b h = omega arith
low_bits_grow (suc zero) b h = omega arith
low_bits_grow (suc (suc zero)) b h = omega arith
low_bits_grow (suc (suc (suc zero))) b h = omega arith
low_bits_grow (suc (suc (suc (suc zero)))) b h = omega arith
low_bits_grow (suc (suc (suc (suc (suc zero))))) b h = omega arith
low_bits_grow (suc (suc (suc (suc (suc (suc zero)))))) b h = omega arith
low_bits_grow (suc (suc (suc (suc (suc (suc (suc zero))))))) b h = omega arith
low_bits_grow (suc (suc (suc (suc (suc (suc (suc (suc i)))))))) b h = absurd (omega arith)

bit_value-level_of : (c : ℕ) → c < 2 → bit_value (level_of c) ≡ c
bit_value-level_of zero h = refl
bit_value-level_of (suc zero) h = refl
bit_value-level_of (suc (suc c)) h = absurd (omega arith)

pow_pos : (i : ℕ) → 0 < 2 ^ i
pow_pos i = one-le-pow i 2 (omega arith)

join_bit :
    (i b : ℕ)
    → i < 8
    → bit_or (b % 2 ^ i) (bit_value (level_of (b / 2 ^ i % 2)) * 2 ^ i) ≡ b % 2 ^ (i + 1)
join_bit i b h = rw (bit_value-level_of (b / 2 ^ i % 2) (omega arith)) (
    or_low i (b % 2 ^ i) (b / 2 ^ i % 2) h (mod-lt b (pow_pos i)) (omega arith)
    ∙ low_bits_grow i b h)

-- Samples that show the bits of `b` from bit `i` on put the low bits of `b` together.
pub sample_bits_lem :
    (n : ℕ) (pin : Pin) (period i b now : ℕ)
    → i + n ≤ 8
    → ((k : ℕ) → k < n → pin (now + k * period) ≡ level_of (b / 2 ^ (i + k) % 2))
    → sample_bits n pin period i (b % 2 ^ i) now ≡ done (b % 2 ^ (i + n)) (now + n * period)
unfolding sample_bits
sample_bits_lem zero pin period i b now h see =
    ap₂ done (ap (λ j. b % 2 ^ j) (omega arith)) (omega arith)
sample_bits_lem (suc n) pin period i b now h see =
    rw (first, join_bit i b (omega arith))
      (sample_bits_lem n pin period (i + 1) b (now + period) (omega arith) (λ k hk.
          ap pin (omega arith)
          ∙ see (suc k) (omega arith)
          ∙ ap (λ j. level_of (b / 2 ^ j % 2)) (omega arith))
        ∙ ap₂ done (ap (λ j. b % 2 ^ j) {x = i + 1 + n} (omega arith)) (omega arith))
  where
    first : pin now ≡ level_of (b / 2 ^ i % 2)
    first =
        ap pin {x = now} {y = now + 0 * period} (omega arith)
        ∙ see 0 (omega arith)
        ∙ ap (λ j. level_of (b / 2 ^ j % 2)) {x = i + 0} (omega arith)

-- The polling loop finds the start bit at the first poll at or after its edge, within one poll
-- interval of it, if the timeout leaves room.
pub wait_start_lem :
    (fuel : ℕ) (pin : Pin) (poll timeout elapsed now s : ℕ)
    → 0 < poll
    → now < s + poll
    → elapsed + (s + poll - now) ≤ timeout
    → s - now < fuel
    → ((t : ℕ) → now ≤ t → t < s → is_low (pin t) ≡ false)
    → ((t : ℕ) → s ≤ t → t < s + poll → is_low (pin t) ≡ true)
    → (r : ℕ) × (wait_start fuel pin poll timeout elapsed now ≡ done tt r)
      × (s ≤ r)
      × (now ≤ r)
      × (r < s + poll)
unfolding wait_start
wait_start_lem zero pin poll timeout elapsed now s p near room enough idle start =
    absurd (omega arith)
wait_start_lem (suc fuel) pin poll timeout elapsed now s p near room enough idle start =
    elim (dec_le s now) [
      | yes h ↦ (now, rw (start now h near), h, omega arith, near)
      | no h ↦
          let (r, found, from_start, from_now, in_time) =
            wait_start_lem fuel pin poll timeout (elapsed + poll) (now + poll) s p (omega arith)
              (omega arith) (omega arith) (λ t a b. idle t (omega arith) b) start in
          (
            r,
            rw (idle now (omega arith) (omega arith), lt→leb timeout (elapsed + poll) (omega arith))
                found,
            from_start,
            omega arith,
            in_time,
          )
    ]
