-- ===== src/Number/Integers.antt =====
-- Whole numbers as an instance of the interface: a quotient is rounded towards 0, a literal down.
use hardware_in_the_loop.Number.{Number, SignLaws, ZeroLaws, OrderLaws, WeakOrderLaws}
use hardware_in_the_loop.Base.{ℕ, ◌+◌, ◌*◌, ◌/◌, ◌^◌, ◌≡◌, arith}
use hardware_in_the_loop.Base.Int.{ℤ, pos, pos_part, neg_part, sub_ℕ, ◌+ℤ◌, ◌-ℤ◌, ltb_ℤ}

abbrev pub negated : ℤ → ℤ
negated a = sub_ℕ (neg_part a) (pos_part a)

abbrev pub product : ℤ → ℤ → ℤ
product a b =
    sub_ℕ (pos_part a * pos_part b + neg_part a * neg_part b)
      (pos_part a * neg_part b + neg_part a * pos_part b)

abbrev pub over : ℤ → ℤ → ℤ
over a b =
    sub_ℕ (pos_part a / pos_part b + neg_part a / neg_part b)
      (pos_part a / neg_part b + neg_part a / pos_part b)

instance unfoldable pub integers : Number ℤ
unfolding ◌+ℤ◌ ◌-ℤ◌
integers = record {
  decimal = λ m e. pos (m / 10 ^ e);
  add = ◌+ℤ◌;
  sub = ◌-ℤ◌;
  mul = product;
  div = over;
  neg = negated;
  less = ltb_ℤ;
}

pos_part-negated : (a : ℤ) → pos_part (negated a) ≡ neg_part a
pos_part-negated a = ground arith

neg_part-negated : (a : ℤ) → neg_part (negated a) ≡ pos_part a
neg_part-negated a = ground arith

swapped : (m n : ℕ) → sub_ℕ m n ≡ negated (sub_ℕ n m)
swapped m n = ground arith

swapped_sums : (w x y z : ℕ) → sub_ℕ (x + w) (z + y) ≡ negated (sub_ℕ (y + z) (w + x))
swapped_sums w x y z = ground arith

product-negated : (a b : ℤ) → product (negated a) b ≡ negated (product a b)
product-negated a b =
    rw (pos_part-negated a, neg_part-negated a)
      (swapped_sums (pos_part a * neg_part b) (neg_part a * pos_part b) (pos_part a * pos_part b)
        (neg_part a * neg_part b))

product-negated_right : (a b : ℤ) → product a (negated b) ≡ negated (product a b)
product-negated_right a b =
    rw (pos_part-negated b, neg_part-negated b)
      (swapped (pos_part a * neg_part b + neg_part a * pos_part b)
        (pos_part a * pos_part b + neg_part a * neg_part b))

over-negated : (a b : ℤ) → over (negated a) b ≡ negated (over a b)
over-negated a b =
    rw (pos_part-negated a, neg_part-negated a)
      (swapped_sums (pos_part a / neg_part b) (neg_part a / pos_part b) (pos_part a / pos_part b)
        (neg_part a / neg_part b))

pub integers-SignLaws : SignLaws integers
unfolding integers ◌+ℤ◌ ◌-ℤ◌
integers-SignLaws = record {
  neg_neg = λ a. ground arith;
  add_neg = λ a b. ground arith;
  sub_neg = λ a b. ground arith;
  neg_mul = product-negated;
  mul_neg = product-negated_right;
  neg_div = over-negated;
}

pub integers-ZeroLaws : ZeroLaws integers
unfolding integers ◌+ℤ◌ ◌-ℤ◌
integers-ZeroLaws = record {
  zero_add = λ a. ground arith;
  add_zero = λ a. ground arith;
  sub_zero = λ a. ground arith;
  sub_self = λ a. ground arith;
  mul_zero = λ a. ground arith;
  zero_mul = λ a. ground arith;
  zero_div = λ a. ground arith;
}

pub integers-WeakOrderLaws : WeakOrderLaws integers
unfolding integers
integers-WeakOrderLaws = record {
  irreflexive = λ a. ground arith;
  transitive = λ a b c h k. ground (arith, h, k);
}

pub integers-OrderLaws : OrderLaws integers
unfolding integers
integers-OrderLaws = record { irreflexive = λ a. ground arith; asymmetric = λ a b h. ground arith }
