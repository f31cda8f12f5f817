-- ===== src/Number.antt =====
-- The floating-point numbers that the scripts compute with, as an interface: rounding is not modelled,
-- and what a proof needs of the operations is a record of laws. `decimal m e` is the literal m / 10 ^ e.
pub mod Integers
pub mod Totals
use hardware_in_the_loop.Base.{ℕ, Bool, true, false, ◌≡◌, if◌then◌else◌}

pub record Number (A : Type 0) : Type 0 where
  pub decimal : ℕ → ℕ → A
  pub add : A → A → A
  pub sub : A → A → A
  pub mul : A → A → A
  pub div : A → A → A
  pub neg : A → A
  pub less : A → A → Bool

infixl 65 ◌+F◌ ◌-F◌
infixl 70 ◌*F◌ ◌/F◌
abbrev pub ◌+F◌ : {A : Type 0} ⦃n : Number A⦄ → A → A → A
◌+F◌ ⦃n⦄ = n.add

abbrev pub ◌-F◌ : {A : Type 0} ⦃n : Number A⦄ → A → A → A
◌-F◌ ⦃n⦄ = n.sub

abbrev pub ◌*F◌ : {A : Type 0} ⦃n : Number A⦄ → A → A → A
◌*F◌ ⦃n⦄ = n.mul

abbrev pub ◌/F◌ : {A : Type 0} ⦃n : Number A⦄ → A → A → A
◌/F◌ ⦃n⦄ = n.div

abbrev pub neg : {A : Type 0} ⦃n : Number A⦄ → A → A
neg ⦃n⦄ = n.neg

abbrev pub less : {A : Type 0} ⦃n : Number A⦄ → A → A → Bool
less ⦃n⦄ = n.less

abbrev pub decimal : {A : Type 0} ⦃n : Number A⦄ → ℕ → ℕ → A
decimal ⦃n⦄ = n.decimal

-- `n / 1`: a whole number.
abbrev pub whole : {A : Type 0} ⦃n : Number A⦄ → ℕ → A
whole n = decimal n 0

-- `min(a, b)` and `max(a, b)`: the first one unless the second is below, or above.
abbrev pub min_F : {A : Type 0} ⦃n : Number A⦄ → A → A → A
min_F a b = if less b a then b else a

abbrev pub max_F : {A : Type 0} ⦃n : Number A⦄ → A → A → A
max_F a b = if less a b then b else a

-- What is true of the order, also with values that are no numbers.
pub record OrderLaws {A : Type 0} (n : Number A) : Type 0 where
  pub irreflexive : (a : A) → n.less a a ≡ false
  pub asymmetric : (a b : A) → n.less a b ≡ true → n.less b a ≡ false

-- The order of the floats that are numbers, as far as a search for a maximum needs it.
pub record WeakOrderLaws {A : Type 0} (n : Number A) : Type 0 where
  pub irreflexive : (a : A) → n.less a a ≡ false
  pub transitive : (a b c : A) → n.less a b ≡ true → n.less b c ≡ true → n.less a c ≡ true

-- A minus sign commutes with the operations, rounding included, up to the sign of a zero.
pub record SignLaws {A : Type 0} (n : Number A) : Type 0 where
  pub neg_neg : (a : A) → n.neg (n.neg a) ≡ a
  pub add_neg : (a b : A) → n.add (n.neg a) (n.neg b) ≡ n.neg (n.add a b)
  pub sub_neg : (a b : A) → n.sub (n.neg a) (n.neg b) ≡ n.neg (n.sub a b)
  pub neg_mul : (a b : A) → n.mul (n.neg a) b ≡ n.neg (n.mul a b)
  pub mul_neg : (a b : A) → n.mul a (n.neg b) ≡ n.neg (n.mul a b)
  pub neg_div : (a b : A) → n.div (n.neg a) b ≡ n.neg (n.div a b)

-- What 0 does to the operations.
pub record ZeroLaws {A : Type 0} (n : Number A) : Type 0 where
  pub zero_add : (a : A) → n.add (n.decimal 0 0) a ≡ a
  pub add_zero : (a : A) → n.add a (n.decimal 0 0) ≡ a
  pub sub_zero : (a : A) → n.sub a (n.decimal 0 0) ≡ a
  pub sub_self : (a : A) → n.sub a a ≡ n.decimal 0 0
  pub mul_zero : (a : A) → n.mul a (n.decimal 0 0) ≡ n.decimal 0 0
  pub zero_mul : (a : A) → n.mul (n.decimal 0 0) a ≡ n.decimal 0 0
  pub zero_div : (a : A) → n.div (n.decimal 0 0) a ≡ n.decimal 0 0
