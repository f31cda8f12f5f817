-- ===== src/Gate/Carrier/Period.antt =====
-- The carrier is a triangle of period 2 * cmax.
use hardware_in_the_loop.Base.{
  ℕ, zero, suc, ◌+◌, ◌-◌, ◌*◌, ◌%◌, ◌<◌, ◌≡◌, sym, inl, inr, Bool-cases, ==_iff, ◌∙◌, ap, arith,
  ltb, ◌==◌, if◌then◌else◌,
}
use native.Mathlib.Nat.{mod_self, mod-lt, mod-eq_of_lt, mod-add-mod}
use hardware_in_the_loop.Gate.Carrier.{MockPwm, start, advance, advance_by, pwm_init}

-- Where in its period the carrier is.
abbrev pub position : ℕ → MockPwm → ℕ
position cmax p = if p.dir then p.carrier else 2 * cmax - 1 - p.carrier

abbrev pub next_position : ℕ → ℕ → ℕ
next_position cmax k = if k + 1 == 2 * cmax then 0 else k + 1

pub advance-position :
    (cmax : ℕ) (p : MockPwm)
    → p.carrier < cmax
    → (position cmax (advance cmax p) ≡ next_position cmax (position cmax p))
      × ((advance cmax p).carrier < cmax)
unfolding advance
advance-position cmax p h = ground arith

wrap_step : (r m : ℕ) → r < m → (if r + 1 == m then 0 else r + 1) ≡ (r + 1) % m
wrap_step r m h = elim (Bool-cases (r + 1 == m)) [
  | inl e ↦ rw e (rw ((==_iff (r + 1) m).0 e) (sym (mod_self m)))
  | inr e ↦ rw e (sym (mod-eq_of_lt (ground arith)))
]

mod_step : (m n : ℕ) → 0 < m → (if n % m + 1 == m then 0 else n % m + 1) ≡ (n + 1) % m
mod_step m n h = wrap_step (n % m) m (mod-lt n h) ∙ mod-add-mod n m 1

-- From any place in its period the carrier runs on around it: after `n` cycles it is `n` places
-- further, modulo 2 * cmax.
pub advance_by-position :
    (cmax n : ℕ) (p : MockPwm)
    → p.carrier < cmax
    → (position cmax (advance_by cmax n p) ≡ (position cmax p + n) % (2 * cmax))
      × ((advance_by cmax n p).carrier < cmax)
unfolding advance_by
advance_by-position cmax zero p h =
    (sym (mod-eq_of_lt (ground arith)) ∙ ap (λ k. k % (2 * cmax)) (omega arith), h)
advance_by-position cmax (suc n) p h =
    let (moved, kept) = advance-position cmax p h in
    let (rest, bound) = advance_by-position cmax n (advance cmax p) kept in
    (
      rest
          ∙ ap (λ k. (k + n) % (2 * cmax))
              (moved ∙ wrap_step (position cmax p) (2 * cmax) (ground arith))
          ∙ mod-add-mod (position cmax p + 1) (2 * cmax) n
          ∙ ap (λ k. k % (2 * cmax)) (omega arith),
      bound,
    )

-- The triangle: rising through 0 … cmax - 1, then falling through cmax - 1 … 0.
abbrev pub triangle : ℕ → ℕ → ℕ
triangle cmax k = if ltb k cmax then k else 2 * cmax - 1 - k

read_position :
    (cmax : ℕ) (p : MockPwm) → p.carrier < cmax → p.carrier ≡ triangle cmax (position cmax p)
read_position cmax p h = ground arith

-- The carrier that `pwm_init` leaves after `phase` cycles is the triangle at `phase` modulo its
-- period 2 * cmax, and lies below `cmax`.
pub pwm_init-carrier :
    (cmax phase : ℕ)
    → 0 < cmax
    → ((pwm_init phase cmax).carrier ≡ triangle cmax (phase % (2 * cmax)))
      × ((pwm_init phase cmax).carrier < cmax)
unfolding pwm_init
pwm_init-carrier cmax phase h =
    let (at, bound) = advance_by-position cmax phase start h in
    (
      read_position cmax (advance_by cmax phase start) bound
          ∙ ap (triangle cmax) at
          ∙ ap (λ k. triangle cmax (k % (2 * cmax))) (omega arith),
      bound,
    )
