-- ===== src/Gate/Carrier/Command.antt =====
-- The commands of a carrier period: how long a leg is switched, and on which side.
use hardware_in_the_loop.Base.{
  ℕ, zero, suc, ◌+◌, ◌-◌, ◌*◌, ◌≤◌, min, Bool, true, false, ◌≡◌, ap, ◌∙◌, arith, ltb, if◌then◌else◌,
}
use hardware_in_the_loop.Base.Int.{ℤ, pos, ltb_ℤ}
use hardware_in_the_loop.Gate.{Level, minus, flat, plus}
use hardware_in_the_loop.Gate.Carrier.{abs_sat, npc_state}
use hardware_in_the_loop.Gate.Carrier.Period.{triangle}

abbrev pub is_switched : Level → Bool
is_switched flat = false
is_switched _ = true

-- For how many of the first `n` cycles of a period the command is not 0.
unfoldable pub switched_cycles : ℤ → ℕ → ℕ → ℕ
switched_cycles r cmax zero = 0
switched_cycles r cmax (suc n) =
    switched_cycles r cmax n + (if is_switched (npc_state r (triangle cmax n) cmax) then 1 else 0)

abs_sat-le : (r : ℤ) (cmax : ℕ) → abs_sat r cmax ≤ cmax
unfolding abs_sat
abs_sat-le r cmax = ground arith

switched_iff : (r : ℤ) (c cmax : ℕ) → is_switched (npc_state r c cmax) ≡ ltb c (abs_sat r cmax)
unfolding npc_state
switched_iff r c cmax = ground arith

rising : (r : ℤ) (cmax n : ℕ) → n ≤ cmax → switched_cycles r cmax n ≡ min n (abs_sat r cmax)
unfolding switched_cycles
rising r cmax zero h = omega arith
rising r cmax (suc n) h =
    ground (arith, rising r cmax n (omega arith), switched_iff r (triangle cmax n) cmax)

falling_step :
    (r : ℤ) (cmax j : ℕ)
    → switched_cycles r cmax (cmax + j) ≡ abs_sat r cmax + (j + abs_sat r cmax - cmax)
    → suc j ≤ cmax
    → switched_cycles r cmax (suc (cmax + j)) ≡ abs_sat r cmax + (suc j + abs_sat r cmax - cmax)
unfolding switched_cycles
falling_step r cmax j ih h =
    ground (arith, switched_iff r (triangle cmax (cmax + j)) cmax, abs_sat-le r cmax)

-- The count in the falling half, `j` cycles after the peak.
falling :
    (r : ℤ) (cmax j : ℕ)
    → j ≤ cmax
    → switched_cycles r cmax (cmax + j) ≡ abs_sat r cmax + (j + abs_sat r cmax - cmax)
unfolding switched_cycles
falling r cmax zero h =
    ap (switched_cycles r cmax) (omega arith)
    ∙ rising r cmax cmax (omega arith)
    ∙ omega (arith, abs_sat-le r cmax)
falling r cmax (suc j) h =
    ap (switched_cycles r cmax) {y = suc (cmax + j)} (omega arith)
    ∙ falling_step r cmax j (falling r cmax j (omega arith)) h

npc_state_sign :
    (r : ℤ) (cmax c : ℕ)
    → is_switched (npc_state r c cmax) ≡ true
    → npc_state r c cmax ≡ (if ltb_ℤ r (pos 0) then minus else plus)
unfolding npc_state
npc_state_sign r cmax c h = ground arith

-- The duty of a leg is exact: in one period of 2 * cmax cycles the command is not 0 for twice the
-- saturated magnitude of the reference, and it then has the sign of the reference.
pub npc_state_duty :
    (r : ℤ) (cmax : ℕ)
    → (switched_cycles r cmax (2 * cmax) ≡ 2 * abs_sat r cmax)
      × ((c : ℕ)
          → is_switched (npc_state r c cmax) ≡ true
          → npc_state r c cmax ≡ (if ltb_ℤ r (pos 0) then minus else plus))
npc_state_duty r cmax = (
  ap (switched_cycles r cmax) (omega arith)
      ∙ falling r cmax cmax (omega arith)
      ∙ omega (arith, abs_sat-le r cmax),
  npc_state_sign r cmax,
)
