-- ===== src/Core/GasLimit.antt =====
-- `CalcGasLimit` of block_validator.go: the gas limit of the block after a given parent.
use chain_master.Prelude.{
  ℕ, ◌+◌, ◌-◌, ◌*◌, ◌/◌, ◌%◌, ◌^◌, ◌≤◌, ◌<◌, ◌≡◌, arith, ltb, if◌then◌else◌, u64_mod,
}
use native.Mathlib.Nat.{le-div_iff_mul-le, lt-div-mul-add, le_refl, mul-le-mul_right, div-le_self}
use native.Mathlib.Decide.{dec_le}
use chain_master.Core.Params.{ProtocolParams}

-- The two steps away from the parent's limit.
contrib : ProtocolParams → ℕ → ℕ
contrib p gas_used = (gas_used + gas_used / 2) % u64_mod / p.gas_limit_bound_divisor

decay : ProtocolParams → ℕ → ℕ
decay p gas_limit = (gas_limit / p.gas_limit_bound_divisor + u64_mod - 1) % u64_mod

-- The clamping of the limit between the floor and the ceiling.
clamp : ℕ → ℕ → ℕ → ℕ → ℕ → ℕ
clamp parent decay gas_floor gas_ceil limit =
    if ltb limit gas_floor
    then (let up = (parent + decay) % u64_mod in if ltb gas_floor up then gas_floor else up)
    else if ltb gas_ceil limit
    then (let down = (parent + u64_mod - decay) % u64_mod in
        if ltb down gas_ceil then gas_ceil else down)
    else limit

unfoldable pub calc_gas_limit : ProtocolParams → ℕ → ℕ → ℕ → ℕ → ℕ
unfolding contrib decay clamp
calc_gas_limit p parent_used parent_limit gas_floor gas_ceil =
    let limit =
      ((parent_limit + u64_mod - decay p parent_limit) % u64_mod + contrib p parent_used)
      % u64_mod in
    clamp parent_limit (decay p parent_limit) gas_floor gas_ceil
      (if ltb limit p.min_gas_limit then p.min_gas_limit else limit)

-- The increase is at most half as large again as the parent's share.
contrib-bound :
    (p : ProtocolParams) (used limit : ℕ)
    → 0 < p.gas_limit_bound_divisor
    → used ≤ limit
    → limit < 2 ^ 63
    → 2 * contrib p used ≤ 3 * (limit / p.gas_limit_bound_divisor) + 2
unfolding contrib
contrib-bound p used limit d h k =
    let divisor = p.gas_limit_bound_divisor in
    let share = limit / divisor in
    let whole : (used + used / 2) % u64_mod ≡ used + used / 2 = omega arith in
    let step = (used + used / 2) / divisor in
    let below : step * divisor ≤ used + used / 2 = (le-div_iff_mul-le d).0 (le_refl _) in
    let above : limit < share * divisor + divisor = lt-div-mul-add d in
    rw whole (elim (dec_le (2 * step) (3 * share + 2)) [
      | yes fine ↦ fine
      | no more ↦
          let scaled : (3 * share + 3) * divisor ≤ 2 * step * divisor =
            mul-le-mul_right divisor (omega arith) in
          absurd (omega arith)
    ])

module _ (p : ProtocolParams) (used limit gas_floor gas_ceil : ℕ)
    (divisor : 0 < p.gas_limit_bound_divisor) (full : used ≤ limit) (range : limit < 2 ^ 63)
    (ceil_range : gas_ceil < 2 ^ 63) (least : p.min_gas_limit ≤ limit)
    (allowed : p.min_gas_limit ≤ gas_ceil) (room : 5 ≤ limit / p.gas_limit_bound_divisor) where
  decay-eq : decay p limit ≡ limit / p.gas_limit_bound_divisor - 1
  unfolding decay
  decay-eq = omega (arith, div-le_self limit p.gas_limit_bound_divisor)

  -- Take a parent within its own limits, whose limit is at least the minimum and five divisors, a
  -- ceiling of at least the minimum, and words below 2 ^ 63. The limit of the child differs from
  -- that of the parent by less than the parent's share of the divisor and is at least the minimum.
  pub calc_gas_limit_bounds :
      let child = calc_gas_limit p used limit gas_floor gas_ceil in
      let share = limit / p.gas_limit_bound_divisor in
      (child < limit + share) × (limit < child + share) × (p.min_gas_limit ≤ child)
  unfolding calc_gas_limit
  calc_gas_limit_bounds =
      let up = contrib-bound p used limit divisor full range in
      let small = div-le_self limit p.gas_limit_bound_divisor in
      rw decay-eq (ground (arith, up, small))
