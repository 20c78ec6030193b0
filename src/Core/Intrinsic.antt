-- ===== src/Core/Intrinsic.antt =====
-- `IntrinsicGas` of state_transition.go.
use chain_master.Prelude.{
  ℕ, ◌+◌, ◌-◌, ◌*◌, ◌/◌, ◌%◌, ◌<◌, ◌≤◌, ◌≡◌, Bool, ◌&&◌, List, [], ◌∷◌, arith, ltb, ◌==◌,
  if◌then◌else◌, length, u64_mod, Bool-cases, inl, inr,
}
use native.Mathlib.Nat.{div-lt_iff_lt-mul, le-div_iff_mul-le}
use chain_master.Core.Run.{gas_uint_overflow, Run, ok, err, ◌>>=◌}
use chain_master.Core.Params.{ProtocolParams, IsValid}

-- The number of bytes that are not zero.
unfoldable pub non_zeros : List ℕ → ℕ
non_zeros [] = 0
non_zeros (b ∷ bs) = if b == 0 then non_zeros bs else non_zeros bs + 1

unfoldable pub base_gas : ProtocolParams → Bool → Bool → ℕ
base_gas p creation homestead =
    if creation && homestead then p.tx_gas_contract_creation else p.tx_gas

unfoldable pub non_zero_gas : ProtocolParams → Bool → ℕ
non_zero_gas p eip2028 =
    if eip2028 then p.tx_data_non_zero_gas_eip2028 else p.tx_data_non_zero_gas_frontier

-- One of the two charges for data: `count` bytes at `price` each, with the overflow test.
unfoldable pub charge : ℕ → ℕ → ℕ → Run ℕ
charge gas price count =
    if ltb ((u64_mod - 1 - gas) / price) count
    then err gas_uint_overflow
    else ok ((gas + count * price % u64_mod) % u64_mod)

unfoldable pub intrinsic_gas : ProtocolParams → List ℕ → Bool → Bool → Bool → Run ℕ
intrinsic_gas p payload creation homestead eip2028 =
    let gas = base_gas p creation homestead in
    if ltb 0 (length payload)
    then (do
      let nz = non_zeros payload
      gas' ← charge gas (non_zero_gas p eip2028) nz
      charge gas' p.tx_data_zero_gas (length payload - nz))
    else ok gas

-- The gas as a number without bound.
abbrev pub ideal_gas : ProtocolParams → List ℕ → Bool → Bool → Bool → ℕ
ideal_gas p payload creation homestead eip2028 =
    base_gas p creation homestead
    + non_zeros payload * non_zero_gas p eip2028
    + (length payload - non_zeros payload) * p.tx_data_zero_gas

-- The overflow test refuses exactly the sums that leave the range of `uint64`.
pub charge_exact :
    (gas price count : ℕ)
    → gas < u64_mod
    → 0 < price
    → charge gas price count ≡ (
        if ltb (gas + count * price) u64_mod
        then ok (gas + count * price)
        else err gas_uint_overflow)
unfolding charge
charge_exact gas price count h p = elim (Bool-cases (ltb ((u64_mod - 1 - gas) / price) count)) [
  | inl over ↦
      let big : u64_mod - 1 - gas < count * price = (div-lt_iff_lt-mul p).0 (ground arith) in
      rw over (ground (arith, big))
  | inr fits ↦
      let small : count * price ≤ u64_mod - 1 - gas = (le-div_iff_mul-le p).0 (ground arith) in
      rw fits (ground (arith, small))
]

pub non_zeros-le : (bs : List ℕ) → non_zeros bs ≤ length bs
unfolding non_zeros
non_zeros-le [] = omega arith
non_zeros-le (b ∷ bs) = ground (arith, non_zeros-le bs)

module _ (p : ProtocolParams) (v : IsValid p) where
  base_gas-lt : (creation homestead : Bool) → base_gas p creation homestead < u64_mod
  unfolding base_gas
  base_gas-lt creation homestead = ground arith

  non_zero_gas-pos : (eip2028 : Bool) → 0 < non_zero_gas p eip2028
  unfolding non_zero_gas
  non_zero_gas-pos eip2028 = ground arith

  -- For valid constants the intrinsic gas is the base price plus the price of each byte, or an
  -- error exactly when that sum does not fit in 64 bits.
  pub intrinsic_gas-exact :
      (payload : List ℕ) (creation homestead eip2028 : Bool)
      → intrinsic_gas p payload creation homestead eip2028 ≡ (
          if ltb (ideal_gas p payload creation homestead eip2028) u64_mod
          then ok (ideal_gas p payload creation homestead eip2028)
          else err gas_uint_overflow)
  unfolding intrinsic_gas
  intrinsic_gas-exact [] creation homestead eip2028 =
      ground (arith, base_gas-lt creation homestead, non_zeros-le [])
  intrinsic_gas-exact (b ∷ bs) creation homestead eip2028 =
      let base = base_gas p creation homestead in
      let price = non_zero_gas p eip2028 in
      let count = non_zeros (b ∷ bs) in
      ground (
        arith,
        charge_exact base price count (base_gas-lt creation homestead) (non_zero_gas-pos eip2028),
        charge_exact (base + count * price) p.tx_data_zero_gas (length (b ∷ bs) - count),
      )
