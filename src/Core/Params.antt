-- ===== src/Core/Params.antt =====
-- The protocol constants of the package params, which the repository does not hold: what
-- `IntrinsicGas` and `CalcGasLimit` read, as a parameter of the model.
use chain_master.Prelude.{ℕ, ◌<◌, arith, u64_mod}

pub record ProtocolParams : Type 0 where
  pub tx_gas : ℕ
  pub tx_gas_contract_creation : ℕ
  pub tx_data_zero_gas : ℕ
  pub tx_data_non_zero_gas_frontier : ℕ
  pub tx_data_non_zero_gas_eip2028 : ℕ
  pub gas_limit_bound_divisor : ℕ
  pub min_gas_limit : ℕ

-- The documented constants are positive numbers of the type `uint64`.
pub record IsValid (p : ProtocolParams) : Type 0 where
  pub tx_gas_word : p.tx_gas < u64_mod
  pub creation_word : p.tx_gas_contract_creation < u64_mod
  pub zero_pos : 0 < p.tx_data_zero_gas
  pub frontier_pos : 0 < p.tx_data_non_zero_gas_frontier
  pub eip2028_pos : 0 < p.tx_data_non_zero_gas_eip2028
  pub divisor_pos : 0 < p.gas_limit_bound_divisor

-- The values of the main network.
abbrev pub mainnet : ProtocolParams
mainnet = record {
  tx_gas = 21000;
  tx_gas_contract_creation = 53000;
  tx_data_zero_gas = 4;
  tx_data_non_zero_gas_frontier = 68;
  tx_data_non_zero_gas_eip2028 = 16;
  gas_limit_bound_divisor = 1024;
  min_gas_limit = 5000;
}

pub mainnet-IsValid : IsValid mainnet
mainnet-IsValid = omega arith
