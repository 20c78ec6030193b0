-- ===== src/Pool/Tx.antt =====
-- A transaction, as what its accessors return: the package core/types is not in the repository.
use chain_master.Prelude.{ℕ, Bool, Option, List}

pub record Tx : Type 0 where
  pub nonce : ℕ
  pub gas_price : ℕ
  pub gas : ℕ
  -- `Cost()`: the value and the price of all the gas.
  pub cost : ℕ
  -- `Value().Sign() < 0`; such a transaction is refused before its cost is read.
  pub is_negative : Bool
  -- `Data()`, and `To() == nil`.
  pub payload : List ℕ
  pub creation : Bool
  pub hash : ℕ
  pub size : ℕ
  -- `types.Sender`; `none` where the signature is invalid.
  pub sender : Option ℕ
