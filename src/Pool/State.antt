-- ===== src/Pool/State.antt =====
-- The state of tx_pool.go: the configuration, the pool, and the check of a transaction.
use chain_master.Prelude.{
  ℕ, ◌+◌, Bool, true, false, not, ◌&&◌, ◌||◌, Option, none, some, List, [], ◌∷◌, ltb, if◌then◌else◌,
}
use chain_master.Prelude.GoMap.{GoMap}
use chain_master.Core.Run.{Error, Run, ok, err, panic}
use chain_master.Core.Params.{ProtocolParams}
use chain_master.Core.Intrinsic
use chain_master.Pool.Tx.{Tx}
use chain_master.Pool.TxList.{TxList}
use chain_master.Pool.TxList
use chain_master.Pool.Noncer.{TxNoncer}
use chain_master.Pool.Lookup.{TxLookup}
use chain_master.Pool.Accounts.{AccountSet}
use chain_master.Pool.Accounts
use chain_master.Pool.Priced.{PricedList}

-- Durations are in nanoseconds.
pub record PoolConfig : Type 0 where
  pub no_locals : Bool
  pub rejournal : ℕ
  pub price_limit : ℕ
  pub price_bump : ℕ
  pub account_slots : ℕ
  pub global_slots : ℕ
  pub account_queue : ℕ
  pub global_queue : ℕ
  pub lifetime : ℕ

abbrev pub default_config : PoolConfig
default_config = record {
  no_locals = false;
  rejournal = 3600000000000;
  price_limit = 1;
  price_bump = 10;
  account_slots = 16;
  global_slots = 4096;
  account_queue = 64;
  global_queue = 1024;
  lifetime = 10800000000000;
}

unfoldable pub sanitize : PoolConfig → PoolConfig
sanitize c = record {
  no_locals = c.no_locals;
  rejournal = if ltb c.rejournal 1000000000 then 1000000000 else c.rejournal;
  price_limit = if ltb c.price_limit 1 then default_config.price_limit else c.price_limit;
  price_bump = if ltb c.price_bump 1 then default_config.price_bump else c.price_bump;
  account_slots = if ltb c.account_slots 1 then default_config.account_slots else c.account_slots;
  global_slots = if ltb c.global_slots 1 then default_config.global_slots else c.global_slots;
  account_queue = if ltb c.account_queue 1 then default_config.account_queue else c.account_queue;
  global_queue = if ltb c.global_queue 1 then default_config.global_queue else c.global_queue;
  lifetime = if ltb c.lifetime 1 then default_config.lifetime else c.lifetime;
}

-- `GetNonce` and `GetBalance` of the state at the head of the chain.
pub record HeadState : Type 0 where
  pub nonce : ℕ → ℕ
  pub balance : ℕ → ℕ

-- The journal is what was handed to it; the events are what was sent to the reorganisation loop.
pub record TxPool : Type 0 where
  pub config : PoolConfig
  pub gas_price : ℕ
  pub istanbul : Bool
  pub state : HeadState
  pub pending_nonces : TxNoncer
  pub max_gas : ℕ
  pub locals : AccountSet
  pub journal : Option (List Tx)
  pub events : List Tx
  pub pending : GoMap TxList
  pub queue : GoMap TxList
  pub beats : GoMap ℕ
  pub all : TxLookup
  pub priced : PricedList

pub data PoolError : Type 0 where
  already_known invalid_sender underpriced replace_underpriced : PoolError
  gas_limit negative_value oversized_data : PoolError
  -- An error of the package core.
  core_error : Error → PoolError

-- The address that `types.Sender` returns, which is zero beside an error.
unfoldable pub sender_of : Tx → ℕ
sender_of tx = elim tx.sender [ none ↦ 0 | some from ↦ from ]

-- The check of the gas against `IntrinsicGas`, which does not panic.
unfoldable pub check_intrinsic : Tx → Run ℕ → Option PoolError
check_intrinsic tx panic = none
check_intrinsic tx (err e) = some (PoolError.core_error e)
check_intrinsic tx (ok gas) =
    if ltb tx.gas gas then some (PoolError.core_error Error.intrinsic_gas) else none

-- The part of `validateTx` from the sender on.
unfoldable pub validate_from : ProtocolParams → TxPool → Tx → Bool → ℕ → Option PoolError
unfolding check_intrinsic
validate_from p pool tx local from =
    if not (local || Accounts.contains pool.locals from) && ltb tx.gas_price pool.gas_price
    then some PoolError.underpriced
    else if ltb tx.nonce (pool.state.nonce from)
    then some (PoolError.core_error Error.nonce_too_low)
    else if ltb (pool.state.balance from) tx.cost
    then some (PoolError.core_error Error.insufficient_funds)
    else check_intrinsic tx (Intrinsic.intrinsic_gas p tx.payload tx.creation true pool.istanbul)

unfoldable pub validate_tx : ProtocolParams → TxPool → Tx → Bool → Option PoolError
unfolding validate_from
validate_tx p pool tx local =
    if ltb 131072 tx.size
    then some PoolError.oversized_data
    else if tx.is_negative
    then some PoolError.negative_value
    else if ltb pool.max_gas tx.gas
    then some PoolError.gas_limit
    else elim tx.sender [
      | none ↦ some PoolError.invalid_sender
      | some from ↦ validate_from p pool tx local from
    ]

-- The number of transactions in the lists of a map.
unfoldable pub count_txs : GoMap TxList → ℕ
count_txs [] = 0
count_txs ((addr, list) ∷ m) = TxList.size list + count_txs m

unfoldable pub stats : TxPool → ℕ × ℕ
stats pool = (count_txs pool.pending, count_txs pool.queue)
