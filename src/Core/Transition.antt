-- ===== src/Core/Transition.antt =====
-- state_transition.go, with `CanTransfer` and `Transfer` of evm.go.
mod Monad
pub mod Gas
pub mod Money
pub mod Errors
pub use Monad.*
use chain_master.Prelude.{
  ℕ, ◌+◌, ◌-◌, ◌*◌, ◌/◌, ◌%◌, Bool, true, false, ◌&&◌, not, Option, none, some, List, [], ltb, leb,
  if◌then◌else◌, u64_mod,
}
use chain_master.Core.Run.{
  Run, nonce_too_low, nonce_too_high, insufficient_funds_for_transfer, insufficient_funds,
  intrinsic_gas,
}
use chain_master.Core.Params.{ProtocolParams}
use chain_master.Core.GasPool.{add_gas, sub_gas}
use chain_master.Core.Intrinsic
use chain_master.Core.World.{VmError, execution_reverted, EvmResult, World}

pub record Message : Type 0 where
  pub sender : ℕ
  pub to : Option ℕ
  pub gas_price : ℕ
  pub gas : ℕ
  pub value : ℕ
  pub nonce : ℕ
  pub check_nonce : Bool
  pub payload : List ℕ

-- `ExecutionResult`
pub record ExecutionResult : Type 0 where
  pub used_gas : ℕ
  pub vmerr : Option VmError
  pub return_data : List ℕ

-- `CanTransfer` of evm.go.
unfoldable pub can_transfer : (w : World) → w.State → ℕ → ℕ → Bool
can_transfer w s a amount = leb amount (w.get_balance s a)

-- `Transfer` of evm.go.
unfoldable pub transfer : (w : World) → w.State → ℕ → ℕ → ℕ → w.State
transfer w s a b amount = w.add_balance (w.sub_balance s a amount) b amount

abbrev pub is_none {ℓ} : {A : Type ℓ} → Option A → Bool
is_none none = true
is_none (some _) = false

-- `NewStateTransition` on the pool and the database.
abbrev pub new_state_transition : (w : World) → ℕ → w.State → StateTransition w
new_state_transition w gp s = record { gp = gp; gas = 0; initial_gas = 0; state = s }

unfoldable pub gas_used : {w : World} → StateTransition w → ℕ
gas_used st = (st.initial_gas + u64_mod - st.gas) % u64_mod

module _ (w : World) (p : ProtocolParams) (msg : Message) where
  unfoldable pub buy_gas : Action w (Unit {0})
  buy_gas = do
    st ← get
    let mgval = msg.gas * msg.gas_price
    raise_if (ltb (w.get_balance st.state msg.sender) mgval) insufficient_funds
    gp ← lift (sub_gas st.gp msg.gas)
    put (record {
      gp = gp;
      gas = (st.gas + msg.gas) % u64_mod;
      initial_gas = msg.gas;
      state = w.sub_balance st.state msg.sender mgval;
    })

  unfoldable pub pre_check : Action w (Unit {0})
  pre_check = do
    st ← get
    let nonce = w.get_nonce st.state msg.sender
    raise_if (msg.check_nonce && ltb nonce msg.nonce) nonce_too_high
    raise_if (msg.check_nonce && ltb msg.nonce nonce) nonce_too_low
    buy_gas

  unfoldable pub refund_gas : Action w (Unit {0})
  refund_gas = do
    st ← get
    let half = gas_used st / 2
    let refund = if ltb (w.get_refund st.state) half then w.get_refund st.state else half
    let gas = (st.gas + refund) % u64_mod
    put (record st { gas = gas; state = w.add_balance st.state msg.sender (gas * msg.gas_price) })
    gp ← lift (add_gas st.gp gas)
    now ← get
    put (record now { gp = gp })

  -- The charge of the intrinsic gas, and the check of the transferred value.
  unfoldable pub charge_intrinsic : Action w (Unit {0})
  charge_intrinsic = do
    st ← get
    let creation = is_none msg.to
    gas ← lift (Intrinsic.intrinsic_gas p msg.payload creation w.is_homestead w.is_istanbul)
    raise_if (ltb st.gas gas) intrinsic_gas
    put (record st { gas = (st.gas + u64_mod - gas) % u64_mod })
    raise_if (ltb 0 msg.value && not (can_transfer w st.state msg.sender msg.value))
        insufficient_funds_for_transfer

  -- The run of the EVM: a creation, or a call after the sender's nonce is raised.
  unfoldable pub evm_result : StateTransition w → EvmResult w.State
  evm_result st = elim msg.to [
    | none ↦ w.create st.state msg.sender msg.payload st.gas msg.value
    | some to ↦
        let nonce = (w.get_nonce st.state msg.sender + 1) % u64_mod in
        w.call (w.set_nonce st.state msg.sender nonce) msg.sender to msg.payload st.gas msg.value
  ]

  -- What follows the run of the EVM: the refund, the fee of the miner, and the result.
  unfoldable pub settle : EvmResult w.State → Action w ExecutionResult
  settle result = do
    refund_gas
    paid ← get
    let used = gas_used paid
    put (record paid { state = w.add_balance paid.state w.coinbase (used * msg.gas_price) })
    pure (record { used_gas = used; vmerr = result.vmerr; return_data = result.ret })

  unfoldable pub transition_db : Action w ExecutionResult
  transition_db = do
    pre_check
    charge_intrinsic
    st ← get
    let result = evm_result st
    put (record st { gas = result.gas; state = result.state })
    settle result

  unfoldable pub apply_message : ℕ → w.State → Run ExecutionResult × StateTransition w
  apply_message gp s = transition_db (new_state_transition w gp s)

-- `Failed`, `Return` and `Revert`; `nil` and an empty slice are one.
unfoldable pub is_failed : ExecutionResult → Bool
is_failed r = elim r.vmerr [ none ↦ false | some _ ↦ true ]

unfoldable pub return_bytes : ExecutionResult → List ℕ
return_bytes r = elim r.vmerr [ none ↦ r.return_data | some _ ↦ [] ]

unfoldable pub revert_bytes : ExecutionResult → List ℕ
revert_bytes r = elim r.vmerr [
  | none ↦ []
  | some execution_reverted ↦ r.return_data
  | some (VmError.other _) ↦ []
]
