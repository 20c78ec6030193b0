-- ===== src/Core/World.antt =====
-- What the state transition uses of the packages core/state and core/vm, which the repository
-- does not hold: the state database, and the EVM that is set up for one block. Addresses are
-- only compared, so they are numbers. Amounts are non-negative, as in a decoded transaction.
use chain_master.Prelude.{ℕ, ◌+◌, ◌≤◌, ◌≡◌, Bool, Option, List}

-- `vm.ErrExecutionReverted`, or another error of the EVM.
pub data VmError : Type 0 where
  execution_reverted : VmError
  other : ℕ → VmError

-- What `evm.Create` and `evm.Call` return, with the state that they leave.
pub record EvmResult (S : Type 0) : Type 0 where
  pub ret : List ℕ
  pub gas : ℕ
  pub vmerr : Option VmError
  pub state : S

pub record World : Type 1 where
  pub State : Type 0
  pub get_balance : State → ℕ → ℕ
  pub add_balance : State → ℕ → ℕ → State
  pub sub_balance : State → ℕ → ℕ → State
  pub get_nonce : State → ℕ → ℕ
  pub set_nonce : State → ℕ → ℕ → State
  pub get_refund : State → ℕ
  -- The caller, the code, the gas and the value.
  pub create : State → ℕ → List ℕ → ℕ → ℕ → EvmResult State
  -- The caller, the callee, the input, the gas and the value.
  pub call : State → ℕ → ℕ → List ℕ → ℕ → ℕ → EvmResult State
  pub coinbase : ℕ
  pub is_homestead : Bool
  pub is_istanbul : Bool

-- The documented behaviour: a database keeps the sum of all balances in step with each change,
-- and a run of the EVM leaves no more gas than it was given and makes no money.
pub record WorldLaws (w : World) : Type 0 where
  pub supply : w.State → ℕ
  pub supply-add : (s : w.State) (a v : ℕ) → supply (w.add_balance s a v) ≡ supply s + v
  pub supply-sub :
      (s : w.State) (a v : ℕ) → v ≤ w.get_balance s a → supply (w.sub_balance s a v) + v ≡ supply s
  pub supply-nonce : (s : w.State) (a n : ℕ) → supply (w.set_nonce s a n) ≡ supply s
  pub create-gas :
      (s : w.State) (a : ℕ) (code : List ℕ) (gas value : ℕ)
      → (w.create s a code gas value).gas ≤ gas
  pub call-gas :
      (s : w.State) (a to : ℕ) (input : List ℕ) (gas value : ℕ)
      → (w.call s a to input gas value).gas ≤ gas
  pub create-supply :
      (s : w.State) (a : ℕ) (code : List ℕ) (gas value : ℕ)
      → supply (w.create s a code gas value).state ≤ supply s
  pub call-supply :
      (s : w.State) (a to : ℕ) (input : List ℕ) (gas value : ℕ)
      → supply (w.call s a to input gas value).state ≤ supply s
