-- ===== src/Core/Transition/Money.antt =====
-- A message makes no money.
use chain_master.Prelude.{ℕ, ◌+◌, ◌*◌, ◌≤◌, ◌<◌, ◌≡◌, ap, arith, Option-cases, inl, inr, u64_mod}
use chain_master.Core.Run.{ok}
use chain_master.Core.Params.{ProtocolParams}
use chain_master.Core.World.{World, WorldLaws}
use chain_master.Core.Transition.{
  Message, StateTransition, ExecutionResult, evm_result, apply_message,
}
use chain_master.Core.Transition.Gas.{apply_message-Settled}

module _ (w : World) (laws : WorldLaws w) (p : ProtocolParams) (msg : Message)
    (fits : msg.gas < u64_mod) where
  evm_result-supply :
      (st : StateTransition w) → laws.supply (evm_result w p msg st).state ≤ laws.supply st.state
  unfolding evm_result
  evm_result-supply st = elim (Option-cases msg.to) [
    | inl e ↦ rw (e, evm_result) (laws.create-supply _ _ _ _ _)
    | inr (to, e) ↦ rw (e, evm_result) (omega (arith, laws.supply-nonce, laws.call-supply))
  ]

  supply_after_fees :
      (a b : ℕ) (s s' : w.State)
      → s'
        ≡ w.add_balance
            (w.add_balance s msg.sender (a * msg.gas_price))
            w.coinbase
            (b * msg.gas_price)
      → laws.supply s' ≡ laws.supply s + (a + b) * msg.gas_price
  supply_after_fees a b s s' e = rw (e, laws.supply-add, laws.supply-add) (omega arith)

  -- A message that runs leaves at most as much money as there was: what the sender prepaid for gas
  -- is split, with nothing left over, between the refund to the sender and the fee of the miner.
  pub apply_message-supply :
      (gp : ℕ) (s : w.State) (r : ExecutionResult) (end : StateTransition w)
      → gp < u64_mod
      → apply_message w p msg gp s ≡ (ok r, end)
      → laws.supply end.state ≤ laws.supply s
  apply_message-supply gp s r end h e =
      let t = apply_message-Settled w p msg fits laws gp s r end h e in
      let evm = evm_result-supply t.run in
      let fees = supply_after_fees t.left r.used_gas _ _ t.paid in
      let bought = laws.supply-sub s msg.sender (msg.gas * msg.gas_price) t.covered in
      let prepaid = ap laws.supply t.start in
      let total : (t.left + r.used_gas) * msg.gas_price ≡ msg.gas * msg.gas_price = rw t.split in
      omega arith
