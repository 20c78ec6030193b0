-- ===== src/Core/Transition/Gas.antt =====
-- The gas of a message: where it goes between `buyGas` and `refundGas`.
use chain_master.Prelude.{
  ℕ, ◌+◌, ◌-◌, ◌*◌, ◌/◌, ◌≤◌, ◌<◌, ◌≡◌, refl, sym, ◌∙◌, arith, Option-cases, inl, inr, u64_mod, ltb,
  if◌then◌else◌,
}
use chain_master.Core.Run.{Run, ok, err, panic}
use chain_master.Core.Params.{ProtocolParams}
use chain_master.Core.GasPool.{add_gas, sub_gas}
use chain_master.Core.Intrinsic
use chain_master.Core.World.{World, WorldLaws, EvmResult}
use chain_master.Core.Transition.{
  >>=-eq-ok, is_none, Message, StateTransition, ExecutionResult, new_state_transition, gas_used,
  buy_gas, pre_check, refund_gas, charge_intrinsic, settle, evm_result, transition_db,
  apply_message,
}

module _ (w : World) (p : ProtocolParams) (msg : Message) where
  -- What `preCheck` has done when it succeeds on a new transition.
  pub record Bought (gp : ℕ) (s : w.State) (st : StateTransition w) : Type 0 where
    pub pool : st.gp + msg.gas ≡ gp
    pub gas : st.gas ≡ msg.gas
    pub initial : st.initial_gas ≡ msg.gas
    pub paid : st.state ≡ w.sub_balance s msg.sender (msg.gas * msg.gas_price)
    pub covered : msg.gas * msg.gas_price ≤ w.get_balance s msg.sender

  -- What the charge of the intrinsic gas has done when it succeeds.
  pub record Charged (st st' : StateTransition w) : Type 0 where
    pub intrinsic : ℕ
    pub cost :
        Intrinsic.intrinsic_gas p msg.payload (is_none msg.to) w.is_homestead w.is_istanbul
        ≡ ok intrinsic
    pub after : st' ≡ record st { gas = st.gas - intrinsic }
    pub enough : intrinsic ≤ st.gas

  -- What a message that runs has done to the pool, the database and the gas.
  pub record Settled (gp : ℕ) (s : w.State) (r : ExecutionResult) (st : StateTransition w)
      : Type 0 where
    -- The gas left, the state that the EVM left, and the intrinsic gas.
    pub left : ℕ
    pub run : StateTransition w
    pub intrinsic : ℕ
    pub split : left + r.used_gas ≡ msg.gas
    pub pool : st.gp + r.used_gas ≡ gp
    pub cost :
        Intrinsic.intrinsic_gas p msg.payload (is_none msg.to) w.is_homestead w.is_istanbul
        ≡ ok intrinsic
    pub least : intrinsic ≤ 2 * r.used_gas
    pub covered : msg.gas * msg.gas_price ≤ w.get_balance s msg.sender
    pub start : run.state ≡ w.sub_balance s msg.sender (msg.gas * msg.gas_price)
    pub budget : run.gas + intrinsic ≡ msg.gas
    pub paid :
        st.state
        ≡ w.add_balance
            (w.add_balance (evm_result w p msg run).state msg.sender (left * msg.gas_price))
            w.coinbase
            (r.used_gas * msg.gas_price)
    pub outcome : r.vmerr ≡ (evm_result w p msg run).vmerr
    pub output : r.return_data ≡ (evm_result w p msg run).ret

module _ (w : World) (p : ProtocolParams) (msg : Message) (fits : msg.gas < u64_mod) where
  pub pre_check-Bought :
      (gp : ℕ) (s : w.State) (u : Unit {0}) (st : StateTransition w)
      → gp < u64_mod
      → pre_check w p msg (new_state_transition w gp s) ≡ (ok u, st)
      → Bought w p msg gp s st
  unfolding pre_check buy_gas sub_gas
  pre_check-Bought gp s u st h e = ground arith

  pub charge_intrinsic-Charged :
      (st st' : StateTransition w) (u : Unit {0})
      → st.gas < u64_mod
      → charge_intrinsic w p msg st ≡ (ok u, st')
      → Charged w p msg st st'
  unfolding charge_intrinsic
  charge_intrinsic-Charged st st' u h e =
      go (Intrinsic.intrinsic_gas p msg.payload (is_none msg.to) w.is_homestead w.is_istanbul) refl
    where
      go :
          (r : Run ℕ)
          → Intrinsic.intrinsic_gas p msg.payload (is_none msg.to) w.is_homestead w.is_istanbul ≡ r
          → Charged w p msg st st'
      go (ok g) q = record { intrinsic = g; cost = q; after = ground arith; enough = ground arith }
      go (err x) q = ground arith
      go panic q = ground arith

  -- The gas that `refundGas` leaves: what is left, and at most half of what was used.
  abbrev pub refunded : StateTransition w → ℕ
  refunded st =
      let half = (st.initial_gas - st.gas) / 2 in
      st.gas + (if ltb (w.get_refund st.state) half then w.get_refund st.state else half)

  -- `refundGas` never panics when the pool holds no more than it did before the purchase.
  refund_gas-exact :
      (st : StateTransition w)
      → st.gas ≤ st.initial_gas
      → st.gp + st.initial_gas < u64_mod
      → refund_gas w p msg st ≡ (
        ok tt,
        record {
          gp = st.gp + refunded st;
          gas = refunded st;
          initial_gas = st.initial_gas;
          state = w.add_balance st.state msg.sender (refunded st * msg.gas_price);
        },
      )
  unfolding refund_gas gas_used add_gas
  refund_gas-exact st h k = ground arith

  -- The end of a run, in plain numbers.
  pub settle-exact :
      (result : EvmResult w.State) (st : StateTransition w)
      → st.gas ≤ st.initial_gas
      → st.gp + st.initial_gas < u64_mod
      → settle w p msg result st ≡ (
        ok (record {
          used_gas = st.initial_gas - refunded st;
          vmerr = result.vmerr;
          return_data = result.ret;
        }),
        record {
          gp = st.gp + refunded st;
          gas = refunded st;
          initial_gas = st.initial_gas;
          state =
              w.add_balance
                (w.add_balance st.state msg.sender (refunded st * msg.gas_price))
                w.coinbase
                ((st.initial_gas - refunded st) * msg.gas_price);
        },
      )
  unfolding settle gas_used
  settle-exact result st h k = rw (refund_gas-exact st h k) (ground arith)

  module _ (laws : WorldLaws w) where
    pub evm_result-gas : (st : StateTransition w) → (evm_result w p msg st).gas ≤ st.gas
    unfolding evm_result
    evm_result-gas st = elim (Option-cases msg.to) [
      | inl e ↦ rw (e, evm_result) (laws.create-gas _ _ _ _ _)
      | inr (to, e) ↦ rw (e, evm_result) (laws.call-gas _ _ _ _ _ _)
    ]

    -- A message that runs, with a gas limit and a pool of 64 bits: the gas used and the gas left add
    -- up to the gas bought; the pool loses exactly the gas used; the intrinsic gas is at most twice
    -- the gas used; the EVM ran on what was left of the gas after the intrinsic gas, on a state whose
    -- sender has paid for all the gas; and the final state is the EVM's with the gas left paid back
    -- to the sender and the gas used paid to the miner, at the price of the message.
    pub apply_message-Settled :
        (gp : ℕ) (s : w.State) (r : ExecutionResult) (end : StateTransition w)
        → gp < u64_mod
        → apply_message w p msg gp s ≡ (ok r, end)
        → Settled w p msg gp s r end
    unfolding apply_message transition_db
    apply_message-Settled gp s r end h e =
        let (u, bought, e1, f1) =
          >>=-eq-ok _ r end (pre_check w p msg) (new_state_transition w gp s) e in
        let b = pre_check-Bought gp s u bought h e1 in
        let (u', charged, e2, f2) = >>=-eq-ok _ r end (charge_intrinsic w p msg) bought f1 in
        let c = charge_intrinsic-Charged bought charged u' (omega arith) e2 in
        let result = evm_result w p msg charged in
        let ran : StateTransition w = record charged { gas = result.gas; state = result.state } in
        let gas_le = evm_result-gas charged in
        let c_gas : charged.gas + c.intrinsic ≡ msg.gas =
          ground (arith, c.after, b.gas, c.enough) in
        let c_initial : charged.initial_gas ≡ msg.gas = ground (arith, c.after, b.initial) in
        let c_pool : charged.gp + msg.gas ≡ gp = ground (arith, c.after, b.pool) in
        let short : ran.gas ≤ ran.initial_gas = omega (arith, gas_le) in
        let done = settle-exact result ran short (omega arith) in
        let both = sym done ∙ f2 in
        record {
          left = refunded ran;
          run = charged;
          intrinsic = c.intrinsic;
          split = ground (arith, both);
          pool = ground (arith, both);
          cost = c.cost;
          least = ground (arith, both);
          covered = b.covered;
          start = ground (arith, c.after, b.paid);
          budget = c_gas;
          paid = ground (arith, both);
          outcome = ground (arith, both);
          output = ground (arith, both);
        }
