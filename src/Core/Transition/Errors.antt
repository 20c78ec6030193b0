-- ===== src/Core/Transition/Errors.antt =====
-- What a refused message leaves behind.
use chain_master.Prelude.{
  ℕ, ◌+◌, ◌*◌, ◌<◌, ◌≡◌, ◌≢◌, ◌⊎◌, sym, ◌∙◌, arith, Bool, true, false, inl, inr, u64_mod,
}
use chain_master.Core.Run.{
  Error, Run, ok, err, panic, nonce_too_low, nonce_too_high, gas_limit_reached,
  insufficient_funds_for_transfer, insufficient_funds, gas_uint_overflow, intrinsic_gas,
}
use chain_master.Core.Params.{ProtocolParams, IsValid}
use chain_master.Core.GasPool.{sub_gas}
use chain_master.Core.Intrinsic
use chain_master.Core.World.{World, WorldLaws}
use chain_master.Core.Transition.{
  Message, StateTransition, ExecutionResult, is_none, new_state_transition, buy_gas, pre_check,
  charge_intrinsic, evm_result, settle, transition_db, apply_message, >>=-eq-err, >>=-eq-panic,
}
use chain_master.Core.Transition.Gas.{
  Bought, pre_check-Bought, Charged, charge_intrinsic-Charged, settle-exact, evm_result-gas,
}

-- The errors of `preCheck`.
abbrev pub is_early : Error → Bool
is_early nonce_too_low = true
is_early nonce_too_high = true
is_early insufficient_funds = true
is_early gas_limit_reached = true
is_early _ = false

-- The errors after the purchase of the gas.
abbrev pub is_late : Error → Bool
is_late gas_uint_overflow = true
is_late intrinsic_gas = true
is_late insufficient_funds_for_transfer = true
is_late _ = false

-- A refused message: before the purchase nothing has changed; after it the gas is bought and
-- paid for, and nothing of that is given back.
abbrev pub Refused : (w : World) → Message → ℕ → w.State → Error → StateTransition w → Type 0
Refused w msg gp s x end =
    ((is_early x ≡ true) × (end.gp ≡ gp) × (end.state ≡ s))
    ⊎ ((is_late x ≡ true)
        × (end.gp + msg.gas ≡ gp)
        × (end.state ≡ w.sub_balance s msg.sender (msg.gas * msg.gas_price)))

module _ (w : World) (p : ProtocolParams) (valid : IsValid p) (msg : Message)
    (fits : msg.gas < u64_mod) where
  pre_check-err :
      (gp : ℕ) (s : w.State) (x : Error) (st : StateTransition w)
      → pre_check w p msg (new_state_transition w gp s) ≡ (err x, st)
      → (is_early x ≡ true) × (st.gp ≡ gp) × (st.state ≡ s)
  unfolding pre_check buy_gas sub_gas
  pre_check-err gp s x st e = ground arith

  pre_check-panic :
      (gp : ℕ) (s : w.State) (st : StateTransition w)
      → pre_check w p msg (new_state_transition w gp s) ≢ (panic, st)
  unfolding pre_check buy_gas sub_gas
  pre_check-panic gp s st e = ground arith

  abbrev intrinsic : Run ℕ
  intrinsic = Intrinsic.intrinsic_gas p msg.payload (is_none msg.to) w.is_homestead w.is_istanbul

  charge_intrinsic-err :
      (st st' : StateTransition w) (x : Error)
      → charge_intrinsic w p msg st ≡ (err x, st')
      → (is_late x ≡ true) × (st'.gp ≡ st.gp) × (st'.state ≡ st.state)
  unfolding charge_intrinsic
  charge_intrinsic-err st st' x e = ground (
    arith,
    Intrinsic.intrinsic_gas-exact p valid msg.payload (is_none msg.to) w.is_homestead w.is_istanbul,
  )

  charge_intrinsic-panic : (st st' : StateTransition w) → charge_intrinsic w p msg st ≢ (panic, st')
  unfolding charge_intrinsic
  charge_intrinsic-panic st st' e = ground (
    arith,
    Intrinsic.intrinsic_gas-exact p valid msg.payload (is_none msg.to) w.is_homestead w.is_istanbul,
  )

  module _ (laws : WorldLaws w) (gp : ℕ) (s : w.State) (bound : gp < u64_mod) where
    -- Once the gas is bought and the intrinsic gas is charged, nothing can fail.
    settle-ok :
        (bought charged : StateTransition w)
        → Bought w p msg gp s bought
        → Charged w p msg bought charged
        → let result = evm_result w p msg charged in
          (r : ExecutionResult) × (end : StateTransition w) × (settle w p msg result
              (record charged { gas = result.gas; state = result.state })
            ≡ (ok r, end))
    settle-ok bought charged b c =
        let result = evm_result w p msg charged in
        let gas_le = evm_result-gas w p msg fits laws charged in
        let c_gas : charged.gas + c.intrinsic ≡ msg.gas =
          ground (arith, c.after, b.gas, c.enough) in
        let c_initial : charged.initial_gas ≡ msg.gas = ground (arith, c.after, b.initial) in
        let c_pool : charged.gp + msg.gas ≡ gp = ground (arith, c.after, b.pool) in
        (
          _,
          _,
          settle-exact w p msg fits result
              (record charged { gas = result.gas; state = result.state }) (omega (arith, gas_le))
              (omega arith),
        )

    -- For valid constants and 64-bit words, a message that is refused for its nonce, its price or the
    -- pool leaves the pool and the state as they were; one that is refused for its intrinsic gas or
    -- its value leaves the gas taken from the pool and paid by the sender. There are no others.
    pub apply_message-Refused :
        (x : Error) (end : StateTransition w)
        → apply_message w p msg gp s ≡ (err x, end)
        → Refused w msg gp s x end
    unfolding apply_message transition_db
    apply_message-Refused x end e =
        elim (>>=-eq-err _ end (pre_check w p msg) (new_state_transition w gp s) x e) [
          | inl early ↦ inl (pre_check-err gp s x end early)
          | inr (u, bought, e1, f1) ↦
              let b = pre_check-Bought w p msg fits gp s u bought bound e1 in
              elim (>>=-eq-err _ end (charge_intrinsic w p msg) bought x f1) [
                | inl late ↦
                    let l = charge_intrinsic-err bought end x late in
                    inr (l.0, rw l.1 b.pool, l.2 ∙ b.paid)
                | inr (u', charged, e2, f2) ↦
                    let c =
                      charge_intrinsic-Charged w p msg fits bought charged u' (omega (arith, b.gas))
                        e2 in
                    let (r, end', done) = settle-ok bought charged b c in
                    absurd (ground (arith, sym done ∙ f2))
              ]
        ]

    -- For valid constants and 64-bit words, no message pushes the pool above 64 bits.
    pub apply_message-ne-panic :
        (end : StateTransition w) → apply_message w p msg gp s ≢ (panic, end)
    unfolding apply_message transition_db
    apply_message-ne-panic end e =
        elim (>>=-eq-panic _ end (pre_check w p msg) (new_state_transition w gp s) e) [
          | inl early ↦ pre_check-panic gp s end early
          | inr (u, bought, e1, f1) ↦
              let b = pre_check-Bought w p msg fits gp s u bought bound e1 in
              elim (>>=-eq-panic _ end (charge_intrinsic w p msg) bought f1) [
                | inl late ↦ charge_intrinsic-panic bought end late
                | inr (u', charged, e2, f2) ↦
                    let c =
                      charge_intrinsic-Charged w p msg fits bought charged u' (omega (arith, b.gas))
                        e2 in
                    let (r, end', done) = settle-ok bought charged b c in
                    ground (arith, sym done ∙ f2)
              ]
        ]
