-- ===== src/Core/Tests.antt =====
-- A small world, and the theorems of the package core at inputs where their hypotheses hold.
use chain_master.Prelude.{
  ℕ, ◌+◌, ◌-◌, ◌/◌, ◌≤◌, ◌<◌, ◌≡◌, refl, arith, true, false, none, some, List, [], ◌∷◌, ltb, leb,
  ◌==◌, if◌then◌else◌, u64_mod, length,
}
use chain_master.Core.Run.{ok, err, panic, gas_uint_overflow, intrinsic_gas}
use chain_master.Core.Params.{mainnet, mainnet-IsValid}
use chain_master.Core.GasPool.{add_gas, sub_gas}
use chain_master.Core.Intrinsic
use chain_master.Core.Intrinsic.{ideal_gas, intrinsic_gas-exact}
use chain_master.Core.World.{World, WorldLaws, EvmResult}
use chain_master.Core.Transition.{
  Message, ExecutionResult, StateTransition, is_failed, gas_used, can_transfer, buy_gas, pre_check,
  refund_gas, charge_intrinsic, evm_result, settle, transition_db, apply_message,
}
use chain_master.Core.Transition.Gas.{Settled, apply_message-Settled}
use chain_master.Core.Transition.Money.{apply_message-supply}
use chain_master.Core.Transition.Errors.{Refused, apply_message-Refused, apply_message-ne-panic}
use chain_master.Core.GasLimit.{calc_gas_limit, calc_gas_limit_bounds}
use chain_master.Core.Processor.{
  BlockContext, Receipt, receipt_of, finish, apply_transaction, process_from, process,
}
use chain_master.Core.Processor.Gas.{Cumulative, IsWord, process-gas}

-- The account 0, and one purse for all other addresses.
record Purses : Type 0 where
  own : ℕ
  others : ℕ
  nonce : ℕ

abbrev balance : Purses → ℕ → ℕ
balance s a = if a == 0 then s.own else s.others

abbrev add : Purses → ℕ → ℕ → Purses
add s a v = if a == 0 then record s { own = s.own + v } else record s { others = s.others + v }

abbrev sub : Purses → ℕ → ℕ → Purses
sub s a v = if a == 0 then record s { own = s.own - v } else record s { others = s.others - v }

-- Half of the gas is spent, and the value is moved where it is covered.
abbrev run : Purses → ℕ → ℕ → List ℕ → ℕ → ℕ → EvmResult Purses
run s a to input gas value = record {
  ret = input;
  gas = gas / 2;
  vmerr = none;
  state = if leb value (balance s a) then add (sub s a value) to value else s;
}

abbrev small : World
small = record {
  State = Purses;
  get_balance = balance;
  add_balance = add;
  sub_balance = sub;
  get_nonce = λ s a. s.nonce;
  set_nonce = λ s a n. record s { nonce = n };
  get_refund = λ s. 100;
  create = λ s a code gas value. run s a 7 code gas value;
  call = run;
  coinbase = 9;
  is_homestead = true;
  is_istanbul = true;
}

run-supply :
    (s : Purses) (a to : ℕ) (input : List ℕ) (gas value : ℕ)
    → (run s a to input gas value).state.own + (run s a to input gas value).state.others
      ≤ s.own + s.others
run-supply s a to input gas value = ground arith

add-supply : (s : Purses) (a v : ℕ) → (add s a v).own + (add s a v).others ≡ s.own + s.others + v
add-supply s a v = ground arith

sub-supply :
    (s : Purses) (a v : ℕ)
    → v ≤ balance s a
    → (sub s a v).own + (sub s a v).others + v ≡ s.own + s.others
sub-supply s a v h = ground arith

half-le : (gas : ℕ) → gas / 2 ≤ gas
half-le gas = omega arith

abbrev small_laws : WorldLaws small
small_laws = record {
  supply = λ s. s.own + s.others;
  supply-add = add-supply;
  supply-sub = sub-supply;
  supply-nonce = λ s a n. refl;
  create-gas = λ s a code gas value. half-le gas;
  call-gas = λ s a to input gas value. half-le gas;
  create-supply = λ s a code gas value. run-supply s a 7 code gas value;
  call-supply = run-supply;
}

abbrev message : Message
message = record {
  sender = 0;
  to = some 5;
  gas_price = 2;
  gas = 30000;
  value = 10;
  nonce = 3;
  check_nonce = true;
  payload = 0 ∷ 1 ∷ [];
}

abbrev purses : Purses
purses = record { own = 100000; others = 50; nonce = 3 }

abbrev settled : ExecutionResult
settled = record { used_gas = 25410; vmerr = none; return_data = 0 ∷ 1 ∷ [] }

abbrev settled_end : StateTransition small
settled_end = record {
  gp = 14590;
  gas = 4590;
  initial_gas = 30000;
  state = record { own = 49170; others = 50880; nonce = 4 };
}

apply_message-message : apply_message small mainnet message 40000 purses ≡ (ok settled, settled_end)
unfolding apply_message transition_db pre_check buy_gas sub_gas charge_intrinsic can_transfer
    evm_result settle refund_gas add_gas gas_used Intrinsic.intrinsic_gas Intrinsic.charge
    Intrinsic.non_zeros Intrinsic.base_gas Intrinsic.non_zero_gas
apply_message-message = refl

-- The gas of a message that costs more than it offers is lost.
abbrev cheap : Message
cheap = record message { gas = 21000 }

abbrev cheap_end : StateTransition small
cheap_end = record {
  gp = 19000;
  gas = 21000;
  initial_gas = 21000;
  state = record purses { own = 58000 };
}

apply_message-cheap :
    apply_message small mainnet cheap 40000 purses ≡ (err intrinsic_gas, cheap_end)
unfolding apply_message transition_db pre_check buy_gas sub_gas charge_intrinsic
    Intrinsic.intrinsic_gas Intrinsic.charge Intrinsic.non_zeros Intrinsic.base_gas
    Intrinsic.non_zero_gas
apply_message-cheap = refl

intrinsic_gas-exact_example : Intrinsic.intrinsic_gas mainnet (0 ∷ 7 ∷ []) false true true ≡ (
    if ltb (ideal_gas mainnet (0 ∷ 7 ∷ []) false true true) u64_mod
    then ok (ideal_gas mainnet (0 ∷ 7 ∷ []) false true true)
    else err gas_uint_overflow)
intrinsic_gas-exact_example =
    intrinsic_gas-exact mainnet mainnet-IsValid (0 ∷ 7 ∷ []) false true true

apply_message-Settled_example : Settled small mainnet message 40000 purses settled settled_end
apply_message-Settled_example =
    apply_message-Settled small mainnet message (omega arith) small_laws 40000 purses settled
      settled_end (omega arith) apply_message-message

apply_message-supply_example : 49170 + 50880 ≤ 100000 + 50
apply_message-supply_example =
    apply_message-supply small small_laws mainnet message (omega arith) 40000 purses settled
      settled_end (omega arith) apply_message-message

apply_message-Refused_example : Refused small cheap 40000 purses intrinsic_gas cheap_end
apply_message-Refused_example =
    apply_message-Refused small mainnet mainnet-IsValid cheap (omega arith) small_laws 40000 purses
      (omega arith) intrinsic_gas cheap_end apply_message-cheap

apply_message-ne-panic_example :
    ¬ (apply_message small mainnet message 40000 purses ≡ (panic, settled_end))
apply_message-ne-panic_example =
    apply_message-ne-panic small mainnet mainnet-IsValid message (omega arith) small_laws 40000
      purses (omega arith) settled_end

calc_gas_limit_bounds_example :
    let child = calc_gas_limit mainnet 60000 100000 80000 90000 in
    (child < 100000 + 97) × (100000 < child + 97) × (5000 ≤ child)
calc_gas_limit_bounds_example =
    calc_gas_limit_bounds mainnet 60000 100000 80000 90000 (omega arith) (omega arith) (omega arith)
      (omega arith) (omega arith) (omega arith) (omega arith)

-- A block whose transactions are messages.
abbrev block : BlockContext small
block = record {
  Tx = Message;
  Log = ℕ;
  as_message = some;
  prepare = λ s tx i. s;
  finalise = λ s. ([], s);
  get_logs = λ s tx. [];
  tx_index = λ s. 0;
  tx_nonce = λ tx. tx.nonce;
  create_address = λ a n. n;
  is_dao_fork = false;
  apply_dao = λ s. s;
  finalize_block = λ s. s;
}

abbrev receipt : Receipt ℕ
receipt = record {
  root = [];
  failed = false;
  cumulative_gas_used = 25410;
  gas_used = 25410;
  contract_address = none;
  logs = [];
  transaction_index = 0;
}

process-message :
    process small mainnet block 40000 (message ∷ []) purses
    ≡ ok (receipt ∷ [], [], 25410, settled_end.state)
unfolding process process_from apply_transaction finish receipt_of is_failed apply_message
    transition_db pre_check buy_gas sub_gas charge_intrinsic can_transfer evm_result settle
    refund_gas add_gas gas_used Intrinsic.intrinsic_gas Intrinsic.charge Intrinsic.non_zeros
    Intrinsic.base_gas Intrinsic.non_zero_gas
process-message = refl

IsWord-message : IsWord small small_laws mainnet block message
IsWord-message msg e = ground arith

process-gas_example :
    (25410 ≤ 40000)
    × (length (receipt ∷ []) ≡ length (message ∷ []))
    × Cumulative 0 (receipt ∷ []) 25410
process-gas_example =
    process-gas small small_laws mainnet block 40000 (message ∷ []) purses settled_end.state
      (receipt ∷ []) [] 25410 (omega arith) (IsWord-message, tt) process-message
