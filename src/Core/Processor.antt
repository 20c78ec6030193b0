-- ===== src/Core/Processor.antt =====
-- state_processor.go: the transactions of a block in turn.
pub mod Gas
use chain_master.Prelude.{
  ℕ, ◌+◌, ◌%◌, Bool, Option, none, some, List, [], ◌∷◌, ◌++◌, if◌then◌else◌, u64_mod,
}
use chain_master.Core.Run.{Run, ok, err, panic, foreign, ◌>>=◌}
use chain_master.Core.Params.{ProtocolParams}
use chain_master.Core.GasPool.{add_gas}
use chain_master.Core.World.{World}
use chain_master.Core.Transition.{
  Message, ExecutionResult, StateTransition, apply_message, is_failed, is_none,
}

-- What `Process` uses of other packages, for one block: the signer, the database's bookkeeping,
-- the addresses of contracts and the consensus engine.
pub record BlockContext (w : World) : Type 1 where
  pub Tx : Type 0
  pub Log : Type 0
  -- `AsMessage`; `none` where the signature is invalid.
  pub as_message : Tx → Option Message
  pub prepare : w.State → Tx → ℕ → w.State
  -- `Finalise` from Byzantium on, `IntermediateRoot` before, with the bytes of the root.
  pub finalise : w.State → List ℕ × w.State
  pub get_logs : w.State → Tx → List Log
  -- The index that `Prepare` was given.
  pub tx_index : w.State → ℕ
  pub tx_nonce : Tx → ℕ
  pub create_address : ℕ → ℕ → ℕ
  -- Whether the block is the one of the DAO fork, and what that does.
  pub is_dao_fork : Bool
  pub apply_dao : w.State → w.State
  pub finalize_block : w.State → w.State

-- The fields of `types.Receipt` that follow from the run.
pub record Receipt (L : Type 0) : Type 0 where
  pub root : List ℕ
  pub failed : Bool
  pub cumulative_gas_used : ℕ
  pub gas_used : ℕ
  pub contract_address : Option ℕ
  pub logs : List L
  pub transaction_index : ℕ

-- The gas pool, the database and the counter `usedGas`, which the calls share.
pub record BlockState (w : World) : Type 0 where
  pub gp : ℕ
  pub state : w.State
  pub used_gas : ℕ

-- `allLogs`
abbrev all_logs : {L : Type 0} → List (Receipt L) → List L
all_logs [] = []
all_logs (r ∷ rs) = r.logs ++ all_logs rs

module _ (w : World) (p : ProtocolParams) (c : BlockContext w) where
  -- The end of `ApplyTransaction` after a message that ran.
  unfoldable pub receipt_of :
      c.Tx → Message → ExecutionResult → StateTransition w → ℕ → Receipt c.Log × BlockState w
  receipt_of tx msg result end used =
      let (root, state) = c.finalise end.state in
      let used' = (used + result.used_gas) % u64_mod in
      (
        record {
          root = root;
          failed = is_failed result;
          cumulative_gas_used = used';
          gas_used = result.used_gas;
          contract_address =
              if is_none msg.to then some (c.create_address msg.sender (c.tx_nonce tx)) else none;
          logs = c.get_logs state tx;
          transaction_index = c.tx_index state;
        },
        record { gp = end.gp; state = state; used_gas = used' },
      )

  -- The end of `ApplyTransaction` after any message.
  unfoldable pub finish :
      c.Tx
      → Message
      → ℕ
      → Run ExecutionResult × StateTransition w
      → Run (Receipt c.Log × BlockState w)
  finish tx msg used (ok result, end) = ok (receipt_of tx msg result end used)
  finish tx msg used (err e, end) = err e
  finish tx msg used (panic, end) = panic

  -- `ApplyTransaction`; after an error `Process` stops, and its caller drops the database.
  unfoldable pub apply_transaction : c.Tx → BlockState w → Run (Receipt c.Log × BlockState w)
  apply_transaction tx b = elim (c.as_message tx) [
    | none ↦ err (foreign 0)
    | some msg ↦ finish tx msg b.used_gas (apply_message w p msg b.gp b.state)
  ]

  -- The loop of `Process`, from the transaction with the index `i`.
  unfoldable pub process_from :
      List c.Tx → ℕ → BlockState w → Run (List (Receipt c.Log) × BlockState w)
  process_from [] i b = ok ([], b)
  process_from (tx ∷ txs) i b = do
    (receipt, b') ← apply_transaction tx (record b { state = c.prepare b.state tx i })
    (receipts, b'') ← process_from txs (i + 1) b'
    ok (receipt ∷ receipts, b'')

  -- The receipts, the logs, the gas used and the final state.
  unfoldable pub process :
      ℕ → List c.Tx → w.State → Run (List (Receipt c.Log) × List c.Log × ℕ × w.State)
  process gas_limit txs s = do
    gp ← add_gas 0 gas_limit
    let start = if c.is_dao_fork then c.apply_dao s else s
    (receipts, b) ← process_from txs 0 (record { gp = gp; state = start; used_gas = 0 })
    ok (receipts, all_logs receipts, b.used_gas, c.finalize_block b.state)
