-- ===== src/Pool/Reset.antt =====
-- reset and runReorg of tx_pool.go: the state at a new head, and the transactions of the blocks that
-- are no longer on the chain. The chain and `types.TxDifference` are parameters.
use chain_master.Prelude.{
  ℕ, zero, suc, ◌+◌, ◌-◌, Bool, true, false, Option, none, some, List, [], ◌∷◌, ◌++◌, ltb, ◌==◌,
  if◌then◌else◌, length, get_elem?, u64_mod, ◌%◌,
}
use chain_master.Prelude.GoMap.{GoMap, insert, keys}
use chain_master.Core.Params.{ProtocolParams}
use chain_master.Pool.Tx.{Tx}
use chain_master.Pool.Depth.{depth}
use chain_master.Pool.TxList
use chain_master.Pool.TxList.{TxList}
use chain_master.Pool.SortedMap.{SortedMap}
use chain_master.Pool.Events.{put_events, forward_events, sent_events}
use chain_master.Pool.Noncer
use chain_master.Pool.Noncer.{new_tx_noncer}
use chain_master.Pool.State.{TxPool, HeadState}
use chain_master.Pool.Moves.{◌>>=◌}
use chain_master.Pool.Admit.{add_txs_locked}
use chain_master.Pool.Reorg.{promote_executables, demote_unexecutables}
use chain_master.Pool.Truncate.{truncate_pending, truncate_queue}

-- A block with what the pool reads of its header.
pub record Block : Type 0 where
  pub number : ℕ
  pub hash : ℕ
  pub parent_hash : ℕ
  pub root : ℕ
  pub gas_limit : ℕ
  pub txs : List Tx

-- `blockChain`, with the configuration of the chain and `TxDifference`.
pub record Chain : Type 0 where
  pub get_block : ℕ → ℕ → Option Block
  pub state_at : ℕ → Option HeadState
  pub is_istanbul : ℕ → Bool
  pub tx_difference : List Tx → List Tx → List Tx

-- The two ends of the walk to the common ancestor, with the transactions on the way.
pub record Walk : Type 0 where
  pub rem : Block
  pub add : Block
  pub discarded : List Tx
  pub included : List Tx

-- What is put back: an early return, a nil block, or transactions.
pub data Reinjection : Type 0 where
  returned crashed : Reinjection
  found : List Tx → Reinjection

module _ (chain : Chain) where
  -- `rem = GetBlock(rem.ParentHash(), rem.NumberU64()-1)`; `none` is an unrooted chain.
  unfoldable pub rewind_rem : Walk → Option Walk
  rewind_rem w = elim (chain.get_block w.rem.parent_hash ((w.rem.number + u64_mod - 1) % u64_mod)) [
    | none ↦ none
    | some b ↦ some (record w { rem = b; discarded = w.discarded ++ w.rem.txs })
  ]

  unfoldable pub rewind_add : Walk → Option Walk
  rewind_add w = elim (chain.get_block w.add.parent_hash ((w.add.number + u64_mod - 1) % u64_mod)) [
    | none ↦ none
    | some b ↦ some (record w { add = b; included = w.included ++ w.add.txs })
  ]

  -- The three loops, on the rounds left.
  unfoldable pub lower_rem : ℕ → Walk → Option Walk
  lower_rem zero w = some w
  lower_rem (suc k) w = elim (ltb w.add.number w.rem.number) [
    | false ↦ some w
    | true ↦ rewind_rem w >>= lower_rem k
  ]

  unfoldable pub lower_add : ℕ → Walk → Option Walk
  lower_add zero w = some w
  lower_add (suc k) w = elim (ltb w.rem.number w.add.number) [
    | false ↦ some w
    | true ↦ rewind_add w >>= lower_add k
  ]

  unfoldable pub meet : ℕ → Walk → Option Walk
  meet zero w = some w
  meet (suc k) w = elim (w.rem.hash == w.add.hash) [
    | true ↦ some w
    | false ↦ rewind_rem w >>= λ v. rewind_add v >>= meet k
  ]

  -- Each round of a loop goes down by one block.
  unfoldable pub walk : Block → Block → Option Walk
  unfolding lower_rem lower_add meet
  walk rem add = do
    a ← lower_rem rem.number (record { rem = rem; add = add; discarded = []; included = [] })
    b ← lower_add add.number a
    meet (suc b.rem.number) b

  unfoldable pub difference : Option Walk → Reinjection
  difference none = returned
  difference (some w) = found (chain.tx_difference w.discarded w.included)

  unfoldable pub reinjected : Option Block → Block → Reinjection
  unfolding difference
  reinjected none new_head = found []
  reinjected (some old_head) new_head =
      if old_head.hash == new_head.parent_hash
      then found []
      else if ltb 64 (depth old_head.number new_head.number)
      then found []
      else elim (chain.get_block old_head.hash old_head.number) [
        | none ↦ returned
        | some rem ↦ elim (chain.get_block new_head.hash new_head.number) [
          | none ↦ crashed
          | some add ↦ difference (walk rem add)
        ]
      ]

  -- The state of the new head, before the transactions are put back.
  unfoldable pub at_head : HeadState → Block → TxPool → TxPool
  at_head state head pool = record pool {
    state = state;
    pending_nonces = new_tx_noncer state.nonce;
    max_gas = head.gas_limit;
  }

  -- The transactions are put back, and the rules of the next block are set.
  unfoldable pub reinject : ProtocolParams → TxPool → Block → List Tx → Option TxPool
  reinject p pool head txs = do
    done ← add_txs_locked p pool txs false
    some (record done.pool { istanbul = chain.is_istanbul (head.number + 1) })

  unfoldable pub reset : ProtocolParams → TxPool → Option Block → Block → Option TxPool
  reset p pool old_head new_head = elim (reinjected old_head new_head) [
    | returned ↦ some pool
    | crashed ↦ none
    | found txs ↦ elim (chain.state_at new_head.root) [
      | none ↦ some pool
      | some state ↦ reinject p (at_head state new_head pool) new_head txs
    ]
  ]

  -- The nonce after the last pending transaction of each account; `none` is an empty list.
  unfoldable pub set_nonces : TxPool → GoMap TxList → Option TxPool
  set_nonces pool [] = some pool
  set_nonces pool ((addr, list) ∷ m) =
      let (txs, list') = TxList.flatten list in
      elim (get_elem? txs (length txs - 1)) [
        | none ↦ none
        | some tx ↦
            set_nonces
              (record pool {
                pending = insert addr list' pool.pending;
                pending_nonces = Noncer.set pool.pending_nonces addr ((tx.nonce + 1) % u64_mod);
              })
              m
      ]

  -- `runReorg`, with the transactions that it sends. After a reset all queued accounts are promoted.
  unfoldable pub run_reorg :
      ProtocolParams
      → (List (ℕ × ℕ) → List ℕ)
      → TxPool
      → Option (Option Block × Block)
      → List ℕ
      → GoMap SortedMap
      → ℕ
      → Option (TxPool × Option (List Tx))
  run_reorg p by_priority pool none dirty events now = do
    (promoted, txs) ← promote_executables pool dirty now
    kept ← truncate_pending by_priority promoted
    short ← truncate_queue kept
    done ← set_nonces short short.pending
    some (done, sent_events (put_events events txs))
  run_reorg p by_priority pool (some (old_head, new_head)) dirty events now = do
    fresh ← reset p pool old_head new_head
    let (ahead, left) = forward_events fresh events
    (promoted, txs) ← promote_executables ahead (keys ahead.queue) now
    demoted ← demote_unexecutables promoted
    kept ← truncate_pending by_priority demoted
    short ← truncate_queue kept
    done ← set_nonces short short.pending
    some (done, sent_events (put_events left txs))
