-- ===== src/Pool/Moves.antt =====
-- How tx_pool.go puts a transaction into a list and takes it out again: enqueueTx, promoteTx, removeTx.
-- `none` is a run-time panic.
use chain_master.Prelude.{
  ℕ, ◌+◌, ◌%◌, Bool, true, false, Option, none, some, List, [], ◌∷◌, ◌++◌, if◌then◌else◌, u64_mod,
}
use chain_master.Prelude.GoMap.{lookup, insert, delete}
use chain_master.Pool.Tx.{Tx}
use chain_master.Pool.TxList
use chain_master.Pool.TxList.{TxList, new_tx_list}
use chain_master.Pool.Noncer
use chain_master.Pool.Lookup
use chain_master.Pool.Lookup.{num_slots}
use chain_master.Pool.Accounts
use chain_master.Pool.Accounts.{AccountSet, new_account_set}
use chain_master.Pool.Priced
use chain_master.Pool.State.{TxPool, PoolError, sender_of}

infixl 5 ◌>>=◌
abbrev pub ◌>>=◌ : {A B : Type 0} → Option A → (A → Option B) → Option B
none >>= next = none
some a >>= next = next a

-- What a call says: an error, or whether a transaction was replaced.
pub data Answer : Type 0 where
  refused : PoolError → Answer
  accepted : Bool → Answer

-- The list of an address, or a new one.
unfoldable pub list_of : Bool → Option TxList → TxList
list_of strict none = new_tx_list strict
list_of strict (some list) = list

unfoldable pub was_replaced : Option Tx → Bool
was_replaced none = false
was_replaced (some old) = true

-- `pool.priced.Removed(n)`
unfoldable pub removed_priced : ℕ → TxPool → TxPool
removed_priced n pool = record pool { priced = Priced.removed pool.priced pool.all n }

-- What follows a replacement: the old transaction leaves `all`.
unfoldable pub forget : Option Tx → TxPool → Option TxPool
forget none pool = some pool
forget (some old) pool = do
  all ← Lookup.remove pool.all old.hash
  some (removed_priced 1 (record pool { all = all }))

-- `pool.all.Add(tx)` and `pool.priced.Put(tx)`
unfoldable pub index : Tx → TxPool → TxPool
index tx pool = record pool { all = Lookup.add pool.all tx; priced = Priced.put pool.priced tx }

unfoldable pub index_new : Tx → TxPool → TxPool
index_new tx pool = elim (Lookup.get pool.all tx.hash) [ none ↦ index tx pool | some _ ↦ pool ]

unfoldable pub journal_tx : ℕ → Tx → TxPool → TxPool
journal_tx from tx pool = elim pool.journal [
  | none ↦ pool
  | some txs ↦
      if Accounts.contains pool.locals from
      then record pool { journal = some (txs ++ tx ∷ []) }
      else pool
]

unfoldable pub enqueue_tx : TxPool → Tx → Option (TxPool × Answer)
enqueue_tx pool tx =
    let from = sender_of tx in
    let (inserted, old, list) =
      TxList.add (list_of false (lookup from pool.queue)) tx pool.config.price_bump in
    let pool' = record pool { queue = insert from list pool.queue } in
    if inserted
    then (do
      pool'' ← forget old pool'
      some (index_new tx pool'', Answer.accepted (was_replaced old)))
    else some (pool', Answer.refused PoolError.replace_underpriced)

-- `enqueueTx` on transactions that another list gave up; its errors are dropped.
unfoldable pub enqueue_all : TxPool → List Tx → Option TxPool
enqueue_all pool [] = some pool
enqueue_all pool (tx ∷ txs) = do (pool', answer) ← enqueue_tx pool tx; enqueue_all pool' txs

unfoldable pub promote_tx : TxPool → ℕ → Tx → ℕ → Option (TxPool × Bool)
promote_tx pool addr tx now =
    let (inserted, old, list) =
      TxList.add (list_of true (lookup addr pool.pending)) tx pool.config.price_bump in
    let pool' = record pool { pending = insert addr list pool.pending } in
    if inserted
    then (do
      pool'' ← forget old pool'
      let done = index_new tx pool''
      some (
        record done {
          beats = insert addr now done.beats;
          pending_nonces = Noncer.set done.pending_nonces addr ((tx.nonce + 1) % u64_mod);
        },
        true,
      ))
    else (do
      all ← Lookup.remove pool'.all tx.hash
      some (removed_priced 1 (record pool' { all = all }), false))

-- The part of `removeTx` on the queue.
unfoldable pub remove_queued : TxPool → ℕ → Tx → Option TxPool
remove_queued pool addr tx = elim (lookup addr pool.queue) [
  | none ↦ some pool
  | some list ↦
      let (found, invalids, list') = TxList.remove list tx in
      some (record pool {
        queue =
            if TxList.is_empty list' then delete addr pool.queue else insert addr list' pool.queue;
      })
]

-- The part of `removeTx` on the pending transactions, after one was found there.
unfoldable pub remove_pending : TxPool → ℕ → Tx → List Tx → TxList → Option TxPool
remove_pending pool addr tx invalids list = do
  pool' ←
      enqueue_all
        (if TxList.is_empty list
          then record pool { pending = delete addr pool.pending; beats = delete addr pool.beats }
          else record pool { pending = insert addr list pool.pending })
        invalids
  some (record pool' { pending_nonces = Noncer.set_if_lower pool'.pending_nonces addr tx.nonce })

-- The lists of an address, when one of its transactions has left `all`.
unfoldable pub remove_listed : TxPool → ℕ → Tx → Option TxPool
remove_listed pool addr tx = elim (lookup addr pool.pending) [
  | none ↦ remove_queued pool addr tx
  | some list ↦
      let (found, invalids, list') = TxList.remove list tx in
      if found
      then remove_pending pool addr tx invalids list'
      else remove_queued (record pool { pending = insert addr list' pool.pending }) addr tx
]

unfoldable pub remove_tx : TxPool → ℕ → Bool → Option TxPool
remove_tx pool hash outofbound = elim (Lookup.get pool.all hash) [
  | none ↦ some pool
  | some tx ↦ (do
    all ← Lookup.remove pool.all hash
    let pool' = record pool { all = all }
    remove_listed (if outofbound then removed_priced 1 pool' else pool') (sender_of tx) tx)
]

unfoldable pub remove_txs : TxPool → List Tx → Bool → Option TxPool
remove_txs pool [] outofbound = some pool
remove_txs pool (tx ∷ txs) outofbound = do
  pool' ← remove_tx pool tx.hash outofbound
  remove_txs pool' txs outofbound
