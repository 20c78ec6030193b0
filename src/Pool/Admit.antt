-- ===== src/Pool/Admit.antt =====
-- How tx_pool.go lets transactions in: add, addTxs and SetGasPrice. `none` is a run-time panic.
use mathlib.Core.Option
use chain_master.Prelude.{
  ℕ, ◌+◌, ◌-◌, ◌%◌, Bool, true, false, not, ◌&&◌, Option, none, some, List, [], ◌∷◌, ◌++◌, leb,
  if◌then◌else◌, u64_mod,
}
use chain_master.Prelude.GoMap.{lookup, insert}
use chain_master.Core.Params.{ProtocolParams}
use chain_master.Pool.Tx.{Tx}
use chain_master.Pool.TxList
use chain_master.Pool.TxList.{TxList, new_tx_list}
use chain_master.Pool.Lookup
use chain_master.Pool.Lookup.{num_slots}
use chain_master.Pool.Accounts
use chain_master.Pool.Accounts.{AccountSet, new_account_set}
use chain_master.Pool.Priced
use chain_master.Pool.State.{TxPool, PoolError, sender_of, validate_tx}
use chain_master.Pool.Moves.{
  ◌>>=◌, Answer, list_of, was_replaced, forget, index, journal_tx, enqueue_tx, remove_txs,
}

-- The number of slots that `add` asks for; the pool is full, so the difference is not negative.
unfoldable pub missing_slots : TxPool → Tx → ℕ
missing_slots pool tx =
    pool.all.slots + num_slots tx - (pool.config.global_slots + pool.config.global_queue) % u64_mod

-- The part of `add` that makes room in a full pool, with whether the transaction is too cheap.
unfoldable pub make_room : TxPool → Tx → Bool → Option (TxPool × Bool)
make_room pool tx local =
    if leb ((pool.config.global_slots + pool.config.global_queue) % u64_mod) (Lookup.count pool.all)
    then (let (cheap, priced) =
          if local
          then (false, pool.priced)
          else Priced.underpriced pool.priced pool.all tx pool.locals in
        if cheap then some (record pool { priced = priced }, true) else (do
          let (drop, rest) = Priced.discard priced pool.all (missing_slots pool tx) pool.locals
          pool' ← remove_txs (record pool { priced = rest }) drop false
          some (pool', false)))
    else some (pool, false)

-- Whether the pending list of an address has a transaction with the same nonce.
unfoldable pub overlaps_pending : TxPool → ℕ → Tx → Bool
overlaps_pending pool from tx = elim (lookup from pool.pending) [
  | none ↦ false
  | some list ↦ TxList.overlaps list tx
]

-- The part of `add` that replaces a pending transaction.
unfoldable pub replace_pending : TxPool → ℕ → Tx → Option (TxPool × Answer)
replace_pending pool from tx =
    let (inserted, old, list) =
      TxList.add (list_of true (lookup from pool.pending)) tx pool.config.price_bump in
    let pool' = record pool { pending = insert from list pool.pending } in
    if inserted
    then (do
      pool'' ← forget old pool'
      let done = journal_tx from tx (index tx pool'')
      some (record done { events = done.events ++ tx ∷ [] }, Answer.accepted (was_replaced old)))
    else some (pool', Answer.refused PoolError.replace_underpriced)

unfoldable pub mark_local : ℕ → Bool → TxPool → TxPool
mark_local from local pool =
    if local && not (Accounts.contains pool.locals from)
    then record pool { locals = Accounts.add pool.locals from }
    else pool

-- What follows `enqueueTx` in `add`.
unfoldable pub finish_add : ℕ → Tx → Bool → TxPool × Answer → TxPool × Answer
finish_add from tx local (pool, Answer.refused e) = (pool, Answer.refused e)
finish_add from tx local (pool, Answer.accepted replaced) =
    (journal_tx from tx (mark_local from local pool), Answer.accepted replaced)

-- `add`, from the sender of a valid transaction on.
unfoldable pub add_valid : TxPool → Tx → Bool → Option (TxPool × Answer)
add_valid pool tx local =
    if overlaps_pending pool (sender_of tx) tx
    then replace_pending pool (sender_of tx) tx
    else (do done ← enqueue_tx pool tx; some (finish_add (sender_of tx) tx local done))

-- `add`, from the check for room on.
unfoldable pub add_if_room : TxPool × Bool → Tx → Bool → Option (TxPool × Answer)
add_if_room (pool, true) tx local = some (pool, Answer.refused PoolError.underpriced)
add_if_room (pool, false) tx local = add_valid pool tx local

unfoldable pub add : ProtocolParams → TxPool → Tx → Bool → Option (TxPool × Answer)
add p pool tx local = elim (Lookup.get pool.all tx.hash) [
  | some _ ↦ some (pool, Answer.refused PoolError.already_known)
  | none ↦ elim (validate_tx p pool tx local) [
    | some e ↦ some (pool, Answer.refused e)
    | none ↦ (do room ← make_room pool tx local; add_if_room room tx local)
  ]
]

-- The error of an answer.
unfoldable pub error_of : Answer → Option PoolError
error_of (Answer.refused e) = some e
error_of (Answer.accepted replaced) = none

-- A new transaction makes its account dirty.
unfoldable pub mark_dirty : Answer → Tx → AccountSet → AccountSet
mark_dirty (Answer.accepted false) tx dirty = Accounts.add_tx dirty tx
mark_dirty (Answer.accepted true) tx dirty = dirty
mark_dirty (Answer.refused e) tx dirty = dirty

-- The pool, the errors, and the dirty accounts.
pub record Added : Type 0 where
  pub pool : TxPool
  pub errs : List (Option PoolError)
  pub dirty : AccountSet

unfoldable pub add_loop : ProtocolParams → TxPool → List Tx → Bool → AccountSet → Option Added
add_loop p pool [] local dirty = some (record { pool = pool; errs = []; dirty = dirty })
add_loop p pool (tx ∷ txs) local dirty = do
  (pool', answer) ← add p pool tx local
  rest ← add_loop p pool' txs local (mark_dirty answer tx dirty)
  some (record rest { errs = error_of answer ∷ rest.errs })

unfoldable pub add_txs_locked : ProtocolParams → TxPool → List Tx → Bool → Option Added
add_txs_locked p pool txs local = add_loop p pool txs local new_account_set

-- The first loop of `addTxs`: an error for each known transaction.
unfoldable pub known_errs : TxPool → List Tx → List (Option PoolError)
known_errs pool [] = []
known_errs pool (tx ∷ txs) =
    elim (Lookup.get pool.all tx.hash) [ none ↦ none | some _ ↦ some PoolError.already_known ]
    ∷ known_errs pool txs

unfoldable pub news : TxPool → List Tx → List Tx
news pool [] = []
news pool (tx ∷ txs) = elim (Lookup.get pool.all tx.hash) [
  | none ↦ tx ∷ news pool txs
  | some _ ↦ news pool txs
]

-- `errs[nilSlot] = err` at the first slot without an error; `none` is an index out of range.
unfoldable pub put_err :
    Option PoolError → List (Option PoolError) → Option (List (Option PoolError))
put_err e [] = none
put_err e (none ∷ errs) = some (e ∷ errs)
put_err e (some old ∷ errs) = Option.map (◌∷◌ (some old)) (put_err e errs)

-- The loop that hands the new errors out. `nilSlot` only passes slots with an error.
unfoldable pub merge_errs :
    List (Option PoolError) → List (Option PoolError) → Option (List (Option PoolError))
merge_errs [] errs = some errs
merge_errs (e ∷ new) errs = do errs' ← put_err e errs; merge_errs new errs'

-- `addTxs` up to the request for a promotion: the pool, the errors, and the dirty accounts.
unfoldable pub add_txs : ProtocolParams → TxPool → List Tx → Bool → Option Added
add_txs p pool txs local = elim (news pool txs) [
  | [] ↦ some (record { pool = pool; errs = known_errs pool txs; dirty = new_account_set })
  | tx ∷ new ↦ (do
    done ← add_txs_locked p pool (tx ∷ new) local
    errs ← merge_errs done.errs (known_errs pool txs)
    some (record done { errs = errs }))
]

-- `SetGasPrice`
unfoldable pub set_gas_price : TxPool → ℕ → Option TxPool
set_gas_price pool price =
    let (drop, priced) = Priced.cap pool.priced pool.all price pool.locals in
    remove_txs (record pool { gas_price = price; priced = priced }) drop false
