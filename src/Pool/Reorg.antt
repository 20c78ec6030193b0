-- ===== src/Pool/Reorg.antt =====
-- The part of tx_pool.go that runs after the head of the chain has changed or transactions were
-- added: it moves transactions between the queue and the pending lists, and keeps both in bounds.
use chain_master.Prelude.{
  ℕ, ◌+◌, Bool, true, false, Option, none, some, List, [], ◌∷◌, ◌++◌, ltb, if◌then◌else◌, length,
}
use chain_master.Prelude.GoMap.{GoMap, lookup, insert, delete, keys}
use chain_master.Pool.Tx.{Tx}
use chain_master.Pool.SortedMap
use chain_master.Pool.TxList
use chain_master.Pool.TxList.{TxList}
use chain_master.Pool.Noncer
use chain_master.Pool.Noncer.{new_tx_noncer}
use chain_master.Pool.Lookup
use chain_master.Pool.Lookup.{TxLookup}
use chain_master.Pool.Accounts
use chain_master.Pool.State.{TxPool}
use chain_master.Pool.Moves.{◌>>=◌, removed_priced, enqueue_all, promote_tx}

-- `pool.all.Remove` on each transaction.
unfoldable pub remove_all : TxLookup → List Tx → Option TxLookup
remove_all all [] = some all
remove_all all (tx ∷ txs) = do all' ← Lookup.remove all tx.hash; remove_all all' txs

-- `promoteTx` on each transaction, with those that were promoted.
unfoldable pub promote_all : TxPool → ℕ → List Tx → ℕ → Option (TxPool × List Tx)
promote_all pool addr [] now = some (pool, [])
promote_all pool addr (tx ∷ txs) now = do
  (pool', done) ← promote_tx pool addr tx now
  (pool'', promoted) ← promote_all pool' addr txs now
  some (pool'', if done then tx ∷ promoted else promoted)

unfoldable pub put_queue : ℕ → TxList → GoMap TxList → GoMap TxList
put_queue addr list m = if TxList.is_empty list then delete addr m else insert addr list m

-- The largest `int`.
abbrev pub int_max : ℕ
int_max = 9223372036854775807

-- What the queue of a remote account loses to its cap, a `uint64` that is converted to `int`; `Cap`
-- panics at a negative number.
unfoldable pub queue_caps : Bool → TxList → ℕ → Option (List Tx × TxList)
queue_caps true list threshold = some ([], list)
queue_caps false list threshold =
    if ltb int_max threshold then none else some (TxList.cap list threshold)

-- The last part of a round of `promoteExecutables`.
unfoldable pub cap_queue : TxPool → ℕ → TxList → ℕ → Option TxPool
cap_queue pool addr list gone = do
  (caps, list') ← queue_caps (Accounts.contains pool.locals addr) list pool.config.account_queue
  all ← remove_all pool.all caps
  let pool' = removed_priced (gone + length caps) (record pool { all = all })
  some (record pool' { queue = put_queue addr list' pool'.queue })

-- A round of `promoteExecutables` on an account with a list.
unfoldable pub promote_list : TxPool → ℕ → TxList → ℕ → Option (TxPool × List Tx)
promote_list pool addr list now =
    let (forwards, list1) = TxList.forward list (pool.state.nonce addr) in
    let (drops, invalids, list2) = TxList.filter list1 (pool.state.balance addr) pool.max_gas in
    let (start, nonces) = Noncer.get pool.pending_nonces addr in
    let (readies, list3) = TxList.ready list2 start in
    (do
      all1 ← remove_all pool.all forwards
      all2 ← remove_all all1 drops
      (pool', promoted) ←
          promote_all
            (record pool {
              all = all2;
              pending_nonces = nonces;
              queue = insert addr list3 pool.queue;
            })
            addr readies now
      pool'' ← cap_queue pool' addr list3 (length forwards + length drops)
      some (pool'', promoted))

unfoldable pub promote_account : TxPool → ℕ → ℕ → Option (TxPool × List Tx)
promote_account pool addr now = elim (lookup addr pool.queue) [
  | none ↦ some (pool, [])
  | some list ↦ promote_list pool addr list now
]

unfoldable pub promote_executables : TxPool → List ℕ → ℕ → Option (TxPool × List Tx)
promote_executables pool [] now = some (pool, [])
promote_executables pool (addr ∷ addrs) now = do
  (pool', promoted) ← promote_account pool addr now
  (pool'', more) ← promote_executables pool' addrs now
  some (pool'', promoted ++ more)

-- The last part of a round of `demoteUnexecutables`: an empty list is deleted.
unfoldable pub delete_empty : ℕ → TxList → TxPool → TxPool
delete_empty addr list pool =
    if TxList.is_empty list
    then record pool { pending = delete addr pool.pending; beats = delete addr pool.beats }
    else pool

-- What a list gives up whose first executable transaction is missing.
unfoldable pub gapped_part : TxList → Option Tx → List Tx × TxList
gapped_part list (some tx) = ([], list)
gapped_part list none = if ltb 0 (TxList.size list) then TxList.cap list 0 else ([], list)

unfoldable pub demote_gapped : TxPool → ℕ → TxList → ℕ → Option TxPool
demote_gapped pool addr list nonce =
    let (gapped, list') = gapped_part list (SortedMap.get list.txs nonce) in
    (do
      pool' ← enqueue_all (record pool { pending = insert addr list' pool.pending }) gapped
      some (delete_empty addr list' pool'))

-- A round of `demoteUnexecutables`.
unfoldable pub demote_list : TxPool → ℕ → TxList → Option TxPool
demote_list pool addr list =
    let nonce = pool.state.nonce addr in
    let (olds, list1) = TxList.forward list nonce in
    let (drops, invalids, list2) = TxList.filter list1 (pool.state.balance addr) pool.max_gas in
    (do
      all1 ← remove_all pool.all olds
      all2 ← remove_all all1 drops
      pool' ←
          enqueue_all
            (removed_priced (length olds + length drops)
              (record pool { all = all2; pending = insert addr list2 pool.pending }))
            invalids
      demote_gapped pool' addr list2 nonce)

unfoldable pub demote_account : TxPool → ℕ → Option TxPool
demote_account pool addr = elim (lookup addr pool.pending) [
  | none ↦ some pool
  | some list ↦ demote_list pool addr list
]

unfoldable pub demote_loop : TxPool → List ℕ → Option TxPool
demote_loop pool [] = some pool
demote_loop pool (addr ∷ addrs) = do pool' ← demote_account pool addr; demote_loop pool' addrs

unfoldable pub demote_unexecutables : TxPool → Option TxPool
demote_unexecutables pool = demote_loop pool (keys pool.pending)
