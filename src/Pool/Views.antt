-- ===== src/Pool/Views.antt =====
-- What tx_pool.go tells of its transactions: Status, Get, Has, Content, Pending, local.
pub mod Status
use chain_master.Prelude.{
  ℕ, Bool, true, false, Option, none, some, List, [], ◌∷◌, ◌++◌, if◌then◌else◌,
}
use chain_master.Prelude.GoMap.{GoMap, lookup, insert}
use chain_master.Pool.Tx.{Tx}
use chain_master.Pool.TxList
use chain_master.Pool.TxList.{TxList}
use chain_master.Pool.Lookup
use chain_master.Pool.State.{TxPool, sender_of}

pub data TxStatus : Type 0 where
  unknown queued pending included : TxStatus

-- `txList != nil && txList.txs.items[tx.Nonce()] != nil`
unfoldable pub has_nonce_at : Option TxList → ℕ → Bool
has_nonce_at none nonce = false
has_nonce_at (some list) nonce = elim (lookup nonce list.txs.items) [
  | none ↦ false
  | some tx ↦ true
]

unfoldable pub status_of : TxPool → ℕ → TxStatus
status_of pool hash = elim (Lookup.get pool.all hash) [
  | none ↦ unknown
  | some tx ↦
      if has_nonce_at (lookup (sender_of tx) pool.pending) tx.nonce
      then pending
      else if has_nonce_at (lookup (sender_of tx) pool.queue) tx.nonce
      then queued
      else unknown
]

unfoldable pub status : TxPool → List ℕ → List TxStatus
status pool [] = []
status pool (hash ∷ hashes) = status_of pool hash ∷ status pool hashes

unfoldable pub has : TxPool → ℕ → Bool
has pool hash = elim (Lookup.get pool.all hash) [ none ↦ false | some tx ↦ true ]

-- The transactions of each account, and the lists, whose caches are filled.
unfoldable pub flatten_lists : GoMap TxList → GoMap (List Tx) × GoMap TxList
flatten_lists [] = ([], [])
flatten_lists ((addr, list) ∷ m) =
    let (txs, list') = TxList.flatten list in
    let (rest, m') = flatten_lists m in ((addr, txs) ∷ rest, (addr, list') ∷ m')

unfoldable pub pending_txs : TxPool → GoMap (List Tx) × TxPool
pending_txs pool =
    let (txs, lists) = flatten_lists pool.pending in (txs, record pool { pending = lists })

unfoldable pub content : TxPool → (GoMap (List Tx) × GoMap (List Tx)) × TxPool
content pool =
    let (pend, lists) = flatten_lists pool.pending in
    let (wait, lists') = flatten_lists pool.queue in
    ((pend, wait), record pool { pending = lists; queue = lists' })

-- The value of a key in a map of slices.
unfoldable pub txs_at : Option (List Tx) → List Tx
txs_at none = []
txs_at (some txs) = txs

-- `txs[addr] = append(txs[addr], list.Flatten()...)` for a list that is not nil.
unfoldable pub append_txs : ℕ → Option TxList → GoMap (List Tx) → GoMap (List Tx)
append_txs addr none txs = txs
append_txs addr (some list) txs =
    insert addr (txs_at (lookup addr txs) ++ (TxList.flatten list).0) txs

-- `local`, on the addresses that are left. The caches of the lists are not written back.
unfoldable pub local_loop : TxPool → List ℕ → GoMap (List Tx) → GoMap (List Tx)
local_loop pool [] txs = txs
local_loop pool (addr ∷ addrs) txs =
    local_loop pool addrs
      (append_txs addr (lookup addr pool.queue) (append_txs addr (lookup addr pool.pending) txs))

unfoldable pub local_txs : TxPool → GoMap (List Tx)
local_txs pool = local_loop pool pool.locals.accounts []
