-- ===== src/Pool/Truncate.antt =====
-- truncatePending and truncateQueue of tx_pool.go.
use chain_master.Prelude.{
  ℕ, zero, suc, ◌+◌, ◌%◌, u64_mod, ◌-◌, true, false, not, ◌&&◌, Option, none, some, List, [], ◌∷◌,
  ◌++◌, ltb, leb, if◌then◌else◌, length, take, reverse,
}
use chain_master.Prelude.GoMap.{GoMap, lookup, insert}
use chain_master.Pool.Tx.{Tx}
use chain_master.Pool.TxList
use chain_master.Pool.TxList.{TxList}
use chain_master.Pool.Noncer
use chain_master.Pool.Noncer.{TxNoncer}
use chain_master.Pool.Accounts
use chain_master.Pool.Accounts.{AccountSet}
use chain_master.Pool.State.{TxPool, count_txs}
use chain_master.Pool.Moves.{◌>>=◌, removed_priced, remove_txs}
use chain_master.Pool.Reorg.{remove_all}

-- `setIfLower` with the nonce of each dropped transaction.
unfoldable pub lower_nonces : ℕ → List Tx → TxNoncer → TxNoncer
lower_nonces addr [] n = n
lower_nonces addr (tx ∷ txs) n = lower_nonces addr txs (Noncer.set_if_lower n addr tx.nonce)

-- One transaction less for an offender; `Cap` panics at a negative number.
unfoldable pub cap_one : TxPool → ℕ → Option TxPool
cap_one pool addr = elim (lookup addr pool.pending) [
  | none ↦ none
  | some list ↦
      if TxList.is_empty list
      then none
      else (let (caps, list') = TxList.cap list (TxList.size list - 1) in
          (do
            all ← remove_all pool.all caps
            some (
                removed_priced (length caps) (record pool {
                  pending = insert addr list' pool.pending;
                  all = all;
                  pending_nonces = lower_nonces addr caps pool.pending_nonces;
                }))))
]

-- A round over some offenders, with the number of pending transactions.
unfoldable pub cap_each : TxPool → ℕ → List ℕ → Option (TxPool × ℕ)
cap_each pool pending [] = some (pool, pending)
cap_each pool pending (addr ∷ addrs) = do
  pool' ← cap_one pool addr
  cap_each pool' ((pending + u64_mod - 1) % u64_mod) addrs

unfoldable pub size_at : TxPool → ℕ → ℕ
size_at pool addr = elim (lookup addr pool.pending) [ none ↦ 0 | some list ↦ TxList.size list ]

-- Rounds over the offenders, on the rounds left, while the list of the account `last` is longer than
-- the limit.
unfoldable pub level : ℕ → TxPool → ℕ → List ℕ → ℕ → ℕ → Option (TxPool × ℕ)
level zero pool pending offenders last limit = some (pool, pending)
level (suc k) pool pending offenders last limit =
    elim (ltb pool.config.global_slots pending && ltb limit (size_at pool last)) [
      | false ↦ some (pool, pending)
      | true ↦ cap_each pool pending offenders >>= λ r. level k r.0 r.1 offenders last limit
    ]

-- The loop over the spammers, the largest first. `last` is the offender before.
unfoldable pub equalise :
    TxPool → ℕ → List ℕ → Option ℕ → List ℕ → Option (TxPool × ℕ × List ℕ × Option ℕ)
unfolding level
equalise pool pending offenders last [] = some (pool, pending, offenders, last)
equalise pool pending offenders none (addr ∷ spammers) =
    let rest = equalise pool pending (offenders ++ addr ∷ []) (some addr) spammers in
    if ltb pool.config.global_slots pending then rest else some (pool, pending, offenders, none)
equalise pool pending offenders (some last) (addr ∷ spammers) =
    elim (ltb pool.config.global_slots pending) [
      | false ↦ some (pool, pending, offenders, some last)
      | true ↦
          level (suc (size_at pool last)) pool pending offenders last (size_at pool addr) >>= λ r.
          equalise r.0 r.1 (offenders ++ addr ∷ []) (some addr) spammers
    ]

-- The last loop, down to the guaranteed number of slots.
unfoldable pub level_all : TxPool × ℕ × List ℕ × Option ℕ → Option TxPool
unfolding level
level_all (pool, pending, offenders, none) = some pool
level_all (pool, pending, offenders, some last) = do
  (pool', left) ←
      level (suc (size_at pool last)) pool pending offenders last pool.config.account_slots
  some pool'

-- The accounts that are pushed on the priority queue, with their priorities.
unfoldable pub spammers : TxPool → GoMap TxList → List (ℕ × ℕ)
spammers pool [] = []
spammers pool ((addr, list) ∷ m) =
    if not (Accounts.contains pool.locals addr) && ltb pool.config.account_slots (TxList.size list)
    then (addr, TxList.size list) ∷ spammers pool m
    else spammers pool m

-- `by_priority` is the order in which the priority queue of the package prque pops.
unfoldable pub truncate_pending : (List (ℕ × ℕ) → List ℕ) → TxPool → Option TxPool
truncate_pending by_priority pool =
    if leb (count_txs pool.pending) pool.config.global_slots then some pool else (do
      ends ←
          equalise pool (count_txs pool.pending) [] none (by_priority (spammers pool pool.pending))
      level_all ends)

-- `sort.Sort` on the addresses by their heartbeats.
unfoldable pub insert_by_heartbeat : ℕ × ℕ → List (ℕ × ℕ) → List (ℕ × ℕ)
insert_by_heartbeat (addr, beat) [] = (addr, beat) ∷ []
insert_by_heartbeat (addr, beat) ((a, b) ∷ rest) =
    if leb beat b
    then (addr, beat) ∷ (a, b) ∷ rest
    else (a, b) ∷ insert_by_heartbeat (addr, beat) rest

unfoldable pub sort_by_heartbeat : List (ℕ × ℕ) → List (ℕ × ℕ)
sort_by_heartbeat [] = []
sort_by_heartbeat (x ∷ xs) = insert_by_heartbeat x (sort_by_heartbeat xs)

-- The time of an account that has none is zero.
unfoldable pub heartbeat : TxPool → ℕ → ℕ
heartbeat pool addr = elim (lookup addr pool.beats) [ none ↦ 0 | some beat ↦ beat ]

unfoldable pub remote_queues : TxPool → GoMap TxList → List (ℕ × ℕ)
remote_queues pool [] = []
remote_queues pool ((addr, list) ∷ m) =
    if Accounts.contains pool.locals addr
    then remote_queues pool m
    else (addr, heartbeat pool addr) ∷ remote_queues pool m

-- The loop over the addresses, the latest heartbeat first.
unfoldable pub drop_queues : TxPool → ℕ → List (ℕ × ℕ) → Option TxPool
drop_queues pool drop [] = some pool
drop_queues pool zero (entry ∷ entries) = some pool
drop_queues pool (suc drop) ((addr, beat) ∷ entries) = elim (lookup addr pool.queue) [
  | none ↦ none
  | some list ↦
      let (txs, list') = TxList.flatten list in
      let pool' = record pool { queue = insert addr list' pool.queue } in
      elim (leb (TxList.size list) (suc drop)) [
        | true ↦
            remove_txs pool' txs true >>= λ p. drop_queues p (suc drop - TxList.size list) entries
        | false ↦ remove_txs pool' (take (suc drop) (reverse txs)) true
      ]
]

unfoldable pub truncate_queue : TxPool → Option TxPool
truncate_queue pool =
    let queued = count_txs pool.queue in
    if leb queued pool.config.global_queue
    then some pool
    else drop_queues pool (queued - pool.config.global_queue)
        (reverse (sort_by_heartbeat (remote_queues pool pool.queue)))
