-- ===== src/Pool/TxList.antt =====
-- txList of tx_list.go: the transactions of one account, with the highest cost and gas among them.
pub mod Cut
pub mod Invariant
pub mod Add
pub mod Filter
pub mod Remove
use chain_master.Prelude.{
  ℕ, ◌+◌, ◌*◌, ◌/◌, ◌%◌, Bool, true, false, ◌&&◌, ◌||◌, Option, none, some, List, [], ◌∷◌, ltb, leb,
  ◌==◌, if◌then◌else◌, length, u64_mod,
}
use chain_master.Pool.SortedMap
use chain_master.Pool.SortedMap.{SortedMap}
use chain_master.Pool.Tx.{Tx}

pub record TxList : Type 0 where
  pub strict : Bool
  pub txs : SortedMap
  pub costcap : ℕ
  pub gascap : ℕ

unfoldable pub new_tx_list : Bool → TxList
new_tx_list strict = record {
  strict = strict;
  txs = SortedMap.new_sorted_map;
  costcap = 0;
  gascap = 0;
}

unfoldable pub overlaps : TxList → Tx → Bool
overlaps l tx = elim (SortedMap.get l.txs tx.nonce) [ none ↦ false | some old ↦ true ]

-- `100 + int64(priceBump)` as a word; from `2 ^ 63` on it is a negative number.
unfoldable pub bump_factor : ℕ → ℕ
bump_factor price_bump = (100 + price_bump) % u64_mod

-- The price that a replacement must reach; 0 for a negative one, which no price is below either.
unfoldable pub bump_threshold : Tx → ℕ → ℕ
unfolding bump_factor
bump_threshold old price_bump =
    if ltb (bump_factor price_bump) 9223372036854775808
    then old.gas_price * bump_factor price_bump / 100
    else 0

unfoldable pub is_too_cheap : Tx → Tx → ℕ → Bool
is_too_cheap old tx price_bump =
    leb tx.gas_price old.gas_price || ltb tx.gas_price (bump_threshold old price_bump)

-- The part of `Add` that stores the transaction and raises the caps.
unfoldable pub store : TxList → Tx → TxList
store l tx = record l {
  txs = SortedMap.put l.txs tx;
  costcap = if ltb l.costcap tx.cost then tx.cost else l.costcap;
  gascap = if ltb l.gascap tx.gas then tx.gas else l.gascap;
}

-- Whether the transaction was inserted, the one it replaced, and the list.
unfoldable pub add : TxList → Tx → ℕ → Bool × Option Tx × TxList
add l tx price_bump = elim (SortedMap.get l.txs tx.nonce) [
  | none ↦ (true, none, store l tx)
  | some old ↦
      if is_too_cheap old tx price_bump then (false, none, l) else (true, some old, store l tx)
]

unfoldable pub forward : TxList → ℕ → List Tx × TxList
forward l threshold =
    let (removed, txs) = SortedMap.forward l.txs threshold in (removed, record l { txs = txs })

-- The transactions that a balance or a gas limit does not cover.
unfoldable pub unpayable : ℕ → ℕ → Tx → Bool
unpayable cost_limit gas_limit tx = ltb cost_limit tx.cost || ltb gas_limit tx.gas

-- The loop for the lowest nonce among the removed transactions.
unfoldable pub lowest_nonce : ℕ → List Tx → ℕ
lowest_nonce lowest [] = lowest
lowest_nonce lowest (tx ∷ txs) = lowest_nonce (if ltb tx.nonce lowest then tx.nonce else lowest) txs

unfoldable pub is_above : ℕ → Tx → Bool
is_above nonce tx = ltb nonce tx.nonce

-- A strict list drops the transactions above a nonce as well.
unfoldable pub drop_above : TxList → ℕ → List Tx × TxList
drop_above l nonce =
    let (invalids, txs) = SortedMap.filter l.txs (is_above nonce) in
    (invalids, record l { txs = txs })

-- The part of `Filter` after the caps are known to be exceeded.
unfoldable pub filter_txs : TxList → ℕ → ℕ → List Tx × List Tx × TxList
filter_txs l cost_limit gas_limit =
    let (removed, txs) = SortedMap.filter l.txs (unpayable cost_limit gas_limit) in
    let l' = record l { txs = txs; costcap = cost_limit; gascap = gas_limit } in
    if l.strict && ltb 0 (length removed)
    then (let (invalids, rest) = drop_above l' (lowest_nonce 18446744073709551615 removed) in
        (removed, invalids, rest))
    else (removed, [], l')

-- The removed transactions, those that a removal made invalid, and the list.
unfoldable pub filter : TxList → ℕ → ℕ → List Tx × List Tx × TxList
filter l cost_limit gas_limit =
    if leb l.costcap cost_limit && leb l.gascap gas_limit
    then ([], [], l)
    else filter_txs l cost_limit gas_limit

unfoldable pub cap : TxList → ℕ → List Tx × TxList
cap l threshold =
    let (drops, txs) = SortedMap.cap l.txs threshold in (drops, record l { txs = txs })

-- `Remove` on what the sorted map says.
unfoldable pub remove_from : TxList → ℕ → Bool → SortedMap → Bool × List Tx × TxList
remove_from l nonce false txs = (false, [], record l { txs = txs })
remove_from l nonce true txs =
    if l.strict
    then (let (invalids, rest) = drop_above (record l { txs = txs }) nonce in
        (true, invalids, rest))
    else (true, [], record l { txs = txs })

-- Whether the transaction was there, those that its removal made invalid, and the list.
unfoldable pub remove : TxList → Tx → Bool × List Tx × TxList
remove l tx = let (found, txs) = SortedMap.remove l.txs tx.nonce in remove_from l tx.nonce found txs

unfoldable pub ready : TxList → ℕ → List Tx × TxList
ready l start = let (txs, rest) = SortedMap.ready l.txs start in (txs, record l { txs = rest })

unfoldable pub size : TxList → ℕ
size l = SortedMap.size l.txs

unfoldable pub is_empty : TxList → Bool
is_empty l = size l == 0

unfoldable pub flatten : TxList → List Tx × TxList
flatten l = let (txs, rest) = SortedMap.flatten l.txs in (txs, record l { txs = rest })
