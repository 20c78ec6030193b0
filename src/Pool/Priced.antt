-- ===== src/Pool/Priced.antt =====
-- priceHeap and txPricedList of tx_list.go: all transactions with the cheapest first, among them
-- stale ones, which have left the pool. The list is given the lookup that it points to.
use chain_master.Prelude.{
  ℕ, zero, suc, ◌+◌, ◌-◌, ◌/◌, ◌%◌, Bool, true, false, ◌||◌, Option, none, some, List, [], ◌∷◌, ltb,
  leb, if◌then◌else◌, length, get_elem?, u64_mod,
}
use chain_master.Prelude.GoMap.{values}
use chain_master.Heap
use chain_master.Pool.Tx.{Tx}
use chain_master.Pool.Lookup
use chain_master.Pool.Lookup.{TxLookup, num_slots}
use chain_master.Pool.Accounts.{AccountSet, contains_tx}

-- `priceHeap.Less`: by price, and the higher nonce first at one price.
unfoldable pub is_cheaper : Tx → Tx → Bool
is_cheaper a b =
    if ltb a.gas_price b.gas_price
    then true
    else if ltb b.gas_price a.gas_price
    then false
    else ltb b.nonce a.nonce

-- `stales` is an `int`, here the 64-bit word that stands for it.
pub record PricedList : Type 0 where
  pub items : List Tx
  pub stales : ℕ

unfoldable pub new_priced_list : PricedList
new_priced_list = record { items = []; stales = 0 }

-- The comparison of an `int` with a number below `2 ^ 63`.
unfoldable pub int_le : ℕ → ℕ → Bool
int_le word n = leb 9223372036854775808 word || leb word n

unfoldable pub decrement : ℕ → ℕ
decrement word = (word + u64_mod - 1) % u64_mod

unfoldable pub put : PricedList → Tx → PricedList
put l tx = record l { items = Heap.push is_cheaper l.items tx }

unfoldable pub removed : PricedList → TxLookup → ℕ → PricedList
removed l all count =
    let stales = (l.stales + count) % u64_mod in
    if int_le stales (length l.items / 4)
    then record l { stales = stales }
    else record { items = Heap.init is_cheaper (values all.all); stales = 0 }

-- What a loop that pops transactions collects.
pub record Popped : Type 0 where
  pub drop : List Tx
  pub save : List Tx
  pub left : PricedList

-- `heap.Pop`, on a heap whose root is known.
unfoldable pub popped : PricedList → PricedList
popped l = record l { items = (Heap.pop is_cheaper l.items).1 }

unfoldable pub is_stale : TxLookup → Tx → Bool
is_stale all tx = elim (Lookup.get all tx.hash) [ none ↦ true | some _ ↦ false ]

unfoldable pub push_all : List Tx → PricedList → PricedList
push_all [] l = l
push_all (tx ∷ txs) l = push_all txs (put l tx)

-- The loop of `Cap`, on the transactions left.
pub cap_loop : ℕ → TxLookup → ℕ → AccountSet → PricedList → Popped
cap_loop zero all threshold locals l = record { drop = []; save = []; left = l }
cap_loop (suc k) all threshold locals l = elim (get_elem? l.items 0) [
  | none ↦ record { drop = []; save = []; left = l }
  | some tx ↦ elim (is_stale all tx) [
    | true ↦ cap_loop k all threshold locals (record (popped l) { stales = decrement l.stales })
    | false ↦ elim (leb threshold tx.gas_price) [
      | true ↦ record { drop = []; save = tx ∷ []; left = popped l }
      | false ↦
          let rest = cap_loop k all threshold locals (popped l) in
          if contains_tx locals tx
          then record rest { save = tx ∷ rest.save }
          else record rest { drop = tx ∷ rest.drop }
    ]
  ]
]

unfoldable pub cap : PricedList → TxLookup → ℕ → AccountSet → List Tx × PricedList
unfolding cap_loop
cap l all threshold locals =
    let r = cap_loop (length l.items) all threshold locals l in (r.drop, push_all r.save r.left)

-- The loop of `Underpriced`, which takes stale transactions off the front.
pub skip_stales : ℕ → TxLookup → PricedList → PricedList
skip_stales zero all l = l
skip_stales (suc k) all l = elim (get_elem? l.items 0) [
  | none ↦ l
  | some head ↦ elim (is_stale all head) [
    | true ↦ skip_stales k all (record (popped l) { stales = decrement l.stales })
    | false ↦ l
  ]
]

-- The comparison with the first transaction; an empty list is logged as an error.
unfoldable pub is_below_root : Option Tx → Tx → Bool
is_below_root none tx = false
is_below_root (some cheapest) tx = leb tx.gas_price cheapest.gas_price

unfoldable pub underpriced : PricedList → TxLookup → Tx → AccountSet → Bool × PricedList
unfolding skip_stales
underpriced l all tx locals =
    if contains_tx locals tx
    then (false, l)
    else (let l' = skip_stales (length l.items) all l in
        (is_below_root (get_elem? l'.items 0) tx, l'))

-- The loop of `Discard`. It ends when no slots are missing, so `slots` may stop at 0.
pub discard_loop : ℕ → TxLookup → ℕ → AccountSet → PricedList → Popped
discard_loop zero all slots locals l = record { drop = []; save = []; left = l }
discard_loop (suc k) all zero locals l = record { drop = []; save = []; left = l }
discard_loop (suc k) all (suc slots) locals l = elim (get_elem? l.items 0) [
  | none ↦ record { drop = []; save = []; left = l }
  | some tx ↦ elim (is_stale all tx) [
    | true ↦
        discard_loop k all (suc slots) locals (record (popped l) { stales = decrement l.stales })
    | false ↦ elim (contains_tx locals tx) [
      | true ↦
          let rest = discard_loop k all (suc slots) locals (popped l) in
          record rest { save = tx ∷ rest.save }
      | false ↦
          let rest = discard_loop k all (suc slots - num_slots tx) locals (popped l) in
          record rest { drop = tx ∷ rest.drop }
    ]
  ]
]

unfoldable pub discard : PricedList → TxLookup → ℕ → AccountSet → List Tx × PricedList
unfolding discard_loop
discard l all slots locals =
    let r = discard_loop (length l.items) all slots locals l in (r.drop, push_all r.save r.left)
