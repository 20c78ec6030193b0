-- ===== src/Pool/SortedMap.antt =====
-- txSortedMap of tx_list.go: transactions by nonce, with a heap of the nonces and a cached list.
pub mod Spec
pub mod Invariant
pub mod Lowest
pub mod Ready
pub mod Sorting
pub mod Chosen
pub mod Single
pub mod Highest
use chain_master.Prelude.{
  ℕ, zero, suc, ◌+◌, ◌-◌, ◌%◌, Bool, true, false, not, ◌||◌, Option, none, some, List, [], ◌∷◌,
  ◌++◌, ltb, leb, ◌==◌, if◌then◌else◌, length, get_elem?, take, drop, u64_mod,
}
use mathlib.Core.Option
use chain_master.Prelude.GoMap.{GoMap, lookup, insert, delete, values, keys}
use chain_master.Heap
use chain_master.Pool.Tx.{Tx}

pub record SortedMap : Type 0 where
  pub items : GoMap Tx
  pub index : List ℕ
  pub cache : Option (List Tx)

unfoldable pub new_sorted_map : SortedMap
new_sorted_map = record { items = []; index = []; cache = none }

unfoldable pub get : SortedMap → ℕ → Option Tx
get m nonce = lookup nonce m.items

unfoldable pub put : SortedMap → Tx → SortedMap
put m tx = record {
  items = insert tx.nonce tx m.items;
  index = elim (lookup tx.nonce m.items) [
    | none ↦ Heap.push ltb m.index tx.nonce
    | some old ↦ m.index
  ];
  cache = none;
}

-- What is appended to a list for `items[nonce]`: a nonce of the index is always in the map.
abbrev pub entry : Option Tx → List Tx
entry none = []
entry (some tx) = tx ∷ []

-- The removed transactions, and what is left of the map and the index.
pub record Taken : Type 0 where
  pub removed : List Tx
  pub items : GoMap Tx
  pub index : List ℕ

-- One round of a loop that pops the lowest nonce.
unfoldable pub take_lowest : ℕ → GoMap Tx → List ℕ → Taken
take_lowest nonce items index = record {
  removed = entry (lookup nonce items);
  items = delete nonce items;
  index = (Heap.pop ltb index).1;
}

-- `forward` on the nonces left: each round pops one.
pub forward_loop : ℕ → ℕ → GoMap Tx → List ℕ → Taken
forward_loop zero threshold items index = record { removed = []; items = items; index = index }
forward_loop (suc k) threshold items [] = record { removed = []; items = items; index = [] }
forward_loop (suc k) threshold items (nonce ∷ index) = elim (ltb nonce threshold) [
  | false ↦ record { removed = []; items = items; index = nonce ∷ index }
  | true ↦
      let now = take_lowest nonce items (nonce ∷ index) in
      let later = forward_loop k threshold now.items now.index in
      record later { removed = now.removed ++ later.removed }
]

unfoldable pub forward : SortedMap → ℕ → List Tx × SortedMap
unfolding forward_loop take_lowest
forward m threshold =
    let t = forward_loop (length m.index) threshold m.items m.index in
    (
      t.removed,
      record {
        items = t.items;
        index = t.index;
        cache = Option.map (drop (length t.removed)) m.cache;
      },
    )

-- The transactions that pass a test, and the entries that do not.
unfoldable pub select : (Tx → Bool) → List Tx → List Tx
select f [] = []
select f (tx ∷ txs) = if f tx then tx ∷ select f txs else select f txs

unfoldable pub keep : (Tx → Bool) → GoMap Tx → GoMap Tx
keep f [] = []
keep f ((n, tx) ∷ m) = if f tx then keep f m else (n, tx) ∷ keep f m

unfoldable pub filter : SortedMap → (Tx → Bool) → List Tx × SortedMap
filter m f =
    let removed = select f (values m.items) in
    let items = keep f m.items in
    (
      removed,
      if ltb 0 (length removed)
          then record { items = items; index = Heap.init ltb (keys items); cache = none }
          else record m { items = items },
    )

-- `sort.Sort` on nonces and on transactions by nonce.
unfoldable pub insert_nonce : ℕ → List ℕ → List ℕ
insert_nonce n [] = n ∷ []
insert_nonce n (k ∷ ks) = if leb n k then n ∷ k ∷ ks else k ∷ insert_nonce n ks

unfoldable pub sort_nonces : List ℕ → List ℕ
sort_nonces [] = []
sort_nonces (n ∷ ns) = insert_nonce n (sort_nonces ns)

unfoldable pub insert_by_nonce : Tx → List Tx → List Tx
insert_by_nonce tx [] = tx ∷ []
insert_by_nonce tx (t ∷ ts) =
    if leb tx.nonce t.nonce then tx ∷ t ∷ ts else t ∷ insert_by_nonce tx ts

unfoldable pub sort_by_nonce : List Tx → List Tx
sort_by_nonce [] = []
sort_by_nonce (tx ∷ txs) = insert_by_nonce tx (sort_by_nonce txs)

-- The loop of `Cap` from the size `threshold + rounds` down to the threshold.
pub cap_loop : ℕ → ℕ → List ℕ → GoMap Tx → List Tx × GoMap Tx
cap_loop zero threshold sorted items = ([], items)
cap_loop (suc rounds) threshold sorted items = elim (get_elem? sorted (threshold + rounds)) [
  | none ↦ ([], items)
  | some nonce ↦
      let (drops, left) = cap_loop rounds threshold sorted (delete nonce items) in
      (entry (lookup nonce items) ++ drops, left)
]

unfoldable pub cap : SortedMap → ℕ → List Tx × SortedMap
unfolding cap_loop
cap m threshold =
    if leb (length m.items) threshold
    then ([], m)
    else (let sorted = sort_nonces m.index in
        let (drops, items) = cap_loop (length m.items - threshold) threshold sorted m.items in
        (
          drops,
          record {
            items = items;
            index = Heap.init ltb (take threshold sorted);
            cache = Option.map (λ c. take (length c - length drops) c) m.cache;
          },
        ))

-- The first position of a nonce in the index.
unfoldable pub index_of : ℕ → List ℕ → Option ℕ
index_of nonce [] = none
index_of nonce (n ∷ ns) = if n == nonce then some 0 else Option.map suc (index_of nonce ns)

unfoldable pub remove : SortedMap → ℕ → Bool × SortedMap
unfolding index_of
remove m nonce = elim (lookup nonce m.items) [
  | none ↦ (false, m)
  | some tx ↦ (
    true,
    record {
      items = delete nonce m.items;
      index = elim (index_of nonce m.index) [ none ↦ m.index | some i ↦ Heap.remove ltb m.index i ];
      cache = none;
    },
  )
]

-- The loop of `Ready` on the nonces left.
pub ready_loop : ℕ → ℕ → GoMap Tx → List ℕ → Taken
ready_loop zero next items index = record { removed = []; items = items; index = index }
ready_loop (suc k) next items [] = record { removed = []; items = items; index = [] }
ready_loop (suc k) next items (nonce ∷ index) = elim (nonce == next) [
  | false ↦ record { removed = []; items = items; index = nonce ∷ index }
  | true ↦
      let now = take_lowest next items (nonce ∷ index) in
      let later = ready_loop k ((next + 1) % u64_mod) now.items now.index in
      record later { removed = now.removed ++ later.removed }
]

-- `Ready` on an index, which is that of the map.
unfoldable pub ready_at : SortedMap → ℕ → List ℕ → List Tx × SortedMap
unfolding ready_loop take_lowest
ready_at m start [] = ([], m)
ready_at m start (first ∷ index) =
    if ltb start first
    then ([], m)
    else (let t = ready_loop (length (first ∷ index)) first m.items (first ∷ index) in
        (t.removed, record { items = t.items; index = t.index; cache = none }))

unfoldable pub ready : SortedMap → ℕ → List Tx × SortedMap
unfolding ready_at
ready m start = ready_at m start m.index

unfoldable pub size : SortedMap → ℕ
size m = length m.items

-- The list, and the map with the list cached.
unfoldable pub flatten : SortedMap → List Tx × SortedMap
flatten m = elim m.cache [
  | some txs ↦ (txs, m)
  | none ↦ let txs = sort_by_nonce (values m.items) in (txs, record m { cache = some txs })
]
