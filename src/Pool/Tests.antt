-- ===== src/Pool/Tests.antt =====
-- Three transactions of one account, and the theorems of the pool at them.
use mathlib.Core.List.{Perm}
use chain_master.Prelude.{
  refl, ℕ, ◌≡◌, arith, true, false, none, some, List, [], ◌∷◌, if◌then◌else◌,
}
use chain_master.Pool.Tx.{Tx}
use chain_master.Pool.SortedMap
use chain_master.Pool.SortedMap.{
  SortedMap, new_sorted_map, put, forward, select, cap, ready, flatten,
}
use chain_master.Pool.SortedMap.Invariant.{Represents, new_sorted_map-Represents, put-Represents}
use chain_master.Pool.SortedMap.Lowest.{forward-Represents}
use chain_master.Pool.SortedMap.Ready.{ready-Represents}
use chain_master.Pool.SortedMap.Chosen.{filter-Represents}
use chain_master.Pool.SortedMap.Single.{remove-Represents}
use chain_master.Pool.SortedMap.Highest.{cap-Represents}
use chain_master.Pool.TxList
use chain_master.Pool.TxList.{TxList, new_tx_list, store, unpayable}
use chain_master.Pool.TxList.Invariant.{IsList, new_tx_list-IsList}
use chain_master.Pool.TxList.Add.{add-IsList, store-IsList}
use chain_master.Pool.TxList.Filter.{filter-IsList}
use chain_master.Pool.TxList.Remove.{remove-IsList}
use chain_master.Pool.Lookup
use chain_master.Pool.Lookup.{
  TxLookup, new_tx_lookup, num_slots, IsCounted, new_tx_lookup-IsCounted, add-IsCounted,
  remove-IsCounted,
}
use chain_master.Pool.Noncer.{Call, run, new_tx_noncer, run-ideal}

-- A transaction by its nonce, price and cost.
abbrev tx_of : ℕ → ℕ → ℕ → Tx
tx_of nonce price cost = record {
  nonce = nonce;
  gas_price = price;
  gas = 21000;
  cost = cost;
  is_negative = false;
  payload = [];
  creation = false;
  hash = nonce;
  size = 100;
  sender = some 1;
}

abbrev third : Tx
third = tx_of 3 10 500

abbrev fourth : Tx
fourth = tx_of 4 10 900

abbrev sixth : Tx
sixth = tx_of 6 10 400

abbrev listed : List Tx
listed = third ∷ fourth ∷ sixth ∷ []

abbrev two : SortedMap
two = put (put new_sorted_map sixth) third

abbrev three : SortedMap
three = put two fourth

two-Represents : Represents two (third ∷ sixth ∷ [])
two-Represents =
    put-Represents _ third (sixth ∷ []) (put-Represents _ sixth [] new_sorted_map-Represents)

three-Represents : Represents three listed
three-Represents = put-Represents two fourth (third ∷ sixth ∷ []) two-Represents

forward-Represents_example :
    let (removed, m) = forward three 4 in
    (removed ≡ third ∷ []) × Represents m (fourth ∷ sixth ∷ [])
unfolding select
forward-Represents_example = forward-Represents three listed 4 three-Represents

ready-Represents_example :
    let (txs, m) = ready three 3 in (txs ≡ third ∷ fourth ∷ []) × Represents m (sixth ∷ [])
ready-Represents_example =
    ready-Represents three listed 3 (omega arith, (omega arith, (omega arith, tt))) three-Represents

filter-Represents_example :
    let (removed, m) = SortedMap.filter three (unpayable 600 30000) in
    Perm removed (fourth ∷ []) × Represents m (third ∷ sixth ∷ [])
unfolding select unpayable
filter-Represents_example = filter-Represents (unpayable 600 30000) three listed three-Represents

remove-Represents_example :
    let (found, m) = SortedMap.remove three 4 in (found ≡ true) × Represents m (third ∷ sixth ∷ [])
remove-Represents_example = remove-Represents three 4 listed three-Represents

cap-Represents_example :
    let (drops, m) = cap three 1 in (drops ≡ sixth ∷ fourth ∷ []) × Represents m (third ∷ [])
cap-Represents_example = cap-Represents three listed 1 three-Represents

-- A strict list with the three transactions.
abbrev pending : TxList
pending = store (store (store (new_tx_list true) third) fourth) sixth

pending-IsList : IsList pending listed
pending-IsList =
    store-IsList _ sixth (third ∷ fourth ∷ [])
      (store-IsList _ fourth (third ∷ []) (store-IsList _ third [] (new_tx_list-IsList true)))

-- The fourth transaction at a price that is a tenth higher.
abbrev bumped : Tx
bumped = tx_of 4 11 950

add-IsList_example :
    let (inserted, old, l) = TxList.add pending bumped 10 in
    (inserted ≡ true)
    × (old ≡ (if inserted then some fourth else none))
    × IsList l (if inserted then third ∷ bumped ∷ sixth ∷ [] else listed)
add-IsList_example = add-IsList pending bumped listed 10 (omega arith) pending-IsList

filter-IsList_example :
    let (removed, invalids, l) = TxList.filter pending 600 30000 in
    Perm removed (fourth ∷ []) × Perm invalids (sixth ∷ []) × IsList l (third ∷ [])
unfolding select unpayable store new_tx_list
filter-IsList_example =
    filter-IsList pending listed 600 30000 (omega arith, (omega arith, (omega arith, tt)))
      pending-IsList

remove-IsList_example :
    let (found, invalids, l) = TxList.remove pending fourth in
    (found ≡ true) × Perm invalids (sixth ∷ []) × IsList l (third ∷ [])
unfolding store new_tx_list
remove-IsList_example = remove-IsList pending listed fourth pending-IsList

run-ideal_example :
    run
      (Call.getting 7
        ∷ Call.setting 7 12
        ∷ Call.lowering 7 9
        ∷ Call.getting 7
        ∷ Call.getting 8
        ∷ [])
      (new_tx_noncer (λ a. 5))
    ≡ 5 ∷ 9 ∷ 5 ∷ []
run-ideal_example =
    run-ideal
      (Call.getting 7
        ∷ Call.setting 7 12
        ∷ Call.lowering 7 9
        ∷ Call.getting 7
        ∷ Call.getting 8
        ∷ [])
      (λ a. 5)

abbrev one_found : TxLookup
one_found = Lookup.add new_tx_lookup third

one_found-IsCounted : IsCounted one_found
unfolding Lookup.get new_tx_lookup
one_found-IsCounted = (add-IsCounted new_tx_lookup third new_tx_lookup-IsCounted refl).0
