-- ===== src/Pool/Events.antt =====
-- The events of runReorg and scheduleReorgLoop in tx_pool.go: new executable transactions, in a map
-- by nonce for each account.
use chain_master.Prelude.{Option, none, some, List, [], ◌∷◌, ◌++◌, ◌==◌, if◌then◌else◌}
use chain_master.Prelude.GoMap.{GoMap, lookup, insert}
use chain_master.Pool.Tx.{Tx}
use chain_master.Pool.SortedMap
use chain_master.Pool.SortedMap.{SortedMap, new_sorted_map}
use chain_master.Pool.Noncer
use chain_master.Pool.State.{TxPool, sender_of}

-- The map of an account, or a new one.
unfoldable pub events_of : Option SortedMap → SortedMap
events_of none = new_sorted_map
events_of (some txs) = txs

unfoldable pub put_event : GoMap SortedMap → Tx → GoMap SortedMap
put_event events tx =
    insert (sender_of tx) (SortedMap.put (events_of (lookup (sender_of tx) events)) tx) events

unfoldable pub put_events : GoMap SortedMap → List Tx → GoMap SortedMap
put_events events [] = events
put_events events (tx ∷ txs) = put_events (put_event events tx) txs

-- After a reset the events below the nonce of their account are dropped.
unfoldable pub forward_events : TxPool → GoMap SortedMap → TxPool × GoMap SortedMap
forward_events pool [] = (pool, [])
forward_events pool ((addr, txs) ∷ events) =
    let (nonce, nonces) = Noncer.get pool.pending_nonces addr in
    let (removed, txs') = SortedMap.forward txs nonce in
    let (pool', events') = forward_events (record pool { pending_nonces = nonces }) events in
    (pool', if SortedMap.size txs' == 0 then events' else (addr, txs') ∷ events')

unfoldable pub flatten_events : GoMap SortedMap → List Tx
flatten_events [] = []
flatten_events ((addr, txs) ∷ events) = (SortedMap.flatten txs).0 ++ flatten_events events

-- What is sent to the feed, if there is an event.
unfoldable pub sent_events : GoMap SortedMap → Option (List Tx)
sent_events [] = none
sent_events (event ∷ events) = some (flatten_events (event ∷ events))
