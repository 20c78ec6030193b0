-- ===== src/Pool/Consistent/Moves.antt =====
-- Transactions on their way into a list.
use chain_master.Prelude.{
  ℕ, ◌+◌, ◌≡◌, refl, ap, arith, true, false, none, some, List, [], ◌∷◌, ◌++◌, ◌%◌, u64_mod,
}
use chain_master.Prelude.GoMap.{GoMap, lookup, insert}
use chain_master.Pool.Tx.{Tx}
use chain_master.Pool.TxList
use chain_master.Pool.TxList.{TxList, store}
use chain_master.Pool.Noncer
use chain_master.Pool.Lookup
use chain_master.Pool.Lookup.{TxLookup}
use chain_master.Pool.State.{TxPool, sender_of}
use chain_master.Pool.Moves.{
  Answer, list_of, was_replaced, forget, index, index_new, enqueue_tx, enqueue_all, promote_tx,
}
use chain_master.Pool.Reorg.{remove_all, promote_all}
use chain_master.Pool.Consistent.Tally.{one, tally_lists}
use chain_master.Pool.Consistent.Indexed.{is, is_self, get-tally, remove-IsIndex}
use chain_master.Pool.Consistent.Owned.{OwnedBy}
use chain_master.Pool.Consistent.Lists.{slot, slot_self, Parts, Stored, add-Stored}

pub sender_of-owned : (a : ℕ) (tx : Tx) → tx.sender ≡ some a → sender_of tx ≡ a
unfolding sender_of
sender_of-owned a tx e = rw e refl

-- A transaction on its way is in the lookup, and no list has its slot.
module _ {transit : List Tx} {tx : Tx} {all : TxLookup} {pending queue : GoMap TxList}
    (c : Parts (tx ∷ transit) all pending queue) where
  transit-get : Lookup.get all tx.hash ≡ some tx
  transit-get = get-tally all tx c.index (omega (arith, c.placed (is tx), ap one (is_self tx)))

  transit-free :
      (a : ℕ)
      → tx.sender ≡ some a
      → (tally_lists (slot a tx.nonce) pending ≡ 0) × (tally_lists (slot a tx.nonce) queue ≡ 0)
  transit-free a e =
      let counted = c.placed (slot a tx.nonce) in
      let once = c.apart a tx.nonce in
      let here = ap one (slot_self a tx e) in
      (omega (arith, counted, once, here), omega (arith, counted, once, here))

  into_queue : {a : ℕ} {m : GoMap TxList} → Stored false a tx queue m → Parts transit all pending m
  into_queue st = record {
    index = c.index;
    pending_lists = c.pending_lists;
    pending_distinct = c.pending_distinct;
    queue_lists = st.lists;
    queue_distinct = st.distinct;
    placed = λ f. omega (arith, c.placed f, st.more f);
    apart = c.apart;
  }

  into_pending : {a : ℕ} {m : GoMap TxList} → Stored true a tx pending m → Parts transit all m queue
  into_pending st = record {
    index = c.index;
    pending_lists = st.lists;
    pending_distinct = st.distinct;
    queue_lists = c.queue_lists;
    queue_distinct = c.queue_distinct;
    placed = λ f. omega (arith, c.placed f, st.more f);
    apart = c.apart;
  }

enqueue_tx-eq :
    (p : TxPool) (tx : Tx) (a : ℕ) (l : TxList)
    → tx.sender ≡ some a
    → TxList.add (list_of false (lookup a p.queue)) tx p.config.price_bump ≡ (true, none, l)
    → Lookup.get p.all tx.hash ≡ some tx
    → enqueue_tx p tx ≡ some (record p { queue = insert a l p.queue }, Answer.accepted false)
unfolding enqueue_tx forget index_new was_replaced
enqueue_tx-eq p tx a l from e g = rw (sender_of-owned a tx from, e, g, index_new) refl

promote_tx-eq :
    (p : TxPool) (tx : Tx) (a now : ℕ) (l : TxList)
    → TxList.add (list_of true (lookup a p.pending)) tx p.config.price_bump ≡ (true, none, l)
    → Lookup.get p.all tx.hash ≡ some tx
    → promote_tx p a tx now
      ≡ some (
        record p {
          pending = insert a l p.pending;
          beats = insert a now p.beats;
          pending_nonces = Noncer.set p.pending_nonces a ((tx.nonce + 1) % u64_mod);
        },
        true,
      )
unfolding promote_tx forget index_new
promote_tx-eq p tx a now l e g = rw (e, g, index_new) refl

-- Transactions that another list gave up go to the queue: none is refused, and only the queue
-- changes.
pub enqueue_all-Parts :
    (p : TxPool) (a : ℕ) (txs transit : List Tx)
    → OwnedBy a txs
    → Parts (txs ++ transit) p.all p.pending p.queue
    → (queue : GoMap TxList) × (enqueue_all p txs ≡ some (record p { queue = queue }))
      × Parts transit p.all p.pending queue
unfolding enqueue_all
enqueue_all-Parts p a [] transit o c = (p.queue, refl, c)
enqueue_all-Parts p a (tx ∷ txs) transit o c =
    let list = list_of false (lookup a p.queue) in
    let (added, st) =
      add-Stored a p.queue c.queue_lists c.queue_distinct tx p.config.price_bump o.0 o.1
        (transit-free c a o.0).1 in
    let p' : TxPool = record p { queue = insert a (store list tx) p.queue } in
    let (queue, done, rest) = enqueue_all-Parts p' a txs transit o.2 (into_queue c st) in
    (queue, rw (enqueue_tx-eq p tx a (store list tx) o.0 added (transit-get c)) done, rest)

-- Promoted transactions go to the pending list: none is refused, and neither the lookup nor the
-- queue changes.
pub promote_all-Parts :
    (p : TxPool) (a now : ℕ) (txs transit : List Tx)
    → OwnedBy a txs
    → Parts (txs ++ transit) p.all p.pending p.queue
    → (p' : TxPool) × (promote_all p a txs now ≡ some (p', txs))
      × Parts transit p.all p'.pending p.queue
      × (p'.all ≡ p.all)
      × (p'.queue ≡ p.queue)
      × (p'.config ≡ p.config)
unfolding promote_all
promote_all-Parts p a now [] transit o c = (p, refl, c, refl, refl, refl)
promote_all-Parts p a now (tx ∷ txs) transit o c =
    let list = list_of true (lookup a p.pending) in
    let (added, st) =
      add-Stored a p.pending c.pending_lists c.pending_distinct tx p.config.price_bump o.0 o.1
        (transit-free c a o.0).0 in
    let q : TxPool = record p {
      pending = insert a (store list tx) p.pending;
      beats = insert a now p.beats;
      pending_nonces = Noncer.set p.pending_nonces a ((tx.nonce + 1) % u64_mod);
    } in
    let (p', done, rest, all, queue, config) =
      promote_all-Parts q a now txs transit o.2 (into_pending c st) in
    (
      p',
      rw (promote_tx-eq p tx a now (store list tx) added (transit-get c), done) refl,
      rest,
      all,
      queue,
      config,
    )

-- `all.Remove` on transactions on their way, which leave the pool.
pub remove_all-Parts :
    (all : TxLookup) (pending queue : GoMap TxList) (txs transit : List Tx)
    → Parts (txs ++ transit) all pending queue
    → (all' : TxLookup) × (remove_all all txs ≡ some all') × Parts transit all' pending queue
unfolding remove_all
remove_all-Parts all pending queue [] transit c = (all, refl, c)
remove_all-Parts all pending queue (tx ∷ txs) transit c =
    let (all', removed, index, fewer) = remove-IsIndex all tx.hash tx c.index (transit-get c) in
    let mid : Parts (txs ++ transit) all' pending queue = record {
      index = index;
      pending_lists = c.pending_lists;
      pending_distinct = c.pending_distinct;
      queue_lists = c.queue_lists;
      queue_distinct = c.queue_distinct;
      placed = λ f. omega (arith, c.placed f, fewer f);
      apart = λ a n. omega (arith, c.apart a n, fewer (slot a n));
    } in
    let (end, done, rest) = remove_all-Parts all' pending queue txs transit mid in
    (end, rw removed done, rest)
