-- ===== src/Pool/Consistent/Add.antt =====
-- enqueueTx and the replacement of a pending transaction, on a transaction that is new.
use chain_master.Prelude.{
  ℕ, ◌+◌, ◌<◌, ◌≤◌, ◌≡◌, refl, ap, subst, inl, inr, arith, Bool, true, false, Option, none, some,
  [], Bool-cases, Option-cases, u64_mod,
}
use chain_master.Prelude.GoMap.{GoMap, lookup, insert, values}
use chain_master.Pool.Tx.{Tx}
use chain_master.Pool.SortedMap.Spec.{find}
use chain_master.Pool.TxList
use chain_master.Pool.TxList.{TxList, store}
use chain_master.Pool.Lookup
use chain_master.Pool.Lookup.{TxLookup, add-IsCounted}
use chain_master.Pool.State.{TxPool, PoolError}
use chain_master.Pool.Moves.{
  Answer, list_of, was_replaced, removed_priced, forget, index, index_new, enqueue_tx,
}
use chain_master.Pool.Consistent.Tally.{one, tally, tally_lists}
use chain_master.Pool.Consistent.Indexed.{IsIndex, is, add-IsIndex}
use chain_master.Pool.Consistent.Changes.{add-old}
use chain_master.Pool.Consistent.Lists.{
  list_of-OwnList, slot, Parts, IsConsistent, Stored, add-Stored,
}
use chain_master.Pool.Consistent.Moves.{sender_of-owned}
use chain_master.Pool.Consistent.Swap.{
  Replaced, store-Replaced, list-Gave, list-free, Swapped, all-Swapped,
}

-- What an answer says of the lookup before and after the call.
abbrev pub Says : Answer → TxLookup → TxLookup → Tx → Type 0
Says (Answer.refused e) before after tx =
    (f : Tx → Bool) → tally f (values after.all) ≤ tally f (values before.all)
Says (Answer.accepted replaced) before after tx = Lookup.get after tx.hash ≡ some tx

-- A call on the pool `p` that ends in a consistent pool, with a true answer.
pub record Settled (p : TxPool) (tx : Tx) (result : Option (TxPool × Answer)) : Type 0 where
  pub pool : TxPool
  pub answer : Answer
  pub done : result ≡ some (pool, answer)
  pub rest : IsConsistent pool
  pub says : Says answer p.all pool.all tx

pub add-get :
    (all : TxLookup) (tx : Tx)
    → IsIndex all
    → Lookup.get all tx.hash ≡ none
    → Lookup.get (Lookup.add all tx) tx.hash ≡ some tx
add-get all tx x e = rw ((add-IsCounted all tx x.counts e).1 tx.hash) (ground arith)

slot-own :
    (b n a : ℕ) (tx : Tx) → tx.sender ≡ some a → slot b n tx ≡ true → (a ≡ b) × (tx.nonce ≡ n)
unfolding slot
slot-own b n a tx from e = ground (arith, from, e)

-- A transaction whose slot is free comes apart from the others.
pub fresh-apart :
    {all : TxLookup} {pending queue : GoMap TxList} (a : ℕ) (tx : Tx)
    → Parts [] all pending queue
    → tx.sender ≡ some a
    → tally_lists (slot a tx.nonce) pending ≡ 0
    → tally_lists (slot a tx.nonce) queue ≡ 0
    → (b n : ℕ) → one (slot b n tx) + tally (slot b n) (values all.all) ≤ 1
fresh-apart {all} {pending} {queue} a tx c from pe qe b n = elim (Bool-cases (slot b n tx)) [
  | inr other ↦ omega (arith, ap one other, c.apart b n)
  | inl mine ↦
      let (at, nonce) = slot-own b n a tx from mine in
      let here : tally (slot b n) (values all.all) ≡ 0 =
        subst (λ k. tally (slot b k) (values all.all) ≡ 0) nonce
          (subst (λ k. tally (slot k tx.nonce) (values all.all) ≡ 0) at
            (omega (arith, c.placed (slot a tx.nonce), pe, qe))) in
      omega (arith, ap one mine, here)
]

module _ {all : TxLookup} {pending queue : GoMap TxList} (c : Parts [] all pending queue) where
  pub queue-fresh :
      {m : GoMap TxList} (a : ℕ) (tx : Tx)
      → Lookup.get all tx.hash ≡ none
      → tx.sender ≡ some a
      → tally_lists (slot a tx.nonce) pending ≡ 0
      → tally_lists (slot a tx.nonce) queue ≡ 0
      → Stored false a tx queue m
      → Parts [] (Lookup.add all tx) pending m
  queue-fresh a tx new from pe qe st =
      let (index, more) = add-IsIndex all tx c.index new in
      record {
        index = index;
        pending_lists = c.pending_lists;
        pending_distinct = c.pending_distinct;
        queue_lists = st.lists;
        queue_distinct = st.distinct;
        placed = λ f. omega (arith, c.placed f, st.more f, more f);
        apart = λ b n. omega (arith, more (slot b n), fresh-apart a tx c from pe qe b n);
      }

  queue-swap :
      {m : GoMap TxList} {a : ℕ} {tx old : Tx}
      → Replaced false a tx old queue m
      → (w : Swapped tx old all) → Parts [] (Lookup.add w.left tx) pending m
  queue-swap r w = record {
    index = w.index;
    pending_lists = c.pending_lists;
    pending_distinct = c.pending_distinct;
    queue_lists = r.lists;
    queue_distinct = r.distinct;
    placed = λ f. omega (arith, c.placed f, r.swapped f, w.swapped f);
    apart = λ b n. omega (arith, c.apart b n, w.swapped (slot b n), ap one (r.same_slot b n));
  }

  pub pending-swap :
      {m : GoMap TxList} {a : ℕ} {tx old : Tx}
      → Replaced true a tx old pending m
      → (w : Swapped tx old all) → Parts [] (Lookup.add w.left tx) m queue
  pending-swap r w = record {
    index = w.index;
    pending_lists = r.lists;
    pending_distinct = r.distinct;
    queue_lists = c.queue_lists;
    queue_distinct = c.queue_distinct;
    placed = λ f. omega (arith, c.placed f, r.swapped f, w.swapped f);
    apart = λ b n. omega (arith, c.apart b n, w.swapped (slot b n), ap one (r.same_slot b n));
  }

enqueue-fresh :
    (p : TxPool) (tx : Tx) (a : ℕ) (l : TxList)
    → tx.sender ≡ some a
    → TxList.add (list_of false (lookup a p.queue)) tx p.config.price_bump ≡ (true, none, l)
    → Lookup.get p.all tx.hash ≡ none
    → enqueue_tx p tx
      ≡ some (index tx (record p { queue = insert a l p.queue }), Answer.accepted false)
unfolding enqueue_tx forget index_new was_replaced
enqueue-fresh p tx a l from e g = rw (sender_of-owned a tx from, e, g, index_new) refl

enqueue-refused :
    (p : TxPool) (tx : Tx) (a : ℕ) (l : TxList)
    → tx.sender ≡ some a
    → TxList.add (list_of false (lookup a p.queue)) tx p.config.price_bump ≡ (false, none, l)
    → enqueue_tx p tx
      ≡ some (record p { queue = insert a l p.queue }, Answer.refused PoolError.replace_underpriced)
unfolding enqueue_tx
enqueue-refused p tx a l from e = rw (sender_of-owned a tx from, e) refl

enqueue-replaced :
    (p : TxPool) (tx old : Tx) (a : ℕ) (l : TxList) (all : TxLookup)
    → tx.sender ≡ some a
    → TxList.add (list_of false (lookup a p.queue)) tx p.config.price_bump ≡ (true, some old, l)
    → Lookup.remove p.all old.hash ≡ some all
    → Lookup.get all tx.hash ≡ none
    → enqueue_tx p tx
      ≡ some (
        index tx (removed_priced 1 (record p { queue = insert a l p.queue; all = all })),
        Answer.accepted true,
      )
unfolding enqueue_tx forget index_new was_replaced removed_priced
enqueue-replaced p tx old a l all from e r g =
    rw (sender_of-owned a tx from, e, r, g, index_new) refl

-- `enqueueTx` of a new transaction without a pending one in its slot.
pub enqueue_tx-Settled :
    (p : TxPool) (tx : Tx) (a : ℕ)
    → IsConsistent p
    → Lookup.get p.all tx.hash ≡ none
    → tx.sender ≡ some a
    → tx.nonce < u64_mod
    → tally_lists (slot a tx.nonce) p.pending ≡ 0
    → Settled p tx (enqueue_tx p tx)
unfolding index removed_priced
enqueue_tx-Settled p tx a c new from word free =
    let (ts, w, at) = list_of-OwnList false a p.queue c.queue_lists in
    let list = list_of false (lookup a p.queue) in
    elim (Option-cases (find tx.nonce ts)) [
      | inl nobody ↦
          let qe =
            list-free false a tx.nonce p.queue ts c.queue_lists c.queue_distinct w.owned at
              nobody in
          let (added, st) =
            add-Stored a p.queue c.queue_lists c.queue_distinct tx p.config.price_bump from word
              qe in
          record {
            pool = index tx (record p { queue = insert a (store list tx) p.queue });
            answer = Answer.accepted false;
            done = enqueue-fresh p tx a (store list tx) from added new;
            rest = queue-fresh c a tx new from free qe st;
            says = add-get p.all tx c.index new;
          }
      | inr (old, there) ↦ elim (add-old w tx old p.config.price_bump there) [
        | inl refused ↦
            let g = list-Gave a p.queue c.queue_lists c.queue_distinct in
            record {
              pool = record p { queue = insert a list p.queue };
              answer = Answer.refused PoolError.replace_underpriced;
              done = enqueue-refused p tx a list from refused;
              rest = record {
                index = c.index;
                pending_lists = c.pending_lists;
                pending_distinct = c.pending_distinct;
                queue_lists = g.lists;
                queue_distinct = g.distinct;
                placed = λ f. omega (arith, c.placed f, g.fewer f);
                apart = c.apart;
              };
              says = λ f. omega arith;
            }
        | inr taken ↦
            let r =
              store-Replaced a p.queue c.queue_lists c.queue_distinct tx old ts w at from word
                there in
            let s =
              all-Swapped tx old p.all c.index (omega (arith, r.present, c.placed (is old))) new in
            let m = insert a (store list tx) p.queue in
            record {
              pool = index tx (removed_priced 1 (record p { queue = m; all = s.left }));
              answer = Answer.accepted true;
              done = enqueue-replaced p tx old a (store list tx) s.left from taken s.removed s.new;
              rest = queue-swap c r s;
              says = add-get s.left tx s.kept s.new;
            }
      ]
    ]
