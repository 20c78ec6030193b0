-- ===== src/Pool/Consistent/Entry.antt =====
-- add, as a whole, and the loop over a batch.
use chain_master.Prelude.{
  ℕ, ◌<◌, ◌≡◌, refl, sym, subst, ◌∙◌, inl, inr, arith, Bool, true, false, ◌&&◌, not, none, some,
  List, [], ◌∷◌, ◌++◌, Bool-cases, Option-cases, u64_mod,
}
use chain_master.Prelude.GoMap.{lookup, insert}
use chain_master.Pool.Tx.{Tx}
use chain_master.Pool.SortedMap.Spec.{find}
use chain_master.Pool.TxList
use chain_master.Pool.TxList.{TxList, store}
use chain_master.Pool.Lookup
use chain_master.Pool.Lookup.{TxLookup}
use chain_master.Pool.Accounts.{AccountSet}
use chain_master.Pool.Accounts
use chain_master.Pool.State.{TxPool, PoolError}
use chain_master.Pool.Moves.{
  Answer, list_of, was_replaced, removed_priced, forget, index, journal_tx,
}
use chain_master.Pool.Admit.{replace_pending, mark_local, finish_add}
use chain_master.Pool.Consistent.Tally.{tally, tally_at}
use chain_master.Pool.Consistent.Indexed.{is}
use chain_master.Pool.Consistent.Owned.{OwnList}
use chain_master.Pool.Consistent.Changes.{add-old}
use chain_master.Pool.Consistent.Lists.{IsConsistent}
use chain_master.Pool.Consistent.Swap.{store-Replaced, list-Gave, all-Swapped}
use chain_master.Pool.Consistent.Add.{Says, Settled, add-get, pending-swap}

-- Journalling changes neither the lookup nor the lists.
journal_tx-Settled :
    (from : ℕ) (tx : Tx) (p : TxPool)
    → IsConsistent p
    → IsConsistent (journal_tx from tx p) × ((journal_tx from tx p).all ≡ p.all)
unfolding journal_tx
journal_tx-Settled from tx p c = elim (Option-cases p.journal) [
  | inl off ↦ rw (off, journal_tx) (c, refl)
  | inr (txs, on) ↦ elim (Bool-cases (Accounts.contains p.locals from)) [
    | inl local ↦ rw (on, journal_tx, local) (c, refl)
    | inr remote ↦ rw (on, journal_tx, remote) (c, refl)
  ]
]

mark_local-all :
    (from : ℕ) (local : Bool) (p : TxPool)
    → IsConsistent p
    → IsConsistent (mark_local from local p) × ((mark_local from local p).all ≡ p.all)
unfolding mark_local
mark_local-all from local p c = elim (Bool-cases (local && not (Accounts.contains p.locals from))) [
  | inl new ↦ rw new (c, refl)
  | inr old ↦ rw old (c, refl)
]

Says-all :
    (answer : Answer) (before after after' : TxLookup) (tx : Tx)
    → after' ≡ after
    → Says answer before after tx
    → Says answer before after' tx
Says-all answer before after after' tx e s = subst (λ l. Says answer before l tx) (sym e) s

pub finish_add-Settled :
    (p q : TxPool) (tx : Tx) (from : ℕ) (local : Bool) (answer : Answer)
    → IsConsistent q
    → Says answer p.all q.all tx
    → Settled p tx (some (finish_add from tx local (q, answer)))
unfolding finish_add
finish_add-Settled p q tx from local (Answer.refused e) c s = record {
  pool = q;
  answer = Answer.refused e;
  done = refl;
  rest = c;
  says = s;
}
finish_add-Settled p q tx from local (Answer.accepted replaced) c s =
    let (k, same) = mark_local-all from local q c in
    let (rest, same') = journal_tx-Settled from tx (mark_local from local q) k in
    record {
      pool = journal_tx from tx (mark_local from local q);
      answer = Answer.accepted replaced;
      done = refl;
      rest = rest;
      says = Says-all (Answer.accepted replaced) p.all q.all _ tx (same' ∙ same) s;
    }

replace-refused :
    (p : TxPool) (tx : Tx) (a : ℕ) (l : TxList)
    → TxList.add (list_of true (lookup a p.pending)) tx p.config.price_bump ≡ (false, none, l)
    → replace_pending p a tx
      ≡ some (
        record p { pending = insert a l p.pending },
        Answer.refused PoolError.replace_underpriced,
      )
unfolding replace_pending
replace-refused p tx a l e = rw e refl

replace-done :
    (p : TxPool) (tx old : Tx) (a : ℕ) (l : TxList) (all : TxLookup)
    → TxList.add (list_of true (lookup a p.pending)) tx p.config.price_bump ≡ (true, some old, l)
    → Lookup.remove p.all old.hash ≡ some all
    → let done =
        journal_tx a tx
          (index tx (removed_priced 1 (record p { pending = insert a l p.pending; all = all }))) in
      replace_pending p a tx
      ≡ some (record done { events = done.events ++ tx ∷ [] }, Answer.accepted true)
unfolding replace_pending forget was_replaced removed_priced
replace-done p tx old a l all e r = rw (e, r) refl

-- The replacement of a pending transaction by a new one.
pub replace_pending-Settled :
    (p : TxPool) (tx old : Tx) (a : ℕ) (ts : List Tx)
    → IsConsistent p
    → Lookup.get p.all tx.hash ≡ none
    → tx.sender ≡ some a
    → tx.nonce < u64_mod
    → (w : OwnList true a (list_of true (lookup a p.pending)) ts)
    → ((f : Tx → Bool) → tally f ts ≡ tally_at f (lookup a p.pending))
    → find tx.nonce ts ≡ some old
    → Settled p tx (replace_pending p a tx)
unfolding index removed_priced
replace_pending-Settled p tx old a ts c new from word w at there =
    let list = list_of true (lookup a p.pending) in
    elim (add-old w tx old p.config.price_bump there) [
      | inl refused ↦
          let g = list-Gave a p.pending c.pending_lists c.pending_distinct in
          record {
            pool = record p { pending = insert a list p.pending };
            answer = Answer.refused PoolError.replace_underpriced;
            done = replace-refused p tx a list refused;
            rest = record {
              index = c.index;
              pending_lists = g.lists;
              pending_distinct = g.distinct;
              queue_lists = c.queue_lists;
              queue_distinct = c.queue_distinct;
              placed = λ f. omega (arith, c.placed f, g.fewer f);
              apart = c.apart;
            };
            says = λ f. omega arith;
          }
      | inr taken ↦
          let r =
            store-Replaced a p.pending c.pending_lists c.pending_distinct tx old ts w at from word
              there in
          let s =
            all-Swapped tx old p.all c.index (omega (arith, r.present, c.placed (is old))) new in
          let m = insert a (store list tx) p.pending in
          let q : TxPool = index tx (removed_priced 1 (record p { pending = m; all = s.left })) in
          let (rest, same) = journal_tx-Settled a tx q (pending-swap c r s) in
          let done : TxPool = journal_tx a tx q in
          record {
            pool = record done { events = done.events ++ tx ∷ [] };
            answer = Answer.accepted true;
            done = replace-done p tx old a (store list tx) s.left taken s.removed;
            rest = rest;
            says =
                Says-all (Answer.accepted true) p.all q.all _ tx same
                  (add-get s.left tx s.kept s.new);
          }
    ]
