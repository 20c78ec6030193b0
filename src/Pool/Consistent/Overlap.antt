-- ===== src/Pool/Consistent/Overlap.antt =====
-- The part of add from a valid transaction on: it replaces a pending one or is queued.
use chain_master.Prelude.{
  ℕ, ◌<◌, ◌≡◌, refl, sym, ap, ◌∙◌, inl, inr, Bool, true, false, none, some, List, Option-cases,
  u64_mod,
}
use chain_master.Prelude.GoMap.{GoMap, lookup}
use chain_master.Pool.Tx.{Tx}
use chain_master.Pool.SortedMap
use chain_master.Pool.SortedMap.Spec.{find}
use chain_master.Pool.TxList
use chain_master.Pool.TxList.{TxList, new_tx_list}
use chain_master.Pool.Lookup
use chain_master.Pool.Lookup.{TxLookup}
use chain_master.Pool.State.{TxPool}
use chain_master.Pool.Moves.{Answer, list_of, was_replaced, enqueue_tx}
use chain_master.Pool.Admit.{overlaps_pending, replace_pending, finish_add, add_valid}
use chain_master.Pool.Consistent.Owned.{OwnList}
use chain_master.Pool.Consistent.Lists.{list_of-OwnList, IsConsistent}
use chain_master.Pool.Consistent.Moves.{sender_of-owned}
use chain_master.Pool.Consistent.Swap.{list-free}
use chain_master.Pool.Consistent.Add.{Settled, enqueue_tx-Settled}
use chain_master.Pool.Consistent.Entry.{finish_add-Settled, replace_pending-Settled}

overlaps-get :
    (l : TxList) (tx : Tx) → TxList.overlaps l tx ≡ was_replaced (lookup tx.nonce l.txs.items)
unfolding TxList.overlaps SortedMap.get was_replaced
overlaps-get l tx = elim (Option-cases (lookup tx.nonce l.txs.items)) [
  | inl absent ↦ rw (absent, TxList.overlaps) refl
  | inr (t, present) ↦ rw (present, TxList.overlaps) refl
]

list-absent :
    (a : ℕ) (m : GoMap TxList) → lookup a m ≡ none → list_of true (lookup a m) ≡ new_tx_list true
unfolding list_of
list-absent a m e = rw (e, list_of) refl

list-present :
    (a : ℕ) (m : GoMap TxList) (l : TxList) → lookup a m ≡ some l → list_of true (lookup a m) ≡ l
unfolding list_of
list-present a m l e = rw (e, list_of) refl

overlaps-find :
    (p : TxPool) (a : ℕ) (tx : Tx) (ts : List Tx)
    → OwnList true a (list_of true (lookup a p.pending)) ts
    → overlaps_pending p a tx ≡ was_replaced (find tx.nonce ts)
unfolding overlaps_pending was_replaced new_tx_list SortedMap.new_sorted_map
overlaps-find p a tx ts w =
    let at : (l : TxList)
        → lookup tx.nonce l.txs.items ≡ find tx.nonce ts
        → was_replaced (lookup tx.nonce l.txs.items) ≡ was_replaced (find tx.nonce ts) =
      λ l e. ap was_replaced e in
    let holds = w.is_list.txs.holds tx.nonce in
    elim (Option-cases (lookup a p.pending)) [
      | inl absent ↦
          rw (absent, overlaps_pending)
            (at (new_tx_list true) (
              ap (λ l. lookup tx.nonce l.txs.items) (sym (list-absent a p.pending absent)) ∙ holds))
      | inr (l, present) ↦
          rw (present, overlaps_pending)
            (overlaps-get l tx
              ∙ at l (
                  ap (λ l. lookup tx.nonce l.txs.items) (sym (list-present a p.pending l present))
                  ∙ holds))
    ]

add_valid-found :
    (p : TxPool) (tx : Tx) (a : ℕ) (local : Bool)
    → tx.sender ≡ some a
    → overlaps_pending p a tx ≡ true
    → add_valid p tx local ≡ replace_pending p a tx
unfolding add_valid
add_valid-found p tx a local from e = rw (sender_of-owned a tx from, e) refl

add_valid-queued :
    (p : TxPool) (tx : Tx) (a : ℕ) (local : Bool) (q : TxPool) (answer : Answer)
    → tx.sender ≡ some a
    → overlaps_pending p a tx ≡ false
    → enqueue_tx p tx ≡ some (q, answer)
    → add_valid p tx local ≡ some (finish_add a tx local (q, answer))
unfolding add_valid
add_valid-queued p tx a local q answer from e r = rw (sender_of-owned a tx from, e, r) refl

pub add_valid-Settled :
    (p : TxPool) (tx : Tx) (a : ℕ) (local : Bool)
    → IsConsistent p
    → Lookup.get p.all tx.hash ≡ none
    → tx.sender ≡ some a
    → tx.nonce < u64_mod
    → Settled p tx (add_valid p tx local)
unfolding was_replaced
add_valid-Settled p tx a local c new from word =
    let (ts, w, at) = list_of-OwnList true a p.pending c.pending_lists in
    let overlap = overlaps-find p a tx ts w in
    elim (Option-cases (find tx.nonce ts)) [
      | inl nobody ↦
          let free =
            list-free true a tx.nonce p.pending ts c.pending_lists c.pending_distinct w.owned at
              nobody in
          let s = enqueue_tx-Settled p tx a c new from word free in
          let f = finish_add-Settled p s.pool tx a local s.answer s.rest s.says in
          record {
            pool = f.pool;
            answer = f.answer;
            done =
                add_valid-queued p tx a local s.pool s.answer from
                  (overlap ∙ ap was_replaced nobody) s.done
                ∙ f.done;
            rest = f.rest;
            says = f.says;
          }
      | inr (old, there) ↦
          let s = replace_pending-Settled p tx old a ts c new from word w at there in
          record {
            pool = s.pool;
            answer = s.answer;
            done = add_valid-found p tx a local from (overlap ∙ ap was_replaced there) ∙ s.done;
            rest = s.rest;
            says = s.says;
          }
    ]
