-- ===== src/Pool/Consistent/Remove.antt =====
-- removeTx: a transaction leaves the lookup and its list.
use chain_master.Prelude.{
  ℕ, ◌+◌, ◌≤◌, ◌≡◌, refl, sym, ap, subst, ◌∙◌, inl, inr, arith, Bool, true, false, Option, none,
  some, List, [], ◌∷◌, ◌++◌, Bool-cases, Option-cases, ltb,
}
use chain_master.Prelude.GoMap.{GoMap, lookup, insert, delete, values, Distinct}
use chain_master.Pool.Tx.{Tx}
use chain_master.Pool.SortedMap.Spec.{find}
use chain_master.Pool.TxList
use chain_master.Pool.TxList.{TxList}
use chain_master.Pool.Noncer
use chain_master.Pool.Lookup.{TxLookup}
use chain_master.Pool.State.{TxPool, sender_of}
use chain_master.Pool.Moves.{remove_queued, remove_pending, remove_listed}
use chain_master.Pool.Reorg.{put_queue}
use chain_master.Pool.Consistent.Tally.{
  one, tally, tally_lists, tally_at, tally-append, tally_lists-lookup,
}
use chain_master.Pool.Consistent.Indexed.{IsIndex, is, is_self}
use chain_master.Pool.Consistent.Owned.{OwnList, tally-items, Split}
use chain_master.Pool.Consistent.Changes.{remove-Split, remove-missing, remove_loose}
use chain_master.Pool.Consistent.Lists.{
  AllOwn, AllOwn-lookup, slot, find-slot, Parts, IsConsistent, Gave, insert-Gave, delete-Gave,
}
use chain_master.Pool.Consistent.Moves.{enqueue_all-Parts, sender_of-owned}
use chain_master.Pool.Consistent.Compose.{Split-refl}
use chain_master.Pool.Consistent.Promote.{put_queue-Gave}
use chain_master.Pool.Consistent.Standing.{Standing, stand}

-- The lists still have a transaction that the lookup has lost.
pub record Missing (tx : Tx) (all : TxLookup) (pending queue : GoMap TxList) : Type 0 where
  pub index : IsIndex all
  pub pending_lists : AllOwn true pending
  pub pending_distinct : Distinct pending
  pub queue_lists : AllOwn false queue
  pub queue_distinct : Distinct queue
  pub placed :
      (f : Tx → Bool)
      → one (f tx) + tally f (values all.all) ≡ tally_lists f pending + tally_lists f queue
  pub apart : (a n : ℕ) → one (slot a n tx) + tally (slot a n) (values all.all) ≤ 1

module _ {tx : Tx} {all : TxLookup} {pending queue : GoMap TxList}
    (c : Missing tx all pending queue) where
  leave_pending :
      {m : GoMap TxList} (invalids : List Tx)
      → Gave true (tx ∷ invalids) pending m
      → Parts (invalids ++ []) all m queue
  leave_pending invalids g = record {
    index = c.index;
    pending_lists = g.lists;
    pending_distinct = g.distinct;
    queue_lists = c.queue_lists;
    queue_distinct = c.queue_distinct;
    placed = λ f. omega (arith, c.placed f, g.fewer f, tally-append f invalids []);
    apart = λ a n. omega (arith, c.apart a n);
  }

  leave_queue :
      {m : GoMap TxList} (invalids : List Tx)
      → ((f : Tx → Bool) → tally f invalids ≡ 0)
      → Gave false (tx ∷ invalids) queue m
      → Parts [] all pending m
  leave_queue invalids e g = record {
    index = c.index;
    pending_lists = c.pending_lists;
    pending_distinct = c.pending_distinct;
    queue_lists = g.lists;
    queue_distinct = g.distinct;
    placed = λ f. omega (arith, c.placed f, g.fewer f, e f);
    apart = λ a n. omega (arith, c.apart a n);
  }

  keep_pending : {m : GoMap TxList} → Gave true [] pending m → Missing tx all m queue
  keep_pending g = record {
    index = c.index;
    pending_lists = g.lists;
    pending_distinct = g.distinct;
    queue_lists = c.queue_lists;
    queue_distinct = c.queue_distinct;
    placed = λ f. omega (arith, c.placed f, g.fewer f);
    apart = c.apart;
  }

-- What a removal keeps true.
pub record Removed (p : TxPool) (result : Option TxPool) : Type 0 where
  pub pool : TxPool
  pub done : result ≡ some pool
  pub rest : IsConsistent pool
  pub same : pool.all ≡ p.all

remove_pending-Removed :
    (p : TxPool) (a : ℕ) (tx : Tx) (l l' : TxList) (invalids : List Tx)
    → Missing tx p.all p.pending p.queue
    → lookup a p.pending ≡ some l
    → Split true a l (tx ∷ invalids) l'
    → Removed p (remove_pending p a tx invalids l')
unfolding remove_pending
remove_pending-Removed p a tx l l' invalids c at part = elim (Bool-cases (TxList.is_empty l')) [
  | inl empty ↦
      let q : TxPool = record p { pending = delete a p.pending; beats = delete a p.beats } in
      let gave = delete-Gave c.pending_lists c.pending_distinct at part empty in
      let (queue, done, rest) =
        enqueue_all-Parts q a invalids [] part.mine.2 (leave_pending c invalids gave) in
      record {
        pool = record q {
          queue = queue;
          pending_nonces = Noncer.set_if_lower p.pending_nonces a tx.nonce;
        };
        done = rw (empty, done) refl;
        rest = rest;
        same = refl;
      }
  | inr full ↦
      let q : TxPool = record p { pending = insert a l' p.pending } in
      let gave = insert-Gave c.pending_lists c.pending_distinct at part in
      let (queue, done, rest) =
        enqueue_all-Parts q a invalids [] part.mine.2 (leave_pending c invalids gave) in
      record {
        pool = record q {
          queue = queue;
          pending_nonces = Noncer.set_if_lower p.pending_nonces a tx.nonce;
        };
        done = rw (full, done) refl;
        rest = rest;
        same = refl;
      }
]

remove_queued-Removed :
    (p : TxPool) (a : ℕ) (tx : Tx) (l : TxList) (ts : List Tx)
    → Missing tx p.all p.pending p.queue
    → lookup a p.queue ≡ some l
    → OwnList false a l ts
    → find tx.nonce ts ≡ some tx
    → Removed p (remove_queued p a tx)
unfolding remove_queued put_queue
remove_queued-Removed p a tx l ts c at w e =
    let (found, part) = remove-Split w tx tx e in
    let gave = put_queue-Gave c.queue_lists c.queue_distinct at part in
    rw (at, remove_queued)
      (record {
        pool = record p { queue = put_queue a (TxList.remove l tx).2 p.queue };
        done = refl;
        rest = leave_queue c (TxList.remove l tx).1 (λ f. remove_loose w tx f refl) gave;
        same = refl;
      })

remove_listed-found :
    (p : TxPool) (a : ℕ) (tx : Tx) (l : TxList)
    → lookup a p.pending ≡ some l
    → (TxList.remove l tx).0 ≡ true
    → remove_listed p a tx ≡ remove_pending p a tx (TxList.remove l tx).1 (TxList.remove l tx).2
unfolding remove_listed
remove_listed-found p a tx l at found = rw (at, remove_listed, found) refl

remove_listed-absent :
    (p : TxPool) (a : ℕ) (tx : Tx) (l : TxList)
    → lookup a p.pending ≡ some l
    → TxList.remove l tx ≡ (false, [], l)
    → remove_listed p a tx ≡ remove_queued (record p { pending = insert a l p.pending }) a tx
unfolding remove_listed
remove_listed-absent p a tx l at e = rw (at, remove_listed, e) refl

-- The queue has the transaction, so no pending transaction has its slot.
queued-Removed :
    (p : TxPool) (tx : Tx)
    → Missing tx p.all p.pending p.queue
    → (st : Standing false p.queue tx) → Removed p (remove_listed p st.account tx)
unfolding remove_listed
queued-Removed p tx c st = elim (Option-cases (lookup st.account p.pending)) [
  | inl absent ↦
      rw (absent, remove_listed)
        (remove_queued-Removed p st.account tx st.list st.ts c st.at st.own st.found)
  | inr (l, present) ↦
      let (ts, w) = AllOwn-lookup true st.account p.pending l c.pending_lists present in
      let f = slot st.account tx.nonce in
      let missing : find tx.nonce ts ≡ none = elim (Option-cases (find tx.nonce ts)) [
        | inl e ↦ e
        | inr (old, e) ↦ absurd (
            omega (
              arith,
              find-slot st.account tx.nonce ts old w.owned e,
              tally-items w f,
              ap (tally_at f) present,
              tally_lists-lookup f st.account p.pending,
              find-slot st.account tx.nonce st.ts tx st.own.owned st.found,
              tally-items st.own f,
              ap (tally_at f) st.at,
              tally_lists-lookup f st.account p.queue,
              c.placed f,
              c.apart st.account tx.nonce,
            ))
      ] in
      let q : TxPool = record p { pending = insert st.account l p.pending } in
      let kept =
        keep_pending c (insert-Gave c.pending_lists c.pending_distinct present (Split-refl w)) in
      let r = remove_queued-Removed q st.account tx st.list st.ts kept st.at st.own st.found in
      record {
        pool = r.pool;
        done =
            remove_listed-absent p st.account tx l present (remove-missing w tx missing) ∙ r.done;
        rest = r.rest;
        same = r.same;
      }
]

pending-Removed :
    (p : TxPool) (tx : Tx)
    → Missing tx p.all p.pending p.queue
    → (st : Standing true p.pending tx) → Removed p (remove_listed p st.account tx)
pending-Removed p tx c st =
    let (found, part) = remove-Split st.own tx tx st.found in
    subst (Removed p) (sym (remove_listed-found p st.account tx st.list st.at found))
      (remove_pending-Removed p st.account tx st.list _ _ c st.at part)

pub remove_listed-Removed :
    (p : TxPool) (tx : Tx)
    → Missing tx p.all p.pending p.queue
    → Removed p (remove_listed p (sender_of tx) tx)
remove_listed-Removed p tx c = elim (Bool-cases (ltb 0 (tally_lists (is tx) p.pending))) [
  | inl pends ↦
      let st = stand true p.pending tx c.pending_lists c.pending_distinct (ground (arith, pends)) in
      subst (λ a. Removed p (remove_listed p a tx)) (sym (sender_of-owned st.account tx st.from))
        (pending-Removed p tx c st)
  | inr not ↦
      let none_pending : tally_lists (is tx) p.pending ≡ 0 = ground (arith, not) in
      let st =
        stand false p.queue tx c.queue_lists c.queue_distinct
          (omega (arith, c.placed (is tx), ap one (is_self tx), none_pending)) in
      subst (λ a. Removed p (remove_listed p a tx)) (sym (sender_of-owned st.account tx st.from))
        (queued-Removed p tx c st)
]
