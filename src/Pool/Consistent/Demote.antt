-- ===== src/Pool/Consistent/Demote.antt =====
-- Demotion: pending transactions that can no longer run go back to the queue or leave the pool.
use chain_master.Prelude.{
  ℕ, ◌+◌, ◌≡◌, refl, inl, inr, arith, true, Option, none, some, List, [], ◌∷◌, ◌++◌, Bool-cases,
  Option-cases, length, ltb,
}
use chain_master.Prelude.GoMap.{GoMap, lookup, insert, lookup-insert, keys}
use chain_master.Pool.Tx.{Tx}
use chain_master.Pool.SortedMap
use chain_master.Pool.TxList
use chain_master.Pool.TxList.{TxList}
use chain_master.Pool.Lookup.{TxLookup}
use chain_master.Pool.State.{TxPool}
use chain_master.Pool.Moves.{removed_priced, enqueue_all}
use chain_master.Pool.Reorg.{
  remove_all, delete_empty, gapped_part, demote_gapped, demote_list, demote_account, demote_loop,
  demote_unexecutables,
}
use chain_master.Pool.Consistent.Tally.{tally-append}
use chain_master.Pool.Consistent.Owned.{OwnedBy, OwnList, Split, forward-Split, cap-Split}
use chain_master.Pool.Consistent.Changes.{filter-Split}
use chain_master.Pool.Consistent.Lists.{AllOwn-lookup, IsConsistent, insert-Gave, delete-Gave}
use chain_master.Pool.Consistent.Moves.{enqueue_all-Parts, remove_all-Parts}
use chain_master.Pool.Consistent.Compose.{Split-refl, Split-trans, Parts-cong, pending-Gave}

OwnedBy-second : (a : ℕ) (xs ys : List Tx) → OwnedBy a (xs ++ ys) → OwnedBy a ys
OwnedBy-second a [] ys o = o
OwnedBy-second a (x ∷ xs) ys o = OwnedBy-second a xs ys o.2

lookup-insert_self : (a : ℕ) (l : TxList) (m : GoMap TxList) → lookup a (insert a l m) ≡ some l
lookup-insert_self a l m = ground (arith, lookup-insert a a l m)

gapped_part-Split :
    (a : ℕ) (l : TxList) (ts : List Tx) (found : Option Tx)
    → OwnList true a l ts
    → Split true a l (gapped_part l found).0 (gapped_part l found).1
unfolding gapped_part
gapped_part-Split a l ts (some t) w = Split-refl w
gapped_part-Split a l ts none w = elim (Bool-cases (ltb 0 (TxList.size l))) [
  | inl full ↦ rw full (cap-Split w 0)
  | inr empty ↦ rw empty (Split-refl w)
]

delete_empty-IsConsistent :
    (p : TxPool) (a : ℕ) (l : TxList) (ts : List Tx)
    → OwnList true a l ts
    → lookup a p.pending ≡ some l
    → IsConsistent p
    → IsConsistent (delete_empty a l p)
unfolding delete_empty
delete_empty-IsConsistent p a l ts w at c = elim (Bool-cases (TxList.is_empty l)) [
  | inl empty ↦ rw empty (
      pending-Gave [] [] c (delete-Gave c.pending_lists c.pending_distinct at (Split-refl w) empty))
  | inr full ↦ rw full c
]

demote_gapped-IsConsistent :
    (p : TxPool) (a n : ℕ) (l : TxList) (ts : List Tx)
    → OwnList true a l ts
    → lookup a p.pending ≡ some l
    → IsConsistent p
    → (p' : TxPool) × (demote_gapped p a l n ≡ some p') × IsConsistent p'
unfolding demote_gapped
demote_gapped-IsConsistent p a n l ts w at c =
    let part = gapped_part-Split a l ts (SortedMap.get l.txs n) w in
    let gapped = (gapped_part l (SortedMap.get l.txs n)).0 in
    let l' = (gapped_part l (SortedMap.get l.txs n)).1 in
    let away = pending-Gave [] gapped c (insert-Gave c.pending_lists c.pending_distinct at part) in
    let q : TxPool = record p { pending = insert a l' p.pending } in
    let (queue, done, rest) = enqueue_all-Parts q a gapped [] part.mine away in
    let end : TxPool = record q { queue = queue } in
    (
      delete_empty a l' end,
      rw done refl,
      delete_empty-IsConsistent end a l' part.rest part.kept (lookup-insert_self a l' p.pending)
          rest,
    )

demote_list-eq :
    (p : TxPool) (a : ℕ) (l : TxList) (all1 all2 : TxLookup) (q p' : TxPool)
    → let nonce = p.state.nonce a in
      let (olds, l1) = TxList.forward l nonce in
      let (drops, invalids, l2) = TxList.filter l1 (p.state.balance a) p.max_gas in
      (remove_all p.all olds ≡ some all1)
      → (remove_all all1 drops ≡ some all2)
      → (enqueue_all
            (removed_priced
              (length olds + length drops)
              (record p { all = all2; pending = insert a l2 p.pending }))
            invalids
          ≡ some q)
      → (demote_gapped q a l2 nonce ≡ some p')
      → demote_list p a l ≡ some p'
unfolding demote_list
demote_list-eq p a l all1 all2 q p' e1 e2 e3 e4 = rw (e1, e2, e3, e4) refl

demote_list-IsConsistent :
    (p : TxPool) (a : ℕ) (l : TxList) (ts : List Tx)
    → OwnList true a l ts
    → lookup a p.pending ≡ some l
    → IsConsistent p
    → (p' : TxPool) × (demote_list p a l ≡ some p') × IsConsistent p'
unfolding removed_priced
demote_list-IsConsistent p a l ts w at c =
    let first = forward-Split w (p.state.nonce a) in
    let olds = (TxList.forward l (p.state.nonce a)).0 in
    let l1 = (TxList.forward l (p.state.nonce a)).1 in
    let second = filter-Split first.kept (p.state.balance a) p.max_gas in
    let drops = (TxList.filter l1 (p.state.balance a) p.max_gas).0 in
    let invalids = (TxList.filter l1 (p.state.balance a) p.max_gas).1 in
    let l2 = (TxList.filter l1 (p.state.balance a) p.max_gas).2 in
    let away =
      pending-Gave [] _ c
        (insert-Gave c.pending_lists c.pending_distinct at (Split-trans first second)) in
    let away' =
      Parts-cong _ (olds ++ (drops ++ (invalids ++ [])))
        (λ f. omega (
          arith,
          tally-append f (olds ++ (drops ++ invalids)) [],
          tally-append f olds (drops ++ invalids),
          tally-append f drops invalids,
          tally-append f olds (drops ++ (invalids ++ [])),
          tally-append f drops (invalids ++ []),
          tally-append f invalids [],
        ))
        away in
    let (all1, done1, c1) = remove_all-Parts p.all _ p.queue olds _ away' in
    let (all2, done2, c2) = remove_all-Parts all1 _ p.queue drops _ c1 in
    let q : TxPool =
      removed_priced (length olds + length drops)
        (record p { all = all2; pending = insert a l2 p.pending }) in
    let (queue, done3, c3) =
      enqueue_all-Parts q a invalids [] (OwnedBy-second a drops invalids second.mine) c2 in
    let end : TxPool = record q { queue = queue } in
    let (p', done4, c4) =
      demote_gapped-IsConsistent end a (p.state.nonce a) l2 second.rest second.kept
        (lookup-insert_self a l2 p.pending) c3 in
    (p', demote_list-eq p a l all1 all2 end p' done1 done2 done3 done4, c4)

demote_account-IsConsistent :
    (p : TxPool) (a : ℕ)
    → IsConsistent p
    → (p' : TxPool) × (demote_account p a ≡ some p') × IsConsistent p'
unfolding demote_account
demote_account-IsConsistent p a c = elim (Option-cases (lookup a p.pending)) [
  | inl absent ↦ rw (absent, demote_account) (p, refl, c)
  | inr (l, present) ↦
      let (ts, w) = AllOwn-lookup true a p.pending l c.pending_lists present in
      rw (present, demote_account) (demote_list-IsConsistent p a l ts w present c)
]

demote_loop-IsConsistent :
    (p : TxPool) (addrs : List ℕ)
    → IsConsistent p
    → (p' : TxPool) × (demote_loop p addrs ≡ some p') × IsConsistent p'
unfolding demote_loop
demote_loop-IsConsistent p [] c = (p, refl, c)
demote_loop-IsConsistent p (a ∷ addrs) c =
    let (q, done, mid) = demote_account-IsConsistent p a c in
    let (p', rest, end) = demote_loop-IsConsistent q addrs mid in (p', rw done rest, end)

-- On a consistent pool `demoteUnexecutables` does not panic and leaves a consistent pool.
pub demote_unexecutables-IsConsistent :
    (p : TxPool)
    → IsConsistent p
    → (p' : TxPool) × (demote_unexecutables p ≡ some p') × IsConsistent p'
unfolding demote_unexecutables
demote_unexecutables-IsConsistent p c = demote_loop-IsConsistent p (keys p.pending) c
