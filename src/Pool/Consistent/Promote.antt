-- ===== src/Pool/Consistent/Promote.antt =====
-- Promotion: the executable transactions of the queue become pending.
use mathlib.Core.Path.{subst₂}
use chain_master.Prelude.{
  ℕ, ◌+◌, ◌≤◌, ◌≡◌, refl, sym, ap, subst, ◌∙◌, inl, inr, arith, Bool, true, false, some, List, [],
  ◌∷◌, ◌++◌, Bool-cases, Option-cases, length,
}
use chain_master.Prelude.GoMap.{GoMap, lookup, insert, Distinct, lookup-insert}
use chain_master.Pool.Tx.{Tx}
use chain_master.Pool.TxList
use chain_master.Pool.TxList.{TxList}
use chain_master.Pool.Noncer
use chain_master.Pool.Lookup.{TxLookup}
use chain_master.Pool.Accounts
use chain_master.Pool.State.{PoolConfig, TxPool}
use chain_master.Pool.Moves.{removed_priced}
use chain_master.Pool.Reorg.{
  int_max, remove_all, promote_all, put_queue, queue_caps, cap_queue, promote_list, promote_account,
  promote_executables,
}
use chain_master.Pool.Consistent.Tally.{tally-append}
use chain_master.Pool.Consistent.Owned.{OwnList, Split, forward-Split, ready-Split, cap-Split}
use chain_master.Pool.Consistent.Changes.{filter-Split, filter_loose}
use chain_master.Pool.Consistent.Lists.{
  AllOwn, AllOwn-lookup, Parts, IsConsistent, Gave, insert-Gave, delete-Gave,
}
use chain_master.Pool.Consistent.Moves.{promote_all-Parts, remove_all-Parts}
use chain_master.Pool.Consistent.Compose.{Split-refl, Split-trans, Parts-cong, queue-Gave}

pub put_queue-Gave :
    {a : ℕ} {m : GoMap TxList} {l l' : TxList} {out : List Tx}
    → AllOwn false m
    → Distinct m
    → lookup a m ≡ some l
    → Split false a l out l'
    → Gave false out m (put_queue a l' m)
unfolding put_queue
put_queue-Gave {l' = l'} o d at p = elim (Bool-cases (TxList.is_empty l')) [
  | inl empty ↦ rw empty (delete-Gave o d at p empty)
  | inr full ↦ rw full (insert-Gave o d at p)
]

queue_caps-Split :
    (local : Bool) (a n : ℕ) (l : TxList) (ts : List Tx)
    → n ≤ int_max
    → OwnList false a l ts
    → (r : List Tx × TxList) × (queue_caps local l n ≡ some r) × Split false a l r.0 r.1
unfolding queue_caps
queue_caps-Split true a n l ts small w = (([], l), refl, Split-refl w)
queue_caps-Split false a n l ts small w = (TxList.cap l n, ground (arith, small), cap-Split w n)

cap_queue-IsConsistent :
    (p : TxPool) (a gone : ℕ) (l : TxList) (ts : List Tx)
    → p.config.account_queue ≤ int_max
    → OwnList false a l ts
    → lookup a p.queue ≡ some l
    → IsConsistent p
    → (p' : TxPool) × (cap_queue p a l gone ≡ some p') × IsConsistent p' × (p'.config ≡ p.config)
unfolding cap_queue removed_priced
cap_queue-IsConsistent p a gone l ts small w at c =
    let local = Accounts.contains p.locals a in
    let ((caps, l'), cut, part) = queue_caps-Split local a p.config.account_queue l ts small w in
    let left = put_queue-Gave c.queue_lists c.queue_distinct at part in
    let away = queue-Gave [] caps c left in
    let (all, done, rest) = remove_all-Parts p.all p.pending _ caps [] away in
    let q : TxPool = removed_priced (gone + length caps) (record p { all = all }) in
    (record q { queue = put_queue a l' q.queue }, rw (cut, done) refl, rest, refl)

lookup-insert_self : (a : ℕ) (l : TxList) (m : GoMap TxList) → lookup a (insert a l m) ≡ some l
lookup-insert_self a l m = ground (arith, lookup-insert a a l m)

-- The parts of a promotion, put together.
promote_list-eq :
    (p : TxPool) (a now : ℕ) (l : TxList) (all1 all2 : TxLookup) (q p' : TxPool)
    (promoted : List Tx)
    → let (forwards, l1) = TxList.forward l (p.state.nonce a) in
      let (drops, invalids, l2) = TxList.filter l1 (p.state.balance a) p.max_gas in
      let (start, nonces) = Noncer.get p.pending_nonces a in
      let (readies, l3) = TxList.ready l2 start in
      (remove_all p.all forwards ≡ some all1)
      → (remove_all all1 drops ≡ some all2)
      → (promote_all
            (record p { all = all2; pending_nonces = nonces; queue = insert a l3 p.queue })
            a
            readies
            now
          ≡ some (q, promoted))
      → (cap_queue q a l3 (length forwards + length drops) ≡ some p')
      → promote_list p a l now ≡ some (p', promoted)
unfolding promote_list
promote_list-eq p a now l all1 all2 q p' promoted e1 e2 e3 e4 = rw (e1, e2, e3, e4) refl

promote_list-IsConsistent :
    (p : TxPool) (a now : ℕ) (l : TxList) (ts : List Tx)
    → p.config.account_queue ≤ int_max
    → OwnList false a l ts
    → lookup a p.queue ≡ some l
    → IsConsistent p
    → (r : TxPool × List Tx) × (promote_list p a l now ≡ some r)
      × IsConsistent r.0
      × (r.0.config ≡ p.config)
promote_list-IsConsistent p a now l ts small w at c =
    let first = forward-Split w (p.state.nonce a) in
    let forwards = (TxList.forward l (p.state.nonce a)).0 in
    let l1 = (TxList.forward l (p.state.nonce a)).1 in
    let second = filter-Split first.kept (p.state.balance a) p.max_gas in
    let drops = (TxList.filter l1 (p.state.balance a) p.max_gas).0 in
    let invalids = (TxList.filter l1 (p.state.balance a) p.max_gas).1 in
    let l2 = (TxList.filter l1 (p.state.balance a) p.max_gas).2 in
    let start = (Noncer.get p.pending_nonces a).0 in
    let third = ready-Split second.kept start in
    let readies = (TxList.ready l2 start).0 in
    let l3 = (TxList.ready l2 start).1 in
    let away = queue-Gave [] _ c (
      insert-Gave c.queue_lists c.queue_distinct at
        (Split-trans first (Split-trans second third))) in
    let away' =
      Parts-cong _ (forwards ++ (drops ++ (readies ++ [])))
        (λ f. omega (
          arith,
          filter_loose first.kept (p.state.balance a) p.max_gas f refl,
          tally-append f (forwards ++ ((drops ++ invalids) ++ readies)) [],
          tally-append f forwards ((drops ++ invalids) ++ readies),
          tally-append f (drops ++ invalids) readies,
          tally-append f drops invalids,
          tally-append f forwards (drops ++ (readies ++ [])),
          tally-append f drops (readies ++ []),
          tally-append f readies [],
        ))
        away in
    let (all1, done1, c1) = remove_all-Parts p.all p.pending _ forwards _ away' in
    let (all2, done2, c2) = remove_all-Parts all1 p.pending _ drops _ c1 in
    let (q, done3, c3, same_all, same_queue, same_config) =
      promote_all-Parts
        (record p {
          all = all2;
          pending_nonces = (Noncer.get p.pending_nonces a).1;
          queue = insert a l3 p.queue;
        })
        a now readies [] third.mine c2 in
    let here : lookup a q.queue ≡ some l3 =
      ap (lookup a) same_queue ∙ lookup-insert_self a l3 p.queue in
    let resting : IsConsistent q =
      subst₂ (λ all queue. Parts [] all q.pending queue) (sym same_all) (sym same_queue) c3 in
    let (p', done4, c4, kept) =
      cap_queue-IsConsistent q a (length forwards + length drops) l3 third.rest
        (subst (λ (d : PoolConfig). d.account_queue ≤ int_max) (sym same_config) small) third.kept
        here resting in
    (
      (p', readies),
      promote_list-eq p a now l all1 all2 q p' readies done1 done2 done3 done4,
      c4,
      kept ∙ same_config,
    )

promote_account-IsConsistent :
    (p : TxPool) (a now : ℕ)
    → p.config.account_queue ≤ int_max
    → IsConsistent p
    → (r : TxPool × List Tx) × (promote_account p a now ≡ some r)
      × IsConsistent r.0
      × (r.0.config ≡ p.config)
unfolding promote_account
promote_account-IsConsistent p a now small c = elim (Option-cases (lookup a p.queue)) [
  | inl absent ↦ rw (absent, promote_account) ((p, []), refl, c, refl)
  | inr (l, present) ↦
      let (ts, w) = AllOwn-lookup false a p.queue l c.queue_lists present in
      rw (present, promote_account) (promote_list-IsConsistent p a now l ts small w present c)
]

-- On a consistent pool whose `AccountQueue` is an `int`, `promoteExecutables` does not panic and
-- leaves a consistent pool.
pub promote_executables-IsConsistent :
    (p : TxPool) (addrs : List ℕ) (now : ℕ)
    → p.config.account_queue ≤ int_max
    → IsConsistent p
    → (r : TxPool × List Tx) × (promote_executables p addrs now ≡ some r) × IsConsistent r.0
unfolding promote_executables
promote_executables-IsConsistent p [] now small c = ((p, []), refl, c)
promote_executables-IsConsistent p (a ∷ addrs) now small c =
    let (r, done, mid, same) = promote_account-IsConsistent p a now small c in
    let small' : r.0.config.account_queue ≤ int_max =
      subst (λ (d : PoolConfig). d.account_queue ≤ int_max) (sym same) small in
    let (s, rest, end) = promote_executables-IsConsistent r.0 addrs now small' mid in
    ((s.0, r.1 ++ s.1), rw (done, rest) refl, end)
