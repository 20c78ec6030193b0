-- ===== src/Pool/Consistent/Kept.antt =====
-- The operations that the pool offers, on a consistent pool.
use chain_master.Prelude.{
  ℕ, ◌+◌, ◌<◌, ◌≤◌, ◌≡◌, refl, ap, ◌∙◌, inl, inr, arith, Bool, false, Option, none, some, List, [],
  ◌∷◌, Option-cases, u64_mod, length,
}
use chain_master.Prelude.GoMap.{values}
use chain_master.Core.Params.{ProtocolParams}
use chain_master.Pool.Tx.{Tx}
use chain_master.Pool.Lookup
use chain_master.Pool.Lookup.{TxLookup}
use chain_master.Pool.Accounts.{new_account_set}
use chain_master.Pool.Priced
use chain_master.Pool.State.{TxPool, PoolError}
use chain_master.Pool.Moves.{Answer, remove_tx}
use chain_master.Pool.Admit.{
  add, Added, add_txs_locked, known_errs, news, put_err, merge_errs, add_txs, set_gas_price,
}
use chain_master.Pool.Consistent.Tally.{tally}
use chain_master.Pool.Consistent.Lists.{IsConsistent}
use chain_master.Pool.Consistent.Removal.{remove_tx-Shrunk, remove_txs-Shrunk}
use chain_master.Pool.Consistent.Add.{Says}
use chain_master.Pool.Consistent.Batch.{add-Settled, HaveWords, add_loop-Consistent}

-- On a consistent pool `removeTx` does not panic. It leaves a consistent pool where the hash is
-- unknown and where no transaction is that was not there before.
pub remove_tx-IsConsistent :
    (p : TxPool) (hash : ℕ) (outofbound : Bool)
    → IsConsistent p
    → (p' : TxPool) × (remove_tx p hash outofbound ≡ some p')
      × IsConsistent p'
      × (Lookup.get p'.all hash ≡ none)
      × ((f : Tx → Bool) → tally f (values p'.all.all) ≤ tally f (values p.all.all))
remove_tx-IsConsistent p hash outofbound c =
    let (r, gone) = remove_tx-Shrunk p hash outofbound c in (r.pool, r.done, r.rest, gone, r.fewer)

-- On a consistent pool `add` of a transaction whose nonce is a word does not panic and leaves a
-- consistent pool. If the answer is no error, the hash leads to the transaction; if it is one, no
-- transaction came into the pool.
pub add-IsConsistent :
    (params : ProtocolParams) (p : TxPool) (tx : Tx) (local : Bool)
    → IsConsistent p
    → tx.nonce < u64_mod
    → (p' : TxPool) × (answer : Answer) × (add params p tx local ≡ some (p', answer))
      × IsConsistent p'
      × Says answer p.all p'.all tx
add-IsConsistent params p tx local c word =
    let s = add-Settled params p tx local c word in (s.pool, s.answer, s.done, s.rest, s.says)

-- On a consistent pool `SetGasPrice` does not panic and leaves a consistent pool.
pub set_gas_price-IsConsistent :
    (p : TxPool) (price : ℕ)
    → IsConsistent p
    → (p' : TxPool) × (set_gas_price p price ≡ some p') × IsConsistent p'
unfolding set_gas_price
set_gas_price-IsConsistent p price c =
    let (drop, priced) = Priced.cap p.priced p.all price p.locals in
    let r = remove_txs-Shrunk (record p { gas_price = price; priced = priced }) drop false c in
    (r.pool, r.done, r.rest)

-- How many slots have no error.
abbrev pub blank : List (Option PoolError) → ℕ
blank [] = 0
blank (none ∷ errs) = 1 + blank errs
blank (some e ∷ errs) = blank errs

put_err-blank :
    (e : Option PoolError) (errs : List (Option PoolError))
    → 0 < blank errs
    → (errs' : List (Option PoolError)) × (put_err e errs ≡ some errs')
      × (length errs' ≡ length errs)
      × (blank errs ≤ 1 + blank errs')
unfolding put_err
put_err-blank e [] p = absurd (omega arith)
put_err-blank none (none ∷ errs) p = (none ∷ errs, refl, refl, omega arith)
put_err-blank (some x) (none ∷ errs) p = (some x ∷ errs, refl, refl, omega arith)
put_err-blank e (some old ∷ errs) p =
    let (errs', done, count, left) = put_err-blank e errs p in
    (some old ∷ errs', rw done refl, omega (arith, count), left)

merge_errs-length :
    (new errs : List (Option PoolError))
    → length new ≤ blank errs
    → (errs' : List (Option PoolError)) × (merge_errs new errs ≡ some errs')
      × (length errs' ≡ length errs)
unfolding merge_errs
merge_errs-length [] errs p = (errs, refl, refl)
merge_errs-length (e ∷ new) errs p =
    let (mid, done, count, left) = put_err-blank e errs (omega arith) in
    let (end, rest, count') = merge_errs-length new mid (omega arith) in
    (end, rw done rest, count' ∙ count)

known_errs-blank :
    (p : TxPool) (txs : List Tx)
    → (blank (known_errs p txs) ≡ length (news p txs)) × (length (known_errs p txs) ≡ length txs)
unfolding known_errs news
known_errs-blank p [] = (refl, refl)
known_errs-blank p (tx ∷ txs) =
    let (count, all) = known_errs-blank p txs in
    elim (Option-cases (Lookup.get p.all tx.hash)) [
      | inl new ↦ rw (new, news, known_errs) (omega (arith, count), omega (arith, all))
      | inr (t, known) ↦ rw (known, news, known_errs) (count, omega (arith, all))
    ]

news-HaveWords : (p : TxPool) (txs : List Tx) → HaveWords txs → HaveWords (news p txs)
unfolding news
news-HaveWords p [] w = tt
news-HaveWords p (tx ∷ txs) w = elim (Option-cases (Lookup.get p.all tx.hash)) [
  | inl new ↦ rw (new, news) (w.0, news-HaveWords p txs w.1)
  | inr (t, known) ↦ rw (known, news) (news-HaveWords p txs w.1)
]

-- On a consistent pool `addTxsLocked` of transactions whose nonces are words does not panic; it
-- leaves a consistent pool and gives one error or nil for each transaction.
pub add_txs_locked-IsConsistent :
    (params : ProtocolParams) (p : TxPool) (txs : List Tx) (local : Bool)
    → IsConsistent p
    → HaveWords txs
    → (done : Added) × (add_txs_locked params p txs local ≡ some done)
      × IsConsistent done.pool
      × (length done.errs ≡ length txs)
unfolding add_txs_locked
add_txs_locked-IsConsistent params p txs local c w =
    add_loop-Consistent params p txs local new_account_set c w

-- The end of `addTxs`, by the transactions that are new.
add_new-IsConsistent :
    (params : ProtocolParams) (p : TxPool) (txs new : List Tx) (local : Bool)
    → IsConsistent p
    → HaveWords new
    → news p txs ≡ new
    → (done : Added) × (add_txs params p txs local ≡ some done)
      × IsConsistent done.pool
      × (length done.errs ≡ length txs)
unfolding add_txs
add_new-IsConsistent params p txs [] local c w e = (
  record { pool = p; errs = known_errs p txs; dirty = new_account_set },
  rw (e, add_txs) refl,
  c,
  (known_errs-blank p txs).1,
)
add_new-IsConsistent params p txs (tx ∷ new) local c w e =
    let (done, run, k, count) = add_txs_locked-IsConsistent params p (tx ∷ new) local c w in
    let (slots, all) = known_errs-blank p txs in
    let (errs, merged, count') =
      merge_errs-length done.errs (known_errs p txs) (omega (arith, count, slots, ap length e)) in
    (record done { errs = errs }, rw (e, add_txs, run, merged) refl, k, count' ∙ all)

-- On a consistent pool `addTxs` of transactions whose nonces are words does not panic, nor does its
-- index run out of the slots of the errors; it leaves a consistent pool and gives one error or nil
-- for each transaction.
pub add_txs-IsConsistent :
    (params : ProtocolParams) (p : TxPool) (txs : List Tx) (local : Bool)
    → IsConsistent p
    → HaveWords txs
    → (done : Added) × (add_txs params p txs local ≡ some done)
      × IsConsistent done.pool
      × (length done.errs ≡ length txs)
add_txs-IsConsistent params p txs local c w =
    add_new-IsConsistent params p txs (news p txs) local c (news-HaveWords p txs w) refl
