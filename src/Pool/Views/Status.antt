-- ===== src/Pool/Views/Status.antt =====
-- Status on a consistent pool.
use chain_master.Prelude.{
  ℕ, ◌≡◌, refl, ap, ◌∙◌, inl, inr, ◌⊎◌, arith, Bool, true, false, some, ltb, if◌then◌else◌,
  Bool-cases,
}
use chain_master.Prelude.GoMap.{GoMap, lookup}
use chain_master.Pool.Tx.{Tx}
use chain_master.Pool.TxList.{TxList}
use chain_master.Pool.Lookup
use chain_master.Pool.State.{TxPool, sender_of}
use chain_master.Pool.Views.{TxStatus, has_nonce_at, status_of}
use chain_master.Pool.Consistent.Tally.{tally_lists}
use chain_master.Pool.Consistent.Indexed.{is, tally-get}
use chain_master.Pool.Consistent.Lists.{IsConsistent}
use chain_master.Pool.Consistent.Moves.{sender_of-owned}
use chain_master.Pool.Consistent.Standing.{Standing, stand}

held-found :
    (m : GoMap TxList) (a n : ℕ) (l : TxList) (tx : Tx)
    → lookup a m ≡ some l
    → lookup n l.txs.items ≡ some tx
    → has_nonce_at (lookup a m) n ≡ true
unfolding has_nonce_at
held-found m a n l tx at held = rw (at, has_nonce_at, held) refl

-- A transaction that stands in a list is found there by its sender and nonce.
Standing-found :
    (s : Bool) (m : GoMap TxList) (tx : Tx)
    → Standing s m tx
    → has_nonce_at (lookup (sender_of tx) m) tx.nonce ≡ true
Standing-found s m tx st =
    ap (λ a. has_nonce_at (lookup a m) tx.nonce) (sender_of-owned st.account tx st.from)
    ∙ held-found m st.account tx.nonce st.list tx st.at
        (st.own.is_list.txs.holds tx.nonce ∙ st.found)

status_of-found :
    (p : TxPool) (hash : ℕ) (tx : Tx)
    → Lookup.get p.all hash ≡ some tx
    → status_of p hash ≡ (
        if has_nonce_at (lookup (sender_of tx) p.pending) tx.nonce
        then TxStatus.pending
        else if has_nonce_at (lookup (sender_of tx) p.queue) tx.nonce
        then TxStatus.queued
        else TxStatus.unknown)
unfolding status_of
status_of-found p hash tx e = rw (status_of, e) refl

-- On a consistent pool `Status` knows every transaction of the lookup: it says that one is pending
-- or queued.
pub status_of_lem :
    (p : TxPool) (hash : ℕ) (tx : Tx)
    → IsConsistent p
    → Lookup.get p.all hash ≡ some tx
    → (status_of p hash ≡ TxStatus.pending) ⊎ (status_of p hash ≡ TxStatus.queued)
status_of_lem p hash tx c e =
    elim (Bool-cases (has_nonce_at (lookup (sender_of tx) p.pending) tx.nonce)) [
      | inl here ↦ inl (status_of-found p hash tx e ∙ rw here refl)
      | inr not ↦ elim (Bool-cases (ltb 0 (tally_lists (is tx) p.pending))) [
        | inl counted ↦
            let st =
              stand true p.pending tx c.pending_lists c.pending_distinct
                (ground (arith, counted)) in
            absurd (ground (arith, Standing-found true p.pending tx st, not))
        | inr gone ↦
            let free : tally_lists (is tx) p.pending ≡ 0 = ground (arith, gone) in
            let st =
              stand false p.queue tx c.queue_lists c.queue_distinct
                (omega (arith, tally-get p.all hash tx e, c.placed (is tx), free)) in
            inr (status_of-found p hash tx e ∙ rw (not, Standing-found false p.queue tx st) refl)
      ]
    ]
