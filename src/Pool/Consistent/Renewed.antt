-- ===== src/Pool/Consistent/Renewed.antt =====
-- reset on a consistent pool.
use chain_master.Prelude.{◌+◌, ◌≡◌, refl, false, Option, none, some, List, [], ◌∷◌}
use chain_master.Core.Params.{ProtocolParams}
use chain_master.Pool.Tx.{Tx}
use chain_master.Pool.Accounts.{AccountSet, new_account_set}
use chain_master.Pool.State.{TxPool, HeadState}
use chain_master.Pool.Moves.{Answer}
use chain_master.Pool.Admit.{add, error_of, mark_dirty, Added, add_loop, add_txs_locked}
use chain_master.Pool.Reset.{Chain, Block, Reinjection, reinjected, at_head, reinject, reset}
use chain_master.Pool.Consistent.Lists.{IsConsistent}
use chain_master.Pool.Consistent.Batch.{HaveWords}
use chain_master.Pool.Consistent.Add.{Says}
use chain_master.Pool.Consistent.Kept.{add-IsConsistent}

-- `add` was called on the transactions in order, and each answer was true of the lookup.
pub data Offered (params : ProtocolParams) : TxPool → List Tx → TxPool → Type 0 where
  all_offered : (p : TxPool) → Offered params p [] p
  offer :
      (p mid q : TxPool) (tx : Tx) (txs : List Tx) (answer : Answer)
      → add params p tx false ≡ some (mid, answer)
      → Says answer p.all mid.all tx
      → Offered params mid txs q
      → Offered params p (tx ∷ txs) q

add_loop-Offered :
    (params : ProtocolParams) (p : TxPool) (txs : List Tx) (dirty : AccountSet)
    → IsConsistent p
    → HaveWords txs
    → (done : Added) × (add_loop params p txs false dirty ≡ some done)
      × IsConsistent done.pool
      × Offered params p txs done.pool
unfolding add_loop
add_loop-Offered params p [] dirty c w =
    (record { pool = p; errs = []; dirty = dirty }, refl, c, Offered.all_offered p)
add_loop-Offered params p (tx ∷ txs) dirty c (word, words) =
    let (mid, answer, run, k, says) = add-IsConsistent params p tx false c word in
    let (done, rest, end, later) =
      add_loop-Offered params mid txs (mark_dirty answer tx dirty) k words in
    (
      record done { errs = error_of answer ∷ done.errs },
      rw (run, rest) refl,
      end,
      Offered.offer p mid done.pool tx txs answer run says later,
    )

module _ (chain : Chain) where
  -- What `reset` does to a pool: nothing, where it returns early or the state is missing; else it takes
  -- the state, the nonces and the gas limit of the new head, offers the transactions to `add`, and sets
  -- the rules of the next block.
  pub data Renewal (params : ProtocolParams) (p : TxPool) (old_head : Option Block) (head : Block)
      (p' : TxPool) : Type 0 where
    skipped :
        reinjected chain old_head head ≡ Reinjection.returned
        → p' ≡ p
        → Renewal params p old_head head p'
    stateless : chain.state_at head.root ≡ none → p' ≡ p → Renewal params p old_head head p'
    renewed :
        (txs : List Tx) (state : HeadState) (q : TxPool)
        → reinjected chain old_head head ≡ Reinjection.found txs
        → chain.state_at head.root ≡ some state
        → Offered params (at_head chain state head p) txs q
        → p' ≡ record q { istanbul = chain.is_istanbul (head.number + 1) }
        → Renewal params p old_head head p'

  pub reset-state :
      (params : ProtocolParams) (p : TxPool) (old_head : Option Block) (new_head : Block)
      (txs : List Tx) (state : HeadState)
      → reinjected chain old_head new_head ≡ Reinjection.found txs
      → chain.state_at new_head.root ≡ some state
      → reset chain params p old_head new_head
        ≡ reinject chain params (at_head chain state new_head p) new_head txs
  unfolding reset
  reset-state params p old_head new_head txs state e there = rw (reset, e, there) refl

  pub at_head-IsConsistent :
      (p : TxPool) (state : HeadState) (head : Block)
      → IsConsistent p
      → IsConsistent (at_head chain state head p)
  unfolding at_head
  at_head-IsConsistent p state head c = c

  pub reinject-Offered :
      (params : ProtocolParams) (p : TxPool) (head : Block) (txs : List Tx)
      → IsConsistent p
      → HaveWords txs
      → (q : TxPool) × (reinject chain params p head txs
          ≡ some (record q { istanbul = chain.is_istanbul (head.number + 1) }))
        × IsConsistent q
        × Offered params p txs q
  unfolding reinject add_txs_locked
  reinject-Offered params p head txs c w =
      let (done, run, k, all) = add_loop-Offered params p txs new_account_set c w in
      (done.pool, rw run refl, k, all)
