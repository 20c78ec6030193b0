-- ===== src/Pool/Consistent/PutBack.antt =====
-- reset over a reorganisation: the transactions of the blocks that left the chain.
use chain_master.Prelude.{
  ◌+◌, ◌<◌, ◌≤◌, ◌≡◌, ◌≢◌, refl, ◌∙◌, arith, false, some, List, ltb, ◌==◌, u64_mod,
}
use chain_master.Core.Params.{ProtocolParams}
use chain_master.Pool.Tx.{Tx}
use chain_master.Pool.Depth.{depth}
use chain_master.Pool.State.{TxPool, HeadState}
use chain_master.Pool.Reset.{
  Chain, Block, Walk, Reinjection, walk, difference, reinjected, at_head, reset,
}
use chain_master.Pool.Walk.{IsNumbered}
use chain_master.Pool.Walk.Descent.{Descent}
use chain_master.Pool.Walk.Meets.{Meeting, walk-Meeting}
use chain_master.Pool.Consistent.Lists.{IsConsistent}
use chain_master.Pool.Consistent.Batch.{HaveWords}
use chain_master.Pool.Consistent.Renewed.{
  Offered, at_head-IsConsistent, reinject-Offered, reset-state,
}

-- The chain leaves the block `old` for the block `new`, whose parent is another one, at a depth of 64
-- at most, and `c` is an ancestor of both.
pub record IsReorg (chain : Chain) (old_head head old new c : Block) : Type 0 where
  pub other : old_head.hash ≢ head.parent_hash
  pub shallow : depth old_head.number head.number ≤ 64
  pub old_block : chain.get_block old_head.hash old_head.number ≡ some old
  pub new_block : chain.get_block head.hash head.number ≡ some new
  pub old_word : old.number < u64_mod
  pub new_word : new.number < u64_mod
  pub old_way : (txs : List Tx) × Descent chain old c txs
  pub new_way : (txs : List Tx) × Descent chain new c txs

module _ (chain : Chain) (old_head head old new : Block) where
  reinjected_lem :
      (v : Walk)
      → old_head.hash == head.parent_hash ≡ false
      → ltb 64 (depth old_head.number head.number) ≡ false
      → chain.get_block old_head.hash old_head.number ≡ some old
      → chain.get_block head.hash head.number ≡ some new
      → walk chain old new ≡ some v
      → reinjected chain (some old_head) head
        ≡ Reinjection.found (chain.tx_difference v.discarded v.included)
  unfolding reinjected difference
  reinjected_lem v e1 e2 e3 e4 e5 = rw (e1, e2, e3, e4, e5) refl

  -- On a consistent pool, where `GetBlock` returns blocks with the numbers it is asked for and none
  -- with the last number of 64 bits, the state of the new head is there, the chain leaves a block for
  -- another one with a common ancestor, at a depth of 64 at most as the code computes it, and the
  -- nonces of the difference are words: `reset` does not panic, leaves a consistent pool, and offers to
  -- `add`, on the pool at the new head, each in turn, the difference of the transactions of the blocks
  -- from the old head and from the new head down to an ancestor of both that is at least as high.
  pub reset-PutsBack :
      (params : ProtocolParams) (p : TxPool) (c : Block) (state : HeadState)
      → IsNumbered chain
      → IsReorg chain old_head head old new c
      → chain.state_at head.root ≡ some state
      → IsConsistent p
      → ((v : Walk)
          → walk chain old new ≡ some v
          → HaveWords (chain.tx_difference v.discarded v.included))
      → (v : Walk) × (q : TxPool) × Meeting chain old new c v
        × (reset chain params p (some old_head) head
            ≡ some (record q { istanbul = chain.is_istanbul (head.number + 1) }))
        × IsConsistent q
        × Offered params (at_head chain state head p) (chain.tx_difference v.discarded v.included) q
  reset-PutsBack params p c state n r there k words =
      let (v, met, end) =
        walk-Meeting chain n old new c r.old_way.0 r.new_way.0 r.old_word r.new_word r.old_way.1
          r.new_way.1 in
      let txs = chain.tx_difference v.discarded v.included in
      let other : old_head.hash == head.parent_hash ≡ false = ground (arith, r.other) in
      let shallow : ltb 64 (depth old_head.number head.number) ≡ false =
        ground (arith, r.shallow) in
      let found = reinjected_lem v other shallow r.old_block r.new_block met in
      let (q, done, k', all) =
        reinject-Offered chain params (at_head chain state head p) head txs
          (at_head-IsConsistent chain p state head k) (words v met) in
      (
        v,
        q,
        end,
        reset-state chain params p (some old_head) head txs state found there ∙ done,
        k',
        all,
      )
