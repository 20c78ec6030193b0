-- ===== src/Core/Processor/Gas.antt =====
-- The gas of a block.
use chain_master.Prelude.{
  ℕ, ◌+◌, ◌≤◌, ◌<◌, ◌≡◌, refl, arith, some, List, [], ◌∷◌, u64_mod, length, All, Option-cases, inl,
  inr,
}
use chain_master.Core.Run.{Run, ok, err, panic, >>=-eq-ok}
use chain_master.Core.Params.{ProtocolParams}
use chain_master.Core.GasPool.{add_gas}
use chain_master.Core.World.{World, WorldLaws}
use chain_master.Core.Transition.{Message, ExecutionResult, StateTransition, apply_message}
use chain_master.Core.Transition.Gas.{apply_message-Settled}
use chain_master.Core.Processor.{
  BlockContext, Receipt, BlockState, receipt_of, finish, apply_transaction, process_from, process,
}

-- Each receipt carries the gas of its own transaction and the sum so far.
abbrev pub Cumulative : {L : Type 0} → ℕ → List (Receipt L) → ℕ → Type 0
Cumulative used [] total = used ≡ total
Cumulative used (r ∷ rs) total =
    (r.cumulative_gas_used ≡ used + r.gas_used) × Cumulative r.cumulative_gas_used rs total

module _ (w : World) (laws : WorldLaws w) (p : ProtocolParams) (c : BlockContext w) where
  -- The message of a transaction has a gas limit of 64 bits.
  abbrev pub IsWord : c.Tx → Type 0
  IsWord tx = (msg : Message) → c.as_message tx ≡ some msg → msg.gas < u64_mod

  record Applied (b b' : BlockState w) (r : Receipt c.Log) : Type 0 where
    pool : b'.gp + b'.used_gas ≡ b.gp + b.used_gas
    own : r.cumulative_gas_used ≡ b.used_gas + r.gas_used
    shared : b'.used_gas ≡ r.cumulative_gas_used

  finish-Applied :
      (tx : c.Tx) (msg : Message) (b b' : BlockState w) (r : Receipt c.Log)
      (run : Run ExecutionResult × StateTransition w)
      → msg.gas < u64_mod
      → b.gp + b.used_gas < u64_mod
      → apply_message w p msg b.gp b.state ≡ run
      → finish w p c tx msg b.used_gas run ≡ ok (r, b')
      → Applied b b' r
  unfolding finish receipt_of
  finish-Applied tx msg b b' r (ok result, end) word h e f =
      let t = apply_message-Settled w p msg word laws b.gp b.state result end (omega arith) e in
      let pool = t.pool in
      record { pool = ground (arith, pool); own = ground (arith, pool); shared = ground arith }
  finish-Applied tx msg b b' r (err x, end) word h e f = ground arith
  finish-Applied tx msg b b' r (panic, end) word h e f = ground arith

  apply_transaction-Applied :
      (tx : c.Tx) (b b' : BlockState w) (r : Receipt c.Log)
      → IsWord tx
      → b.gp + b.used_gas < u64_mod
      → apply_transaction w p c tx b ≡ ok (r, b')
      → Applied b b' r
  unfolding apply_transaction
  apply_transaction-Applied tx b b' r word h e = elim (Option-cases (c.as_message tx)) [
    | inl bad ↦ ground arith
    | inr (msg, good) ↦
        finish-Applied tx msg b b' r _ (word msg good) h refl (rw (good, apply_transaction) at e)
  ]

  -- Inversion of the loop.
  process_from-cons :
      (tx : c.Tx) (txs : List c.Tx) (i : ℕ) (b end : BlockState w) (rs : List (Receipt c.Log))
      → process_from w p c (tx ∷ txs) i b ≡ ok (rs, end)
      → (r : Receipt c.Log) × (mid : BlockState w) × (rest : List (Receipt c.Log))
        × (apply_transaction w p c tx (record b { state = c.prepare b.state tx i }) ≡ ok (r, mid))
        × (process_from w p c txs (i + 1) mid ≡ ok (rest, end))
        × (rs ≡ r ∷ rest)
  unfolding process_from
  process_from-cons tx txs i b end rs e =
      let ((r, mid), e1, f1) =
        >>=-eq-ok (apply_transaction w p c tx (record b { state = c.prepare b.state tx i })) _ e in
      let ((rest, end'), e2, f2) = >>=-eq-ok (process_from w p c txs (i + 1) mid) _ f1 in
      (r, mid, rest, e1, ground arith, ground arith)

  process_from-gas :
      (txs : List c.Tx) (i : ℕ) (b end : BlockState w) (rs : List (Receipt c.Log))
      → All IsWord txs
      → b.gp + b.used_gas < u64_mod
      → process_from w p c txs i b ≡ ok (rs, end)
      → (end.gp + end.used_gas ≡ b.gp + b.used_gas)
        × Cumulative b.used_gas rs end.used_gas
        × (length rs ≡ length txs)
  unfolding process_from
  process_from-gas [] i b end rs word h e =
      let same : (rs ≡ []) × (end ≡ b) = ground arith in rw same.0 (rw same.1 (refl, refl, refl))
  process_from-gas (tx ∷ txs) i b end rs word h e =
      let (r, mid, rest, e1, e2, shape) = process_from-cons tx txs i b end rs e in
      let a = apply_transaction-Applied tx _ mid r word.0 h e1 in
      let (pool, chain, count) =
        process_from-gas txs (i + 1) mid end rest word.1 (omega (arith, a.pool)) e2 in
      rw shape (omega (arith, a.pool), (a.own, rw a.shared at chain), omega arith)

  -- In a block with a gas limit of 64 bits, whose messages have gas limits of 64 bits, `Process`
  -- that succeeds reports no more gas than the limit, one receipt for each transaction, and in the
  -- receipts the running sum of the gas of each transaction, which ends in the reported gas.
  pub process-gas :
      (gas_limit : ℕ) (txs : List c.Tx) (s end : w.State) (rs : List (Receipt c.Log))
      (logs : List c.Log) (used : ℕ)
      → gas_limit < u64_mod
      → All IsWord txs
      → process w p c gas_limit txs s ≡ ok (rs, logs, used, end)
      → (used ≤ gas_limit) × (length rs ≡ length txs) × Cumulative 0 rs used
  unfolding process add_gas
  process-gas gas_limit txs s end rs logs used h word e =
      let (gp, e0, f0) = >>=-eq-ok (add_gas 0 gas_limit) _ e in
      let ((rs', b), e1, f1) = >>=-eq-ok (process_from w p c txs 0 _) _ f0 in
      let gp_eq : gp ≡ gas_limit = ground arith in
      let (pool, chain, count) = process_from-gas txs 0 _ b rs' word (omega arith) e1 in
      let same : (rs' ≡ rs) × (b.used_gas ≡ used) = ground arith in
      rw (← same.0) (rw (← same.1) (omega arith, count, chain))
