-- ===== src/Pool/Walk/Descent.antt =====
-- From a block down to an ancestor, with the transactions on the way.
use chain_master.Prelude.{
  ◌+◌, ◌-◌, ◌%◌, ◌<◌, ◌≤◌, ◌≡◌, refl, sym, ap, ◌∙◌, inl, inr, ◌⊎◌, arith, some, List, [], ◌++◌,
  u64_mod,
}
use mathlib.Core.List.{append_assoc, append-nil}
use chain_master.Pool.Tx.{Tx}
use chain_master.Pool.Reset.{Chain, Block}
use chain_master.Pool.Walk.{IsNumbered, below-number}

-- `GetBlock` leads from the block `a` by parent hashes to `c`, and the blocks from `a` to before `c`
-- have the transactions.
pub data Descent (chain : Chain) : Block → Block → List Tx → Type 0 where
  here : (a : Block) → Descent chain a a []
  down :
      (a b c : Block) (txs all : List Tx)
      → chain.get_block a.parent_hash ((a.number + u64_mod - 1) % u64_mod) ≡ some b
      → Descent chain b c txs
      → all ≡ a.txs ++ txs
      → Descent chain a c all

module _ (chain : Chain) where
  pub Descent-snoc :
      (a b c : Block) (txs : List Tx)
      → Descent chain a b txs
      → chain.get_block b.parent_hash ((b.number + u64_mod - 1) % u64_mod) ≡ some c
      → Descent chain a c (txs ++ b.txs)
  Descent-snoc _ _ c _ (Descent.here a) at =
      Descent.down a c c [] a.txs at (Descent.here c) (sym (append-nil a.txs))
  Descent-snoc _ _ c _ (Descent.down a e b txs all first rest e') at =
      Descent.down a e c (txs ++ b.txs) (all ++ b.txs) first (Descent-snoc e b c txs rest at)
        (ap (λ l. l ++ b.txs) e' ∙ append_assoc a.txs txs b.txs)

  -- The first step of a descent, where there is one.
  pub Descent-cases :
      (a c : Block) (txs : List Tx)
      → Descent chain a c txs
      → (a ≡ c)
        ⊎ ((b : Block) × (rest : List Tx) × (chain.get_block a.parent_hash
                ((a.number + u64_mod - 1) % u64_mod)
              ≡ some b)
            × Descent chain b c rest)
  Descent-cases _ _ _ (Descent.here a) = inl refl
  Descent-cases _ _ _ (Descent.down a b c txs all at rest e) = inr (b, txs, at, rest)

  pub Descent-le :
      (n : IsNumbered chain) (a c : Block) (txs : List Tx)
      → a.number < u64_mod
      → Descent chain a c txs
      → c.number ≤ a.number
  Descent-le n _ _ _ small (Descent.here a) = omega arith
  Descent-le n _ _ _ small (Descent.down a b c txs all at rest e) =
      let level = below-number chain n a.parent_hash a.number b small at in
      omega (arith, level, Descent-le n b c txs (omega (arith, level, small)) rest)
