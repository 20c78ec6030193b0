-- ===== src/Pool/Valid.antt =====
-- validateTx and sanitize, against what they promise.
use chain_master.Prelude.{
  ℕ, ◌<◌, ◌≤◌, ◌≡◌, refl, sym, ap, ◌∙◌, inl, inr, arith, Bool, true, false, ◌||◌, none, some, ltb,
  leb, if◌then◌else◌, Bool-cases, Option-cases, u64_mod,
}
use chain_master.Core.Run.{Error, ok, err}
use chain_master.Core.Params.{ProtocolParams, IsValid}
use chain_master.Core.Intrinsic
use chain_master.Core.Intrinsic.{ideal_gas, intrinsic_gas-exact}
use chain_master.Pool.Tx.{Tx}
use chain_master.Pool.Accounts
use chain_master.Pool.State.{
  PoolConfig, default_config, sanitize, TxPool, check_intrinsic, validate_from, validate_tx,
}

-- What a transaction of `from` needs to enter the pool. The price is of no matter for a local one.
pub record MayEnter (p : ProtocolParams) (pool : TxPool) (tx : Tx) (local : Bool) (from : ℕ)
    : Type 0 where
  pub signed : tx.sender ≡ some from
  pub small : tx.size ≤ 131072
  pub worth : tx.is_negative ≡ false
  pub fits : tx.gas ≤ pool.max_gas
  pub priced : local || Accounts.contains pool.locals from || leb pool.gas_price tx.gas_price ≡ true
  pub new : pool.state.nonce from ≤ tx.nonce
  pub funded : tx.cost ≤ pool.state.balance from
  pub bounded : ideal_gas p tx.payload tx.creation true pool.istanbul < u64_mod
  pub enough : ideal_gas p tx.payload tx.creation true pool.istanbul ≤ tx.gas

check_within :
    (tx : Tx) (g : ℕ)
    → check_intrinsic tx (if ltb g u64_mod then ok g else err Error.gas_uint_overflow) ≡ none
    → (g < u64_mod) × (g ≤ tx.gas)
unfolding check_intrinsic
check_within tx g e = elim (Bool-cases (ltb g u64_mod)) [
  | inl bounded ↦ ground (arith, e, bounded)
  | inr over ↦ absurd (ground (arith, e, over))
]

module _ (p : ProtocolParams) (v : IsValid p) (pool : TxPool) (tx : Tx) (local : Bool)
    (from : ℕ) where
  validate_from_sound :
      validate_from p pool tx local from ≡ none
      → (local || Accounts.contains pool.locals from || leb pool.gas_price tx.gas_price ≡ true)
        × (pool.state.nonce from ≤ tx.nonce)
        × (tx.cost ≤ pool.state.balance from)
        × (check_intrinsic tx (Intrinsic.intrinsic_gas p tx.payload tx.creation true pool.istanbul)
            ≡ none)
  unfolding validate_from
  validate_from_sound e = ground (arith, e)

  validate_tx-from :
      tx.sender ≡ some from
      → validate_tx p pool tx local ≡ none
      → (tx.size ≤ 131072)
        × (tx.is_negative ≡ false)
        × (tx.gas ≤ pool.max_gas)
        × (validate_from p pool tx local from ≡ none)
  unfolding validate_tx
  validate_tx-from signed e = ground (arith, e, signed)

  valid-MayEnter :
      tx.sender ≡ some from → validate_tx p pool tx local ≡ none → MayEnter p pool tx local from
  valid-MayEnter signed e =
      let (small, worth, fits, rest) = validate_tx-from signed e in
      let (priced, new, funded, gas) = validate_from_sound rest in
      let (bounded, enough) = check_within tx _ (
        ap (check_intrinsic tx)
          (sym (intrinsic_gas-exact p v tx.payload tx.creation true pool.istanbul))
        ∙ gas) in
      record {
        signed = signed;
        small = small;
        worth = worth;
        fits = fits;
        priced = priced;
        new = new;
        funded = funded;
        bounded = bounded;
        enough = enough;
      }

module _ (p : ProtocolParams) (v : IsValid p) (pool : TxPool) (tx : Tx) where
  -- For valid constants, a transaction that `validateTx` accepts may enter the pool.
  pub validate_tx_sound :
      (local : Bool)
      → validate_tx p pool tx local ≡ none
      → (from : ℕ) × MayEnter p pool tx local from
  unfolding validate_tx
  validate_tx_sound local e = elim (Option-cases tx.sender) [
    | inl nobody ↦ absurd (ground (arith, e, nobody))
    | inr (from, signed) ↦ (from, valid-MayEnter p v pool tx local from signed e)
  ]

  -- For valid constants, a transaction that may enter the pool is accepted by `validateTx`.
  pub validate_tx_complete :
      (local : Bool) (from : ℕ) → MayEnter p pool tx local from → validate_tx p pool tx local ≡ none
  unfolding validate_tx validate_from check_intrinsic
  validate_tx_complete local from m = ground (
    arith,
    m.signed,
    m.small,
    m.worth,
    m.fits,
    m.priced,
    m.new,
    m.funded,
    m.bounded,
    m.enough,
    intrinsic_gas-exact p v tx.payload tx.creation true pool.istanbul,
  )

-- A configuration that the pool can run with.
pub record IsWorkable (c : PoolConfig) : Type 0 where
  pub rejournal : 1000000000 ≤ c.rejournal
  pub price_limit : 1 ≤ c.price_limit
  pub price_bump : 1 ≤ c.price_bump
  pub account_slots : 1 ≤ c.account_slots
  pub global_slots : 1 ≤ c.global_slots
  pub account_queue : 1 ≤ c.account_queue
  pub global_queue : 1 ≤ c.global_queue
  pub lifetime : 1 ≤ c.lifetime

sanitize-IsWorkable : (c : PoolConfig) → IsWorkable (sanitize c)
unfolding sanitize
sanitize-IsWorkable c = record {
  rejournal = ground arith;
  price_limit = ground arith;
  price_bump = ground arith;
  account_slots = ground arith;
  global_slots = ground arith;
  account_queue = ground arith;
  global_queue = ground arith;
  lifetime = ground arith;
}

large_enough : (least n d : ℕ) → least ≤ n → (if ltb n least then d else n) ≡ n
large_enough least n d h = ground (arith, h)

sanitize_workable : (c : PoolConfig) → IsWorkable c → sanitize c ≡ c
unfolding sanitize
sanitize_workable c w =
    rw
      (
        large_enough 1000000000 c.rejournal 1000000000 w.rejournal,
        large_enough 1 c.price_limit default_config.price_limit w.price_limit,
        large_enough 1 c.price_bump default_config.price_bump w.price_bump,
        large_enough 1 c.account_slots default_config.account_slots w.account_slots,
        large_enough 1 c.global_slots default_config.global_slots w.global_slots,
        large_enough 1 c.account_queue default_config.account_queue w.account_queue,
        large_enough 1 c.global_queue default_config.global_queue w.global_queue,
        large_enough 1 c.lifetime default_config.lifetime w.lifetime,
      )
      refl

-- `sanitize` makes any configuration workable, and does it once.
pub sanitize_lem : (c : PoolConfig) → IsWorkable (sanitize c) × (sanitize (sanitize c) ≡ sanitize c)
sanitize_lem c = (sanitize-IsWorkable c, sanitize_workable (sanitize c) (sanitize-IsWorkable c))
