-- ===== src/Pool/TxList/Add.antt =====
-- Add, with the price bump of a replacement.
use chain_master.Prelude.{
  ℕ, ◌+◌, ◌*◌, ◌<◌, ◌≡◌, refl, sym, ◌∙◌, inl, inr, Bool-cases, Option-cases, arith, Bool, true, not,
  ◌&&◌, Option, none, some, List, ltb, if◌then◌else◌,
}
use chain_master.Prelude.GoMap.{lookup}
use chain_master.Pool.Tx.{Tx}
use chain_master.Pool.SortedMap
use chain_master.Pool.SortedMap.{SortedMap, select}
use chain_master.Pool.SortedMap.Spec.{find, upsert}
use chain_master.Pool.SortedMap.Invariant.{put-Represents}
use chain_master.Pool.TxList.{TxList, bump_factor, bump_threshold, is_too_cheap, store, add}
use chain_master.Pool.TxList.Invariant.{IsList, Within-le, Within-upsert}

-- A price that a replacement may not have: one that is not above the old price, or one below the
-- old price raised by so many percent and rounded down.
abbrev pub is_bumped : ℕ → Tx → Tx → Bool
is_bumped price_bump old tx =
    ltb old.gas_price tx.gas_price
    && ltb (old.gas_price * (100 + price_bump)) (100 * (tx.gas_price + 1))

-- What `Add` accepts beside the transactions of the list.
abbrev pub accepts : Option Tx → Tx → ℕ → Bool
accepts none tx price_bump = true
accepts (some old) tx price_bump = is_bumped price_bump old tx

too_cheap-bumped :
    (old tx : Tx) (price_bump : ℕ)
    → price_bump + 100 < 9223372036854775808
    → is_too_cheap old tx price_bump ≡ not (is_bumped price_bump old tx)
unfolding is_too_cheap bump_threshold bump_factor
too_cheap-bumped old tx price_bump h = grind arith

pub store-IsList :
    (l : TxList) (tx : Tx) (ts : List Tx) → IsList l ts → IsList (store l tx) (upsert tx ts)
unfolding store
store-IsList l tx ts s = record {
  txs = put-Represents l.txs tx ts s.txs;
  within =
      Within-upsert _ _ tx ts (ground arith) (ground arith)
        (Within-le l.costcap _ l.gascap _ ts (ground arith) (ground arith) s.within);
}

-- `Add` takes a transaction whose nonce is new, or whose price is above that of the one with its
-- nonce by the bump, and puts it in that one's place, which it returns; it refuses any other and
-- changes nothing. The bump is a percentage that fits a signed word.
pub add-IsList :
    (l : TxList) (tx : Tx) (ts : List Tx) (price_bump : ℕ)
    → price_bump + 100 < 9223372036854775808
    → IsList l ts
    → let (inserted, old, l') = add l tx price_bump in
      (inserted ≡ accepts (find tx.nonce ts) tx price_bump)
      × (old ≡ (if inserted then find tx.nonce ts else none))
      × IsList l' (if inserted then upsert tx ts else ts)
unfolding add SortedMap.get
add-IsList l tx ts price_bump h s = elim (Option-cases (lookup tx.nonce l.txs.items)) [
  | inl absent ↦
      let fresh : find tx.nonce ts ≡ none = sym (s.txs.holds tx.nonce) ∙ absent in
      rw (absent, add, fresh) (refl, refl, store-IsList l tx ts s)
  | inr (old, present) ↦
      let there : find tx.nonce ts ≡ some old = sym (s.txs.holds tx.nonce) ∙ present in
      rw (present, add, there, too_cheap-bumped old tx price_bump h)
        (elim (Bool-cases (is_bumped price_bump old tx)) [
          | inl good ↦ rw good (refl, refl, store-IsList l tx ts s)
          | inr bad ↦ rw bad (refl, refl, s)
        ])
]
