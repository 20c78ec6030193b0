-- ===== src/Pool/Consistent/Standing.antt =====
-- Where a transaction stands in the lists of the pool.
use chain_master.Prelude.{ℕ, ◌<◌, ◌≡◌, inl, inr, arith, Bool, some, List, [], ◌∷◌, Bool-cases, ltb}
use chain_master.Prelude.GoMap.{GoMap, lookup, values, Distinct}
use chain_master.Pool.Tx.{Tx}
use chain_master.Pool.SortedMap.Spec.{Ascends, find, find-Above}
use chain_master.Pool.TxList.{TxList}
use chain_master.Pool.Consistent.Tally.{tally, tally_lists}
use chain_master.Pool.Consistent.Indexed.{is, is-eq}
use chain_master.Pool.Consistent.Owned.{OwnedBy, OwnList, tally-items}
use chain_master.Pool.Consistent.Lists.{AllOwn}

-- A transaction that an ascending list has is found at its nonce.
find-is : (t : Tx) (ts : List Tx) → Ascends ts → 0 < tally (is t) ts → find t.nonce ts ≡ some t
find-is t [] a p = absurd (omega arith)
find-is t (u ∷ us) a p = elim (Bool-cases (is t u)) [
  | inl same ↦ ground (arith, is-eq t u same)
  | inr other ↦ ground (arith, find-is t us a.1, find-Above t.nonce u.nonce us, other)
]

pub find-owner :
    (a n : ℕ) (ts : List Tx) (t : Tx) → OwnedBy a ts → find n ts ≡ some t → t.sender ≡ some a
find-owner a n [] t o e = ground arith
find-owner a n (u ∷ us) t o e = ground (arith, o.0, find-owner a n us t o.2)

-- Where a transaction stands in the lists of a map.
pub record Standing (s : Bool) (m : GoMap TxList) (t : Tx) : Type 0 where
  pub account : ℕ
  pub from : t.sender ≡ some account
  pub list : TxList
  pub at : lookup account m ≡ some list
  pub ts : List Tx
  pub own : OwnList s account list ts
  pub found : find t.nonce ts ≡ some t

pub stand :
    (s : Bool) (m : GoMap TxList) (t : Tx)
    → AllOwn s m
    → Distinct m
    → 0 < tally_lists (is t) m
    → Standing s m t
stand s [] t o d p = absurd (omega arith)
stand s ((b, l) ∷ m) t o d p =
    let (ts, w) = o.0 in
    elim (Bool-cases (ltb 0 (tally (is t) (values l.txs.items)))) [
      | inl here ↦
          let found =
            find-is t ts w.is_list.txs.ascends (ground (arith, here, tally-items w (is t))) in
          record {
            account = b;
            from = find-owner b t.nonce ts t w.owned found;
            list = l;
            at = ground arith;
            ts = ts;
            own = w;
            found = found;
          }
      | inr later ↦
          let rest = stand s m t o.1 d.1 (ground (arith, later, p)) in
          record {
            account = rest.account;
            from = rest.from;
            list = rest.list;
            at = ground (arith, d.0, rest.at);
            ts = rest.ts;
            own = rest.own;
            found = rest.found;
          }
    ]
