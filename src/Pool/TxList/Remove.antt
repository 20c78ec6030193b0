-- ===== src/Pool/TxList/Remove.antt =====
-- Remove, of one transaction of a list.
use mathlib.Core.List.Perm
use mathlib.Core.List.{Perm}
use chain_master.Prelude.{
  ℕ, ◌≡◌, refl, inl, inr, Bool-cases, arith, Bool, true, false, some, List, [], ◌∷◌, length,
}
use chain_master.Pool.Tx.{Tx}
use chain_master.Pool.SortedMap.{SortedMap, select}
use chain_master.Pool.SortedMap.Spec.{find}
use chain_master.Pool.SortedMap.Invariant.{Represents}
use chain_master.Pool.SortedMap.Lowest.{reject}
use chain_master.Pool.SortedMap.Single.{has_nonce, is_some, remove-Represents}
use chain_master.Pool.TxList.{TxList, drop_above, remove_from, remove}
use chain_master.Pool.TxList.Cut.{first_hit}
use chain_master.Pool.TxList.Invariant.{
  IsList, Within-reject, drop_above-IsList, lost, left, lost-none, left-none,
}

first_hit-find :
    (n : ℕ) (ts : List Tx) → true ≡ is_some (find n ts) → first_hit (has_nonce n) ts ≡ some n
first_hit-find n [] e = ground arith
first_hit-find n (t ∷ ts) e = ground (arith, first_hit-find n ts)

select-find :
    (n : ℕ) (ts : List Tx) → false ≡ is_some (find n ts) → length (select (has_nonce n) ts) ≡ 0
unfolding select
select-find n [] e = refl
select-find n (t ∷ ts) e = ground (arith, select-find n ts)

remove_from-IsList :
    (l : TxList) (ts : List Tx) (n : ℕ) (found : Bool) (txs : SortedMap)
    → IsList l ts
    → found ≡ is_some (find n ts)
    → Represents txs (reject (has_nonce n) ts)
    → let (found', invalids, l') = remove_from l n found txs in
      (found' ≡ is_some (find n ts))
      × Perm invalids (lost l.strict (has_nonce n) ts)
      × IsList l' (left l.strict (has_nonce n) ts)
unfolding remove_from drop_above
remove_from-IsList l ts n false txs s e r =
    let nothing = select-find n ts e in
    rw (lost-none l.strict (has_nonce n) ts nothing, left-none l.strict (has_nonce n) ts nothing)
      (e, Perm.nil, record { txs = r; within = Within-reject (has_nonce n) _ _ ts s.within })
remove_from-IsList l ts n true txs s e r =
    let rest : IsList (record l { txs = txs }) (reject (has_nonce n) ts) = record {
      txs = r;
      within = Within-reject (has_nonce n) _ _ ts s.within;
    } in
    let (dropped, cut) =
      drop_above-IsList (has_nonce n) _ n ts s.txs.ascends (first_hit-find n ts e) rest in
    elim (Bool-cases l.strict) [
      | inl strict ↦ rw strict (e, dropped, rw strict at cut)
      | inr loose ↦ rw loose (e, Perm.nil, rw loose at rest)
    ]

-- `Remove` finds the transactions of the list by their nonce. It takes the one it finds out, and a
-- strict list loses those above it too.
pub remove-IsList :
    (l : TxList) (ts : List Tx) (tx : Tx)
    → IsList l ts
    → let (found, invalids, l') = remove l tx in
      (found ≡ is_some (find tx.nonce ts))
      × Perm invalids (lost l.strict (has_nonce tx.nonce) ts)
      × IsList l' (left l.strict (has_nonce tx.nonce) ts)
unfolding remove
remove-IsList l ts tx s =
    let (found, kept) = remove-Represents l.txs tx.nonce ts s.txs in
    remove_from-IsList l ts tx.nonce _ _ s found kept
