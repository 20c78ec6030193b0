-- ===== src/Pool/Consistent/Changes.antt =====
-- The operations of a list that add a transaction to it, or take some out with those above them.
use chain_master.Prelude.{
  ℕ, ◌+◌, ◌<◌, ◌≤◌, ◌≡◌, refl, ap, ◌∙◌, inl, inr, ◌⊎◌, arith, Bool, true, false, none, some, List,
  [], ◌∷◌, ◌++◌, Bool-cases, u64_mod,
}
use chain_master.Prelude.GoMap.{lookup, values}
use chain_master.Pool.Tx.{Tx}
use chain_master.Pool.SortedMap
use chain_master.Pool.SortedMap.{select}
use chain_master.Pool.SortedMap.Spec.{find, upsert, Ascends, Above}
use chain_master.Pool.TxList
use chain_master.Pool.TxList.{TxList, new_tx_list, store, is_too_cheap, unpayable}
use chain_master.Pool.TxList.Invariant.{lost, left}
use chain_master.Pool.TxList.Add.{store-IsList}
use chain_master.Pool.TxList.Filter.{filter-IsList}
use chain_master.Pool.TxList.Remove.{remove-IsList}
use chain_master.Pool.Consistent.Tally.{
  one, tally, tally_old, tally-perm, tally-select, tally-until, tally-upsert,
}
use chain_master.Pool.Consistent.Owned.{
  OwnList, tally-items, OwnedBy-AreWords, OwnedBy-upsert, Split, split,
}
use chain_master.Pool.SortedMap.Single.{has_nonce, is_some}
use chain_master.Pool.Consistent.Tally.{tally-append}
use chain_master.Pool.TxList.{drop_above, filter_txs, remove_from}

strict-lost :
    (f g : Tx → Bool) (strict : Bool) (ts : List Tx)
    → tally f ts ≡ tally f (select g ts) + tally f (lost strict g ts) + tally f (left strict g ts)
strict-lost f g false ts = omega (arith, tally-select f g ts)
strict-lost f g true ts = tally-until f g ts

select-none :
    (g : Tx → Bool) (b k : ℕ) (us : List Tx)
    → Above b us
    → k ≤ b
    → tally g (select (has_nonce k) us) ≡ 0
unfolding select
select-none g b k [] above h = refl
select-none g b k (u ∷ us) above h = ground (arith, select-none g b k us above.1 h)

select-find :
    (f : Tx → Bool) (n : ℕ) (ts : List Tx) (t : Tx)
    → Ascends ts
    → find n ts ≡ some t
    → tally f (select (has_nonce n) ts) ≡ one (f t)
unfolding select
select-find f n [] t asc e = ground arith
select-find f n (x ∷ ts) t asc e =
    ground (arith, select-find f n ts t asc.1, select-none f x.nonce n ts asc.0)

filter-strict : (l : TxList) (c g : ℕ) → (TxList.filter l c g).2.strict ≡ l.strict
unfolding TxList.filter filter_txs drop_above
filter-strict l c g = ground arith

remove-strict : (l : TxList) (tx : Tx) → (TxList.remove l tx).2.strict ≡ l.strict
unfolding TxList.remove drop_above remove_from
remove-strict l tx =
    by_result (SortedMap.remove l.txs tx.nonce).0 (SortedMap.remove l.txs tx.nonce).1
  where
    by_result :
        (found : Bool) (txs : SortedMap.SortedMap)
        → (remove_from l tx.nonce found txs).2.strict ≡ l.strict
    by_result false txs = refl
    by_result true txs = ground arith

module _ {strict : Bool} {a : ℕ} {l : TxList} {ts : List Tx} (o : OwnList strict a l ts) where
  pub filter-Split :
      (c g : ℕ)
      → let (removed, invalids, l') = TxList.filter l c g in
        Split strict a l (removed ++ invalids) l'
  filter-Split c g =
      let (removed, gone, rest) =
        filter-IsList l ts c g (OwnedBy-AreWords a ts o.owned) o.is_list in
      split o _ _ _ rest (filter-strict l c g ∙ o.strictness) (λ f. omega (
        arith,
        strict-lost f (unpayable c g) l.strict ts,
        tally-perm f removed,
        tally-perm f gone,
        tally-append f (TxList.filter l c g).0 (TxList.filter l c g).1,
      ))

  -- A list that is not strict loses no others.
  pub filter_loose :
      (c g : ℕ) (f : Tx → Bool) → strict ≡ false → tally f (TxList.filter l c g).1 ≡ 0
  filter_loose c g f e =
      let (removed, gone, rest) =
        filter-IsList l ts c g (OwnedBy-AreWords a ts o.owned) o.is_list in
      let loose : l.strict ≡ false = o.strictness ∙ e in
      tally-perm f gone ∙ ap (λ s. tally f (lost s (unpayable c g) ts)) loose

  pub remove-Split :
      (t tx : Tx)
      → find tx.nonce ts ≡ some t
      → let (found, invalids, l') = TxList.remove l tx in
        (found ≡ true) × Split strict a l (t ∷ invalids) l'
  remove-Split t tx e =
      let (found, gone, rest) = remove-IsList l ts tx o.is_list in
      (
        found ∙ ap is_some e,
        split o _ _ _ rest (remove-strict l tx ∙ o.strictness) (λ f. omega (
          arith,
          strict-lost f (has_nonce tx.nonce) l.strict ts,
          select-find f tx.nonce ts t o.is_list.txs.ascends e,
          tally-perm f gone,
        )),
      )

  pub remove-missing : (tx : Tx) → find tx.nonce ts ≡ none → TxList.remove l tx ≡ (false, [], l)
  unfolding TxList.remove SortedMap.remove remove_from
  remove-missing tx e =
      let absent : lookup tx.nonce l.txs.items ≡ none = o.is_list.txs.holds tx.nonce ∙ e in
      rw (absent, SortedMap.remove) refl

  -- A transaction with a new nonce is always taken.
  pub add-fresh :
      (tx : Tx) (bump : ℕ)
      → find tx.nonce ts ≡ none
      → TxList.add l tx bump ≡ (true, none, store l tx)
  unfolding TxList.add SortedMap.get
  add-fresh tx bump e =
      let absent : lookup tx.nonce l.txs.items ≡ none = o.is_list.txs.holds tx.nonce ∙ e in
      rw (absent, TxList.add) refl

  -- One with the nonce of another is refused, or replaces it.
  pub add-old :
      (tx old : Tx) (bump : ℕ)
      → find tx.nonce ts ≡ some old
      → (TxList.add l tx bump ≡ (false, none, l))
        ⊎ (TxList.add l tx bump ≡ (true, some old, store l tx))
  unfolding TxList.add SortedMap.get
  add-old tx old bump e =
      let present : lookup tx.nonce l.txs.items ≡ some old = o.is_list.txs.holds tx.nonce ∙ e in
      elim (Bool-cases (is_too_cheap old tx bump)) [
        | inl cheap ↦ inl (rw (present, TxList.add, cheap) refl)
        | inr dear ↦ inr (rw (present, TxList.add, dear) refl)
      ]

  pub store-OwnList :
      (tx : Tx)
      → tx.sender ≡ some a
      → tx.nonce < u64_mod
      → OwnList strict a (store l tx) (upsert tx ts)
        × ((f : Tx → Bool)
            → tally f (values (store l tx).txs.items) + tally_old f (find tx.nonce ts)
              ≡ one (f tx) + tally f (values l.txs.items))
  unfolding store
  store-OwnList tx s w =
      let kept : OwnList strict a (store l tx) (upsert tx ts) = record {
        is_list = store-IsList l tx ts o.is_list;
        strictness = o.strictness;
        owned = OwnedBy-upsert a tx ts s w o.owned;
      } in
      (
        kept,
        λ f. omega (
          arith,
          tally-items kept f,
          tally-items o f,
          tally-upsert f tx ts o.is_list.txs.ascends,
        ),
      )

  -- A removal from a list that is not strict takes out no others.
  pub remove_loose : (tx : Tx) (f : Tx → Bool) → strict ≡ false → tally f (TxList.remove l tx).1 ≡ 0
  remove_loose tx f e =
      let (found, gone, rest) = remove-IsList l ts tx o.is_list in
      let loose : l.strict ≡ false = o.strictness ∙ e in
      tally-perm f gone ∙ ap (λ s. tally f (lost s (has_nonce tx.nonce) ts)) loose
