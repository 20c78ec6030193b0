-- ===== src/Pool/Consistent/Owned.antt =====
-- The lists of an account, and what their operations move, counted.
use chain_master.Prelude.{
  ℕ, zero, suc, ◌+◌, ◌<◌, ◌≤◌, ◌≡◌, refl, inl, inr, arith, Bool, false, not, ◌&&◌, none, some, List,
  [], ◌∷◌, ◌==◌, ltb, Option-cases, take, drop, u64_mod,
}
use chain_master.Prelude.GoMap.{values}
use chain_master.Pool.Tx.{Tx}
use chain_master.Pool.SortedMap.Spec.{upsert, values-perm}
use chain_master.Pool.SortedMap.Lowest.{reject, below, forward-Represents}
use chain_master.Pool.SortedMap.Ready.{AreWords, unready_part, after_streak, ready-Represents}
use chain_master.Pool.SortedMap.Highest.{cap-Represents}
use chain_master.Pool.TxList
use chain_master.Pool.TxList.{TxList, new_tx_list, store, is_too_cheap, unpayable}
use chain_master.Pool.TxList.Invariant.{IsList, Within, new_tx_list-IsList, Within-reject}
use chain_master.Pool.Consistent.Tally.{
  tally, tally-perm, tally-select, tally-take, tally-reverse, tally-ready,
}

-- Transactions of the account `a` with nonces that are words.
abbrev pub OwnedBy : ℕ → List Tx → Type 0
OwnedBy a [] = Unit
OwnedBy a (t ∷ ts) = (t.sender ≡ some a) × (t.nonce < u64_mod) × OwnedBy a ts

-- A list of the account `a` that stands for the transactions `ts`.
pub record OwnList (strict : Bool) (a : ℕ) (l : TxList) (ts : List Tx) : Type 0 where
  pub is_list : IsList l ts
  pub strictness : l.strict ≡ strict
  pub owned : OwnedBy a ts

module _ {strict : Bool} {a : ℕ} {l : TxList} {ts : List Tx} (o : OwnList strict a l ts) where
  pub tally-items : (f : Tx → Bool) → tally f (values l.txs.items) ≡ tally f ts
  tally-items f =
      let r = o.is_list.txs in
      tally-perm f (values-perm l.txs.items ts r.distinct r.keyed r.ascends r.holds)

pub OwnedBy-AreWords : (a : ℕ) (ts : List Tx) → OwnedBy a ts → AreWords ts
OwnedBy-AreWords a [] o = tt
OwnedBy-AreWords a (t ∷ ts) o = (o.1, OwnedBy-AreWords a ts o.2)

-- Whether a transaction is not one of the account `a` with a nonce that is a word.
unfoldable pub is_foreign : ℕ → Tx → Bool
is_foreign a t = not (elim t.sender [ none ↦ false | some b ↦ b == a ] && ltb t.nonce u64_mod)

module _ (a : ℕ) where
  OwnedBy-tally : (ts : List Tx) → OwnedBy a ts → tally (is_foreign a) ts ≡ 0
  unfolding is_foreign
  OwnedBy-tally [] o = refl
  OwnedBy-tally (t ∷ ts) o = ground (arith, OwnedBy-tally ts o.2, o.0, o.1)

  tally-OwnedBy : (ts : List Tx) → tally (is_foreign a) ts ≡ 0 → OwnedBy a ts
  unfolding is_foreign
  tally-OwnedBy [] e = tt
  tally-OwnedBy (t ∷ ts) e = elim (Option-cases t.sender) [
    | inl nobody ↦ ground (arith, nobody)
    | inr (b, from) ↦ ground (arith, from, tally-OwnedBy ts)
  ]

  -- What is counted within the transactions of an account belongs to it.
  pub OwnedBy-le :
      (part ts : List Tx)
      → tally (is_foreign a) part ≤ tally (is_foreign a) ts
      → OwnedBy a ts
      → OwnedBy a part
  OwnedBy-le part ts h o = tally-OwnedBy part (omega (arith, OwnedBy-tally ts o))

  pub OwnedBy-upsert :
      (t : Tx) (ts : List Tx)
      → t.sender ≡ some a
      → t.nonce < u64_mod
      → OwnedBy a ts
      → OwnedBy a (upsert t ts)
  OwnedBy-upsert t [] s w o = (s, w, tt)
  OwnedBy-upsert t (x ∷ ts) s w o = ground (arith, OwnedBy-upsert t ts s w o.2)

Within-take : (c g n : ℕ) (ts : List Tx) → Within c g ts → Within c g (take n ts)
Within-take c g zero ts w = tt
Within-take c g (suc n) [] w = tt
Within-take c g (suc n) (t ∷ ts) w = (w.0, w.1, Within-take c g n ts w.2)

Within-after_streak : (c g n : ℕ) (ts : List Tx) → Within c g ts → Within c g (after_streak n ts)
Within-after_streak c g n [] w = tt
Within-after_streak c g n (t ∷ ts) w = ground (arith, Within-after_streak c g (n + 1) ts w.2)

Within-unready : (c g n : ℕ) (ts : List Tx) → Within c g ts → Within c g (unready_part n ts)
Within-unready c g n [] w = tt
Within-unready c g n (t ∷ ts) w = ground (arith, Within-after_streak c g t.nonce (t ∷ ts) w)

-- A new list holds nothing.
pub new_tx_list-OwnList : (strict : Bool) (a : ℕ) → OwnList strict a (new_tx_list strict) []
unfolding new_tx_list
new_tx_list-OwnList strict a = record {
  is_list = new_tx_list-IsList strict;
  strictness = refl;
  owned = tt;
}

-- A list with what an operation took out of it.
pub record Split (strict : Bool) (a : ℕ) (l : TxList) (out : List Tx) (l' : TxList) : Type 0 where
  pub rest : List Tx
  pub kept : OwnList strict a l' rest
  pub moved :
      (f : Tx → Bool) → tally f (values l.txs.items) ≡ tally f out + tally f (values l'.txs.items)
  pub mine : OwnedBy a out

module _ {strict : Bool} {a : ℕ} {l : TxList} {ts : List Tx} (o : OwnList strict a l ts) where
  -- What is left and what is out make up the transactions of the list.
  pub split :
      (out : List Tx) (l' : TxList) (rest : List Tx)
      → IsList l' rest
      → l'.strict ≡ strict
      → ((f : Tx → Bool) → tally f ts ≡ tally f out + tally f rest)
      → Split strict a l out l'
  split out l' rest is s e =
      let kept : OwnList strict a l' rest = record {
        is_list = is;
        strictness = s;
        owned = OwnedBy-le a rest ts (omega (arith, e (is_foreign a))) o.owned;
      } in
      record {
        rest = rest;
        kept = kept;
        moved = λ f. omega (arith, tally-items o f, tally-items kept f, e f);
        mine = OwnedBy-le a out ts (omega (arith, e (is_foreign a))) o.owned;
      }

  pub forward-Split : (n : ℕ) → Split strict a l (TxList.forward l n).0 (TxList.forward l n).1
  unfolding TxList.forward
  forward-Split n =
      let (removed, r) = forward-Represents l.txs ts n o.is_list.txs in
      split _ _ (reject (below n) ts)
        (record { txs = r; within = Within-reject (below n) _ _ ts o.is_list.within }) o.strictness
        (λ f. rw removed (tally-select f (below n) ts))

  pub ready-Split : (n : ℕ) → Split strict a l (TxList.ready l n).0 (TxList.ready l n).1
  unfolding TxList.ready
  ready-Split n =
      let (out, r) = ready-Represents l.txs ts n (OwnedBy-AreWords a ts o.owned) o.is_list.txs in
      split _ _ (unready_part n ts)
        (record { txs = r; within = Within-unready _ _ n ts o.is_list.within }) o.strictness
        (λ f. rw out (tally-ready f n ts))

  pub cap-Split : (n : ℕ) → Split strict a l (TxList.cap l n).0 (TxList.cap l n).1
  unfolding TxList.cap
  cap-Split n =
      let (drops, r) = cap-Represents l.txs ts n o.is_list.txs in
      split _ _ (take n ts) (record { txs = r; within = Within-take _ _ n ts o.is_list.within })
        o.strictness (λ f. rw drops (omega (arith, tally-take f n ts, tally-reverse f (drop n ts))))
