-- ===== src/Pool/Consistent/Lists.antt =====
-- The lists of all accounts, and the invariant of the pool.
use chain_master.Prelude.{
  ℕ, ◌+◌, ◌<◌, ◌≤◌, ◌≡◌, refl, sym, ap, subst, ◌∙◌, inl, inr, arith, Bool, true, false, ◌&&◌, none,
  some, List, [], ◌∷◌, ◌==◌, Bool-cases, Option-cases, u64_mod, length,
}
use chain_master.Prelude.GoMap.{
  GoMap, lookup, insert, delete, values, Distinct, insert-Distinct, delete-Distinct,
}
use chain_master.Pool.Tx.{Tx}
use chain_master.Pool.SortedMap
use chain_master.Pool.SortedMap.Spec.{find, upsert, length-values}
use chain_master.Pool.TxList
use chain_master.Pool.TxList.{TxList, new_tx_list, store}
use chain_master.Pool.Lookup.{TxLookup}
use chain_master.Pool.Moves.{list_of}
use chain_master.Pool.State.{TxPool}
use chain_master.Pool.Consistent.Tally.{
  one, tally, tally_lists, tally_at, tally_old, tally_lists-lookup, tally_lists-insert,
}
use chain_master.Pool.Consistent.Indexed.{IsIndex}
use chain_master.Pool.Consistent.Owned.{OwnedBy, OwnList, tally-items, new_tx_list-OwnList, Split}
use chain_master.Pool.Consistent.Changes.{add-fresh, store-OwnList}

-- Every list is one of its account.
abbrev pub AllOwn : Bool → GoMap TxList → Type 0
AllOwn s [] = Unit
AllOwn s ((a, l) ∷ m) = ((ts : List Tx) × OwnList s a l ts) × AllOwn s m

-- Whether a transaction has the sender `a` and the nonce `n`.
unfoldable pub slot : ℕ → ℕ → Tx → Bool
slot a n t = elim t.sender [ none ↦ false | some b ↦ b == a ] && t.nonce == n

-- The lookup holds the transactions of the lists and those that are on their way between them, no
-- more and no fewer, and no two with the same sender and nonce.
pub record Parts (transit : List Tx) (all : TxLookup) (pending queue : GoMap TxList) : Type 0 where
  pub index : IsIndex all
  pub pending_lists : AllOwn true pending
  pub pending_distinct : Distinct pending
  pub queue_lists : AllOwn false queue
  pub queue_distinct : Distinct queue
  pub placed :
      (f : Tx → Bool)
      → tally f (values all.all) ≡ tally f transit + tally_lists f pending + tally_lists f queue
  pub apart : (a n : ℕ) → tally (slot a n) (values all.all) ≤ 1

-- A pool that is at rest.
abbrev pub IsConsistent : TxPool → Type 0
IsConsistent p = Parts [] p.all p.pending p.queue

module _ (s : Bool) where
  pub AllOwn-lookup :
      (a : ℕ) (m : GoMap TxList) (l : TxList)
      → AllOwn s m
      → lookup a m ≡ some l
      → (ts : List Tx) × OwnList s a l ts
  AllOwn-lookup a [] l o e = absurd ((cc))
  AllOwn-lookup a ((b, k) ∷ m) l o e = elim (Bool-cases (b == a)) [
    | inl hit ↦
        let same : b ≡ a = ground arith in
        let at : k ≡ l = ground (arith, e) in
        subst (λ i. (ts : List Tx) × OwnList s a i ts) at
          (subst (λ i. (ts : List Tx) × OwnList s i k ts) same o.0)
    | inr miss ↦ AllOwn-lookup a m l o.1 (ground (arith, e))
  ]

  pub AllOwn-insert :
      (a : ℕ) (l : TxList) (ts : List Tx) (m : GoMap TxList)
      → OwnList s a l ts
      → AllOwn s m
      → AllOwn s (insert a l m)
  AllOwn-insert a l ts [] w o = ((ts, w), tt)
  AllOwn-insert a l ts ((b, k) ∷ m) w o = elim (Bool-cases (b == a)) [
    | inl hit ↦
        let same : a ≡ b = ground arith in rw hit ((ts, subst (λ i. OwnList s i l ts) same w), o.1)
    | inr miss ↦ rw miss (o.0, AllOwn-insert a l ts m w o.1)
  ]

  pub AllOwn-delete : (a : ℕ) (m : GoMap TxList) → AllOwn s m → AllOwn s (delete a m)
  AllOwn-delete a [] o = tt
  AllOwn-delete a ((b, k) ∷ m) o = elim (Bool-cases (b == a)) [
    | inl hit ↦ rw hit o.1
    | inr miss ↦ rw miss (o.0, AllOwn-delete a m o.1)
  ]

  -- The list of an account, which may be a new one.
  pub list_of-OwnList :
      (a : ℕ) (m : GoMap TxList)
      → AllOwn s m
      → (ts : List Tx) × OwnList s a (list_of s (lookup a m)) ts
        × ((f : Tx → Bool) → tally f ts ≡ tally_at f (lookup a m))
  unfolding list_of
  list_of-OwnList a m o = elim (Option-cases (lookup a m)) [
    | inl absent ↦ rw (absent, list_of) ([], new_tx_list-OwnList s a, λ f. refl)
    | inr (l, present) ↦
        let (ts, w) = AllOwn-lookup a m l o present in
        rw (present, list_of) (ts, w, λ f. sym (tally-items w f))
  ]

pub slot_self : (a : ℕ) (t : Tx) → t.sender ≡ some a → slot a t.nonce t ≡ true
unfolding slot
slot_self a t e = rw e (ground arith)

-- A transaction that a list has at a nonce is counted at its slot.
pub find-slot :
    (a n : ℕ) (ts : List Tx) (t : Tx) → OwnedBy a ts → find n ts ≡ some t → 0 < tally (slot a n) ts
unfolding slot
find-slot a n [] t o e = ground arith
find-slot a n (x ∷ ts) t o e = ground (arith, o.0, find-slot a n ts t o.2)

-- A map of lists that takes in one more transaction.
pub record Stored (s : Bool) (a : ℕ) (tx : Tx) (m m' : GoMap TxList) : Type 0 where
  pub lists : AllOwn s m'
  pub distinct : Distinct m'
  pub more : (f : Tx → Bool) → tally_lists f m' ≡ one (f tx) + tally_lists f m

module _ {s : Bool} (a : ℕ) (m : GoMap TxList) (o : AllOwn s m) (d : Distinct m) where
  -- The list of an account takes a transaction whose slot is free.
  pub add-Stored :
      (tx : Tx) (bump : ℕ)
      → tx.sender ≡ some a
      → tx.nonce < u64_mod
      → tally_lists (slot a tx.nonce) m ≡ 0
      → let list = list_of s (lookup a m) in
        (TxList.add list tx bump ≡ (true, none, store list tx))
        × Stored s a tx m (insert a (store list tx) m)
  add-Stored tx bump from word free =
      let (ts, w, at) = list_of-OwnList s a m o in
      let list = list_of s (lookup a m) in
      let nobody : find tx.nonce ts ≡ none = elim (Option-cases (find tx.nonce ts)) [
        | inl e ↦ e
        | inr (old, e) ↦ absurd (
            omega (
              arith,
              find-slot a tx.nonce ts old w.owned e,
              at (slot a tx.nonce),
              tally_lists-lookup (slot a tx.nonce) a m,
              free,
            ))
      ] in
      let (kept, more) = store-OwnList w tx from word in
      (
        add-fresh w tx bump nobody,
        record {
          lists = AllOwn-insert s a (store list tx) (upsert tx ts) m kept o;
          distinct = insert-Distinct a (store list tx) m d;
          more = λ f. omega (
            arith,
            more f,
            ap (tally_old f) nobody,
            tally-items w f,
            at f,
            tally_lists-lookup f a m,
            tally_lists-insert f a (store list tx) m,
          );
        },
      )

-- A map of lists that gives some transactions up.
pub record Gave (s : Bool) (out : List Tx) (m m' : GoMap TxList) : Type 0 where
  pub lists : AllOwn s m'
  pub distinct : Distinct m'
  pub fewer : (f : Tx → Bool) → tally_lists f m ≡ tally f out + tally_lists f m'

is_empty-values : (l : TxList) → TxList.is_empty l ≡ true → values l.txs.items ≡ []
unfolding TxList.is_empty TxList.size SortedMap.size
is_empty-values l e =
    let none_left : length l.txs.items ≡ 0 = ground (arith, e) in
    no_values (values l.txs.items) (length-values l.txs.items ∙ none_left)
  where
    no_values : (ts : List Tx) → length ts ≡ 0 → ts ≡ []
    no_values [] h = refl
    no_values (t ∷ ts) h = absurd (omega arith)

module _ {s : Bool} {a : ℕ} {m : GoMap TxList} {l l' : TxList} {out : List Tx} (o : AllOwn s m)
    (d : Distinct m) (at : lookup a m ≡ some l) (p : Split s a l out l') where
  pub insert-Gave : Gave s out m (insert a l' m)
  insert-Gave = record {
    lists = AllOwn-insert s a l' p.rest m p.kept o;
    distinct = insert-Distinct a l' m d;
    fewer = λ f. omega (
      arith,
      p.moved f,
      ap (tally_at f) at,
      tally_lists-lookup f a m,
      tally_lists-insert f a l' m,
    );
  }

  -- An empty list is deleted.
  pub delete-Gave : TxList.is_empty l' ≡ true → Gave s out m (delete a m)
  delete-Gave e = record {
    lists = AllOwn-delete s a m o;
    distinct = delete-Distinct a m d;
    fewer = λ f. omega (
      arith,
      p.moved f,
      ap (tally f) (is_empty-values l' e),
      ap (tally_at f) at,
      tally_lists-lookup f a m,
    );
  }
