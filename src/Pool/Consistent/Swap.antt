-- ===== src/Pool/Consistent/Swap.antt =====
-- A transaction that comes into the pool, alone or in the place of another.
use chain_master.Prelude.{
  ℕ, ◌+◌, ◌<◌, ◌≡◌, refl, sym, ap, ◌∙◌, inl, inr, arith, Bool, false, none, some, List, [], ◌∷◌,
  ◌==◌, Bool-cases, u64_mod,
}
use chain_master.Prelude.GoMap.{
  GoMap, lookup, insert, delete, values, Distinct, insert-Distinct, lookup-delete,
}
use chain_master.Pool.Tx.{Tx}
use chain_master.Pool.SortedMap.Spec.{find, upsert, find-nonce}
use chain_master.Pool.TxList.{TxList, store}
use chain_master.Pool.Lookup
use chain_master.Pool.Lookup.{TxLookup}
use chain_master.Pool.Moves.{list_of}
use chain_master.Pool.Consistent.Tally.{
  one, tally, tally_lists, tally_at, tally_old, tally_lists-lookup, tally_lists-insert,
}
use chain_master.Pool.Consistent.Indexed.{
  IsIndex, is, is_self, get-tally, remove-IsIndex, add-IsIndex,
}
use chain_master.Pool.Consistent.Owned.{OwnedBy, OwnList, tally-items}
use chain_master.Pool.Consistent.Changes.{store-OwnList}
use chain_master.Pool.Consistent.Lists.{
  AllOwn, AllOwn-insert, AllOwn-delete, list_of-OwnList, slot, Gave,
}
use chain_master.Pool.Consistent.Standing.{find-owner}
use chain_master.Pool.Consistent.Removal.{get-fewer}

find-free : (a n : ℕ) (ts : List Tx) → OwnedBy a ts → find n ts ≡ none → tally (slot a n) ts ≡ 0
unfolding slot
find-free a n [] o e = refl
find-free a n (t ∷ ts) o e = ground (arith, o.0, find-free a n ts o.2)

foreign-free :
    (a b n : ℕ) (ts : List Tx) → OwnedBy b ts → (b == a) ≡ false → tally (slot a n) ts ≡ 0
unfolding slot
foreign-free a b n [] o e = refl
foreign-free a b n (t ∷ ts) o e = rw (o.0, e) (omega (arith, foreign-free a b n ts o.2 e))

-- The lists of other accounts do not have the slots of this one.
others-free :
    (s : Bool) (a n : ℕ) (m : GoMap TxList)
    → AllOwn s m
    → lookup a m ≡ none
    → tally_lists (slot a n) m ≡ 0
others-free s a n [] o e = refl
others-free s a n ((b, l) ∷ m) o e = elim (Bool-cases (b == a)) [
  | inl hit ↦ ground arith
  | inr miss ↦
      let (ts, w) = o.0 in
      omega (
        arith,
        tally-items w (slot a n),
        foreign-free a b n ts w.owned miss,
        others-free s a n m o.1 (ground (arith, e)),
      )
]

-- A map where a transaction took the place of another.
pub record Replaced (s : Bool) (a : ℕ) (tx old : Tx) (m m' : GoMap TxList) : Type 0 where
  pub lists : AllOwn s m'
  pub distinct : Distinct m'
  pub swapped : (f : Tx → Bool) → one (f old) + tally_lists f m' ≡ one (f tx) + tally_lists f m
  pub same_slot : (b n : ℕ) → slot b n old ≡ slot b n tx
  pub present : 0 < tally_lists (is old) m

-- Where the list of an account has no transaction with a nonce, no list has its slot.
pub list-free :
    (s : Bool) (a n : ℕ) (m : GoMap TxList) (ts : List Tx)
    → AllOwn s m
    → Distinct m
    → OwnedBy a ts
    → ((f : Tx → Bool) → tally f ts ≡ tally_at f (lookup a m))
    → find n ts ≡ none
    → tally_lists (slot a n) m ≡ 0
list-free s a n m ts o d own at e = omega (
  arith,
  find-free a n ts own e,
  at (slot a n),
  tally_lists-lookup (slot a n) a m,
  others-free s a n (delete a m) (AllOwn-delete s a m o)
      (rw (lookup-delete a a m d) (ground arith)),
)

slot-cong : (t u : Tx) (b n : ℕ) → t.sender ≡ u.sender → t.nonce ≡ u.nonce → slot b n t ≡ slot b n u
unfolding slot
slot-cong t u b n e h = rw (e, h) refl

find-counted : (n : ℕ) (ts : List Tx) (t : Tx) → find n ts ≡ some t → 0 < tally (is t) ts
find-counted n [] t e = ground arith
find-counted n (x ∷ ts) t e = ground (arith, is_self t, find-counted n ts t)

module _ {s : Bool} (a : ℕ) (m : GoMap TxList) (o : AllOwn s m) (d : Distinct m) where
  -- The list of an account, put back as it was.
  pub list-Gave : Gave s [] m (insert a (list_of s (lookup a m)) m)
  list-Gave =
      let (ts, w, at) = list_of-OwnList s a m o in
      let list = list_of s (lookup a m) in
      record {
        lists = AllOwn-insert s a list ts m w o;
        distinct = insert-Distinct a list m d;
        fewer = λ f.
            omega (
              arith,
              tally-items w f,
              at f,
              tally_lists-lookup f a m,
              tally_lists-insert f a list m,
            );
      }

  pub store-Replaced :
      (tx old : Tx) (ts : List Tx)
      → (w : OwnList s a (list_of s (lookup a m)) ts)
      → ((f : Tx → Bool) → tally f ts ≡ tally_at f (lookup a m))
      → tx.sender ≡ some a
      → tx.nonce < u64_mod
      → find tx.nonce ts ≡ some old
      → Replaced s a tx old m (insert a (store (list_of s (lookup a m)) tx) m)
  store-Replaced tx old ts w at from word e =
      let list = list_of s (lookup a m) in
      let (kept, more) = store-OwnList w tx from word in
      record {
        lists = AllOwn-insert s a (store list tx) (upsert tx ts) m kept o;
        distinct = insert-Distinct a (store list tx) m d;
        swapped = λ f. omega (
          arith,
          more f,
          ap (tally_old f) e,
          tally-items w f,
          at f,
          tally_lists-lookup f a m,
          tally_lists-insert f a (store list tx) m,
        );
        same_slot = λ b n.
            slot-cong old tx b n (find-owner a tx.nonce ts old w.owned e ∙ sym from)
              (find-nonce tx.nonce ts old e);
        present =
            omega
              (arith, find-counted tx.nonce ts old e, at (is old), tally_lists-lookup (is old) a m);
      }

-- The lookup after a transaction took the place of another.
pub record Swapped (tx old : Tx) (all : TxLookup) : Type 0 where
  pub left : TxLookup
  pub removed : Lookup.remove all old.hash ≡ some left
  pub new : Lookup.get left tx.hash ≡ none
  pub kept : IsIndex left
  pub index : IsIndex (Lookup.add left tx)
  pub swapped :
      (f : Tx → Bool)
      → one (f old) + tally f (values (Lookup.add left tx).all)
        ≡ one (f tx) + tally f (values all.all)

pub all-Swapped :
    (tx old : Tx) (all : TxLookup)
    → IsIndex all
    → 0 < tally (is old) (values all.all)
    → Lookup.get all tx.hash ≡ none
    → Swapped tx old all
all-Swapped tx old all x p e =
    let (left, removed, y, fewer) = remove-IsIndex all old.hash old x (get-tally all old x p) in
    let new = get-fewer tx.hash all left x y (λ f. omega (arith, fewer f)) e in
    let (z, more) = add-IsIndex left tx y new in
    record {
      left = left;
      removed = removed;
      new = new;
      kept = y;
      index = z;
      swapped = λ f. omega (arith, fewer f, more f);
    }
