-- ===== src/Pool/Consistent/Indexed.antt =====
-- The lookup by hash, counted.
use chain_master.Prelude.{
  ℕ, ◌+◌, ◌<◌, ◌≡◌, refl, sym, ◌∙◌, inl, inr, arith, Bool, true, false, none, some, [], ◌∷◌,
  Bool-cases, ◌-◌, subst,
}
use mathlib.Core.Option.{some-injective}
use native.Mathlib.Decide.{ℕ_discrete}
use chain_master.Prelude.GoMap.{GoMap, lookup, insert, delete, values, Distinct}
use chain_master.Pool.Tx.{Tx}
use chain_master.Pool.Lookup
use chain_master.Pool.Lookup.{TxLookup, IsCounted, num_slots, add-IsCounted, remove-IsCounted}
use chain_master.Pool.Consistent.Tally.{one, tally}

-- Every transaction stands under its hash.
abbrev pub IsHashed : GoMap Tx → Type 0
IsHashed [] = Unit
IsHashed ((h, t) ∷ m) = (t.hash ≡ h) × IsHashed m

pub record IsIndex (all : TxLookup) : Type 0 where
  pub counts : IsCounted all
  pub hashed : IsHashed all.all

pub Tx-discrete : Discrete Tx
Tx-discrete = hlevel (ℕ_discrete)

-- Whether a transaction is `t`.
unfoldable pub is : Tx → Tx → Bool
is t u = elim (Tx-discrete u t) [ yes e ↦ true | no n ↦ false ]

pub is-eq : (t u : Tx) → is t u ≡ true → u ≡ t
unfolding is
is-eq t u h =
    elim (Tx-discrete u t) as (λ d. elim d [ yes e ↦ true | no n ↦ false ] ≡ true → u ≡ t) [
      | yes e ↦ λ _. e
      | no n ↦ λ q. absurd ((cc))
    ]
      h

pub is_self : (t : Tx) → is t t ≡ true
unfolding is
is_self t = elim (Tx-discrete t t) as (λ d. elim d [ yes e ↦ true | no n ↦ false ] ≡ true) [
  | yes e ↦ refl
  | no n ↦ absurd (n refl)
]

insert-IsHashed : (t : Tx) (m : GoMap Tx) → IsHashed m → IsHashed (insert t.hash t m)
insert-IsHashed t [] k = (refl, tt)
insert-IsHashed t ((i, x) ∷ m) k = ground (arith, insert-IsHashed t m k.1)

delete-IsHashed : (n : ℕ) (m : GoMap Tx) → IsHashed m → IsHashed (delete n m)
delete-IsHashed n [] k = tt
delete-IsHashed n ((i, x) ∷ m) k = ground (arith, delete-IsHashed n m k.1)

tally-insert :
    (f : Tx → Bool) (h : ℕ) (t : Tx) (m : GoMap Tx)
    → lookup h m ≡ none
    → tally f (values (insert h t m)) ≡ one (f t) + tally f (values m)
tally-insert f h t [] e = refl
tally-insert f h t ((i, x) ∷ m) e = ground (arith, tally-insert f h t m)

tally-delete :
    (f : Tx → Bool) (h : ℕ) (t : Tx) (m : GoMap Tx)
    → lookup h m ≡ some t
    → tally f (values m) ≡ one (f t) + tally f (values (delete h m))
tally-delete f h t [] e = ground arith
tally-delete f h t ((i, x) ∷ m) e = ground (arith, tally-delete f h t m)

-- A transaction that is counted is found under its hash.
lookup-tally :
    (t : Tx) (m : GoMap Tx)
    → Distinct m
    → IsHashed m
    → 0 < tally (is t) (values m)
    → lookup t.hash m ≡ some t
lookup-tally t [] d k p = absurd (omega arith)
lookup-tally t ((h, u) ∷ m) d k p = elim (Bool-cases (is t u)) [
  | inl same ↦ ground (arith, is-eq t u same, k.0)
  | inr other ↦ ground (arith, lookup-tally t m d.1 k.1, d.0)
]

-- `all.Remove` at a known hash takes out the transaction that stands there.
pub remove-IsIndex :
    (all : TxLookup) (h : ℕ) (t : Tx)
    → IsIndex all
    → Lookup.get all h ≡ some t
    → (all' : TxLookup) × (Lookup.remove all h ≡ some all')
      × IsIndex all'
      × ((f : Tx → Bool) → tally f (values all.all) ≡ one (f t) + tally f (values all'.all))
unfolding Lookup.remove Lookup.get
remove-IsIndex all h t x e =
    let at : lookup h all.all ≡ some t = e in
    let (all', done, counts, slots, rest) = remove-IsCounted all t h x.counts e in
    let left : TxLookup = record { all = delete h all.all; slots = all.slots - num_slots t } in
    let same : some left ≡ some all' = sym (rw (at, Lookup.remove) refl) ∙ done in
    (
      left,
      rw (at, Lookup.remove) refl,
      record {
        counts = subst IsCounted (sym (some-injective _ _ same)) counts;
        hashed = delete-IsHashed h all.all x.hashed;
      },
      λ f. tally-delete f h t all.all at,
    )

-- A transaction that is counted stands in the lookup.
pub get-tally :
    (all : TxLookup) (t : Tx)
    → IsIndex all
    → 0 < tally (is t) (values all.all)
    → Lookup.get all t.hash ≡ some t
unfolding Lookup.get
get-tally all t x p = lookup-tally t all.all x.counts.distinct x.hashed p

-- `all.Add` of a new hash counts one transaction more.
pub add-IsIndex :
    (all : TxLookup) (t : Tx)
    → IsIndex all
    → Lookup.get all t.hash ≡ none
    → IsIndex (Lookup.add all t)
      × ((f : Tx → Bool)
          → tally f (values (Lookup.add all t).all) ≡ one (f t) + tally f (values all.all))
unfolding Lookup.add Lookup.get
add-IsIndex all t x e = (
  record {
    counts = (add-IsCounted all t x.counts e).0;
    hashed = insert-IsHashed t all.all x.hashed;
  },
  λ f. tally-insert f t.hash t all.all e,
)

lookup-counted : (h : ℕ) (t : Tx) (m : GoMap Tx) → lookup h m ≡ some t → 0 < tally (is t) (values m)
lookup-counted h t [] e = ground arith
lookup-counted h t ((i, u) ∷ m) e = ground (arith, e, is_self t, lookup-counted h t m)

-- What the lookup has is counted.
pub tally-get :
    (all : TxLookup) (h : ℕ) (t : Tx)
    → Lookup.get all h ≡ some t
    → 0 < tally (is t) (values all.all)
unfolding Lookup.get
tally-get all h t e = lookup-counted h t all.all e

lookup_hash : (h : ℕ) (t : Tx) (m : GoMap Tx) → IsHashed m → lookup h m ≡ some t → t.hash ≡ h
lookup_hash h t [] k e = ground arith
lookup_hash h t ((i, u) ∷ m) k e = ground (arith, k.0, e, lookup_hash h t m k.1)

-- It has a transaction under its own hash.
pub get_hash :
    (all : TxLookup) (h : ℕ) (t : Tx) → IsIndex all → Lookup.get all h ≡ some t → t.hash ≡ h
unfolding Lookup.get
get_hash all h t x e = lookup_hash h t all.all x.hashed e
