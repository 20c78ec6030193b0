-- ===== src/Pool/SortedMap/Spec.antt =====
-- What a `txSortedMap` stands for: a list of transactions in the strict order of their nonces.
use mathlib.Core.List.Perm
use mathlib.Core.List.{Perm}
use chain_master.Prelude.{
  ℕ, suc, ◌<◌, ◌≤◌, ◌≡◌, refl, ap, sym, ◌∙◌, inl, inr, Bool-cases, arith, Option, none, some, List,
  [], ◌∷◌, ltb, leb, ◌==◌, if◌then◌else◌, length,
}
use chain_master.Prelude.GoMap.{GoMap, lookup, values, keys, Distinct}
use chain_master.Pool.Tx.{Tx}
use chain_master.Pool.SortedMap.{sort_by_nonce, insert_by_nonce}

abbrev pub nonces : List Tx → List ℕ
nonces [] = []
nonces (t ∷ ts) = t.nonce ∷ nonces ts

-- Every nonce is above `n`.
abbrev pub Above : ℕ → List Tx → Type 0
Above n [] = Unit
Above n (t ∷ ts) = (n < t.nonce) × Above n ts

-- The nonces ascend strictly.
abbrev pub Ascends : List Tx → Type 0
Ascends [] = Unit
Ascends (t ∷ ts) = Above t.nonce ts × Ascends ts

abbrev pub find : ℕ → List Tx → Option Tx
find n [] = none
find n (t ∷ ts) = if t.nonce == n then some t else find n ts

-- `Put`: the transaction takes the place of the one with its nonce.
abbrev pub upsert : Tx → List Tx → List Tx
upsert t [] = t ∷ []
upsert t (x ∷ ts) =
    if ltb t.nonce x.nonce
    then t ∷ x ∷ ts
    else if t.nonce == x.nonce
    then t ∷ ts
    else x ∷ upsert t ts

pub Above-le : (n k : ℕ) (ts : List Tx) → n ≤ k → Above k ts → Above n ts
Above-le n k [] h a = tt
Above-le n k (t ∷ ts) h a = (omega arith, Above-le n k ts h a.1)

pub find-Above : (n k : ℕ) (ts : List Tx) → n ≤ k → Above k ts → find n ts ≡ none
find-Above n k [] h a = refl
find-Above n k (t ∷ ts) h a = ground (arith, find-Above n k ts h a.1)

pub find-nonce : (n : ℕ) (ts : List Tx) (t : Tx) → find n ts ≡ some t → t.nonce ≡ n
find-nonce n [] t e = ground arith
find-nonce n (x ∷ ts) t e = ground (arith, find-nonce n ts t)

pub find-upsert :
    (n : ℕ) (t : Tx) (ts : List Tx)
    → find n (upsert t ts) ≡ (if t.nonce == n then some t else find n ts)
find-upsert n t [] = refl
find-upsert n t (x ∷ ts) = ground (arith, find-upsert n t ts)

upsert-Above : (n : ℕ) (t : Tx) (ts : List Tx) → n < t.nonce → Above n ts → Above n (upsert t ts)
upsert-Above n t [] h a = (h, tt)
upsert-Above n t (x ∷ ts) h a = ground (arith, upsert-Above n t ts h a.1)

pub upsert-Ascends : (t : Tx) (ts : List Tx) → Ascends ts → Ascends (upsert t ts)
upsert-Ascends t [] a = (tt, tt)
upsert-Ascends t (x ∷ ts) a =
    ground (arith, upsert-Ascends t ts a.1, upsert-Above x.nonce t ts, Above-le t.nonce x.nonce ts)

-- Two ascending lists with the same transactions are one.
pub Ascends-ext :
    (xs ys : List Tx) → Ascends xs → Ascends ys → ((n : ℕ) → find n xs ≡ find n ys) → xs ≡ ys
Ascends-ext [] [] a b h = refl
Ascends-ext [] (y ∷ ys) a b h = ground (arith, h y.nonce)
Ascends-ext (x ∷ xs) [] a b h = ground (arith, h x.nonce)
Ascends-ext (x ∷ xs) (y ∷ ys) a b h =
    let head : x ≡ y =
      ground (
        arith,
        h x.nonce,
        h y.nonce,
        find-Above x.nonce y.nonce ys,
        find-Above y.nonce x.nonce xs,
      ) in
    let rest : (n : ℕ) → find n xs ≡ find n ys =
      λ n. ground (arith, head, h n, find-Above n x.nonce xs, find-Above n y.nonce ys) in
    let tails = Ascends-ext xs ys a.1 b.1 rest in cc

-- The map and the list hold the same transactions.
abbrev pub Holds : GoMap Tx → List Tx → Type 0
Holds items ts = (n : ℕ) → lookup n items ≡ find n ts

-- Every transaction stands under its nonce.
abbrev pub IsKeyed : GoMap Tx → Type 0
IsKeyed [] = Unit
IsKeyed ((n, t) ∷ m) = (t.nonce ≡ n) × IsKeyed m

find-insert_by_nonce :
    (n : ℕ) (t : Tx) (ts : List Tx)
    → find t.nonce ts ≡ none
    → find n (insert_by_nonce t ts) ≡ (if t.nonce == n then some t else find n ts)
unfolding insert_by_nonce
find-insert_by_nonce n t [] e = refl
find-insert_by_nonce n t (x ∷ ts) e = ground (arith, find-insert_by_nonce n t ts)

insert_by_nonce-Above :
    (n : ℕ) (t : Tx) (ts : List Tx) → n < t.nonce → Above n ts → Above n (insert_by_nonce t ts)
unfolding insert_by_nonce
insert_by_nonce-Above n t [] h a = (h, tt)
insert_by_nonce-Above n t (x ∷ ts) h a = ground (arith, insert_by_nonce-Above n t ts h a.1)

insert_by_nonce-Ascends :
    (t : Tx) (ts : List Tx) → find t.nonce ts ≡ none → Ascends ts → Ascends (insert_by_nonce t ts)
unfolding insert_by_nonce
insert_by_nonce-Ascends t [] e a = (tt, tt)
insert_by_nonce-Ascends t (x ∷ ts) e a = ground (
  arith,
  insert_by_nonce-Ascends t ts,
  insert_by_nonce-Above x.nonce t ts,
  Above-le t.nonce x.nonce ts,
)

insert_by_nonce-perm : (t : Tx) (ts : List Tx) → Perm (insert_by_nonce t ts) (t ∷ ts)
unfolding insert_by_nonce
insert_by_nonce-perm t [] = Perm.refl (t ∷ [])
insert_by_nonce-perm t (x ∷ ts) = elim (Bool-cases (leb t.nonce x.nonce)) [
  | inl first ↦ rw first (Perm.refl (t ∷ x ∷ ts))
  | inr later ↦ rw later (Perm.trans (Perm.cons x (insert_by_nonce-perm t ts)) (Perm.swap t x ts))
]

pub sort_by_nonce-perm : (ts : List Tx) → Perm (sort_by_nonce ts) ts
unfolding sort_by_nonce
sort_by_nonce-perm [] = Perm.nil
sort_by_nonce-perm (t ∷ ts) =
    Perm.trans (insert_by_nonce-perm t (sort_by_nonce ts)) (Perm.cons t (sort_by_nonce-perm ts))

-- The values of a map in the order of the nonces.
sort_values :
    (m : GoMap Tx)
    → Distinct m
    → IsKeyed m
    → Ascends (sort_by_nonce (values m)) × Holds m (sort_by_nonce (values m))
unfolding sort_by_nonce
sort_values [] d k = (tt, λ n. refl)
sort_values ((i, t) ∷ m) d k =
    let (asc, holds) = sort_values m d.1 k.1 in
    let fresh : find t.nonce (sort_by_nonce (values m)) ≡ none = ground (arith, holds i) in
    (
      insert_by_nonce-Ascends t (sort_by_nonce (values m)) fresh asc,
      λ n. ground (arith, holds n, find-insert_by_nonce n t (sort_by_nonce (values m)) fresh),
    )

-- A map that holds an ascending list gives that list when it is sorted.
pub sort_by_nonce-values :
    (m : GoMap Tx) (ts : List Tx)
    → Distinct m
    → IsKeyed m
    → Ascends ts
    → Holds m ts
    → sort_by_nonce (values m) ≡ ts
sort_by_nonce-values m ts d k a h =
    let (asc, holds) = sort_values m d k in Ascends-ext _ ts asc a (λ n. sym (holds n) ∙ h n)

pub values-perm :
    (m : GoMap Tx) (ts : List Tx)
    → Distinct m
    → IsKeyed m
    → Ascends ts
    → Holds m ts
    → Perm (values m) ts
values-perm m ts d k a h =
    rw (sort_by_nonce-values m ts d k a h) at (Perm.symm (sort_by_nonce-perm (values m)))

pub keys-nonces : (m : GoMap Tx) → IsKeyed m → keys m ≡ nonces (values m)
keys-nonces [] k = refl
keys-nonces ((i, t) ∷ m) k = ground (arith, keys-nonces m k.1)

pub length-values : (m : GoMap Tx) → length (values m) ≡ length m
length-values [] = refl
length-values ((i, t) ∷ m) = ap suc (length-values m)
