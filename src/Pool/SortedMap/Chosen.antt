-- ===== src/Pool/SortedMap/Chosen.antt =====
-- The operations that take chosen transactions: Filter, Remove, Flatten.
use mathlib.Core.List.Perm
use mathlib.Core.List.{Perm, Permᴰ, Perm-prop}
use mathlib.Core.Logic.{∥∥₁_elim}
use chain_master.Prelude.Slices.{length-perm}
use chain_master.Prelude.{
  ℕ, ◌≡◌, refl, ap, arith, Bool, Option, none, some, List, [], ◌∷◌, ltb, if◌then◌else◌, length, sym,
  ◌∙◌, inl, inr, Option-cases, Bool-cases,
}
use chain_master.Prelude.GoMap.{GoMap, lookup, Distinct, values, keys}
use chain_master.Heap
use chain_master.Heap.Remove.{init-IsHeap}
use chain_master.Pool.Tx.{Tx}
use chain_master.Pool.SortedMap.{SortedMap, select, keep, filter, flatten}
use chain_master.Pool.SortedMap.Spec.{
  nonces, Above, Ascends, find, Holds, IsKeyed, find-Above, sort_by_nonce-values, values-perm,
  keys-nonces,
}
use chain_master.Pool.SortedMap.Invariant.{Represents, Stores, nonce_order}
use chain_master.Pool.SortedMap.Lowest.{reject}

-- `Flatten` returns the list in the order of the nonces, and the map still stands for it.
pub flatten-Represents :
    (m : SortedMap) (ts : List Tx)
    → Represents m ts
    → let (txs, m') = flatten m in (txs ≡ ts) × Represents m' ts
unfolding flatten
flatten-Represents m ts r = elim (Option-cases m.cache) [
  | inl empty ↦
      let sorted = sort_by_nonce-values m.items ts r.distinct r.keyed r.ascends r.holds in
      rw (empty, flatten)
        (sorted, record { stores = r.stores; cached = λ c e. ground (arith, sorted) })
  | inr (txs, full) ↦ rw (full, flatten) (r.cached txs full, r)
]

module _ (f : Tx → Bool) where
  -- What a test leaves of one entry.
  abbrev left_over : Option Tx → Option Tx
  left_over none = none
  left_over (some t) = if f t then none else some t

  lookup-keep : (n : ℕ) (m : GoMap Tx) → Distinct m → lookup n (keep f m) ≡ left_over (lookup n m)
  unfolding keep
  lookup-keep n [] d = refl
  lookup-keep n ((i, t) ∷ m) d = ground (arith, lookup-keep n m d.1)

  keep-Distinct : (m : GoMap Tx) → Distinct m → Distinct (keep f m)
  unfolding keep
  keep-Distinct [] d = tt
  keep-Distinct ((i, t) ∷ m) d = ground (arith, keep-Distinct m d.1, lookup-keep i m d.1)

  keep-IsKeyed : (m : GoMap Tx) → IsKeyed m → IsKeyed (keep f m)
  unfolding keep
  keep-IsKeyed [] k = tt
  keep-IsKeyed ((i, t) ∷ m) k = ground (arith, keep-IsKeyed m k.1)

  reject-Above : (n : ℕ) (ts : List Tx) → Above n ts → Above n (reject f ts)
  reject-Above n [] a = tt
  reject-Above n (t ∷ ts) a = ground (arith, reject-Above n ts a.1)

  pub reject-Ascends : (ts : List Tx) → Ascends ts → Ascends (reject f ts)
  reject-Ascends [] a = tt
  reject-Ascends (t ∷ ts) a = ground (arith, reject-Ascends ts a.1, reject-Above t.nonce ts a.0)

  pub find-reject :
      (n : ℕ) (ts : List Tx) → Ascends ts → find n (reject f ts) ≡ left_over (find n ts)
  find-reject n [] a = refl
  find-reject n (t ∷ ts) a = ground (
    arith,
    find-reject n ts a.1,
    find-Above n t.nonce ts,
    find-Above n t.nonce (reject f ts),
    reject-Above t.nonce ts a.0,
  )

  select-cons :
      (x y : Tx) (xs ys : List Tx)
      → x ≡ y
      → Perm (select f xs) (select f ys)
      → Perm (select f (x ∷ xs)) (select f (y ∷ ys))
  unfolding select
  select-cons x y xs ys e p =
      rw (← e)
        (elim (Bool-cases (f x)) [ inl yes_f ↦ rw yes_f (Perm.cons x p) | inr no_f ↦ rw no_f p ])

  select-swap : (x y : Tx) (ts : List Tx) → Perm (select f (x ∷ y ∷ ts)) (select f (y ∷ x ∷ ts))
  unfolding select
  select-swap x y ts = elim (Bool-cases (f x)) [
    | inl e ↦ elim (Bool-cases (f y)) [
      | inl g ↦ rw (e, g) (Perm.swap y x _)
      | inr g ↦ rw (e, g) (Perm.refl _)
    ]
    | inr e ↦ rw e (Perm.refl _)
  ]

  select-permᴰ : {xs ys : List Tx} → Permᴰ xs ys → Perm (select f xs) (select f ys)
  unfolding select
  select-permᴰ Permᴰ.nil = Perm.nil
  select-permᴰ (Permᴰ.cons {a = a} {b = b} {l₁ = k} {l₂ = l} e p) =
      select-cons a b k l e (select-permᴰ p)
  select-permᴰ (Permᴰ.swap {a = a} {b = b} {a' = c} {b' = d} {l = l} p q) =
      Perm.trans (select-swap a b l)
        (select-cons b c (a ∷ l) (d ∷ l) q (select-cons a d l l p (Perm.refl (select f l))))
  select-permᴰ (Permᴰ.trans p q) = Perm.trans (select-permᴰ p) (select-permᴰ q)

  -- When nothing is selected, nothing is rejected.
  select-nil : (ts : List Tx) → length (select f ts) ≡ 0 → reject f ts ≡ ts
  unfolding select
  select-nil [] e = refl
  select-nil (t ∷ ts) e = ground (arith, select-nil ts)

  keep-nil : (m : GoMap Tx) → length (select f (values m)) ≡ 0 → keep f m ≡ m
  unfolding select keep
  keep-nil [] e = refl
  keep-nil ((i, t) ∷ m) e = ground (arith, keep-nil m)

  nonces-permᴰ : {xs ys : List Tx} → Permᴰ xs ys → Perm (nonces xs) (nonces ys)
  nonces-permᴰ Permᴰ.nil = Perm.nil
  nonces-permᴰ (Permᴰ.cons e p) = Perm.cons' (ap (λ t. t.nonce) e) (nonces-permᴰ p)
  nonces-permᴰ (Permᴰ.swap p q) =
      Perm.trans (Perm.swap _ _ _)
        (Perm.cons' (ap (λ t. t.nonce) q) (Perm.cons' (ap (λ t. t.nonce) p) (Perm.refl _)))
  nonces-permᴰ (Permᴰ.trans p q) = Perm.trans (nonces-permᴰ p) (nonces-permᴰ q)

  module _ (m : SortedMap) (ts : List Tx) (r : Represents m ts) where
    listed : Perm (values m.items) ts
    listed = values-perm m.items ts r.distinct r.keyed r.ascends r.holds

    removed-perm : Perm (select f (values m.items)) (select f ts)
    removed-perm = ∥∥₁_elim listed Perm-prop select-permᴰ

    kept-Holds : Holds (keep f m.items) (reject f ts)
    kept-Holds n =
        lookup-keep n m.items r.distinct
        ∙ ap left_over (r.holds n)
        ∙ sym (find-reject n ts r.ascends)

    kept-Stores : Stores (keep f m.items) (Heap.init ltb (keys (keep f m.items))) (reject f ts)
    kept-Stores =
        let kept = keep f m.items in
        let distinct = keep-Distinct m.items r.distinct in
        let keyed = keep-IsKeyed m.items r.keyed in
        let ascends = reject-Ascends ts r.ascends in
        let (heap, same) = init-IsHeap nonce_order (keys kept) in
        let order =
          ∥∥₁_elim (values-perm kept (reject f ts) distinct keyed ascends kept-Holds) Perm-prop
            nonces-permᴰ in
        record {
          ascends = ascends;
          distinct = distinct;
          keyed = keyed;
          holds = kept-Holds;
          heap = heap;
          same = Perm.trans same (rw (keys-nonces kept keyed) order);
        }

    -- `Filter` returns the transactions that pass the test, in some order, and leaves a map that
    -- stands for the others.
    pub filter-Represents :
        let (removed, m') = filter m f in Perm removed (select f ts) × Represents m' (reject f ts)
    unfolding filter
    filter-Represents = elim (Bool-cases (ltb 0 (length (select f (values m.items))))) [
      | inl hits ↦
          rw hits (removed-perm, record { stores = kept-Stores; cached = λ c e. ground arith })
      | inr misses ↦
          let none_left : length (select f (values m.items)) ≡ 0 = ground arith in
          let none_of_list : length (select f ts) ≡ 0 = omega (arith, length-perm removed-perm) in
          rw misses (removed-perm, rw (keep-nil m.items none_left, select-nil ts none_of_list) r)
    ]
