-- ===== src/Pool/Consistent/Tally.antt =====
-- Counting transactions.
use mathlib.Core.List.{Perm, Permᴰ}
use mathlib.Core.Logic.{∥∥₁_elim}
use native.Mathlib.Nat.{ℕ_set}
use chain_master.Prelude.{
  ℕ, zero, suc, ◌+◌, ◌≡◌, refl, ap, arith, Bool, true, false, Option, none, some, List, [], ◌∷◌,
  ◌++◌, take, drop, reverse,
}
use mathlib.Core.List.{reverse-cons}
use chain_master.Prelude.GoMap.{GoMap, lookup, insert, delete, values}
use chain_master.Pool.Tx.{Tx}
use chain_master.Pool.SortedMap.{select}
use chain_master.Pool.SortedMap.Spec.{find, upsert, Ascends, find-Above}
use chain_master.Pool.SortedMap.Lowest.{reject}
use chain_master.Pool.SortedMap.Ready.{streak, after_streak, ready_part, unready_part}
use chain_master.Pool.TxList.{TxList}
use chain_master.Pool.TxList.Cut.{until, orphans}

abbrev pub one : Bool → ℕ
one true = 1
one false = 0

-- How many transactions pass a test.
abbrev pub tally : (Tx → Bool) → List Tx → ℕ
tally f [] = 0
tally f (t ∷ ts) = one (f t) + tally f ts

-- The same in the lists of a map.
abbrev pub tally_lists : (Tx → Bool) → GoMap TxList → ℕ
tally_lists f [] = 0
tally_lists f ((a, l) ∷ m) = tally f (values l.txs.items) + tally_lists f m

abbrev pub tally_at : (Tx → Bool) → Option TxList → ℕ
tally_at f none = 0
tally_at f (some l) = tally f (values l.txs.items)

module _ (f : Tx → Bool) where
  tally-permᴰ : {xs ys : List Tx} → Permᴰ xs ys → tally f xs ≡ tally f ys
  tally-permᴰ Permᴰ.nil = refl
  tally-permᴰ (Permᴰ.cons e p) = omega (arith, ap (λ t. one (f t)) e, tally-permᴰ p)
  tally-permᴰ (Permᴰ.swap e h) = omega (arith, ap (λ t. one (f t)) e, ap (λ t. one (f t)) h)
  tally-permᴰ (Permᴰ.trans p q) = omega (arith, tally-permᴰ p, tally-permᴰ q)

  pub tally-perm : {xs ys : List Tx} → Perm xs ys → tally f xs ≡ tally f ys
  tally-perm p = ∥∥₁_elim p (ℕ_set _ _) tally-permᴰ

  pub tally-append : (xs ys : List Tx) → tally f (xs ++ ys) ≡ tally f xs + tally f ys
  tally-append [] ys = omega arith
  tally-append (x ∷ xs) ys = omega (arith, tally-append xs ys)

  pub tally-reverse : (xs : List Tx) → tally f (reverse xs) ≡ tally f xs
  tally-reverse [] = refl
  tally-reverse (x ∷ xs) =
      rw reverse-cons (omega (arith, tally-append (reverse xs) (x ∷ []), tally-reverse xs))

  pub tally-select :
      (g : Tx → Bool) (ts : List Tx) → tally f ts ≡ tally f (select g ts) + tally f (reject g ts)
  unfolding select
  tally-select g [] = refl
  tally-select g (t ∷ ts) = ground (arith, tally-select g ts)

  pub tally-until :
      (g : Tx → Bool) (ts : List Tx)
      → tally f ts ≡ tally f (select g ts) + tally f (orphans g ts) + tally f (until g ts)
  unfolding select
  tally-until g [] = refl
  tally-until g (t ∷ ts) = ground (arith, tally-until g ts, tally-select g ts)

  pub tally-take : (n : ℕ) (ts : List Tx) → tally f ts ≡ tally f (take n ts) + tally f (drop n ts)
  tally-take zero ts = omega arith
  tally-take (suc n) [] = refl
  tally-take (suc n) (t ∷ ts) = omega (arith, tally-take n ts)

  tally-streak :
      (n : ℕ) (ts : List Tx) → tally f ts ≡ tally f (streak n ts) + tally f (after_streak n ts)
  tally-streak n [] = refl
  tally-streak n (t ∷ ts) = ground (arith, tally-streak (n + 1) ts)

  pub tally-ready :
      (n : ℕ) (ts : List Tx) → tally f ts ≡ tally f (ready_part n ts) + tally f (unready_part n ts)
  tally-ready n [] = refl
  tally-ready n (t ∷ ts) = ground (arith, tally-streak t.nonce (t ∷ ts))

  abbrev pub tally_old : Option Tx → ℕ
  tally_old none = 0
  tally_old (some t) = one (f t)

  -- A transaction that is put into a list replaces the one with its nonce.
  pub tally-upsert :
      (t : Tx) (ts : List Tx)
      → Ascends ts
      → tally f (upsert t ts) + tally_old (find t.nonce ts) ≡ one (f t) + tally f ts
  tally-upsert t [] a = omega arith
  tally-upsert t (x ∷ ts) a = ground (arith, tally-upsert t ts a.1, find-Above t.nonce x.nonce ts)

  pub tally_lists-lookup :
      (a : ℕ) (m : GoMap TxList)
      → tally_lists f m ≡ tally_at f (lookup a m) + tally_lists f (delete a m)
  tally_lists-lookup a [] = refl
  tally_lists-lookup a ((b, l) ∷ m) = ground (arith, tally_lists-lookup a m)

  pub tally_lists-insert :
      (a : ℕ) (l : TxList) (m : GoMap TxList)
      → tally_lists f (insert a l m) ≡ tally f (values l.txs.items) + tally_lists f (delete a m)
  tally_lists-insert a l [] = refl
  tally_lists-insert a l ((b, k) ∷ m) = ground (arith, tally_lists-insert a l m)
