-- ===== src/Pool/TxList/Cut.antt =====
-- A list cut at the first transaction that is taken out of it.
use mathlib.Core.List.{Mem, mem-cons, not-mem-nil, mem-cons_self}
use mathlib.Core.Logic.Or
use native.Mathlib.Nat.{le_refl, ℕ_set}
use chain_master.Prelude.{
  ℕ, ◌<◌, ◌≤◌, ◌≡◌, refl, inl, inr, Bool-cases, arith, Bool, Option, none, some, List, [], ◌∷◌, ltb,
  if◌then◌else◌, length, All, u64_mod,
}
use chain_master.Pool.Tx.{Tx}
use chain_master.Pool.SortedMap.{select}
use chain_master.Pool.SortedMap.Spec.{nonces, Above, Ascends}
use chain_master.Pool.SortedMap.Invariant.{All-nonces}
use chain_master.Pool.SortedMap.Lowest.{reject}
use chain_master.Pool.SortedMap.Ready.{AreWords}
use chain_master.Pool.TxList.{is_above, lowest_nonce}

-- The transactions before the first one that passes the test.
abbrev pub until : (Tx → Bool) → List Tx → List Tx
until f [] = []
until f (t ∷ ts) = if f t then [] else t ∷ until f ts

-- The others after that one: the removal leaves a gap below them.
abbrev pub orphans : (Tx → Bool) → List Tx → List Tx
orphans f [] = []
orphans f (t ∷ ts) = if f t then reject f ts else orphans f ts

-- The nonce of the first one that passes the test.
abbrev pub first_hit : (Tx → Bool) → List Tx → Option ℕ
first_hit f [] = none
first_hit f (t ∷ ts) = if f t then some t.nonce else first_hit f ts

module _ (f : Tx → Bool) where
  reject_past : (n : ℕ) (ts : List Tx) → Above n ts → reject (is_above n) (reject f ts) ≡ []
  unfolding is_above
  reject_past n [] a = refl
  reject_past n (t ∷ ts) a = ground (arith, reject_past n ts a.1)

  select_past :
      (n : ℕ) (ts : List Tx) → Above n ts → select (is_above n) (reject f ts) ≡ reject f ts
  unfolding is_above select
  select_past n [] a = refl
  select_past n (t ∷ ts) a = ground (arith, select_past n ts a.1)

  first_hit-Above : (b n : ℕ) (ts : List Tx) → Above b ts → first_hit f ts ≡ some n → b < n
  first_hit-Above b n [] a e = ground arith
  first_hit-Above b n (t ∷ ts) a e = ground (arith, first_hit-Above b n ts a.1)

  pub until-reject :
      (n : ℕ) (ts : List Tx)
      → Ascends ts
      → first_hit f ts ≡ some n
      → reject (is_above n) (reject f ts) ≡ until f ts
  unfolding is_above
  until-reject n [] a e = refl
  until-reject n (t ∷ ts) a e =
      ground
        (arith, until-reject n ts a.1, reject_past t.nonce ts a.0, first_hit-Above t.nonce n ts a.0)

  pub orphans-select :
      (n : ℕ) (ts : List Tx)
      → Ascends ts
      → first_hit f ts ≡ some n
      → select (is_above n) (reject f ts) ≡ orphans f ts
  unfolding is_above select
  orphans-select n [] a e = refl
  orphans-select n (t ∷ ts) a e =
      ground (
        arith,
        orphans-select n ts a.1,
        select_past t.nonce ts a.0,
        first_hit-Above t.nonce n ts a.0,
      )

  pub until-all : (ts : List Tx) → length (select f ts) ≡ 0 → until f ts ≡ reject f ts
  unfolding select
  until-all [] e = refl
  until-all (t ∷ ts) e = ground (arith, until-all ts)

  pub orphans-none : (ts : List Tx) → length (select f ts) ≡ 0 → orphans f ts ≡ []
  unfolding select
  orphans-none [] e = refl
  orphans-none (t ∷ ts) e = ground (arith, orphans-none ts)

  select-Above : (b : ℕ) (ts : List Tx) → Above b ts → Above b (select f ts)
  unfolding select
  select-Above b [] a = tt
  select-Above b (t ∷ ts) a = ground (arith, select-Above b ts a.1)

  -- Where something passes, the first hit is a least nonce of what passes.
  pub first_hit-least :
      (ts : List Tx)
      → Ascends ts
      → AreWords ts
      → 0 < length (select f ts)
      → (n : ℕ) × (first_hit f ts ≡ some n)
        × (n < u64_mod)
        × Mem n (nonces (select f ts))
        × All (λ k. n ≤ k) (nonces (select f ts))
  unfolding select
  first_hit-least [] a w l = absurd (omega arith)
  first_hit-least (t ∷ ts) a w l = elim (Bool-cases (f t)) [
    | inl hit ↦ rw hit (
      t.nonce,
      refl,
      w.0,
      mem-cons_self,
      (
        le_refl t.nonce,
        All-nonces t.nonce t.nonce (select f ts) (le_refl t.nonce) (select-Above t.nonce ts a.0),
      ),
    )
    | inr miss ↦ rw miss (first_hit-least ts a.1 w.1 (rw miss at l))
  ]

lowest_nonce-keeps : (n : ℕ) (ts : List Tx) → All (λ k. n ≤ k) (nonces ts) → lowest_nonce n ts ≡ n
unfolding lowest_nonce
lowest_nonce-keeps n [] a = refl
lowest_nonce-keeps n (t ∷ ts) a = ground (arith, lowest_nonce-keeps n ts a.1)

-- The loop finds the least nonce.
pub lowest_nonce-least :
    (n lowest : ℕ) (ts : List Tx)
    → n ≤ lowest
    → All (λ k. n ≤ k) (nonces ts)
    → Mem n (nonces ts)
    → lowest_nonce lowest ts ≡ n
unfolding lowest_nonce
lowest_nonce-least n lowest [] h a m = absurd (not-mem-nil m)
lowest_nonce-least n lowest (t ∷ ts) h a m =
    Or.elim (ℕ_set _ _) (mem-cons.0 m) (λ e. ground (arith, lowest_nonce-keeps n ts a.1))
      (λ later.
        lowest_nonce-least n (if ltb t.nonce lowest then t.nonce else lowest) ts
          (ground (arith, a.0, h)) a.1 later)
