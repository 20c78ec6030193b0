-- ===== src/Prelude/Slices.antt =====
-- Reads and writes of slices: what `swap` does to every index, and that it loses nothing.
use Prim.Native.Nat.{ℕ, zero, suc, ◌<◌, ◌≤◌}
use mathlib.Core.Path.{◌≡◌, refl, ◌∙◌}
use mathlib.Core.Logic.{inl, inr, ∥∥₁_elim}
use native.Mathlib.Nat.{ℕ_set}
use mathlib.Core.List.{List, [], ◌∷◌, Perm, Permᴰ}
use mathlib.Core.List.Perm
use mathlib.Core.Option.{none, some}
use native.Mathlib.Omega.{arith}
use chain_master.Prelude.Tests.{◌==◌, if◌then◌else◌, Option-cases}
use chain_master.Prelude.Lists.{length, get_elem?, set}

-- Where the index `c` of a swapped slice was before.
abbrev pub place : ℕ → ℕ → ℕ → ℕ
place i j c = if i == c then j else if j == c then i else c

module _ {A : Type 0} where
  -- `a[i], a[j] = a[j], a[i]`; outside the slice nothing is written.
  unfoldable pub swap : List A → ℕ → ℕ → List A
  swap a i j = elim (get_elem? a i) [
    | none ↦ a
    | some x ↦ elim (get_elem? a j) [ none ↦ a | some y ↦ set (set a i y) j x ]
  ]

  pub get_elem?-some : (a : List A) (i : ℕ) → i < length a → (x : A) × (get_elem? a i ≡ some x)
  get_elem?-some [] i h = absurd (omega arith)
  get_elem?-some (x ∷ a) zero h = (x, refl)
  get_elem?-some (x ∷ a) (suc i) h = get_elem?-some a i (omega arith)

  pub get_elem?-none : (a : List A) (i : ℕ) → length a ≤ i → get_elem? a i ≡ none
  get_elem?-none [] i h = refl
  get_elem?-none (x ∷ a) zero h = absurd (omega arith)
  get_elem?-none (x ∷ a) (suc i) h = get_elem?-none a i (omega arith)

  pub lt_of_get_elem? : (a : List A) (i : ℕ) (x : A) → get_elem? a i ≡ some x → i < length a
  lt_of_get_elem? [] i x h = ground arith
  lt_of_get_elem? (y ∷ a) zero x h = omega arith
  lt_of_get_elem? (y ∷ a) (suc i) x h = omega (arith, lt_of_get_elem? a i x h)

  pub length-set : (xs : List A) (at : ℕ) (new : A) → length (set xs at new) ≡ length xs
  length-set [] at new = omega arith
  length-set (x ∷ xs) zero new = omega arith
  length-set (x ∷ xs) (suc at) new = omega (arith, length-set xs at new)

  pub get_elem?-set :
      (a : List A) (i c : ℕ) (v : A)
      → i < length a
      → get_elem? (set a i v) c ≡ (if i == c then some v else get_elem? a c)
  get_elem?-set [] i c v h = absurd (omega arith)
  get_elem?-set (x ∷ a) zero zero v h = refl
  get_elem?-set (x ∷ a) zero (suc c) v h = ground arith
  get_elem?-set (x ∷ a) (suc i) zero v h = ground arith
  get_elem?-set (x ∷ a) (suc i) (suc c) v h = ground (arith, get_elem?-set a i c v)

  -- The entry that is written over changes places with the one that is written.
  set-perm : (a : List A) (i : ℕ) (x v : A) → get_elem? a i ≡ some x → Perm (x ∷ set a i v) (v ∷ a)
  set-perm [] i x v h = ground arith
  set-perm (y ∷ a) zero x v h = let e : y ≡ x = ground arith in rw e (Perm.swap v x a)
  set-perm (y ∷ a) (suc i) x v h =
      Perm.trans (Perm.swap y x (set a i v))
        (Perm.trans (Perm.cons y (set-perm a i x v h)) (Perm.swap v y a))

  swap-eq-set :
      (a : List A) (i j : ℕ) (x y : A)
      → get_elem? a i ≡ some x
      → get_elem? a j ≡ some y
      → swap a i j ≡ set (set a i y) j x
  unfolding swap
  swap-eq-set a i j x y ei ej = ground arith

  pub length-swap : (a : List A) (i j : ℕ) → length (swap a i j) ≡ length a
  unfolding swap
  length-swap a i j = elim (Option-cases (get_elem? a i)) [
    | inl e ↦ rw (e, swap)
    | inr (x, e) ↦ elim (Option-cases (get_elem? a j)) [
      | inl f ↦ rw (e, swap) (ground arith)
      | inr (y, f) ↦ rw (swap-eq-set a i j x y e f) (length-set (set a i y) j x ∙ length-set a i y)
    ]
  ]

module _ {A : Type 0} (a : List A) (i j : ℕ) (hi : i < length a) (hj : j < length a) where
  pub get_elem?-swap : (c : ℕ) → get_elem? (swap a i j) c ≡ get_elem? a (place i j c)
  get_elem?-swap c =
      let (x, ei) = get_elem?-some a i hi in
      let (y, ej) = get_elem?-some a j hj in
      rw (swap-eq-set a i j x y ei ej) (
        ground (arith, get_elem?-set (set a i y) j c x, get_elem?-set a i c y hi, length-set a i y))

  pub swap-perm : Perm (swap a i j) a
  swap-perm =
      let (x, ei) = get_elem?-some a i hi in
      let (y, ej) = get_elem?-some a j hj in
      let kept : get_elem? (set a i y) j ≡ some y = ground (arith, get_elem?-set a i j y hi) in
      rw (swap-eq-set a i j x y ei ej)
        (Perm.cons_inv (Perm.trans (set-perm (set a i y) j y x kept) (set-perm a i x y ei)))

module _ {A : Type 0} where
  length-permᴰ : {a b : List A} → Permᴰ a b → length a ≡ length b
  length-permᴰ Permᴰ.nil = refl
  length-permᴰ (Permᴰ.cons x p) = omega (arith, length-permᴰ p)
  length-permᴰ (Permᴰ.swap x y) = refl
  length-permᴰ (Permᴰ.trans p q) = omega (arith, length-permᴰ p, length-permᴰ q)

  -- Another order has as many entries.
  pub length-perm : {a b : List A} → Perm a b → length a ≡ length b
  length-perm p = ∥∥₁_elim p (ℕ_set _ _) length-permᴰ
