-- ===== src/Heap/Order.antt =====
-- The order of a heap, and its root.
use chain_master.Prelude.{
  ℕ, zero, suc, ◌-◌, ◌/◌, ◌<◌, ◌≤◌, ◌≡◌, refl, arith, Bool, true, false, Option, none, some, List,
  length, get_elem?,
}
use chain_master.Prelude.Slices.{swap, place, get_elem?-swap}
use chain_master.Heap.{less?, less_at}

-- A strict weak order: `less y x ≡ false` reads as x ≤ y.
pub record StrictOrder {A : Type 0} (less : A → A → Bool) : Type 0 where
  pub asym : (x y : A) → less x y ≡ true → less y x ≡ false
  pub trans : (x y z : A) → less y x ≡ false → less z y ≡ false → less z x ≡ false

abbrev pub parent : ℕ → ℕ
parent c = (c - 1) / 2

module _ {A : Type 0} (less : A → A → Bool) where
  -- Below `n`, every edge whose parent is at `lo` or later is in order.
  abbrev pub IsHeapFrom : ℕ → ℕ → List A → Type 0
  IsHeapFrom lo n a = (c : ℕ) → 0 < c → c < n → lo ≤ parent c → less_at less a c (parent c) ≡ false

  abbrev pub IsHeap : List A → Type 0
  IsHeap a = IsHeapFrom 0 (length a) a

  pub less_at-swap :
      (a : List A) (i j c d : ℕ)
      → i < length a
      → j < length a
      → less_at less (swap a i j) c d ≡ less_at less a (place i j c) (place i j d)
  less_at-swap a i j c d hi hj = rw (get_elem?-swap a i j hi hj c, get_elem?-swap a i j hi hj d)

module _ {A : Type 0} {less : A → A → Bool} (o : StrictOrder less) where
  irrefl : (x : A) → less x x ≡ false
  irrefl x = ground (arith, o.asym x x)

  pub less_at-asym : (a : List A) (i j : ℕ) → less_at less a i j ≡ true → less_at less a j i ≡ false
  less_at-asym a i j h = asym? (get_elem? a i) (get_elem? a j) h
    where
      asym? : (x y : Option A) → less? less x y ≡ true → less? less y x ≡ false
      asym? none y h = ground arith
      asym? (some x) none h = refl
      asym? (some x) (some y) h = o.asym x y h

  pub less_at_irrefl : (a : List A) (i : ℕ) → less_at less a i i ≡ false
  less_at_irrefl a i = irrefl? (get_elem? a i)
    where
      irrefl? : (x : Option A) → less? less x x ≡ false
      irrefl? none = refl
      irrefl? (some x) = irrefl x

  -- Entries `i ≤ j` and `j ≤ k` give `i ≤ k`.
  pub less_at_trans :
      (a : List A) (i j k : ℕ)
      → less_at less a j i ≡ false
      → less_at less a k j ≡ false
      → less_at less a k i ≡ false
  less_at_trans a i j k h l = trans? (get_elem? a i) (get_elem? a j) (get_elem? a k) h l
    where
      trans? :
          (x y z : Option A)
          → less? less y x ≡ false
          → less? less z y ≡ false
          → less? less z x ≡ false
      trans? x y none h l = refl
      trans? x none (some z) h l = ground arith
      trans? none (some y) (some z) h l = ground arith
      trans? (some x) (some y) (some z) h l = o.trans x y z h l

  root_least_below :
      (k : ℕ) (a : List A) (i : ℕ)
      → IsHeap less a
      → i < k
      → i < length a
      → less_at less a i 0 ≡ false
  root_least_below zero a i h f p = absurd (omega arith)
  root_least_below (suc k) a zero h f p = less_at_irrefl a 0
  root_least_below (suc k) a (suc i) h f p =
      less_at_trans a 0 (parent (suc i)) (suc i)
        (root_least_below k a (parent (suc i)) h (omega arith) (omega arith))
        (h (suc i) (omega arith) p (omega arith))

  -- No entry of a heap is below its root.
  pub root_least : (a : List A) (i : ℕ) → IsHeap less a → i < length a → less_at less a i 0 ≡ false
  root_least a i h p = root_least_below (suc i) a i h (omega arith) p
