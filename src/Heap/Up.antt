-- ===== src/Heap/Up.antt =====
-- `up` mends a heap with one entry too low in the tree.
use chain_master.Prelude.{
  ℕ, zero, suc, ◌<◌, ◌≤◌, ◌≡◌, ◌≢◌, arith, Bool, true, false, List, length, inl, inr, Bool-cases,
  ◌||◌, not, ◌==◌,
}
use chain_master.Prelude.Slices.{swap, length-swap}
use chain_master.Heap.{less_at, up_loop}
use chain_master.Heap.Order.{
  StrictOrder, parent, IsHeapFrom, less_at-swap, less_at-asym, less_at_trans,
}
use chain_master.Heap.Down.{Moved, Moved-refl, Moved-swap}

module _ {A : Type 0} (less : A → A → Bool) where
  -- Below `n`, only the edge above `j` may be out of order.
  pub record UpInv (n : ℕ) (a : List A) (j : ℕ) : Type 0 where
    pub edges : (c : ℕ) → 0 < c → c < n → c ≢ j → less_at less a c (parent c) ≡ false
    pub bridged :
        (c : ℕ) → 0 < c → c < n → parent c ≡ j → 0 < j → less_at less a c (parent j) ≡ false

module _ {A : Type 0} {less : A → A → Bool} (o : StrictOrder less) where
  swap-UpInv :
      (n : ℕ) (a : List A) (j : ℕ)
      → n ≤ length a
      → j < n
      → 0 < j
      → UpInv less n a j
      → less_at less a j (parent j) ≡ true
      → UpInv less n (swap a (parent j) j) (parent j)
  swap-UpInv n a j h hj pos v t =
      let i = parent j in
      let hi' : i < length a = omega arith in
      let hj' : j < length a = omega arith in
      let at = λ (c d : ℕ). less_at-swap less a i j c d hi' hj' in
      let back = less_at-asym o a j i t in
      record {
        edges = λ c p q r.
            ground (arith, at c (parent c), v.edges c, v.bridged c, back, less_at_trans o a j i c);
        bridged = λ c p q r u.
            ground (arith, at c (parent i), v.edges c, v.edges i, less_at_trans o a (parent i) i c);
      }

  abbrev rests : List A → ℕ → Bool
  rests a j = parent j == j || not (less_at less a j (parent j))

  up_loop-stop : (k : ℕ) (a : List A) (j : ℕ) → rests a j ≡ true → up_loop less (suc k) a j ≡ a
  unfolding up_loop
  up_loop-stop k a j e = rw (e, up_loop)

  up_loop-step :
      (k : ℕ) (a : List A) (j : ℕ)
      → rests a j ≡ false
      → up_loop less (suc k) a j ≡ up_loop less k (swap a (parent j) j) (parent j)
  unfolding up_loop
  up_loop-step k a j e = rw (e, up_loop)

  -- Let the only fault of a slice be the edge above `j`: then `up` makes it a heap of the same
  -- entries.
  pub up_loop-IsHeapFrom :
      (k n : ℕ) (a : List A) (j : ℕ)
      → n ≤ length a
      → j < n
      → j < k
      → UpInv less n a j
      → let b = up_loop less k a j in IsHeapFrom less 0 n b × Moved n a b
  up_loop-IsHeapFrom zero n a j h hj f v = absurd (omega arith)
  up_loop-IsHeapFrom (suc k) n a j h hj f v = elim (Bool-cases (rests a j)) [
    | inl stop ↦ rw (up_loop-stop k a j stop) (λ c p q r. ground (arith, v.edges c), Moved-refl n a)
    | inr go ↦
        let pos : 0 < j = ground arith in
        let t : less_at less a j (parent j) ≡ true = ground arith in
        let (heap, moved) =
          up_loop-IsHeapFrom k n (swap a (parent j) j) (parent j)
            (omega (arith, length-swap a (parent j) j)) (omega arith) (omega arith)
            (swap-UpInv n a j h hj pos v t) in
        rw (up_loop-step k a j go) (heap, Moved-swap n a _ (parent j) j h (omega arith) hj moved)
  ]
