-- ===== src/Heap/Down.antt =====
-- `down` mends a heap with one entry too high in the tree.
use mathlib.Core.List.Perm
use chain_master.Prelude.{
  ℕ, zero, suc, ◌+◌, ◌*◌, ◌<◌, ◌≤◌, ◌≡◌, ◌≢◌, ◌⊎◌, refl, arith, Bool, true, false, List, length,
  get_elem?, inl, inr, Bool-cases, ◌||◌, not, leb,
}
use mathlib.Core.List.{Perm}
use chain_master.Prelude.Slices.{swap, get_elem?-swap, length-swap, swap-perm}
use chain_master.Heap.{less_at, child, down_loop}
use chain_master.Heap.Order.{
  StrictOrder, parent, IsHeapFrom, less_at-swap, less_at-asym, less_at_irrefl, less_at_trans,
}

module _ {A : Type 0} where
  -- The slice `b` is `a` in another order, and the same from `n` on.
  pub record Moved (n : ℕ) (a b : List A) : Type 0 where
    pub same : Perm b a
    pub size : length b ≡ length a
    pub rest : (k : ℕ) → n ≤ k → get_elem? b k ≡ get_elem? a k

  pub Moved-refl : (n : ℕ) (a : List A) → Moved n a a
  Moved-refl n a = record { same = Perm.refl a; size = refl; rest = λ k h. refl }

  pub Moved-swap :
      (n : ℕ) (a b : List A) (i j : ℕ)
      → n ≤ length a
      → i < n
      → j < n
      → Moved n (swap a i j) b
      → Moved n a b
  Moved-swap n a b i j h hi hj m = record {
    same = Perm.trans m.same (swap-perm a i j (omega arith) (omega arith));
    size = omega (arith, m.size, length-swap a i j);
    rest = λ k g. ground (arith, m.rest k g, get_elem?-swap a i j (omega arith) (omega arith) k);
  }

module _ {A : Type 0} (less : A → A → Bool) where
  -- Only the edges below `i` may be out of order.
  pub record DownInv (lo n : ℕ) (a : List A) (i : ℕ) : Type 0 where
    pub edges :
        (c : ℕ) → 0 < c → c < n → lo ≤ parent c → parent c ≢ i → less_at less a c (parent c) ≡ false
    pub bridged :
        (c : ℕ)
        → 0 < c
        → c < n
        → parent c ≡ i
        → 0 < i
        → lo ≤ parent i
        → less_at less a c (parent i) ≡ false

  -- The entry at `i` may be out of order with its parent and with its children.
  pub record LooseInv (lo n : ℕ) (a : List A) (i : ℕ) : Type 0 where
    pub edges :
        (c : ℕ)
        → 0 < c
        → c < n
        → lo ≤ parent c
        → c ≢ i
        → parent c ≢ i
        → less_at less a c (parent c) ≡ false
    pub bridged :
        (c : ℕ)
        → 0 < c
        → c < n
        → parent c ≡ i
        → 0 < i
        → lo ≤ parent i
        → less_at less a c (parent i) ≡ false

  pub DownInv-LooseInv : (lo n : ℕ) (a : List A) (i : ℕ) → DownInv lo n a i → LooseInv lo n a i
  DownInv-LooseInv lo n a i v = record { edges = λ c p q r s. v.edges c p q r; bridged = v.bridged }

  -- The child that `down` chooses is no larger than the other.
  pub record IsLeastChild (n : ℕ) (a : List A) (i j : ℕ) : Type 0 where
    pub inside : j < n
    pub below : (j ≡ 2 * i + 1) ⊎ (j ≡ 2 * i + 2)
    pub least : (c : ℕ) → 0 < c → c < n → parent c ≡ i → less_at less a c j ≡ false

module _ {A : Type 0} {less : A → A → Bool} (o : StrictOrder less) where
  pub child-IsLeastChild :
      (a : List A) (i n : ℕ) → 2 * i + 1 < n → IsLeastChild less n a i (child less a i n)
  unfolding child
  child-IsLeastChild a i n h = record {
    inside = ground arith;
    below = ground arith;
    least = λ c p q r.
        let sides : (c ≡ 2 * i + 1) ⊎ (c ≡ 2 * i + 1 + 1) = omega arith in
        ground (arith, sides, less_at_irrefl o a c, less_at-asym o a (2 * i + 1 + 1) (2 * i + 1));
  }

  pub swap-DownInv :
      (lo n : ℕ) (a : List A) (i j : ℕ)
      → n ≤ length a
      → LooseInv less lo n a i
      → IsLeastChild less n a i j
      → less_at less a j i ≡ true
      → DownInv less lo n (swap a i j) j
  swap-DownInv lo n a i j h v s t =
      let hi : i < length a = omega (arith, s.inside) in
      let hj : j < length a = omega (arith, s.inside) in
      let at = λ (c d : ℕ). less_at-swap less a i j c d hi hj in
      let back = less_at-asym o a j i t in
      record {
        edges =
            λ c p q r e. ground (arith, at c (parent c), v.edges c, v.bridged j, s.least c, back);
        bridged = λ c p q r u l. ground (arith, at c (parent j), v.edges c);
      }

  -- No child is below the entry.
  abbrev pub settles : List A → ℕ → ℕ → Bool
  settles a i n = leb n (2 * i + 1) || not (less_at less a (child less a i n) i)

  pub down_loop-stop :
      (k : ℕ) (a : List A) (i n : ℕ) → settles a i n ≡ true → down_loop less (suc k) a i n ≡ (a, i)
  unfolding down_loop
  down_loop-stop k a i n e = rw (e, down_loop)

  pub down_loop-step :
      (k : ℕ) (a : List A) (i n : ℕ)
      → settles a i n ≡ false
      → down_loop less (suc k) a i n
        ≡ down_loop less k (swap a i (child less a i n)) (child less a i n) n
  unfolding down_loop
  down_loop-step k a i n e = rw (e, down_loop)

  -- An entry that is not above its children is in its place.
  pub settled_edges :
      (n : ℕ) (a : List A) (i c : ℕ)
      → settles a i n ≡ true
      → 0 < c
      → c < n
      → parent c ≡ i
      → less_at less a c i ≡ false
  settled_edges n a i c e p q r =
      let s = child-IsLeastChild a i n (omega arith) in
      ground (arith, s.least c, less_at_trans o a i (child less a i n) c)

  -- Let the only fault of a slice be below `i`: then `down` makes it a heap of the same entries.
  pub down_loop-IsHeapFrom :
      (k lo n : ℕ) (a : List A) (i : ℕ)
      → n ≤ length a
      → n < k + i
      → DownInv less lo n a i
      → let b = (down_loop less k a i n).0 in IsHeapFrom less lo n b × Moved n a b
  unfolding down_loop
  down_loop-IsHeapFrom zero lo n a i h f v =
      (λ c p q r. v.edges c p q r (omega arith), Moved-refl n a)
  down_loop-IsHeapFrom (suc k) lo n a i h f v = elim (Bool-cases (settles a i n)) [
    | inl stop ↦
        rw (down_loop-stop k a i n stop)
          (λ c p q r. ground (arith, v.edges c, settled_edges n a i c stop), Moved-refl n a)
    | inr go ↦
        let s = child-IsLeastChild a i n (ground arith) in
        let j = child less a i n in
        let t : less_at less a j i ≡ true = ground arith in
        let (heap, moved) =
          down_loop-IsHeapFrom k lo n (swap a i j) j (omega (arith, length-swap a i j))
            (omega (arith, s.below))
            (swap-DownInv lo n a i j h (DownInv-LooseInv less lo n a i v) s t) in
        rw (down_loop-step k a i n go)
          (heap, Moved-swap n a _ i j h (omega (arith, s.below, s.inside)) s.inside moved)
  ]

  -- The entry moves towards the leaves.
  pub down_loop-ge : (k : ℕ) (a : List A) (i n : ℕ) → i ≤ (down_loop less k a i n).1
  unfolding down_loop
  down_loop-ge zero a i n = omega arith
  down_loop-ge (suc k) a i n = elim (Bool-cases (settles a i n)) [
    | inl stop ↦ rw (down_loop-stop k a i n stop) (omega arith)
    | inr go ↦
        let s = child-IsLeastChild a i n (ground arith) in
        rw (down_loop-step k a i n go) (
          omega (arith, s.below, down_loop-ge k (swap a i (child less a i n)) (child less a i n) n))
  ]
