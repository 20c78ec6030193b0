-- ===== src/Heap/Ops.antt =====
-- Push, Pop, Remove and Init keep a heap, and lose or make no entry but their own.
use mathlib.Core.List.Perm
use mathlib.Core.List.{Perm, perm_middle, append-nil}
use chain_master.Prelude.{
  ℕ, zero, suc, ◌-◌, ◌<◌, ◌≤◌, ◌≡◌, refl, ◌∙◌, arith, Bool, List, [], ◌∷◌, ◌++◌, length, get_elem?,
  some, take, length-append,
}
use chain_master.Prelude.Slices.{swap, swap-perm, lt_of_get_elem?, length-swap, get_elem?-swap}
use chain_master.Heap.{up, down_loop, down, push, pop}
use chain_master.Heap.Order.{StrictOrder, parent, IsHeapFrom, IsHeap, less_at-swap}
use chain_master.Heap.Down.{down_loop-IsHeapFrom}
use chain_master.Heap.Up.{up_loop-IsHeapFrom}

module _ {A : Type 0} where
  get_elem?-append : (a b : List A) (i : ℕ) → i < length a → get_elem? (a ++ b) i ≡ get_elem? a i
  get_elem?-append [] b i h = absurd (omega arith)
  get_elem?-append (x ∷ a) b zero h = refl
  get_elem?-append (x ∷ a) b (suc i) h = get_elem?-append a b i (omega arith)

  get_elem?-take : (n : ℕ) (a : List A) (i : ℕ) → i < n → get_elem? (take n a) i ≡ get_elem? a i
  get_elem?-take zero a i h = absurd (omega arith)
  get_elem?-take (suc n) [] i h = refl
  get_elem?-take (suc n) (x ∷ a) zero h = refl
  get_elem?-take (suc n) (x ∷ a) (suc i) h = get_elem?-take n a i (omega arith)

  length-take : (n : ℕ) (a : List A) → n ≤ length a → length (take n a) ≡ n
  length-take zero a h = refl
  length-take (suc n) [] h = absurd (omega arith)
  length-take (suc n) (x ∷ a) h = omega (arith, length-take n a)

  -- A slice is its last entry and what is before it.
  pub take-perm :
      (n : ℕ) (a : List A) (x : A)
      → length a ≡ suc n
      → get_elem? a n ≡ some x
      → Perm a (x ∷ take n a)
  take-perm n [] x h e = absurd (omega arith)
  take-perm zero (y ∷ []) x h e = let q : y ≡ x = ground arith in rw q (Perm.refl (x ∷ []))
  take-perm zero (y ∷ z ∷ a) x h e = absurd (omega arith)
  take-perm (suc n) (y ∷ a) x h e =
      Perm.trans (Perm.cons y (take-perm n a x (omega arith) e)) (Perm.swap x y (take n a))

module _ {A : Type 0} {less : A → A → Bool} (o : StrictOrder less) where
  -- A shorter heap.
  pub IsHeap-take :
      (n : ℕ) (a : List A) → n ≤ length a → IsHeapFrom less 0 n a → IsHeap less (take n a)
  IsHeap-take n a h v c p q r =
      ground (arith, v c, length-take n a, get_elem?-take n a c, get_elem?-take n a (parent c))

  -- Push on a heap gives a heap with one more entry, the new one.
  pub push-IsHeap :
      (a : List A) (x : A)
      → IsHeap less a
      → IsHeap less (push less a x) × Perm (push less a x) (x ∷ a)
  unfolding push up
  push-IsHeap a x v =
      let size = length-append a (x ∷ []) in
      let (heap, moved) =
        up_loop-IsHeapFrom o (suc (length a)) (suc (length a)) (a ++ x ∷ []) (length a)
          (omega (arith, size)) (omega arith) (omega arith)
          (record {
            edges = λ c p q r.
                ground (
                  arith,
                  v c,
                  get_elem?-append a (x ∷ []) c,
                  get_elem?-append a (x ∷ []) (parent c),
                );
            bridged = λ c p q r u. absurd (omega arith);
          }) in
      (
        λ c p q r. heap c p (omega (arith, moved.size, size)) r,
        Perm.trans moved.same (rw append-nil at (perm_middle {a = x} a [])),
      )

  -- Pop on a heap with root `x` returns `x` and a heap of the other entries.
  pub pop-IsHeap :
      (a : List A) (x : A)
      → IsHeap less a
      → get_elem? a 0 ≡ some x
      → let (top, b) = pop less a in (top ≡ some x) × IsHeap less b × Perm a (x ∷ b)
  unfolding pop down
  pop-IsHeap a x v e =
      let some_left : 0 < length a = lt_of_get_elem? a 0 x e in
      let n = length a - 1 in
      let s = swap a 0 n in
      let size = length-swap a 0 n in
      let at = λ (c d : ℕ). less_at-swap less a 0 n c d (omega arith) (omega arith) in
      let (heap, moved) =
        down_loop-IsHeapFrom o (suc n) 0 n s 0 (omega (arith, size)) (omega arith) (record {
          edges = λ c p q r u. ground (arith, v c, at c (parent c));
          bridged = λ c p q r u. absurd (omega arith);
        }) in
      let b = (down_loop less (suc n) s 0 n).0 in
      let top : get_elem? b n ≡ some x =
        moved.rest n (omega arith)
        ∙ get_elem?-swap a 0 n (omega arith) (omega arith) n
        ∙ ground (arith, e) in
      (
        top,
        IsHeap-take n b (omega (arith, moved.size, size)) heap,
        Perm.trans (Perm.symm (Perm.trans moved.same (swap-perm a 0 n (omega arith) (omega arith))))
            (take-perm n b x (omega (arith, moved.size, size)) top),
      )
