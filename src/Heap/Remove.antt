-- ===== src/Heap/Remove.antt =====
-- Remove and Init of a heap.
use mathlib.Core.List.Perm
use mathlib.Core.List.{Perm}
use chain_master.Prelude.{
  ℕ, zero, suc, ◌-◌, ◌/◌, ◌<◌, ◌≡◌, ◌≢◌, ◌∙◌, arith, Bool, true, false, List, ◌∷◌, length,
  get_elem?, inl, inr, Bool-cases, lt→ltb, ==→eq, some, ltb, ◌==◌, if◌then◌else◌,
}
use chain_master.Prelude.Slices.{
  swap, place, swap-perm, lt_of_get_elem?, length-swap, get_elem?-swap,
}
use chain_master.Heap.{less_at, child, up, down_loop, down, init_loop, init, remove}
use chain_master.Heap.Order.{StrictOrder, parent, IsHeapFrom, IsHeap, less_at-swap, less_at_trans}
use chain_master.Heap.Down.{
  DownInv, IsLeastChild, LooseInv, Moved, Moved-swap, settles, settled_edges, child-IsLeastChild,
  swap-DownInv, down_loop-stop, down_loop-step, down_loop-ge, down_loop-IsHeapFrom,
}
use chain_master.Heap.Up.{up_loop-IsHeapFrom}
use chain_master.Heap.Ops.{IsHeap-take, take-perm}

module _ {A : Type 0} {less : A → A → Bool} (o : StrictOrder less) where
  module _ (a : List A) (i : ℕ) (x : A) (v : IsHeap less a) (e : get_elem? a i ≡ some x) where
    inside : i < length a
    inside = lt_of_get_elem? a i x e

    module _ (n : ℕ) (last : length a ≡ suc n) (other : n ≢ i) where
      swapped_edge :
          (c d : ℕ) → less_at less (swap a i n) c d ≡ less_at less a (place i n c) (place i n d)
      swapped_edge c d = less_at-swap less a i n c d inside (omega arith)

      swapped-LooseInv : LooseInv less 0 n (swap a i n) i
      swapped-LooseInv = record {
        edges = λ c p q r s t. ground (arith, inside, v c, swapped_edge c (parent c));
        bridged = λ c p q r s t.
            ground (
              arith,
              inside,
              v c,
              v i,
              swapped_edge c (parent i),
              less_at_trans o a (parent i) i c,
            );
      }

      DownInv-after :
          (j : ℕ)
          → IsLeastChild less n (swap a i n) i j
          → less_at less (swap a i n) j i ≡ true
          → DownInv less 0 n (swap (swap a i n) i j) j
      DownInv-after j s t =
          swap-DownInv o 0 n (swap a i n) i j (omega (arith, length-swap a i n)) swapped-LooseInv s
            t

      -- What `down` or, where it does not move the entry, `up` makes of the swapped slice.
      mended : List A
      mended = let (b, moved) = down less (swap a i n) i n in if moved then b else up less b i

      mended-IsHeapFrom : IsHeapFrom less 0 n mended × Moved n (swap a i n) mended
      unfolding mended down up
      mended-IsHeapFrom = elim (Bool-cases (settles o (swap a i n) i n)) [
        | inl stop ↦ rw (down_loop-stop o n (swap a i n) i n stop) (
            let same : ltb i i ≡ false = ground arith in
            rw same (
              up_loop-IsHeapFrom o (suc i) n (swap a i n) i (omega (arith, length-swap a i n))
                (omega (arith, inside)) (omega arith)
                (record {
                  edges = λ c p q r.
                      ground
                        (arith, swapped-LooseInv.edges c, settled_edges o n (swap a i n) i c stop);
                  bridged = λ c p q r s. swapped-LooseInv.bridged c p q r s (omega arith);
                })))
        | inr go ↦
            let s = child-IsLeastChild o (swap a i n) i n (ground arith) in
            let j = child less (swap a i n) i n in
            let t : less_at less (swap a i n) j i ≡ true = ground arith in
            let (heap, moved) =
              down_loop-IsHeapFrom o n 0 n (swap (swap a i n) i j) j
                (omega (arith, length-swap (swap a i n) i j, length-swap a i n))
                (omega (arith, s.below)) (DownInv-after j s t) in
            let far : ltb i (down_loop less n (swap (swap a i n) i j) j n).1 ≡ true =
              lt→ltb _ _ (omega (arith, s.below, down_loop-ge o n (swap (swap a i n) i j) j n)) in
            rw (down_loop-step o n (swap a i n) i n go) (
              rw far (
                heap,
                Moved-swap n (swap a i n) _ i j (omega (arith, length-swap a i n))
                    (omega (arith, s.below, s.inside)) s.inside moved,
              ))
      ]

  -- Remove at an index of a heap takes exactly that entry out and leaves a heap.
  pub remove-IsHeap :
      (a : List A) (i : ℕ) (x : A)
      → IsHeap less a
      → get_elem? a i ≡ some x
      → IsHeap less (remove less a i) × Perm a (x ∷ remove less a i)
  unfolding remove mended
  remove-IsHeap a i x v e =
      let hi = lt_of_get_elem? a i x e in
      let n = length a - 1 in
      let last : length a ≡ suc n = omega (arith, hi) in
      elim (Bool-cases (n == i)) [
        | inl same ↦
            let at : n ≡ i = ==→eq n i same in
            rw same (
              IsHeap-take o n a (omega arith) (λ c p q r. v c p (omega (arith, last)) r),
              take-perm n a x last (rw at e),
            )
        | inr other ↦
            let ne : n ≢ i = ground arith in
            let (heap, moved) = mended-IsHeapFrom a i x v e n last ne in
            let size = length-swap a i n in
            let b = mended a i x v e n last ne in
            let top : get_elem? b n ≡ some x =
              moved.rest n (omega arith)
              ∙ get_elem?-swap a i n hi (omega arith) n
              ∙ ground (arith, e) in
            rw other (
              IsHeap-take o n b (omega (arith, moved.size, size)) heap,
              Perm.trans (Perm.symm (Perm.trans moved.same (swap-perm a i n hi (omega arith))))
                  (take-perm n b x (omega (arith, moved.size, size)) top),
            )
      ]

  init_loop-IsHeapFrom :
      (i : ℕ) (a : List A)
      → IsHeapFrom less i (length a) a
      → IsHeap less (init_loop less i a) × Perm (init_loop less i a) a
  unfolding init_loop down
  init_loop-IsHeapFrom zero a v = (v, Perm.refl a)
  init_loop-IsHeapFrom (suc i) a v =
      let (heap, moved) =
        down_loop-IsHeapFrom o (suc (length a)) i (length a) a i (omega arith) (omega arith)
          (record {
            edges = λ c p q r s. v c p q (omega arith);
            bridged = λ c p q r s t. absurd (omega arith);
          }) in
      let (all, same) =
        init_loop-IsHeapFrom i (down_loop less (suc (length a)) a i (length a)).0
          (rw moved.size heap) in
      (all, Perm.trans same moved.same)

  -- Init turns any slice into a heap of the same entries.
  pub init-IsHeap : (a : List A) → IsHeap less (init less a) × Perm (init less a) a
  unfolding init
  init-IsHeap a = init_loop-IsHeapFrom (length a / 2) a (λ c p q r. absurd (omega arith))
