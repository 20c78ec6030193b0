-- ===== src/Pool/SortedMap/Single.antt =====
-- Remove, of one transaction.
use mathlib.Core.List.Perm
use mathlib.Core.List.{Perm, Mem, mem-cons, not-mem-nil, mem-cons_self, mem-cons_of_mem}
use mathlib.Core.HLevel.{⊥_prop}
use mathlib.Core.Logic.Or
use chain_master.Prelude.{
  ℕ, suc, ◌≡◌, refl, arith, Bool, true, false, Option, none, some, List, [], ◌∷◌, ltb, ◌==◌,
  if◌then◌else◌, get_elem?, sym, ◌∙◌, inl, inr, Option-cases, Bool-cases, ==→eq,
}
use chain_master.Prelude.GoMap.{lookup, lookup-delete, delete-Distinct}
use chain_master.Heap
use chain_master.Heap.Order.{IsHeap}
use chain_master.Heap.Remove.{remove-IsHeap}
use chain_master.Pool.Tx.{Tx}
use chain_master.Pool.SortedMap.{SortedMap, index_of, remove}
use chain_master.Pool.SortedMap.Spec.{nonces, Ascends, find, find-Above, find-nonce}
use chain_master.Pool.SortedMap.Invariant.{Represents, nonce_order, delete-IsKeyed}
use chain_master.Pool.SortedMap.Lowest.{reject}
use chain_master.Pool.SortedMap.Chosen.{reject-Ascends, find-reject}

abbrev pub has_nonce : ℕ → Tx → Bool
has_nonce n t = t.nonce == n

abbrev pub is_some {ℓ} : {A : Type ℓ} → Option A → Bool
is_some none = false
is_some (some _) = true

index_of-get : (n i : ℕ) (ns : List ℕ) → index_of n ns ≡ some i → get_elem? ns i ≡ some n
unfolding index_of
index_of-get n i [] e = ground arith
index_of-get n i (k ∷ ns) e = elim (Bool-cases (k == n)) [
  | inl hit ↦ ground arith
  | inr miss ↦ elim (Option-cases (index_of n ns)) [
    | inl absent ↦ ground arith
    | inr (j, there) ↦ let step : i ≡ suc j = ground arith in rw step (index_of-get n j ns there)
  ]
]

index_of-none : (n : ℕ) (ns : List ℕ) → index_of n ns ≡ none → ¬ Mem n ns
unfolding index_of
index_of-none n [] e q = not-mem-nil q
index_of-none n (k ∷ ns) e q =
    Or.elim ⊥_prop (mem-cons.0 q) (λ h. ground arith)
      (λ h. elim (Option-cases (index_of n ns)) [
        | inl absent ↦ index_of-none n ns absent h
        | inr (j, there) ↦ ground arith
      ])

mem-nonces : (n : ℕ) (t : Tx) (ts : List Tx) → find n ts ≡ some t → Mem n (nonces ts)
mem-nonces n t [] e = ground arith
mem-nonces n t (x ∷ ts) e = elim (Bool-cases (x.nonce == n)) [
  | inl hit ↦ rw (sym (==→eq x.nonce n hit)) mem-cons_self
  | inr miss ↦ mem-cons_of_mem _ (mem-nonces n t ts (ground arith))
]

reject-absent : (n : ℕ) (ts : List Tx) → find n ts ≡ none → reject (has_nonce n) ts ≡ ts
reject-absent n [] e = refl
reject-absent n (t ∷ ts) e = ground (arith, reject-absent n ts)

nonces-reject :
    (n : ℕ) (t : Tx) (ts : List Tx)
    → Ascends ts
    → find n ts ≡ some t
    → Perm (nonces ts) (n ∷ nonces (reject (has_nonce n) ts))
nonces-reject n t [] a e = ground arith
nonces-reject n t (x ∷ ts) a e = elim (Bool-cases (x.nonce == n)) [
  | inl hit ↦
      let eq = ==→eq x.nonce n hit in
      let gone = reject-absent n ts (ground (arith, find-Above n x.nonce ts)) in
      rw (hit, gone) (Perm.cons' eq (Perm.refl (nonces ts)))
  | inr miss ↦ rw miss (
      Perm.trans (Perm.cons x.nonce (nonces-reject n t ts a.1 (ground arith)))
        (Perm.swap n x.nonce (nonces (reject (has_nonce n) ts))))
]

-- The index without the nonce.
remove_index :
    (m : SortedMap) (n : ℕ) (t : Tx) (ts : List Tx)
    → Represents m ts
    → find n ts ≡ some t
    → (i : ℕ) × (index_of n m.index ≡ some i)
      × IsHeap ltb (Heap.remove ltb m.index i)
      × Perm (Heap.remove ltb m.index i) (nonces (reject (has_nonce n) ts))
remove_index m n t ts r e = elim (Option-cases (index_of n m.index)) [
  | inl absent ↦
      absurd (index_of-none n m.index absent ((Perm.mem_iff r.same).1 (mem-nonces n t ts e)))
  | inr (i, there) ↦
      let (heap, same) =
        remove-IsHeap nonce_order m.index i n r.heap (index_of-get n i m.index there) in
      (
        i,
        there,
        heap,
        Perm.cons_inv
            (Perm.trans (Perm.symm same) (Perm.trans r.same (nonces-reject n t ts r.ascends e))),
      )
]

find-reject_nonce :
    (n k : ℕ) (ts : List Tx)
    → Ascends ts
    → find k (reject (has_nonce n) ts) ≡ (if n == k then none else find k ts)
find-reject_nonce n k ts a = elim (Option-cases (find k ts)) [
  | inl absent ↦ ground (arith, find-reject (has_nonce n) k ts a)
  | inr (t, there) ↦ ground (arith, find-reject (has_nonce n) k ts a, find-nonce k ts t there)
]

-- `Remove` says whether the nonce was there, and leaves a map that stands for the list without it.
pub remove-Represents :
    (m : SortedMap) (n : ℕ) (ts : List Tx)
    → Represents m ts
    → let (found, m') = remove m n in
      (found ≡ is_some (find n ts)) × Represents m' (reject (has_nonce n) ts)
unfolding remove
remove-Represents m n ts r = elim (Option-cases (lookup n m.items)) [
  | inl absent ↦
      let gone : find n ts ≡ none = sym (r.holds n) ∙ absent in
      rw (absent, remove, gone, reject-absent n ts gone) (refl, r)
  | inr (t, there) ↦
      let present : find n ts ≡ some t = sym (r.holds n) ∙ there in
      let (i, at, heap, same) = remove_index m n t ts r present in
      rw (there, remove, at, present)
        (
          refl,
          record {
            stores = record {
              ascends = reject-Ascends (has_nonce n) ts r.ascends;
              distinct = delete-Distinct n m.items r.distinct;
              keyed = delete-IsKeyed n m.items r.keyed;
              holds = λ k. ground (
                arith,
                lookup-delete n k m.items r.distinct,
                find-reject_nonce n k ts r.ascends,
                r.holds k,
              );
              heap = heap;
              same = same;
            };
            cached = λ c e. ground arith;
          },
        )
]
