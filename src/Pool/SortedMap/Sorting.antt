-- ===== src/Pool/SortedMap/Sorting.antt =====
-- sort.Sort on the nonces of the index.
use mathlib.Core.List.Perm
use mathlib.Core.List.{Perm, mem-cons_self}
use chain_master.Prelude.{
  ℕ, ◌≤◌, ◌≡◌, subst, arith, List, [], ◌∷◌, leb, sym, inl, inr, Bool-cases, All,
}
use native.Mathlib.Nat.{le_antisymm, le_refl}
use chain_master.Pool.Tx.{Tx}
use chain_master.Pool.SortedMap.{insert_nonce, sort_nonces}
use chain_master.Pool.SortedMap.Spec.{nonces, Ascends}
use chain_master.Pool.SortedMap.Invariant.{All-of-mem, All-nonces}

-- Numbers in ascending order, with repetitions allowed.
abbrev pub IsSorted : List ℕ → Type 0
IsSorted [] = Unit
IsSorted (n ∷ ns) = All (λ k. n ≤ k) ns × IsSorted ns

insert_nonce-All :
    (b n : ℕ) (ns : List ℕ) → b ≤ n → All (λ k. b ≤ k) ns → All (λ k. b ≤ k) (insert_nonce n ns)
unfolding insert_nonce
insert_nonce-All b n [] h a = (h, tt)
insert_nonce-All b n (k ∷ ns) h a = ground (arith, insert_nonce-All b n ns h a.1)

All-le : (b c : ℕ) (ns : List ℕ) → b ≤ c → All (λ k. c ≤ k) ns → All (λ k. b ≤ k) ns
All-le b c [] h a = tt
All-le b c (k ∷ ns) h a = (omega arith, All-le b c ns h a.1)

insert_nonce-IsSorted : (n : ℕ) (ns : List ℕ) → IsSorted ns → IsSorted (insert_nonce n ns)
unfolding insert_nonce
insert_nonce-IsSorted n [] s = (tt, tt)
insert_nonce-IsSorted n (k ∷ ns) s =
    ground (arith, insert_nonce-IsSorted n ns s.1, insert_nonce-All k n ns, All-le n k ns)

insert_nonce-perm : (n : ℕ) (ns : List ℕ) → Perm (insert_nonce n ns) (n ∷ ns)
unfolding insert_nonce
insert_nonce-perm n [] = Perm.refl (n ∷ [])
insert_nonce-perm n (k ∷ ns) = elim (Bool-cases (leb n k)) [
  | inl first ↦ rw first (Perm.refl (n ∷ k ∷ ns))
  | inr later ↦ rw later (Perm.trans (Perm.cons k (insert_nonce-perm n ns)) (Perm.swap n k ns))
]

pub sort_nonces-IsSorted : (ns : List ℕ) → IsSorted (sort_nonces ns)
unfolding sort_nonces
sort_nonces-IsSorted [] = tt
sort_nonces-IsSorted (n ∷ ns) = insert_nonce-IsSorted n (sort_nonces ns) (sort_nonces-IsSorted ns)

pub sort_nonces-perm : (ns : List ℕ) → Perm (sort_nonces ns) ns
unfolding sort_nonces
sort_nonces-perm [] = Perm.nil
sort_nonces-perm (n ∷ ns) =
    Perm.trans (insert_nonce-perm n (sort_nonces ns)) (Perm.cons n (sort_nonces-perm ns))

-- Sorted numbers that are the nonces of an ascending list are so in its order.
pub sorted_unique :
    (ns : List ℕ) (ts : List Tx) → IsSorted ns → Ascends ts → Perm ns (nonces ts) → ns ≡ nonces ts
sorted_unique [] ts s a p = Perm.nil-eq p
sorted_unique (n ∷ ns) [] s a p = Perm.eq-nil p
sorted_unique (n ∷ ns) (t ∷ ts) s a p =
    let at : n ≡ t.nonce =
      le_antisymm (All-of-mem (n ∷ ns) n (le_refl n, s.0) ((Perm.mem_iff p).1 mem-cons_self)) (
        All-of-mem (nonces (t ∷ ts)) t.nonce
          (le_refl t.nonce, All-nonces t.nonce t.nonce ts (le_refl t.nonce) a.0)
          ((Perm.mem_iff p).0 mem-cons_self)) in
    let rest =
      sorted_unique ns ts s.1 a.1
        (Perm.cons_inv (subst (λ k. Perm (n ∷ ns) (k ∷ nonces ts)) (sym at) p)) in
    cc
