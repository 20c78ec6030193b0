-- ===== src/Pool/SortedMap/Lowest.antt =====
-- The operations that take the lowest nonces: Forward and Ready.
use mathlib.Core.List.Perm
use mathlib.Core.List.{Perm}
use chain_master.Prelude.{
  ℕ, zero, suc, ◌+◌, ◌≤◌, ◌≡◌, refl, subst, arith, Bool, true, false, some, List, [], ◌∷◌, ◌++◌,
  ltb, if◌then◌else◌, length, ◌∙◌, inl, inr, Bool-cases, drop,
}
use chain_master.Prelude.GoMap.{GoMap, lookup, lookup-delete, delete-Distinct}
use chain_master.Prelude.Slices.{length-perm}
use chain_master.Heap
use chain_master.Heap.Ops.{pop-IsHeap}
use chain_master.Pool.Tx.{Tx}
use chain_master.Pool.SortedMap.{SortedMap, take_lowest, forward_loop, forward, select}
use chain_master.Pool.SortedMap.Spec.{nonces, Above, Ascends, find-Above}
use chain_master.Pool.SortedMap.Invariant.{
  Represents, Stores, nonce_order, first_nonce, delete-IsKeyed, map-cached,
}

-- One round takes the first transaction of the list.
pub take_lowest-Stores :
    (items : GoMap Tx) (first : ℕ) (index : List ℕ) (t : Tx) (ts : List Tx)
    → Stores items (first ∷ index) (t ∷ ts)
    → let now = take_lowest first items (first ∷ index) in
      (first ≡ t.nonce)
      × (now.removed ≡ t ∷ [])
      × Stores now.items now.index ts
      × (length now.index ≡ length index)
unfolding take_lowest
take_lowest-Stores items first index t ts r =
    let at = first_nonce first index t ts r.heap r.same r.ascends in
    let (top, heap, same) = pop-IsHeap nonce_order (first ∷ index) first r.heap refl in
    let there : lookup first items ≡ some t = ground (arith, r.holds first, at) in
    (
      at,
      rw there,
      record {
        ascends = r.ascends.1;
        distinct = delete-Distinct first items r.distinct;
        keyed = delete-IsKeyed first items r.keyed;
        holds = λ n.
            ground (
              arith,
              at,
              lookup-delete first n items r.distinct,
              r.holds n,
              find-Above n t.nonce ts,
            );
        heap = heap;
        same = Perm.cons_inv (
            subst (λ k. Perm (k ∷ (Heap.pop ltb (first ∷ index)).1) (t.nonce ∷ nonces ts)) at
              (Perm.trans (Perm.symm same) r.same));
      },
      omega (arith, length-perm same),
    )

pub take_lowest_at :
    (items : GoMap Tx) (first nonce : ℕ) (index : List ℕ) (t : Tx) (ts : List Tx)
    → Stores items (first ∷ index) (t ∷ ts)
    → first ≡ nonce
    → let now = take_lowest nonce items (first ∷ index) in
      (first ≡ t.nonce)
      × (now.removed ≡ t ∷ [])
      × Stores now.items now.index ts
      × (length now.index ≡ length index)
take_lowest_at items first nonce index t ts r e =
    subst
      (λ n.
        let now = take_lowest n items (first ∷ index) in
        (first ≡ t.nonce)
        × (now.removed ≡ t ∷ [])
        × Stores now.items now.index ts
        × (length now.index ≡ length index))
      e (take_lowest-Stores items first index t ts r)

-- An index with no nonces belongs to the empty list.
pub empty_index : (items : GoMap Tx) (ts : List Tx) → Stores items [] ts → ts ≡ []
empty_index items [] r = refl
empty_index items (t ∷ ts) r = absurd (nonempty (Perm.nil-eq r.same))
  where
    nonempty : ¬ ([] ≡ t.nonce ∷ nonces ts)
    nonempty e = ground arith

pub empty_list : (items : GoMap Tx) (first : ℕ) (index : List ℕ) → ¬ Stores items (first ∷ index) []
empty_list items first index r = nonempty (Perm.eq-nil r.same)
  where
    nonempty : ¬ (first ∷ index ≡ [])
    nonempty e = ground arith

abbrev pub below : ℕ → Tx → Bool
below threshold t = ltb t.nonce threshold

abbrev pub reject : (Tx → Bool) → List Tx → List Tx
reject f [] = []
reject f (t ∷ ts) = if f t then reject f ts else t ∷ reject f ts

-- In an ascending list above the threshold nothing is selected.
select-Above :
    (threshold n : ℕ) (ts : List Tx)
    → threshold ≤ n
    → Above n ts
    → (select (below threshold) ts ≡ []) × (reject (below threshold) ts ≡ ts)
unfolding select
select-Above threshold n [] h a = (refl, refl)
select-Above threshold n (t ∷ ts) h a = ground (arith, select-Above threshold n ts h a.1)

forward_loop-stop :
    (k threshold : ℕ) (items : GoMap Tx) (first : ℕ) (index : List ℕ)
    → ltb first threshold ≡ false
    → forward_loop (suc k) threshold items (first ∷ index)
      ≡ record { removed = []; items = items; index = first ∷ index }
unfolding forward_loop
forward_loop-stop k threshold items first index e = rw (e, forward_loop)

forward_loop-step :
    (k threshold : ℕ) (items : GoMap Tx) (first : ℕ) (index : List ℕ)
    → ltb first threshold ≡ true
    → let now = take_lowest first items (first ∷ index) in
      let later = forward_loop k threshold now.items now.index in
      forward_loop (suc k) threshold items (first ∷ index)
      ≡ record later { removed = now.removed ++ later.removed }
unfolding forward_loop
forward_loop-step k threshold items first index e = rw (e, forward_loop)

-- The loop removes the transactions below the threshold, in order, and keeps the others.
forward_loop-Stores :
    (k threshold : ℕ) (items : GoMap Tx) (index : List ℕ) (ts : List Tx)
    → length index ≤ k
    → Stores items index ts
    → let t = forward_loop k threshold items index in
      (t.removed ≡ select (below threshold) ts)
      × Stores t.items t.index (reject (below threshold) ts)
unfolding forward_loop select
forward_loop-Stores zero threshold items [] ts h r =
    let e = empty_index items ts r in rw e (refl, rw e at r)
forward_loop-Stores zero threshold items (n ∷ index) ts h r = absurd (omega arith)
forward_loop-Stores (suc k) threshold items [] ts h r =
    let e = empty_index items ts r in rw e (refl, rw e at r)
forward_loop-Stores (suc k) threshold items (first ∷ index) [] h r =
    absurd (empty_list items first index r)
forward_loop-Stores (suc k) threshold items (first ∷ index) (t ∷ ts) h r =
    let (at, removed, stored, count) = take_lowest-Stores items first index t ts r in
    elim (Bool-cases (ltb first threshold)) [
      | inl low ↦
          let now = take_lowest first items (first ∷ index) in
          let (rest, left) =
            forward_loop-Stores k threshold now.items now.index ts (omega (arith, count)) stored in
          let test : ltb t.nonce threshold ≡ true = ground arith in
          rw (forward_loop-step k threshold items first index low, test)
            (rw (removed, rest) refl, left)
      | inr high ↦
          let test : ltb t.nonce threshold ≡ false = ground arith in
          let (none_low, all_high) = select-Above threshold t.nonce ts (ground arith) r.ascends.0 in
          rw (forward_loop-stop k threshold items first index high, test)
            (rw none_low refl, rw all_high r)
    ]

length-select-reject :
    (f : Tx → Bool) (ts : List Tx) → length (select f ts) + length (reject f ts) ≡ length ts
unfolding select
length-select-reject f [] = refl
length-select-reject f (t ∷ ts) = ground (arith, length-select-reject f ts)

-- In an ascending list the transactions below a threshold come first.
drop-below :
    (threshold : ℕ) (ts : List Tx)
    → Ascends ts
    → drop (length (select (below threshold) ts)) ts ≡ reject (below threshold) ts
unfolding select
drop-below threshold [] a = refl
drop-below threshold (t ∷ ts) a = elim (Bool-cases (ltb t.nonce threshold)) [
  | inl low ↦ rw low (drop-below threshold ts a.1)
  | inr high ↦
      let (none_low, all_high) = select-Above threshold t.nonce ts (ground arith) a.0 in
      rw high (rw (none_low, all_high) refl)
]

-- `Forward` returns the transactions below the threshold in the order of their nonces, and leaves
-- a map that stands for the others, with its cache cut to them.
pub forward-Represents :
    (m : SortedMap) (ts : List Tx) (threshold : ℕ)
    → Represents m ts
    → let (removed, m') = forward m threshold in
      (removed ≡ select (below threshold) ts) × Represents m' (reject (below threshold) ts)
unfolding forward
forward-Represents m ts threshold r =
    let (removed, stored) =
      forward_loop-Stores (length m.index) threshold m.items m.index ts (omega arith) r.stores in
    (
      removed,
      record {
        stores = stored;
        cached = λ c e.
            map-cached m.cache
              (drop (length (forward_loop (length m.index) threshold m.items m.index).removed)) ts c
              r.cached e
            ∙ rw removed (drop-below threshold ts r.ascends);
      },
    )
