-- ===== src/Pool/SortedMap/Invariant.antt =====
-- The invariant of a `txSortedMap`, and the operations on one transaction.
use mathlib.Core.List.Perm
use mathlib.Core.List.{Perm, Mem, mem-cons, not-mem-nil, mem-cons_self}
use mathlib.Core.Logic.Or
use mathlib.Core.Option
use native.Mathlib.Bridge.{le_prop}
use chain_master.Prelude.{
  ℕ, suc, ◌≤◌, ◌≡◌, refl, arith, false, Option, none, some, List, [], ◌∷◌, ltb, ◌==◌, All,
  get_elem?, sym, ◌∙◌, inl, inr, Option-cases, Bool-cases,
}
use native.Mathlib.Nat.{le_antisymm, le_refl}
use chain_master.Prelude.Slices.{lt_of_get_elem?}
use chain_master.Prelude.GoMap.{
  GoMap, lookup, insert, delete, Distinct, lookup-insert, insert-Distinct,
}
use chain_master.Heap.Order.{StrictOrder, IsHeap, root_least}
use chain_master.Heap.Ops.{push-IsHeap}
use chain_master.Pool.Tx.{Tx}
use chain_master.Pool.SortedMap.{SortedMap, new_sorted_map, get, put}
use chain_master.Pool.SortedMap.Spec.{
  nonces, Above, Ascends, find, upsert, find-upsert, upsert-Ascends, Holds, IsKeyed, find-Above,
}

pub nonce_order : StrictOrder ltb
nonce_order = record { asym = λ x y h. ground arith; trans = λ x y z h k. ground arith }

-- The items are the transactions of the list `ts`, and the index is a heap of its nonces.
pub record Stores (items : GoMap Tx) (index : List ℕ) (ts : List Tx) : Type 0 where
  pub ascends : Ascends ts
  pub distinct : Distinct items
  pub keyed : IsKeyed items
  pub holds : Holds items ts
  pub heap : IsHeap ltb index
  pub same : Perm index (nonces ts)

-- The map `m` stands for the list `ts`; a cache is the list itself.
pub record Represents (m : SortedMap) (ts : List Tx) : Type 0 where
  pub stores : Stores m.items m.index ts
  pub open stores use *
  pub cached : (c : List Tx) → m.cache ≡ some c → c ≡ ts

-- The empty map stands for the empty list.
pub new_sorted_map-Represents : Represents new_sorted_map []
unfolding new_sorted_map
new_sorted_map-Represents = record {
  stores = record {
    ascends = tt;
    distinct = tt;
    keyed = tt;
    holds = λ n. refl;
    heap = λ c p q r. absurd (omega arith);
    same = Perm.nil;
  };
  cached = λ c e. ground arith;
}

-- `Get` finds exactly the transactions of the list.
pub get-find : (m : SortedMap) (ts : List Tx) (n : ℕ) → Represents m ts → get m n ≡ find n ts
unfolding get
get-find m ts n r = r.holds n

pub insert-IsKeyed : (t : Tx) (m : GoMap Tx) → IsKeyed m → IsKeyed (insert t.nonce t m)
insert-IsKeyed t [] k = (refl, tt)
insert-IsKeyed t ((i, x) ∷ m) k = ground (arith, insert-IsKeyed t m k.1)

pub delete-IsKeyed : (n : ℕ) (m : GoMap Tx) → IsKeyed m → IsKeyed (delete n m)
delete-IsKeyed n [] k = tt
delete-IsKeyed n ((i, x) ∷ m) k = ground (arith, delete-IsKeyed n m k.1)

nonces-upsert_old :
    (t old : Tx) (ts : List Tx)
    → Ascends ts
    → find t.nonce ts ≡ some old
    → nonces (upsert t ts) ≡ nonces ts
nonces-upsert_old t old [] a e = ground arith
nonces-upsert_old t old (x ∷ ts) a e =
    ground (arith, nonces-upsert_old t old ts a.1, find-Above t.nonce x.nonce ts)

nonces-upsert_new :
    (t : Tx) (ts : List Tx)
    → find t.nonce ts ≡ none
    → Perm (nonces (upsert t ts)) (t.nonce ∷ nonces ts)
nonces-upsert_new t [] e = Perm.refl (t.nonce ∷ [])
nonces-upsert_new t (x ∷ ts) e = elim (Bool-cases (ltb t.nonce x.nonce)) [
  | inl first ↦ rw first (Perm.refl (t.nonce ∷ x.nonce ∷ nonces ts))
  | inr later ↦
      let other : (t.nonce == x.nonce) ≡ false = ground arith in
      rw (later, other)
        (Perm.trans (Perm.cons x.nonce (nonces-upsert_new t ts (ground arith)))
          (Perm.swap t.nonce x.nonce (nonces ts)))
]

put_index :
    (m : SortedMap) (t : Tx) (ts : List Tx)
    → Represents m ts
    → IsHeap ltb (put m t).index × Perm (put m t).index (nonces (upsert t ts))
unfolding put
put_index m t ts r = elim (Option-cases (lookup t.nonce m.items)) [
  | inl fresh ↦
      let (heap, same) = push-IsHeap nonce_order m.index t.nonce r.heap in
      rw (fresh, put)
        (
          heap,
          Perm.trans same (
              Perm.trans (Perm.cons t.nonce r.same)
                (Perm.symm (nonces-upsert_new t ts (sym (r.holds t.nonce) ∙ fresh)))),
        )
  | inr (old, there) ↦
      rw (there, put, nonces-upsert_old t old ts r.ascends (sym (r.holds t.nonce) ∙ there))
        (r.heap, r.same)
]

-- `Put` puts the transaction in its place in the list, instead of one with its nonce.
pub put-Represents :
    (m : SortedMap) (t : Tx) (ts : List Tx) → Represents m ts → Represents (put m t) (upsert t ts)
unfolding put
put-Represents m t ts r =
    let (heap, same) = put_index m t ts r in
    record {
      stores = record {
        ascends = upsert-Ascends t ts r.ascends;
        distinct = insert-Distinct t.nonce t m.items r.distinct;
        keyed = insert-IsKeyed t m.items r.keyed;
        holds =
            λ n. ground (arith, lookup-insert t.nonce n t m.items, find-upsert n t ts, r.holds n);
        heap = heap;
        same = same;
      };
      cached = λ c e. ground arith;
    }

-- Mem and orders, for the root of the index.
pub All-of-mem : {x : ℕ} (xs : List ℕ) (n : ℕ) → All (λ y. n ≤ y) xs → Mem x xs → n ≤ x
All-of-mem [] n h q = absurd (not-mem-nil q)
All-of-mem (y ∷ xs) n h q = Or.elim le_prop (mem-cons.0 q) (λ e. rw e h.0) (All-of-mem xs n h.1)

All-of-get :
    (xs : List ℕ) (n : ℕ) → ((i y : ℕ) → get_elem? xs i ≡ some y → n ≤ y) → All (λ y. n ≤ y) xs
All-of-get [] n h = tt
All-of-get (x ∷ xs) n h = (h 0 x refl, All-of-get xs n (λ i y e. h (suc i) y e))

pub All-nonces : (n k : ℕ) (ts : List Tx) → n ≤ k → Above k ts → All (λ y. n ≤ y) (nonces ts)
All-nonces n k [] h a = tt
All-nonces n k (t ∷ ts) h a = (omega arith, All-nonces n k ts h a.1)

-- The root of the index is the nonce of the first transaction.
pub first_nonce :
    (first : ℕ) (index : List ℕ) (t : Tx) (ts : List Tx)
    → IsHeap ltb (first ∷ index)
    → Perm (first ∷ index) (nonces (t ∷ ts))
    → Ascends (t ∷ ts)
    → first ≡ t.nonce
first_nonce first index t ts heap same a =
    let least : All (λ y. first ≤ y) (first ∷ index) = All-of-get (first ∷ index) first (λ i y e.
      ground (
        arith,
        e,
        root_least nonce_order (first ∷ index) i heap (lt_of_get_elem? (first ∷ index) i y e),
      )) in
    le_antisymm (All-of-mem (first ∷ index) first least ((Perm.mem_iff same).1 mem-cons_self)) (
      All-of-mem (nonces (t ∷ ts)) t.nonce
        (le_refl t.nonce, All-nonces t.nonce t.nonce ts (le_refl t.nonce) a.0)
        ((Perm.mem_iff same).0 mem-cons_self))

-- A cut of the cache is a cut of the list.
pub map-cached :
    (cache : Option (List Tx)) (cut : List Tx → List Tx) (ts c : List Tx)
    → ((old : List Tx) → cache ≡ some old → old ≡ ts)
    → Option.map cut cache ≡ some c
    → c ≡ cut ts
map-cached none cut ts c h e = ground arith
map-cached (some old) cut ts c h e = ground (arith, h old)
