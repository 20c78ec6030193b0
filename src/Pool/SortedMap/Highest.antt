-- ===== src/Pool/SortedMap/Highest.antt =====
-- Cap, which drops the highest nonces.
use mathlib.Core.List.Perm
use mathlib.Core.List.{Perm, reverse-append, reverse-cons}
use chain_master.Prelude.{
  ℕ, zero, suc, ◌+◌, ◌-◌, ◌<◌, ◌≤◌, ◌≡◌, refl, ap, subst, arith, none, some, List, [], ◌∷◌, ◌++◌,
  ltb, leb, ◌==◌, if◌then◌else◌, get_elem?, sym, ◌∙◌, inl, inr, Bool-cases, reverse, take, drop,
  length,
}
use native.Mathlib.Nat.{le_refl}
use chain_master.Prelude.Slices.{length-perm, get_elem?-some}
use chain_master.Prelude.GoMap.{GoMap, lookup, delete, Distinct, lookup-delete, delete-Distinct}
use chain_master.Heap
use chain_master.Heap.Remove.{init-IsHeap}
use chain_master.Pool.Tx.{Tx}
use chain_master.Pool.SortedMap.{SortedMap, entry, sort_nonces, cap_loop, cap}
use chain_master.Pool.SortedMap.Spec.{
  nonces, Ascends, Above, find, Holds, IsKeyed, values-perm, length-values,
}
use chain_master.Pool.SortedMap.Invariant.{Represents, nonce_order, delete-IsKeyed, map-cached}
use chain_master.Pool.SortedMap.Sorting.{sort_nonces-IsSorted, sort_nonces-perm, sorted_unique}

take-suc :
    (n : ℕ) (ts : List Tx) (t : Tx)
    → get_elem? ts n ≡ some t
    → take (suc n) ts ≡ take n ts ++ t ∷ []
take-suc n [] t e = ground arith
take-suc zero (x ∷ ts) t e = ground arith
take-suc (suc n) (x ∷ ts) t e = ap (◌∷◌ x) (take-suc n ts t e)

get_elem?-nonces :
    (n : ℕ) (ts : List Tx) (t : Tx)
    → get_elem? ts n ≡ some t
    → get_elem? (nonces ts) n ≡ some t.nonce
get_elem?-nonces n [] t e = ground arith
get_elem?-nonces zero (x ∷ ts) t e = ground arith
get_elem?-nonces (suc n) (x ∷ ts) t e = get_elem?-nonces n ts t e

take-Above : (b n : ℕ) (ts : List Tx) → Above b ts → Above b (take n ts)
take-Above b zero ts a = tt
take-Above b (suc n) [] a = tt
take-Above b (suc n) (t ∷ ts) a = (a.0, take-Above b n ts a.1)

take-Ascends : (n : ℕ) (ts : List Tx) → Ascends ts → Ascends (take n ts)
take-Ascends zero ts a = tt
take-Ascends (suc n) [] a = tt
take-Ascends (suc n) (t ∷ ts) a = (take-Above t.nonce n ts a.0, take-Ascends n ts a.1)

Above-get : (b n : ℕ) (ts : List Tx) (t : Tx) → Above b ts → get_elem? ts n ≡ some t → b < t.nonce
Above-get b n [] t a e = ground arith
Above-get b zero (x ∷ ts) t a e = ground arith
Above-get b (suc n) (x ∷ ts) t a e = Above-get b n ts t a.1 e

-- The nonce at a position stands in no earlier one.
find-take :
    (n k : ℕ) (ts : List Tx) (t : Tx)
    → Ascends ts
    → get_elem? ts n ≡ some t
    → find k (take (suc n) ts) ≡ (if t.nonce == k then some t else find k (take n ts))
find-take n k [] t a e = ground arith
find-take zero k (x ∷ ts) t a e = ground arith
find-take (suc n) k (x ∷ ts) t a e =
    ground (arith, find-take n k ts t a.1 e, Above-get x.nonce n ts t a.0 e)

find-take_self :
    (n : ℕ) (ts : List Tx) (t : Tx)
    → Ascends ts
    → get_elem? ts n ≡ some t
    → find t.nonce (take n ts) ≡ none
find-take_self n [] t a e = ground arith
find-take_self zero (x ∷ ts) t a e = refl
find-take_self (suc n) (x ∷ ts) t a e =
    ground (arith, find-take_self n ts t a.1 e, Above-get x.nonce n ts t a.0 e)

drop-append :
    (k n : ℕ) (ts : List Tx) (t : Tx)
    → k ≤ n
    → n < length ts
    → drop k (take n ts ++ t ∷ []) ≡ drop k (take n ts) ++ t ∷ []
drop-append zero n ts t h l = refl
drop-append (suc k) zero ts t h l = absurd (omega arith)
drop-append (suc k) (suc n) [] t h l = absurd (omega arith)
drop-append (suc k) (suc n) (x ∷ ts) t h l = drop-append k n ts t (omega arith) (omega arith)

drop-take_self : (k : ℕ) (ts : List Tx) → drop k (take k ts) ≡ []
drop-take_self zero ts = refl
drop-take_self (suc k) [] = refl
drop-take_self (suc k) (t ∷ ts) = drop-take_self k ts

-- The map and what a round of `Cap` has left of the list.
record Capped (items : GoMap Tx) (ts : List Tx) : Type 0 where
  distinct : Distinct items
  keyed : IsKeyed items
  holds : Holds items ts

delete-Capped :
    (items : GoMap Tx) (ts : List Tx) (n : ℕ) (t : Tx)
    → Ascends ts
    → get_elem? ts n ≡ some t
    → Capped items (take (suc n) ts)
    → Capped (delete t.nonce items) (take n ts)
delete-Capped items ts n t a e c = record {
  distinct = delete-Distinct t.nonce items c.distinct;
  keyed = delete-IsKeyed t.nonce items c.keyed;
  holds = λ k. ground (
    arith,
    lookup-delete t.nonce k items c.distinct,
    c.holds k,
    find-take n k ts t a e,
    find-take_self n ts t a e,
  );
}

cap_loop-step :
    (rounds threshold : ℕ) (sorted : List ℕ) (items : GoMap Tx) (nonce : ℕ)
    → get_elem? sorted (threshold + rounds) ≡ some nonce
    → cap_loop (suc rounds) threshold sorted items ≡ (
        let (drops, left) = cap_loop rounds threshold sorted (delete nonce items) in
        (entry (lookup nonce items) ++ drops, left))
unfolding cap_loop
cap_loop-step rounds threshold sorted items nonce e = rw (e, cap_loop)

-- The loop drops from the end of the list down to the threshold.
cap_loop-Capped :
    (rounds threshold size : ℕ) (items : GoMap Tx) (ts : List Tx)
    → threshold + rounds ≡ size
    → Ascends ts
    → size ≤ length ts
    → Capped items (take size ts)
    → let (drops, left) = cap_loop rounds threshold (nonces ts) items in
      (drops ≡ reverse (drop threshold (take size ts))) × Capped left (take threshold ts)
unfolding cap_loop
cap_loop-Capped zero threshold size items ts e a h c =
    let at : threshold ≡ size = omega arith in
    subst (λ n. ([] ≡ reverse (drop threshold (take n ts))) × Capped items (take threshold ts)) at
      (rw (drop-take_self threshold ts) refl, subst (λ n. Capped items (take n ts)) (sym at) c)
cap_loop-Capped (suc rounds) threshold zero items ts e a h c = absurd (omega arith)
cap_loop-Capped (suc rounds) threshold (suc size) items ts e a h c =
    let (t, at) = get_elem?-some ts size h in
    let here : threshold + rounds ≡ size = omega arith in
    let there : lookup t.nonce items ≡ some t =
      ground (arith, c.holds t.nonce, find-take size t.nonce ts t a at) in
    let (drops, left) =
      cap_loop-Capped rounds threshold size (delete t.nonce items) ts here a (omega arith)
        (delete-Capped items ts size t a at c) in
    rw
      (cap_loop-step rounds threshold (nonces ts) items t.nonce (
        subst (λ n. get_elem? (nonces ts) n ≡ some t.nonce) (sym here)
          (get_elem?-nonces size ts t at)))
      (
        rw
            (
              there,
              take-suc size ts t at,
              drop-append threshold size ts t (omega arith) h,
              reverse-append,
              drops,
            )
            refl,
        left,
      )

take-all : (n : ℕ) (ts : List Tx) → length ts ≤ n → take n ts ≡ ts
take-all zero [] h = refl
take-all zero (t ∷ ts) h = absurd (omega arith)
take-all (suc n) [] h = refl
take-all (suc n) (t ∷ ts) h = ap (◌∷◌ t) (take-all n ts (omega arith))

drop-all : (n : ℕ) (ts : List Tx) → length ts ≤ n → drop n ts ≡ []
drop-all zero [] h = refl
drop-all zero (t ∷ ts) h = absurd (omega arith)
drop-all (suc n) [] h = refl
drop-all (suc n) (t ∷ ts) h = drop-all n ts (omega arith)

take-nonces : (n : ℕ) (ts : List Tx) → take n (nonces ts) ≡ nonces (take n ts)
take-nonces zero ts = refl
take-nonces (suc n) [] = refl
take-nonces (suc n) (t ∷ ts) = ap (◌∷◌ t.nonce) (take-nonces n ts)

length-drop : (n : ℕ) (ts : List Tx) → length (drop n ts) ≡ length ts - n
length-drop zero ts = omega arith
length-drop (suc n) [] = omega arith
length-drop (suc n) (t ∷ ts) = omega (arith, length-drop n ts)

length-append_one : (ts : List Tx) (t : Tx) → length (ts ++ t ∷ []) ≡ suc (length ts)
length-append_one [] t = refl
length-append_one (x ∷ ts) t = ap suc (length-append_one ts t)

length-reverse : (ts : List Tx) → length (reverse ts) ≡ length ts
length-reverse [] = refl
length-reverse (t ∷ ts) =
    rw reverse-cons (length-append_one (reverse ts) t ∙ ap suc (length-reverse ts))

-- Reversing keeps the number of those past the threshold.
dropped_count :
    (ts : List Tx) (threshold : ℕ) (drops : List Tx)
    → drops ≡ reverse (drop threshold ts)
    → length drops ≡ length ts - threshold
dropped_count ts threshold drops e =
    rw e (length-reverse (drop threshold ts) ∙ length-drop threshold ts)

-- The map has as many entries as the list.
pub length-items : (m : SortedMap) (ts : List Tx) → Represents m ts → length m.items ≡ length ts
length-items m ts r =
    sym (length-values m.items)
    ∙ length-perm (values-perm m.items ts r.distinct r.keyed r.ascends r.holds)

-- `Cap` drops the transactions past the threshold, the highest nonce first, and leaves a map that
-- stands for the first ones, with its cache cut to them.
pub cap-Represents :
    (m : SortedMap) (ts : List Tx) (threshold : ℕ)
    → Represents m ts
    → let (drops, m') = cap m threshold in
      (drops ≡ reverse (drop threshold ts)) × Represents m' (take threshold ts)
unfolding cap
cap-Represents m ts threshold r =
    let count = length-items m ts r in
    elim (Bool-cases (leb (length m.items) threshold)) [
      | inl small ↦
          let short : length ts ≤ threshold = ground (arith, count) in
          rw (small, take-all threshold ts short, drop-all threshold ts short) (refl, r)
      | inr big ↦
          let sorted =
            sorted_unique (sort_nonces m.index) ts (sort_nonces-IsSorted m.index) r.ascends
              (Perm.trans (sort_nonces-perm m.index) r.same) in
          let whole = take-all (length ts) ts (le_refl (length ts)) in
          let (drops, left) =
            cap_loop-Capped (length ts - threshold) threshold (length ts) m.items ts
              (ground (arith, count)) r.ascends (le_refl (length ts))
              (rw whole (record { distinct = r.distinct; keyed = r.keyed; holds = r.holds })) in
          let dropped = rw whole at drops in
          let long : threshold ≤ length ts = ground (arith, count, big) in
          let gone = dropped_count ts threshold _ dropped in
          let (heap, same) = init-IsHeap nonce_order (take threshold (nonces ts)) in
          rw (big, sorted, count)
            (
              dropped,
              record {
                stores = record {
                  ascends = take-Ascends threshold ts r.ascends;
                  distinct = left.distinct;
                  keyed = left.keyed;
                  holds = left.holds;
                  heap = heap;
                  same =
                      subst (λ ns. Perm (Heap.init ltb (take threshold (nonces ts))) ns)
                        (take-nonces threshold ts) same;
                };
                cached = λ c e.
                    map-cached m.cache
                      (λ l.
                        take
                          (length l
                            - length
                                (cap_loop (length ts - threshold) threshold (nonces ts) m.items).0)
                          l)
                      ts c r.cached e
                    ∙ ap (λ n. take n ts) (omega (arith, gone, long));
              },
            )
    ]
