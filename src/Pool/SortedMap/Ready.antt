-- ===== src/Pool/SortedMap/Ready.antt =====
-- Ready, which takes a run of nonces without a gap.
use chain_master.Prelude.{
  ℕ, zero, suc, ◌+◌, ◌%◌, ◌<◌, ◌≤◌, ◌≡◌, refl, ap, subst, arith, true, false, List, [], ◌∷◌, ◌++◌,
  ltb, ◌==◌, if◌then◌else◌, length, ◌∙◌, inl, inr, Bool-cases, ==→eq, u64_mod,
}
use chain_master.Prelude.GoMap.{GoMap}
use chain_master.Pool.Tx.{Tx}
use chain_master.Pool.SortedMap.{SortedMap, take_lowest, ready_loop, ready_at, ready}
use chain_master.Pool.SortedMap.Spec.{Above}
use chain_master.Pool.SortedMap.Invariant.{Represents, Stores, first_nonce}
use chain_master.Pool.SortedMap.Lowest.{empty_index, empty_list, take_lowest_at}

-- The transactions at the front of a list whose nonces run on from `next` without a gap.
abbrev pub streak : ℕ → List Tx → List Tx
streak next [] = []
streak next (t ∷ ts) = if t.nonce == next then t ∷ streak (next + 1) ts else []

abbrev pub after_streak : ℕ → List Tx → List Tx
after_streak next [] = []
after_streak next (t ∷ ts) = if t.nonce == next then after_streak (next + 1) ts else t ∷ ts

-- Every nonce is a 64-bit word.
abbrev pub AreWords : List Tx → Type 0
AreWords [] = Unit
AreWords (t ∷ ts) = (t.nonce < u64_mod) × AreWords ts

ready_loop-stop :
    (k next : ℕ) (items : GoMap Tx) (first : ℕ) (index : List ℕ)
    → (first == next) ≡ false
    → ready_loop (suc k) next items (first ∷ index)
      ≡ record { removed = []; items = items; index = first ∷ index }
unfolding ready_loop
ready_loop-stop k next items first index e = rw (e, ready_loop)

ready_loop-step :
    (k next : ℕ) (items : GoMap Tx) (first : ℕ) (index : List ℕ)
    → (first == next) ≡ true
    → let now = take_lowest next items (first ∷ index) in
      let later = ready_loop k ((next + 1) % u64_mod) now.items now.index in
      ready_loop (suc k) next items (first ∷ index)
      ≡ record later { removed = now.removed ++ later.removed }
unfolding ready_loop
ready_loop-step k next items first index e = rw (e, ready_loop)

-- The nonce wraps only behind the last transaction.
streak-wrap :
    (next : ℕ) (ts : List Tx)
    → Above next ts
    → AreWords ts
    → next < u64_mod
    → (streak (next + 1) ts ≡ streak ((next + 1) % u64_mod) ts)
      × (after_streak (next + 1) ts ≡ after_streak ((next + 1) % u64_mod) ts)
streak-wrap next [] a w h = (refl, refl)
streak-wrap next (t ∷ ts) a w h =
    let same : (next + 1) % u64_mod ≡ next + 1 = omega arith in rw same (refl, refl)

ready_loop-Stores :
    (k next : ℕ) (items : GoMap Tx) (index : List ℕ) (ts : List Tx)
    → length index ≤ k
    → AreWords ts
    → Stores items index ts
    → let t = ready_loop k next items index in
      (t.removed ≡ streak next ts) × Stores t.items t.index (after_streak next ts)
unfolding ready_loop
ready_loop-Stores zero next items [] ts h w r =
    let e = empty_index items ts r in rw e (refl, rw e at r)
ready_loop-Stores zero next items (n ∷ index) ts h w r = absurd (omega arith)
ready_loop-Stores (suc k) next items [] ts h w r =
    let e = empty_index items ts r in rw e (refl, rw e at r)
ready_loop-Stores (suc k) next items (first ∷ index) [] h w r =
    absurd (empty_list items first index r)
ready_loop-Stores (suc k) next items (first ∷ index) (t ∷ ts) h w r =
    elim (Bool-cases (first == next)) [
      | inl hit ↦
          let now = take_lowest next items (first ∷ index) in
          let (at, removed, stored, count) =
            take_lowest_at items first next index t ts r (==→eq first next hit) in
          let test : (t.nonce == next) ≡ true = ground arith in
          let eq : t.nonce ≡ next = ==→eq t.nonce next test in
          let (rest, left) =
            ready_loop-Stores k ((next + 1) % u64_mod) now.items now.index ts (omega (arith, count))
              w.1 stored in
          let (wrap, wrap') = streak-wrap next ts (rw eq at r.ascends.0) w.1 (omega (arith, w.0)) in
          rw (ready_loop-step k next items first index hit, test, wrap, wrap')
            (rw (removed, rest) refl, left)
      | inr gap ↦
          let at = first_nonce first index t ts r.heap r.same r.ascends in
          let test : (t.nonce == next) ≡ false = ground arith in
          rw (ready_loop-stop k next items first index gap, test) (refl, r)
    ]

-- What `Ready` returns from a list: nothing when its first nonce is above the start.
abbrev pub ready_part : ℕ → List Tx → List Tx
ready_part start [] = []
ready_part start (t ∷ ts) = if ltb start t.nonce then [] else streak t.nonce (t ∷ ts)

abbrev pub unready_part : ℕ → List Tx → List Tx
unready_part start [] = []
unready_part start (t ∷ ts) = if ltb start t.nonce then t ∷ ts else after_streak t.nonce (t ∷ ts)

ready_at-Represents :
    (m : SortedMap) (index : List ℕ) (ts : List Tx) (start : ℕ)
    → AreWords ts
    → Represents m ts
    → Stores m.items index ts
    → let (txs, m') = ready_at m start index in
      (txs ≡ ready_part start ts) × Represents m' (unready_part start ts)
unfolding ready_at
ready_at-Represents m [] ts start w r s = let e = empty_index m.items ts s in rw e (refl, rw e at r)
ready_at-Represents m (first ∷ index) [] start w r s = absurd (empty_list m.items first index s)
ready_at-Represents m (first ∷ index) (t ∷ ts) start w r s =
    let at = first_nonce first index t ts s.heap s.same s.ascends in
    elim (Bool-cases (ltb start first)) [
      | inl early ↦ let test : ltb start t.nonce ≡ true = ground arith in rw (early, test) (refl, r)
      | inr due ↦
          let test : ltb start t.nonce ≡ false = ground arith in
          let (txs, stored) =
            ready_loop-Stores (length (first ∷ index)) first m.items (first ∷ index) (t ∷ ts)
              (omega arith) w s in
          let taken = ready_loop (length (first ∷ index)) first m.items (first ∷ index) in
          rw (due, test)
            (
              txs ∙ ap (λ n. streak n (t ∷ ts)) at,
              record {
                stores =
                    subst (λ n. Stores taken.items taken.index (after_streak n (t ∷ ts))) at stored;
                cached = λ c e. ground arith;
              },
            )
    ]

-- For 64-bit nonces, `Ready` returns the longest run of nonces without a gap that begins with the
-- first, unless that is above the start, and leaves a map that stands for the others.
pub ready-Represents :
    (m : SortedMap) (ts : List Tx) (start : ℕ)
    → AreWords ts
    → Represents m ts
    → let (txs, m') = ready m start in
      (txs ≡ ready_part start ts) × Represents m' (unready_part start ts)
unfolding ready
ready-Represents m ts start w r = ready_at-Represents m m.index ts start w r r.stores
