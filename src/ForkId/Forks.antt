-- ===== src/ForkId/Forks.antt =====
-- The forks of a configuration: in order, each once, and without the genesis block.
use chain_master.Prelude.{
  ℕ, zero, suc, ◌<◌, ◌≤◌, ◌≡◌, refl, ap, subst, ◌∙◌, inl, inr, arith, Bool, true, false, ◌&&◌,
  Option, List, [], ◌∷◌, ltb, ◌==◌, if◌then◌else◌, Bool-cases, All, length,
}
use chain_master.ForkId.{
  fork_blocks, sweep, sort_loop, sort_forks, dedup_loop, dedup, skip_genesis, gather_forks,
}

abbrev pub has : ℕ → List ℕ → Bool
has n [] = false
has n (x ∷ xs) = if x == n then true else has n xs

-- Each fork is above the one before it.
abbrev pub Ascends : ℕ → List ℕ → Type 0
Ascends low [] = Unit
Ascends low (x ∷ xs) = (low < x) × Ascends x xs

abbrev IsSorted : ℕ → List ℕ → Type 0
IsSorted low [] = Unit
IsSorted low (x ∷ xs) = (low ≤ x) × IsSorted x xs

length-sweep : (x : ℕ) (ys : List ℕ) → length (sweep x ys).1 ≡ length ys
unfolding sweep
length-sweep x [] = refl
length-sweep x (y ∷ ys) = omega (arith, length-sweep (if ltb y x then y else x) ys)

has-sweep : (n x : ℕ) (ys : List ℕ) → has n ((sweep x ys).0 ∷ (sweep x ys).1) ≡ has n (x ∷ ys)
unfolding sweep
has-sweep n x [] = refl
has-sweep n x (y ∷ ys) = ground (arith, has-sweep n (if ltb y x then y else x) ys)

sweep-least :
    (x : ℕ) (ys : List ℕ) → ((sweep x ys).0 ≤ x) × All (λ y. (sweep x ys).0 ≤ y) (sweep x ys).1
unfolding sweep
sweep-least x [] = (omega arith, tt)
sweep-least x (y ∷ ys) =
    let (low, least) = sweep-least (if ltb y x then y else x) ys in
    (ground (arith, low), (ground (arith, low), least))

sweep-All : (low x : ℕ) (ys : List ℕ) → low ≤ x → All (λ y. low ≤ y) ys → low ≤ (sweep x ys).0
unfolding sweep
sweep-All low x [] h a = h
sweep-All low x (y ∷ ys) h a =
    sweep-All low (if ltb y x then y else x) ys (ground (arith, h, a.0)) a.1

sort_loop-IsSorted :
    (k low : ℕ) (xs : List ℕ)
    → length xs ≤ k
    → All (λ x. low ≤ x) xs
    → IsSorted low (sort_loop k xs)
unfolding sort_loop
sort_loop-IsSorted zero low [] h a = tt
sort_loop-IsSorted zero low (x ∷ xs) h a = absurd (omega arith)
sort_loop-IsSorted (suc k) low [] h a = tt
sort_loop-IsSorted (suc k) low (x ∷ xs) h a = (
  sweep-All low x xs a.0 a.1,
  sort_loop-IsSorted k (sweep x xs).0 (sweep x xs).1 (omega (arith, length-sweep x xs))
      (sweep-least x xs).1,
)

has-sort_loop : (n k : ℕ) (xs : List ℕ) → has n (sort_loop k xs) ≡ has n xs
unfolding sort_loop
has-sort_loop n zero xs = refl
has-sort_loop n (suc k) [] = refl
has-sort_loop n (suc k) (x ∷ xs) = rw (has-sort_loop n k (sweep x xs).1) (has-sweep n x xs)

dedup_loop-Ascends : (last : ℕ) (xs : List ℕ) → IsSorted last xs → Ascends last (dedup_loop last xs)
unfolding dedup_loop
dedup_loop-Ascends last [] s = tt
dedup_loop-Ascends last (x ∷ xs) s = elim (Bool-cases (x == last)) [
  | inl again ↦
      let e : x ≡ last = ground arith in rw again (dedup_loop-Ascends last xs (rw e at s.1))
  | inr new ↦ rw new (ground (arith, s.0), dedup_loop-Ascends x xs s.1)
]

has-dedup_loop : (n last : ℕ) (xs : List ℕ) → has n (last ∷ dedup_loop last xs) ≡ has n (last ∷ xs)
unfolding dedup_loop
has-dedup_loop n last [] = refl
has-dedup_loop n last (x ∷ xs) = ground (arith, has-dedup_loop n last xs, has-dedup_loop n x xs)

All-zero : (xs : List ℕ) → All (λ x. 0 ≤ x) xs
All-zero [] = tt
All-zero (x ∷ xs) = (omega arith, All-zero xs)

has-positive : (n low : ℕ) (xs : List ℕ) → Ascends low xs → n ≤ low → has n xs ≡ false
has-positive n low [] a h = refl
has-positive n low (x ∷ xs) a h = ground (arith, a.0, has-positive n x xs a.1)

skip_genesis-dedup :
    (xs : List ℕ)
    → IsSorted 0 xs
    → Ascends 0 (skip_genesis (dedup xs))
      × ((n : ℕ) → has n (skip_genesis (dedup xs)) ≡ (ltb 0 n && has n xs))
unfolding skip_genesis dedup
skip_genesis-dedup [] s = (tt, λ n. ground arith)
skip_genesis-dedup (x ∷ xs) s =
    let ascends = dedup_loop-Ascends x xs s.1 in
    elim (Bool-cases (x == 0)) [
      | inl genesis ↦
          let e : x ≡ 0 = ground arith in
          rw genesis (
            subst (λ low. Ascends low (dedup_loop x xs)) e ascends,
            λ n.
                ground
                  (arith, e, has-dedup_loop n x xs, has-positive n x (dedup_loop x xs) ascends),
          )
      | inr later ↦ rw later (
        (ground arith, ascends),
        λ n.
            ground (
              arith,
              later,
              s.0,
              has-dedup_loop n x xs,
              has-positive n x (dedup_loop x xs) ascends,
            ),
      )
    ]

-- The forks of a configuration ascend strictly from above zero, and are exactly the blocks of its
-- rules other than the genesis block.
pub gather_forks-Ascends :
    (rules : List (Option ℕ))
    → Ascends 0 (gather_forks rules)
      × ((n : ℕ) → has n (gather_forks rules) ≡ (ltb 0 n && has n (fork_blocks rules)))
unfolding gather_forks sort_forks
gather_forks-Ascends rules =
    let blocks = fork_blocks rules in
    let sorted = sort_loop (length blocks) blocks in
    let (ascends, holds) =
      skip_genesis-dedup sorted
        (sort_loop-IsSorted (length blocks) 0 blocks (omega arith) (All-zero blocks)) in
    (ascends, λ n. holds n ∙ ap (◌&&◌ (ltb 0 n)) (has-sort_loop n (length blocks) blocks))
