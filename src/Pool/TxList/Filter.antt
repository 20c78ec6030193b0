-- ===== src/Pool/TxList/Filter.antt =====
-- Filter, by the balance of the account and the gas limit of the block.
use mathlib.Core.List.Perm
use mathlib.Core.List.{Perm, Permᴰ, Perm-prop, Mem, mem-cons_self, mem-cons_of_mem}
use mathlib.Core.Path.{subst₂}
use mathlib.Core.Logic.{∥∥₁_elim}
use chain_master.Prelude.{
  ℕ, ◌<◌, ◌≤◌, ◌≡◌, refl, ap, sym, ◌∙◌, inl, inr, Bool-cases, arith, Bool, ◌&&◌, some, List, [],
  ◌∷◌, ltb, leb, length, All, subst,
}
use chain_master.Prelude.Slices.{length-perm}
use chain_master.Pool.Tx.{Tx}
use chain_master.Pool.SortedMap
use chain_master.Pool.SortedMap.{SortedMap, select}
use chain_master.Pool.SortedMap.Spec.{nonces, Ascends}
use chain_master.Pool.SortedMap.Invariant.{All-of-mem}
use chain_master.Pool.SortedMap.Lowest.{reject}
use chain_master.Pool.SortedMap.Ready.{AreWords}
use chain_master.Pool.SortedMap.Chosen.{filter-Represents}
use chain_master.Pool.TxList.{TxList, unpayable, lowest_nonce, drop_above, filter_txs, filter}
use chain_master.Pool.TxList.Cut.{
  first_hit, until-all, orphans-none, first_hit-least, lowest_nonce-least,
}
use chain_master.Pool.TxList.Invariant.{
  Within, IsList, Within-le, drop_above-IsList, lost, left, lost-none, left-none,
}

-- Caps within the limits leave nothing to filter.
payable : (c g : ℕ) (ts : List Tx) → Within c g ts → length (select (unpayable c g) ts) ≡ 0
unfolding select unpayable
payable c g [] w = refl
payable c g (t ∷ ts) w = ground (arith, payable c g ts w.2)

select-none : (f : Tx → Bool) (ts : List Tx) → length (select f ts) ≡ 0 → select f ts ≡ []
select-none f ts e = ground arith

reject-none : (f : Tx → Bool) (ts : List Tx) → length (select f ts) ≡ 0 → reject f ts ≡ ts
unfolding select
reject-none f [] e = refl
reject-none f (t ∷ ts) e = ground (arith, reject-none f ts)

Within-payable : (c g : ℕ) (ts : List Tx) → Within c g (reject (unpayable c g) ts)
unfolding unpayable
Within-payable c g [] = tt
Within-payable c g (t ∷ ts) = ground (arith, Within-payable c g ts)

nonces-permᴰ : {xs ys : List Tx} → Permᴰ xs ys → Perm (nonces xs) (nonces ys)
nonces-permᴰ Permᴰ.nil = Perm.nil
nonces-permᴰ (Permᴰ.cons {a = a} {b = b} {l₁ = l} {l₂ = r} e p) =
    subst (λ x. Perm (a.nonce ∷ nonces l) (x.nonce ∷ nonces r)) e
      (Perm.cons a.nonce (nonces-permᴰ p))
nonces-permᴰ (Permᴰ.swap {a = a} {b = b} {l = l} e f) =
    subst₂ (λ y x. Perm (a.nonce ∷ b.nonce ∷ nonces l) (x.nonce ∷ y.nonce ∷ nonces l)) e f
      (Perm.swap b.nonce a.nonce (nonces l))
nonces-permᴰ (Permᴰ.trans p q) = Perm.trans (nonces-permᴰ p) (nonces-permᴰ q)

nonces-perm : {xs ys : List Tx} → Perm xs ys → Perm (nonces xs) (nonces ys)
nonces-perm {xs} {ys} p = ∥∥₁_elim p (Perm-prop {l₁ = nonces xs} {l₂ = nonces ys}) nonces-permᴰ

All-of-members : (n : ℕ) (ks : List ℕ) → ((k : ℕ) → Mem k ks → n ≤ k) → All (λ k. n ≤ k) ks
All-of-members n [] h = tt
All-of-members n (k ∷ ks) h =
    (h k mem-cons_self, All-of-members n ks (λ j m. h j (mem-cons_of_mem k m)))

-- The loop of `Filter` finds the first unpayable transaction.
lowest_nonce-first :
    (f : Tx → Bool) (removed ts : List Tx)
    → Ascends ts
    → AreWords ts
    → Perm removed (select f ts)
    → 0 < length removed
    → first_hit f ts ≡ some (lowest_nonce 18446744073709551615 removed)
lowest_nonce-first f removed ts a w p l =
    let (n, hit, word, member, least) = first_hit-least f ts a w (omega (arith, length-perm p)) in
    let p' = nonces-perm p in
    hit
    ∙ ap some (
        sym (
          lowest_nonce-least n 18446744073709551615 removed (omega (arith, word))
            (All-of-members n (nonces removed)
              (λ k m. All-of-mem (nonces (select f ts)) n least ((Perm.mem_iff p').0 m)))
            ((Perm.mem_iff p').1 member)))

filter_txs-IsList :
    (l : TxList) (ts : List Tx) (cost_limit gas_limit : ℕ)
    → AreWords ts
    → IsList l ts
    → let (removed, invalids, l') = filter_txs l cost_limit gas_limit in
      Perm removed (select (unpayable cost_limit gas_limit) ts)
      × Perm invalids (lost l.strict (unpayable cost_limit gas_limit) ts)
      × IsList l' (left l.strict (unpayable cost_limit gas_limit) ts)
unfolding filter_txs drop_above
filter_txs-IsList l ts cost_limit gas_limit w s =
    let f = unpayable cost_limit gas_limit in
    let (removed, kept) = filter-Represents f l.txs ts s.txs in
    let rest : IsList
        (record {
          strict = l.strict;
          txs = (SortedMap.filter l.txs f).1;
          costcap = cost_limit;
          gascap = gas_limit;
        })
        (reject f ts) =
      record { txs = kept; within = Within-payable cost_limit gas_limit ts } in
    elim (Bool-cases l.strict) [
      | inr loose ↦ rw (loose, filter_txs) (removed, Perm.nil, rw loose at rest)
      | inl strict ↦ elim (Bool-cases (ltb 0 (length (SortedMap.filter l.txs f).0))) [
        | inl hits ↦
            let hit = lowest_nonce-first f _ ts s.txs.ascends w removed (ground arith) in
            let (dropped, cut) = drop_above-IsList f _ _ ts s.txs.ascends hit rest in
            rw (strict, hits) (removed, dropped, rw strict at cut)
        | inr misses ↦
            let nothing : length (select f ts) ≡ 0 = ground (arith, length-perm removed) in
            rw (strict, misses, orphans-none f ts nothing, until-all f ts nothing)
              (removed, Perm.nil, rw strict at rest)
      ]
    ]

-- For 64-bit nonces, `Filter` removes the transactions that cost more or take more gas than the
-- limits. A strict list also loses those above the lowest removed one, and ends there. The caps
-- are upper bounds before and after, so nothing is missed where they spare the search.
pub filter-IsList :
    (l : TxList) (ts : List Tx) (cost_limit gas_limit : ℕ)
    → AreWords ts
    → IsList l ts
    → let (removed, invalids, l') = filter l cost_limit gas_limit in
      Perm removed (select (unpayable cost_limit gas_limit) ts)
      × Perm invalids (lost l.strict (unpayable cost_limit gas_limit) ts)
      × IsList l' (left l.strict (unpayable cost_limit gas_limit) ts)
unfolding filter
filter-IsList l ts cost_limit gas_limit w s =
    let f = unpayable cost_limit gas_limit in
    elim (Bool-cases (leb l.costcap cost_limit && leb l.gascap gas_limit)) [
      | inl spared ↦
          let nothing = payable cost_limit gas_limit ts (
            Within-le l.costcap _ l.gascap _ ts (ground (arith, spared)) (ground (arith, spared))
              s.within) in
          rw
            (
              spared,
              select-none f ts nothing,
              lost-none l.strict f ts nothing,
              left-none l.strict f ts nothing,
              reject-none f ts nothing,
            )
            (Perm.nil, Perm.nil, s)
      | inr needed ↦ rw needed (filter_txs-IsList l ts cost_limit gas_limit w s)
    ]
