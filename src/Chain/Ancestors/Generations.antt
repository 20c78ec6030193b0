-- ===== src/Chain/Ancestors/Generations.antt =====
-- The ancestors of a header, read off the stored headers alone.
use chain_master.Prelude.{
  ℕ, zero, suc, ◌-◌, ◌≤◌, ◌≡◌, refl, ap, ◌∙◌, arith, Option, none, some, List, [], ◌∷◌,
}
use chain_master.Chain.Store.{Header}
use chain_master.Chain.Headers.Invariant.{Linked}

module _ (headers : ℕ → ℕ → Option Header) where
  -- The hash of the ancestor some generations back; zero where a header is missing.
  unfoldable pub nth_parent : ℕ → ℕ → ℕ → ℕ
  nth_parent zero n h = h
  nth_parent (suc k) n h = elim (headers n h) [
    | none ↦ 0
    | some x ↦ nth_parent k (n - 1) x.parent_hash
  ]

  -- The hashes of the given number of generations, from one on.
  unfoldable pub line : ℕ → ℕ → ℕ → ℕ → List ℕ
  line zero i n h = []
  line (suc k) i n h = nth_parent i n h ∷ line k (suc i) n h

  pub nth_parent-suc :
      (k n h : ℕ) (x : Header)
      → headers n h ≡ some x
      → nth_parent (suc k) n h ≡ nth_parent k (n - 1) x.parent_hash
  unfolding nth_parent
  nth_parent-suc k n h x e = rw (nth_parent, e) refl

  pub line-suc :
      (k i n h : ℕ) (x : Header)
      → headers n h ≡ some x
      → line k (suc i) n h ≡ line k i (n - 1) x.parent_hash
  unfolding line
  line-suc zero i n h x e = refl
  line-suc (suc k) i n h x e =
      ap (λ a. a ∷ line k (suc (suc i)) n h) (nth_parent-suc i n h x e)
      ∙ ap (λ l. nth_parent i (n - 1) x.parent_hash ∷ l) (line-suc k (suc i) n h x e)

  -- The ancestors of a linked hash are the hashes it is linked with.
  pub nth_parent-Linked :
      (f : ℕ → ℕ) (k n : ℕ) → k ≤ n → Linked headers f n → nth_parent k n (f n) ≡ f (n - k)
  unfolding nth_parent
  nth_parent-Linked f zero n le l = ap f (omega arith)
  nth_parent-Linked f (suc k) zero le l = absurd (omega arith)
  nth_parent-Linked f (suc k) (suc n) le ((x, at, parent), rest) =
      nth_parent-suc k (suc n) (f (suc n)) x at
      ∙ ap (λ i. nth_parent k i x.parent_hash) (omega arith)
      ∙ ap (nth_parent k n) parent
      ∙ nth_parent-Linked f k n (omega arith) rest
      ∙ ap f (omega arith)
