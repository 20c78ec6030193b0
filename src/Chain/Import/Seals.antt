-- ===== src/Chain/Import/Seals.antt =====
-- The headers whose seals `ValidateHeaderChain` has verified.
use chain_master.Prelude.{
  ℕ, zero, suc, ◌+◌, ◌-◌, ◌*◌, ◌/◌, ◌<◌, ◌≤◌, ◌≡◌, refl, sym, ap, subst, ◌∙◌, inl, inr, arith, Bool,
  true, false, ◌==◌, Bool-cases,
}
use native.Mathlib.Nat.{le-div_iff_mul-le}
use chain_master.Chain.Import.{set_seal, clamp, draw_seals, sealed}

set_seal_same : (f : ℕ → Bool) (i : ℕ) → set_seal f i i ≡ true
unfolding set_seal
set_seal_same f i = ground arith

set_seal_keeps : (f : ℕ → Bool) (i j : ℕ) → f j ≡ true → set_seal f i j ≡ true
unfolding set_seal
set_seal_keeps f i j e = ground (arith, e)

clamp_lem : (index len : ℕ) → index < len → clamp index len ≡ index
unfolding clamp
clamp_lem index len h = ground (arith, h)

clamp-le : (index len : ℕ) → 0 < len → clamp index len < len
unfolding clamp
clamp-le index len h = ground (arith, h)

draw_seals_keeps :
    (k i cf : ℕ) (draw : ℕ → ℕ) (len : ℕ) (f : ℕ → Bool) (j : ℕ)
    → f j ≡ true
    → draw_seals k i cf draw len f j ≡ true
unfolding draw_seals
draw_seals_keeps zero i cf draw len f j e = e
draw_seals_keeps (suc k) i cf draw len f j e =
    draw_seals_keeps k (i + 1) cf draw len _ j (set_seal_keeps f (clamp (i * cf + draw i) len) j e)

draw_seals_within :
    (k i cf : ℕ) (draw : ℕ → ℕ) (len : ℕ) (f : ℕ → Bool) (j : ℕ)
    → 0 < len
    → (f j ≡ true → j < len)
    → draw_seals k i cf draw len f j ≡ true
    → j < len
unfolding draw_seals set_seal
draw_seals_within zero i cf draw len f j pos within e = within e
draw_seals_within (suc k) i cf draw len f j pos within e =
    draw_seals_within k (i + 1) cf draw len _ j pos
      (λ h. ground (arith, clamp-le (i * cf + draw i) len pos, within, h)) e

draw_seals_drawn :
    (k i cf : ℕ) (draw : ℕ → ℕ) (len : ℕ) (f : ℕ → Bool) (r : ℕ)
    → i ≤ r
    → r < i + k
    → r * cf + draw r < len
    → draw_seals k i cf draw len f (r * cf + draw r) ≡ true
unfolding draw_seals
draw_seals_drawn zero i cf draw len f r le lt h = absurd (omega arith)
draw_seals_drawn (suc k) i cf draw len f r le lt h = elim (Bool-cases (r == i)) [
  | inr other ↦
      draw_seals_drawn k (i + 1) cf draw len _ r (ground (arith, other, le)) (omega arith) h
  | inl same ↦
      let at : r ≡ i = ground (arith, same) in
      let here : clamp (i * cf + draw i) len ≡ r * cf + draw r =
        ap (λ s. clamp (s * cf + draw s) len) (sym at) ∙ clamp_lem (r * cf + draw r) len h in
      draw_seals_keeps k (i + 1) cf draw len _ (r * cf + draw r)
        (ap (λ s. set_seal f s (r * cf + draw r)) here ∙ set_seal_same f (r * cf + draw r))
]

-- Which seals are verified: one of each `cf` neighbours and the last one, and none out of range.
pub record Sampled (cf len : ℕ) (seals : ℕ → Bool) : Type 0 where
  pub last : seals (len - 1) ≡ true
  pub each :
      (r : ℕ)
      → r < len / cf
      → (j : ℕ) × (r * cf ≤ j) × (j < r * cf + cf) × (j < len) × (seals j ≡ true)
  pub within : (j : ℕ) → seals j ≡ true → j < len

module _ (cf len : ℕ) (draw : ℕ → ℕ) (pos : 0 < cf) (some_headers : 0 < len)
    (drawn : (i : ℕ) → draw i < cf) where
  abbrev seals : ℕ → Bool
  seals = set_seal (draw_seals (len / cf) 0 cf draw len (λ i. false)) (len - 1)

  sealed_lem : sealed cf draw len ≡ seals
  unfolding sealed
  sealed_lem = let busy : (cf == 0) ≡ false = ground (arith, pos) in rw (sealed, busy) refl

  round : (r : ℕ) → r < len / cf → r * cf + draw r < len
  round r lt =
      let below : suc r * cf ≤ len = (le-div_iff_mul-le {k = cf} {x = suc r} {y = len} pos).0 lt in
      omega (arith, below, drawn r)

  -- Where `checkFreq` is positive, there are headers, and each random number is less than `checkFreq`:
  -- of each full stretch of `checkFreq` headers one seal at least is verified, the last seal is
  -- verified, and no index is out of range.
  pub sealed-Sampled : Sampled cf len (sealed cf draw len)
  unfolding set_seal
  sealed-Sampled = subst (Sampled cf len) (sym sealed_lem) (record {
    last = set_seal_same (draw_seals (len / cf) 0 cf draw len (λ i. false)) (len - 1);
    each = λ r lt. (
      r * cf + draw r,
      omega arith,
      omega (arith, drawn r),
      round r lt,
      set_seal_keeps (draw_seals (len / cf) 0 cf draw len (λ i. false)) (len - 1) (r * cf + draw r)
          (draw_seals_drawn (len / cf) 0 cf draw len (λ i. false) r (omega arith)
            (omega (arith, lt)) (round r lt)),
    );
    within = λ j e. elim (Bool-cases (len - 1 == j)) [
      | inl at ↦ ground (arith, at, some_headers)
      | inr other ↦
          draw_seals_within (len / cf) 0 cf draw len (λ i. false) j some_headers
            (λ f. absurd ((cc))) (rw other at e)
    ];
  })
