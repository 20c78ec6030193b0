-- ===== src/Pool/Walk.antt =====
-- The loops of the walk of reset, round by round, and the numbers that they reach.
pub mod Descent
pub mod Meets
use chain_master.Prelude.{
  ℕ, zero, suc, ◌+◌, ◌-◌, ◌%◌, ◌<◌, ◌≤◌, ◌≡◌, refl, sym, ap, subst, ◌∙◌, inl, inr, arith, true,
  false, Option, none, some, [], ◌++◌, ltb, ◌==◌, Bool-cases, Option-cases, u64_mod,
}
use mathlib.Core.Option.{some-injective}
use chain_master.Pool.Moves.{◌>>=◌}
use chain_master.Pool.Truncate.{level}
use chain_master.Pool.Reset.{
  Chain, Block, Walk, rewind_rem, rewind_add, lower_rem, lower_add, meet, walk,
}

-- `GetBlock` returns a block with the number it is asked for, and there is none with the last one.
pub record IsNumbered (chain : Chain) : Type 0 where
  pub numbered :
      (hash number : ℕ) (b : Block) → chain.get_block hash number ≡ some b → b.number ≡ number
  pub bounded : (hash : ℕ) → chain.get_block hash (u64_mod - 1) ≡ none

pub bind-some :
    {A B : Type 0} (x : Option A) (f : A → Option B) (b : B)
    → x >>= f ≡ some b
    → (a : A) × (x ≡ some a) × (f a ≡ some b)
bind-some none f b e = absurd ((cc))
bind-some (some a) f b e = (a, refl, e)

module _ (chain : Chain) (c : IsNumbered chain) where
  pub below-number :
      (hash n : ℕ) (b : Block)
      → n < u64_mod
      → chain.get_block hash ((n + u64_mod - 1) % u64_mod) ≡ some b
      → b.number + 1 ≡ n
  below-number hash zero b small e = absurd (ground (arith, e, c.bounded hash))
  below-number hash (suc n) b small e =
      omega (arith, c.numbered hash ((suc n + u64_mod - 1) % u64_mod) b e)

  pub rem-at :
      (w : Walk) (b : Block)
      → chain.get_block w.rem.parent_hash ((w.rem.number + u64_mod - 1) % u64_mod) ≡ some b
      → rewind_rem chain w ≡ some (record w { rem = b; discarded = w.discarded ++ w.rem.txs })
  unfolding rewind_rem
  rem-at w b e = rw (rewind_rem, e) refl

  rem-gone :
      (w : Walk)
      → chain.get_block w.rem.parent_hash ((w.rem.number + u64_mod - 1) % u64_mod) ≡ none
      → rewind_rem chain w ≡ none
  unfolding rewind_rem
  rem-gone w e = rw (rewind_rem, e) refl

  pub add-at :
      (w : Walk) (b : Block)
      → chain.get_block w.add.parent_hash ((w.add.number + u64_mod - 1) % u64_mod) ≡ some b
      → rewind_add chain w ≡ some (record w { add = b; included = w.included ++ w.add.txs })
  unfolding rewind_add
  add-at w b e = rw (rewind_add, e) refl

  add-gone :
      (w : Walk)
      → chain.get_block w.add.parent_hash ((w.add.number + u64_mod - 1) % u64_mod) ≡ none
      → rewind_add chain w ≡ none
  unfolding rewind_add
  add-gone w e = rw (rewind_add, e) refl

  -- A step back goes down by one block.
  pub rewind_rem-number :
      (w v : Walk)
      → w.rem.number < u64_mod
      → rewind_rem chain w ≡ some v
      → (v.rem.number + 1 ≡ w.rem.number) × (v.add.number ≡ w.add.number)
  rewind_rem-number w v small e =
      elim (Option-cases
        (chain.get_block w.rem.parent_hash ((w.rem.number + u64_mod - 1) % u64_mod))) [
          | inl gone ↦ absurd (ground (arith, e, rem-gone w gone))
          | inr (b, there) ↦
              let at = some-injective _ _ (sym (rem-at w b there) ∙ e) in
              let down = below-number w.rem.parent_hash w.rem.number b small there in
              (omega (arith, down, ap (λ u. u.rem.number) at), ap (λ u. u.add.number) (sym at))
        ]

  pub rewind_add-number :
      (w v : Walk)
      → w.add.number < u64_mod
      → rewind_add chain w ≡ some v
      → (v.add.number + 1 ≡ w.add.number) × (v.rem.number ≡ w.rem.number)
  rewind_add-number w v small e =
      elim (Option-cases
        (chain.get_block w.add.parent_hash ((w.add.number + u64_mod - 1) % u64_mod))) [
          | inl gone ↦ absurd (ground (arith, e, add-gone w gone))
          | inr (b, there) ↦
              let at = some-injective _ _ (sym (add-at w b there) ∙ e) in
              let down = below-number w.add.parent_hash w.add.number b small there in
              (omega (arith, down, ap (λ u. u.add.number) at), ap (λ u. u.rem.number) (sym at))
        ]

  pub lower_rem-stop :
      (k : ℕ) (w : Walk)
      → ltb w.add.number w.rem.number ≡ false
      → lower_rem chain (suc k) w ≡ some w
  unfolding lower_rem
  lower_rem-stop k w e = rw (lower_rem, e) refl

  pub lower_rem-step :
      (k : ℕ) (w : Walk)
      → ltb w.add.number w.rem.number ≡ true
      → lower_rem chain (suc k) w ≡ (rewind_rem chain w >>= lower_rem chain k)
  unfolding lower_rem
  lower_rem-step k w e = rw (lower_rem, e) refl

  pub lower_add-stop :
      (k : ℕ) (w : Walk)
      → ltb w.rem.number w.add.number ≡ false
      → lower_add chain (suc k) w ≡ some w
  unfolding lower_add
  lower_add-stop k w e = rw (lower_add, e) refl

  pub lower_add-step :
      (k : ℕ) (w : Walk)
      → ltb w.rem.number w.add.number ≡ true
      → lower_add chain (suc k) w ≡ (rewind_add chain w >>= lower_add chain k)
  unfolding lower_add
  lower_add-step k w e = rw (lower_add, e) refl

  pub meet-stop :
      (k : ℕ) (w : Walk) → w.rem.hash == w.add.hash ≡ true → meet chain (suc k) w ≡ some w
  unfolding meet
  meet-stop k w e = rw (meet, e) refl

  pub meet-step :
      (k : ℕ) (w : Walk)
      → w.rem.hash == w.add.hash ≡ false
      → meet chain (suc k) w ≡ (rewind_rem chain w >>= λ v. rewind_add chain v >>= meet chain k)
  unfolding meet
  meet-step k w e = rw (meet, e) refl

  pub lower_rem-number :
      (k : ℕ) (w v : Walk)
      → w.rem.number ≤ k
      → w.rem.number < u64_mod
      → lower_rem chain k w ≡ some v
      → (v.rem.number ≤ v.add.number) × (v.add.number ≡ w.add.number) × (v.rem.number < u64_mod)
  unfolding lower_rem
  lower_rem-number zero w v enough small e =
      let at : w ≡ v = some-injective _ _ e in
      let r = ap (λ u. u.rem.number) at in
      let a = ap (λ u. u.add.number) at in (omega (arith, r), sym a, omega (arith, r))
  lower_rem-number (suc k) w v enough small e = elim (Bool-cases (ltb w.add.number w.rem.number)) [
    | inr not ↦
        let at : w ≡ v = some-injective _ _ (sym (lower_rem-stop k w not) ∙ e) in
        let r = ap (λ u. u.rem.number) at in
        let a = ap (λ u. u.add.number) at in (ground (arith, r, a, not), sym a, omega (arith, r))
    | inl more ↦
        let (u, back, rest) =
          bind-some (rewind_rem chain w) (lower_rem chain k) v
            (sym (lower_rem-step k w more) ∙ e) in
        let (down, still) = rewind_rem-number w u small back in
        let (le, add, word) =
          lower_rem-number k u v (omega (arith, down)) (omega (arith, down)) rest in
        (le, add ∙ still, word)
  ]

  pub lower_add-number :
      (k : ℕ) (w v : Walk)
      → w.add.number ≤ k
      → w.add.number < u64_mod
      → w.rem.number ≤ w.add.number
      → lower_add chain k w ≡ some v
      → (v.rem.number ≡ v.add.number) × (v.rem.number ≡ w.rem.number)
  unfolding lower_add
  lower_add-number zero w v enough small le e =
      let at : w ≡ v = some-injective _ _ e in
      let r = ap (λ u. u.rem.number) at in
      let a = ap (λ u. u.add.number) at in (omega (arith, r, a), sym r)
  lower_add-number (suc k) w v enough small le e =
      elim (Bool-cases (ltb w.rem.number w.add.number)) [
        | inr not ↦
            let at : w ≡ v = some-injective _ _ (sym (lower_add-stop k w not) ∙ e) in
            let r = ap (λ u. u.rem.number) at in
            let a = ap (λ u. u.add.number) at in (ground (arith, r, a, not), sym r)
        | inl more ↦
            let (u, back, rest) =
              bind-some (rewind_add chain w) (lower_add chain k) v
                (sym (lower_add-step k w more) ∙ e) in
            let (down, still) = rewind_add-number w u small back in
            let (same, rem) =
              lower_add-number k u v (omega (arith, down)) (omega (arith, down))
                (ground (arith, down, still, more)) rest in
            (same, rem ∙ still)
      ]
