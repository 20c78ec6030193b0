-- ===== src/Pool/Errors.antt =====
-- How addTxs hands the errors of new transactions out to the slots of a batch.
use chain_master.Prelude.{
  ℕ, zero, suc, inl, inr, Option-cases, ◌-◌, ◌≤◌, ◌≡◌, refl, ◌∙◌, ap, arith, Option, none, some,
  List, [], ◌∷◌, ◌++◌, length,
}
use mathlib.Core.Option
use chain_master.Pool.State.{PoolError}
use chain_master.Pool.Admit.{put_err, merge_errs}

-- `n` slots without an error.
abbrev pub blanks : ℕ → List (Option PoolError)
blanks zero = []
blanks (suc n) = none ∷ blanks n

-- The errors of a list of answers, without the places they had.
abbrev pub errors : List (Option PoolError) → List (Option PoolError)
errors [] = []
errors (none ∷ es) = errors es
errors (some e ∷ es) = some e ∷ errors es

-- A slot with an error is passed.
merge_errs-pass :
    (x : PoolError) (new slots : List (Option PoolError))
    → merge_errs new (some x ∷ slots) ≡ Option.map (◌∷◌ (some x)) (merge_errs new slots)
unfolding merge_errs put_err
merge_errs-pass x [] slots = refl
merge_errs-pass x (e ∷ new) slots = elim (Option-cases (put_err e slots)) [
  | inl out ↦ rw out refl
  | inr (slots', done) ↦ rw done (merge_errs-pass x new slots')
]

-- If a batch has only new transactions, `addTxs` reports the errors first and then no errors, in
-- whatever places the refused transactions stood.
pub merge_errs-blanks :
    (new : List (Option PoolError)) (n : ℕ)
    → length new ≤ n
    → merge_errs new (blanks n) ≡ some (errors new ++ blanks (n - length (errors new)))
unfolding merge_errs put_err
merge_errs-blanks [] n h = let same : n ≡ n - 0 = omega arith in ap (λ k. some (blanks k)) same
merge_errs-blanks (e ∷ new) zero h = absurd (omega arith)
merge_errs-blanks (none ∷ new) (suc n) h = merge_errs-blanks new (suc n) (omega arith)
merge_errs-blanks (some e ∷ new) (suc n) h =
    merge_errs-pass e new (blanks n)
    ∙ rw (merge_errs-blanks new n (omega arith)) (
        let same : n - length (errors new) ≡ suc n - suc (length (errors new)) = omega arith in
        ap (λ k. some (some e ∷ errors new ++ blanks k)) same)
