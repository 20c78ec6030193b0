-- ===== src/Pool/Accounts/Members.antt =====
-- The addresses of an accountSet after it was merged with another.
use chain_master.Prelude.{ℕ, ◌≡◌, ap, ◌∙◌, inl, inr, arith, true, List, [], ◌∷◌, ◌==◌, Bool-cases}
use chain_master.Pool.Accounts.{has_address, insert_address, insert_all}

has_address-insert :
    (a b : ℕ) (others : List ℕ)
    → has_address a others ≡ true
    → has_address a (insert_address b others) ≡ true
unfolding insert_address has_address
has_address-insert a b others e = ground (arith, e)

insert-has_address : (a : ℕ) (others : List ℕ) → has_address a (insert_address a others) ≡ true
unfolding insert_address has_address
insert-has_address a others = ground arith

pub insert_all-old :
    (a : ℕ) (xs others : List ℕ)
    → has_address a others ≡ true
    → has_address a (insert_all xs others) ≡ true
unfolding insert_all
insert_all-old a [] others e = e
insert_all-old a (x ∷ xs) others e =
    insert_all-old a xs (insert_address x others) (has_address-insert a x others e)

pub insert_all-new :
    (a : ℕ) (xs others : List ℕ)
    → has_address a xs ≡ true
    → has_address a (insert_all xs others) ≡ true
unfolding insert_all has_address
insert_all-new a [] others e = absurd ((cc))
insert_all-new a (x ∷ xs) others e = elim (Bool-cases (x == a)) [
  | inl same ↦
      let at : x ≡ a = ground (arith, same) in
      insert_all-old a xs (insert_address x others)
        (ap (λ b. has_address a (insert_address b others)) at ∙ insert-has_address a others)
  | inr other ↦ insert_all-new a xs (insert_address x others) (ground (arith, e, other))
]
