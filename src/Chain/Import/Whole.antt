-- ===== src/Chain/Import/Whole.antt =====
-- `InsertHeaderChain` of the block chain: the headers are validated, and then inserted.
use chain_master.Prelude.{
  ℕ, ◌≡◌, refl, sym, ap, subst, ◌∙◌, inl, inr, arith, Bool, true, false, not, ◌&&◌, Option, none,
  some, List, ◌∷◌, All, length, ◌==◌, Bool-cases, Option-cases,
}
use chain_master.Chain.Store.{Header}
use chain_master.Chain.Lru.{Lru, IsLru}
use chain_master.Chain.Headers.{HeaderChain}
use chain_master.Chain.Import.{
  ImportError, non_contiguous, is_contiguous, sealed, Surroundings, check_results, Imported,
  imported, insert_loop, insert_headers, validate_header_chain, insert_header_chain,
}
use chain_master.Chain.Import.Family.{IsFamily, IsProper, IsFamilyChain}
use chain_master.Chain.Import.Outcome.{HasParent, Done, insert_loop-Done}

module _ {hl : Lru Header} {nl : Lru ℕ} (F : Header → Type 0) where
  -- How the whole import ends: refused with the chain as it was, or done.
  pub data Import (env : Surroundings) (hc : HeaderChain hl nl) (chain : List Header)
      (r : Imported hl nl) : Type 0 where
    refused : (i : ℕ) (err : ImportError) → r ≡ imported hc i (some err) → Import env hc chain r
    done : Done F env hc chain r → Import env hc chain r

  module _ (h_law : IsLru hl) (n_law : IsLru nl) (fam : IsFamily F) (env env' : Surroundings)
      (coins : ℕ → Bool) (hc : HeaderChain hl nl) (s : IsFamilyChain F hc) (x : Header)
      (chain : List Header) (cf : ℕ) (proper : All (IsProper F) (x ∷ chain))
      (starts : HasParent hc x) where
    abbrev results : ℕ × Option ImportError
    results =
        check_results env (env.verify_headers (x ∷ chain) (sealed cf env.draw (length (x ∷ chain))))
          0 (x ∷ chain)

    broken_lem :
        is_contiguous (x ∷ chain) ≡ false
        → insert_header_chain hl nl env env' coins hc (x ∷ chain) cf
          ≡ imported hc 0 (some non_contiguous)
    unfolding insert_header_chain validate_header_chain
    broken_lem e = rw (insert_header_chain, validate_header_chain, e) refl

    checked_lem :
        is_contiguous (x ∷ chain) ≡ true → validate_header_chain env (x ∷ chain) cf ≡ some results
    unfolding validate_header_chain
    checked_lem e =
        let full : (not (cf == 0) && length (x ∷ chain) == 0) ≡ false = ground arith in
        rw (validate_header_chain, e, full) refl

    invalid_lem :
        (i : ℕ) (err : ImportError)
        → validate_header_chain env (x ∷ chain) cf ≡ some (i, some err)
        → insert_header_chain hl nl env env' coins hc (x ∷ chain) cf ≡ imported hc i (some err)
    unfolding insert_header_chain
    invalid_lem i err e = rw (insert_header_chain, e) refl

    valid_lem :
        (i : ℕ)
        → validate_header_chain env (x ∷ chain) cf ≡ some (i, none)
        → insert_header_chain hl nl env env' coins hc (x ∷ chain) cf
          ≡ insert_loop hl nl env' coins 0 hc (x ∷ chain)
    unfolding insert_header_chain insert_headers
    valid_lem i e = rw (insert_header_chain, e) refl

    -- On a chain of headers whose caches keep the laws of golang-lru, for headers of one family in
    -- which hashes differ and numbers follow those of the parents, with positive numbers less than
    -- 2 ^ 64 - 1 and hashes that are not zero, the parent of the first one being stored:
    -- `InsertHeaderChain` does not crash and does not miss a parent. It refuses the headers and
    -- leaves the chain as it was; or it is interrupted; or it stores them all. In the last two the
    -- chain of headers stays one, what was stored stays, and the total difficulty of the head does
    -- not fall.
    pub insert_header_chain_lem :
        Import env' hc (x ∷ chain) (insert_header_chain hl nl env env' coins hc (x ∷ chain) cf)
    insert_header_chain_lem = elim (Bool-cases (is_contiguous (x ∷ chain))) [
      | inr broken ↦ refused 0 non_contiguous (broken_lem broken)
      | inl linked ↦ elim (Option-cases results.1) [
        | inr (err, e) ↦
            refused results.0 err
              (invalid_lem results.0 err (checked_lem linked ∙ ap (λ r. some (results.0, r)) e))
        | inl e ↦ done (
            subst (Done F env' hc (x ∷ chain))
              (sym (valid_lem results.0 (checked_lem linked ∙ ap (λ r. some (results.0, r)) e)))
              (insert_loop-Done F h_law n_law fam env' coins 0 hc (x ∷ chain) s proper linked
                starts))
      ]
    ]
