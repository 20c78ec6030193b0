-- ===== src/Chain/Import/Outcome.antt =====
-- How `InsertHeaderChain` ends.
use chain_master.Prelude.{
  ℕ, suc, ◌+◌, ◌%◌, ◌<◌, ◌≡◌, refl, sym, ap, subst, ◌∙◌, inl, inr, arith, Bool, true, false, none,
  some, List, [], ◌∷◌, All, Bool-cases, u64_mod,
}
use chain_master.Chain.Store.{Header}
use chain_master.Chain.Lru.{Lru, IsLru}
use chain_master.Chain.Headers.{
  HeaderChain, Written, unknown_ancestor, crashed, written, write_header,
}
use chain_master.Chain.Import.{
  non_contiguous, aborted, blacklisted, unknown_parent, unverified, contiguous, is_contiguous,
  Surroundings, Decision, broke, ignored, processed, decide_header, carry_out, Imported, panicked,
  imported, go_on, insert_loop,
}
use chain_master.Chain.Import.Family.{
  IsFamily, IsProper, IsFamilyChain, Progress, Progress-trans, recached,
}
use chain_master.Chain.Import.Rounds.{Decided, decide_header-Decided, Wrote, write_header-Wrote}

rest_contiguous :
    (x : Header) (chain : List Header) → contiguous x chain ≡ true → is_contiguous chain ≡ true
unfolding contiguous is_contiguous
rest_contiguous x [] e = refl
rest_contiguous x (y ∷ chain) e = ground (arith, e)

module _ {hl : Lru Header} {nl : Lru ℕ} where
  -- The header is stored.
  abbrev pub Holds : HeaderChain hl nl → Header → Type 0
  Holds hc x = hc.db.headers x.number x.hash ≡ some x

  -- The parent of a header is stored.
  pub record HasParent (hc : HeaderChain hl nl) (x : Header) : Type 0 where
    pub number : ℕ
    pub above : x.number ≡ suc number
    pub parent : Header
    pub held : hc.db.headers number x.parent_hash ≡ some parent

  -- All headers are stored at the end, but when the import was interrupted.
  unfoldable pub Done :
      (Header → Type 0) → Surroundings → HeaderChain hl nl → List Header → Imported hl nl → Type 0
  Done F env hc chain panicked = ⊥
  Done F env hc chain (imported hc' j none) = Progress F hc hc' × All (Holds hc') chain
  Done F env hc chain (imported hc' j (some aborted)) =
      Progress F hc hc' × (env.interrupted j ≡ true)
  Done F env hc chain (imported hc' j (some non_contiguous)) = ⊥
  Done F env hc chain (imported hc' j (some blacklisted)) = ⊥
  Done F env hc chain (imported hc' j (some unknown_parent)) = ⊥
  Done F env hc chain (imported hc' j (some (unverified err))) = ⊥

  -- The first header has its parent stored.
  abbrev pub Starts : HeaderChain hl nl → List Header → Type 0
  Starts hc [] = Unit
  Starts hc (x ∷ chain) = HasParent hc x

  HasParent-next :
      (hc : HeaderChain hl nl) (x y : Header) (chain : List Header)
      → x.number < u64_mod
      → 0 < y.number
      → contiguous x (y ∷ chain) ≡ true
      → Holds hc x
      → HasParent hc y
  unfolding contiguous
  HasParent-next hc x y chain word pos e held =
      let follows : y.number ≡ (x.number + 1) % u64_mod = ground (arith, e) in
      let same : x.hash ≡ y.parent_hash = ground (arith, e) in
      record {
        number = x.number;
        above = omega arith;
        parent = x;
        held = ap (hc.db.headers x.number) (sym same) ∙ held;
      }

  Starts-next :
      (F : Header → Type 0) (hc : HeaderChain hl nl) (x : Header) (chain : List Header)
      → IsProper F x
      → All (IsProper F) chain
      → contiguous x chain ≡ true
      → Holds hc x
      → Starts hc chain
  Starts-next F hc x [] first others e held = tt
  Starts-next F hc x (y ∷ chain) first (second, _) e held =
      HasParent-next hc x y chain (omega (arith, first.word)) second.positive e held

  module _ (F : Header → Type 0) (h_law : IsLru hl) (n_law : IsLru nl) (fam : IsFamily F)
      (env : Surroundings) (coins : ℕ → Bool) where
    -- A header that was dealt with, before the others.
    Done-first :
        (hc hc' : HeaderChain hl nl) (x : Header) (chain : List Header) (r : Imported hl nl)
        → Progress F hc hc'
        → Holds hc' x
        → Done F env hc' chain r
        → Done F env hc (x ∷ chain) r
    unfolding Done
    Done-first hc hc' x chain panicked p held d = d
    Done-first hc hc' x chain (imported hc'' j none) p held (q, all) =
        (Progress-trans F p q, (q.stays x.number x.hash x held, all))
    Done-first hc hc' x chain (imported hc'' j (some aborted)) p held (q, at) =
        (Progress-trans F p q, at)
    Done-first hc hc' x chain (imported hc'' j (some non_contiguous)) p held d = d
    Done-first hc hc' x chain (imported hc'' j (some blacklisted)) p held d = d
    Done-first hc hc' x chain (imported hc'' j (some unknown_parent)) p held d = d
    Done-first hc hc' x chain (imported hc'' j (some (unverified err))) p held d = d

    -- What the rest of the headers is to satisfy.
    abbrev Rest :
        HeaderChain hl nl → Header → List Header → (HeaderChain hl nl → Imported hl nl) → Type 0
    Rest hc x chain rest =
        (hc' : HeaderChain hl nl)
        → Progress F hc hc'
        → Holds hc' x
        → Done F env hc' chain (rest hc')

    go_on-Done :
        (hc hc' : HeaderChain hl nl) (x : Header) (chain : List Header)
        (rest : HeaderChain hl nl → Imported hl nl) (i : ℕ) (w : Written hl nl)
        → Progress F hc hc'
        → HasParent hc' x
        → Rest hc x chain rest
        → Wrote F hc' x w
        → Done F env hc (x ∷ chain) (go_on hl nl i rest w)
    unfolding go_on Wrote
    go_on-Done hc hc' x chain rest i (unknown_ancestor hc'') p parent later missing =
        absurd (ground (arith, missing parent.number parent.above, parent.held))
    go_on-Done hc hc' x chain rest i crashed p parent later e = absurd e
    go_on-Done hc hc' x chain rest i (written hc'' status) p parent later (q, held) =
        let all = Progress-trans F p q in
        Done-first hc hc'' x chain (rest hc'') all held (later hc'' all held)

    moved_HasParent :
        (hc hc' : HeaderChain hl nl) (x : Header)
        → Progress F hc hc'
        → HasParent hc x
        → HasParent hc' x
    moved_HasParent hc hc' x p r = record {
      number = r.number;
      above = r.above;
      parent = r.parent;
      held = p.stays r.number x.parent_hash r.parent r.held;
    }

    Decided-Done :
        (hc : HeaderChain hl nl) (x : Header) (chain : List Header)
        (rest : HeaderChain hl nl → Imported hl nl) (i : ℕ) (coin : Bool) (d : Decision hl nl)
        → IsProper F x
        → HasParent hc x
        → Rest hc x chain rest
        → Decided F hc x d
        → Done F env hc (x ∷ chain) (carry_out hl nl i coin rest x d)
    unfolding Decided carry_out
    Decided-Done hc x chain rest i coin broke proper parent later e = absurd e
    Decided-Done hc x chain rest i coin (ignored hc') proper parent later (p, held) =
        Done-first hc hc' x chain (rest hc') p held (later hc' p held)
    Decided-Done hc x chain rest i coin (processed hc') proper parent later p =
        go_on-Done hc hc' x chain rest i (write_header hl nl coin hc' x) p
          (moved_HasParent hc hc' x p parent) later
          (write_header-Wrote F h_law n_law fam hc' p.after x proper coin)

    unwind :
        (i : ℕ) (hc : HeaderChain hl nl) (x : Header) (chain : List Header)
        → env.interrupted i ≡ false
        → insert_loop hl nl env coins i hc (x ∷ chain)
          ≡ carry_out hl nl i
              (coins i)
              (λ hc'. insert_loop hl nl env coins (i + 1) hc' chain)
              x
              (decide_header hl nl hc x)
    unfolding insert_loop
    unwind i hc x chain e = rw (insert_loop, e) refl

    pub insert_loop-Done :
        (i : ℕ) (hc : HeaderChain hl nl) (chain : List Header)
        → IsFamilyChain F hc
        → All (IsProper F) chain
        → is_contiguous chain ≡ true
        → Starts hc chain
        → Done F env hc chain (insert_loop hl nl env coins i hc chain)
    unfolding insert_loop Done is_contiguous
    insert_loop-Done i hc [] s proper linked starts = (recached F hc hc.caches s s.chain.cached, tt)
    insert_loop-Done i hc (x ∷ chain) s (first, others) linked starts =
        elim (Bool-cases (env.interrupted i)) [
          | inl stop ↦ rw (stop, insert_loop) (recached F hc hc.caches s s.chain.cached, stop)
          | inr go ↦ subst (Done F env hc (x ∷ chain)) (sym (unwind i hc x chain go)) (
              Decided-Done hc x chain (λ hc'. insert_loop hl nl env coins (i + 1) hc' chain) i
                (coins i) (decide_header hl nl hc x) first starts
                (λ hc' p held.
                  insert_loop-Done (i + 1) hc' chain p.after others (rest_contiguous x chain linked)
                    (Starts-next F hc' x chain first others linked held))
                (decide_header-Decided F h_law n_law fam hc s x first))
        ]
