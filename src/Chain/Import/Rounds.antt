-- ===== src/Chain/Import/Rounds.antt =====
-- One round of the loop of `InsertHeaderChain`.
use chain_master.Prelude.{
  ℕ, suc, ◌≤◌, ◌≡◌, refl, sym, ap, subst, ◌∙◌, inl, inr, arith, Bool, true, false, Option, none,
  some, leb, if◌then◌else◌, Bool-cases,
}
use mathlib.Core.Option.{some-injective}
use chain_master.Chain.Store.{Header}
use chain_master.Chain.Lru.{Lru, IsLru}
use chain_master.Chain.Headers.{
  Caches, HeaderChain, Written, unknown_ancestor, crashed, written, canon_stat, side_stat, get_td,
  has_header, write_header,
}
use chain_master.Chain.Headers.Reads.{get_td-TdRead, get_td-stored}
use chain_master.Chain.Headers.Ends.{Grown, Ends}
use chain_master.Chain.Headers.Whole.{write_header_lem}
use chain_master.Chain.Import.{Decision, broke, ignored, processed, decide_known, decide_header}
use chain_master.Chain.Import.Family.{
  IsFamily, IsProper, IsFamilyChain, Progress, recached, family-IsNew, has_header-stored,
}

module _ {hl : Lru Header} {nl : Lru ℕ} (F : Header → Type 0) where
  unfoldable pub Decided : HeaderChain hl nl → Header → Decision hl nl → Type 0
  Decided hc x broke = ⊥
  Decided hc x (ignored hc') = Progress F hc hc' × (hc'.db.headers x.number x.hash ≡ some x)
  Decided hc x (processed hc') = Progress F hc hc'

  -- After a write the header is stored, or its parent is not.
  unfoldable pub Wrote : HeaderChain hl nl → Header → Written hl nl → Type 0
  Wrote hc x (unknown_ancestor hc') =
      (m : ℕ) → x.number ≡ suc m → hc.db.headers m x.parent_hash ≡ none
  Wrote hc x crashed = ⊥
  Wrote hc x (written hc' status) = Progress F hc hc' × (hc'.db.headers x.number x.hash ≡ some x)

  module _ (h_law : IsLru hl) (n_law : IsLru nl) (fam : IsFamily F) (hc : HeaderChain hl nl)
      (s : IsFamilyChain F hc) (x : Header) (proper : IsProper F x) where
    abbrev extern_asked : Option ℕ × Caches hl nl
    extern_asked = get_td hl nl hc.db hc.caches x.hash x.number

    abbrev own_asked : Option ℕ × Caches hl nl
    own_asked = get_td hl nl hc.db extern_asked.1 hc.current_hash hc.current.number

    decide_known_lem :
        (t l : ℕ) (light : Bool)
        → leb t l ≡ light
        → extern_asked.0 ≡ some t
        → own_asked.0 ≡ some l
        → decide_known hl nl hc x ≡ (
            if light
            then ignored (record hc { caches = own_asked.1 })
            else processed (record hc { caches = own_asked.1 }))
    unfolding decide_known
    decide_known_lem t l light b e f = rw (decide_known, e, f, b) refl

    known_Decided : hc.db.headers x.number x.hash ≡ some x → Decided hc x (decide_known hl nl hc x)
    unfolding Decided
    known_Decided at =
        let store = s.chain.store in
        let (t, weighs) = (store.stored x.number x.hash x at).weighed in
        let (l, local) =
          (store.stored hc.current.number hc.current_hash hc.current s.chain.current).weighed in
        let kept =
          (get_td-TdRead h_law n_law store hc.caches x.hash x.number s.chain.cached).kept in
        let kept' =
          (get_td-TdRead h_law n_law store extern_asked.1 hc.current_hash hc.current.number
            kept).kept in
        let e = get_td-stored h_law n_law store hc.caches x.hash x.number t s.chain.cached weighs in
        let f =
          get_td-stored h_law n_law store extern_asked.1 hc.current_hash hc.current.number l kept
            local in
        let p : Progress F hc (record hc { caches = own_asked.1 }) =
          recached F hc own_asked.1 s kept' in
        elim (Bool-cases (leb t l)) [
          | inl light ↦ subst (Decided hc x) (sym (decide_known_lem t l true light e f)) (p, at)
          | inr heavy ↦ subst (Decided hc x) (sym (decide_known_lem t l false heavy e f)) p
        ]

    pub decide_header-Decided : Decided hc x (decide_header hl nl hc x)
    unfolding decide_header Decided
    decide_header-Decided = elim (Bool-cases (has_header hl nl hc.db hc.caches x.hash x.number)) [
      | inl known ↦
          rw (decide_header, known)
            (known_Decided (has_header-stored F h_law n_law fam hc s x proper known))
      | inr new ↦ rw (decide_header, new) (recached F hc hc.caches s s.chain.cached)
    ]

    Grown-Progress :
        (hc' : HeaderChain hl nl)
        → Grown hc hc' x
        → ((l : ℕ)
            → hc.db.tds hc.current.number hc.current_hash ≡ some l
            → (t : ℕ) × (hc'.db.tds hc'.current.number hc'.current_hash ≡ some t) × (l ≤ t))
        → Progress F hc hc'
    Grown-Progress hc' g heavier = record {
      after = record {
        chain = g.chain;
        within = λ n h y e. elim (g.only n h y e) [
          | inl same ↦ subst F (sym same) proper.member
          | inr old ↦ s.within n h y old
        ];
      };
      stays = g.stays;
      heavier = heavier;
    }

    Ends-Wrote : (r : Written hl nl) → Ends hc x r → Wrote hc x r
    unfolding Ends Wrote
    Ends-Wrote (unknown_ancestor hc') (g, same, missing) = missing
    Ends-Wrote crashed e = e
    Ends-Wrote (written hc' canon_stat) (g, now, hash, (t, l, w, le)) = (
      Grown-Progress hc' g (λ k e. (
        t,
        ap (hc'.db.tds hc'.current.number) hash
            ∙ ap (λ (y : Header). hc'.db.tds y.number x.hash) now
            ∙ w.weight,
        omega (arith, some-injective _ _ (sym e ∙ w.before_it), le),
      )),
      w.arrived,
    )
    Ends-Wrote (written hc' side_stat) (g, now, hash, (t, l, w, le)) = (
      Grown-Progress hc' g (λ k e. (
        k,
        ap (hc'.db.tds hc'.current.number) hash
            ∙ ap (λ (y : Header). hc'.db.tds y.number hc.current_hash) now
            ∙ g.weights hc.current.number hc.current_hash k e,
        omega arith,
      )),
      w.arrived,
    )

    pub write_header-Wrote : (coin : Bool) → Wrote hc x (write_header hl nl coin hc x)
    write_header-Wrote coin = Ends-Wrote (write_header hl nl coin hc x) (
        write_header_lem h_law n_law hc s.chain x (family-IsNew F h_law n_law fam hc s x proper)
          coin)
