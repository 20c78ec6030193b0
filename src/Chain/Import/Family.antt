-- ===== src/Chain/Import/Family.antt =====
-- Headers whose hashes differ, and that follow their parents; and what a step of the import keeps.
use chain_master.Prelude.{
  ◌+◌, ℕ, suc, ◌<◌, ◌≤◌, ◌≡◌, refl, sym, ap, ◌∙◌, inl, inr, arith, true, false, none, some,
  Bool-cases, Option-cases, u64_mod,
}
use chain_master.Chain.Store
use chain_master.Chain.Store.{Header, ChainDb}
use chain_master.Chain.Lru.{Lru, IsLru}
use chain_master.Chain.Headers.{Caches, HeaderChain, has_header}
use chain_master.Chain.Headers.Invariant.{IsCached, IsChain}
use chain_master.Chain.Headers.Arrival.{IsNew}

-- The engine accepts headers of one family: a hash has one header, whose number follows its parent's.
pub record IsFamily (F : Header → Type 0) : Type 0 where
  pub one : (x y : Header) → F x → F y → x.hash ≡ y.hash → x ≡ y
  pub follows :
      (x p : Header) → F x → F p → x.parent_hash ≡ p.hash → 0 < x.number → suc p.number ≡ x.number

pub record IsProper (F : Header → Type 0) (x : Header) : Type 0 where
  pub member : F x
  pub positive : 0 < x.number
  pub word : x.number + 1 < u64_mod
  pub nonzero : 0 < x.hash

module _ {hl : Lru Header} {nl : Lru ℕ} (F : Header → Type 0) where
  -- A chain of headers of the family.
  pub record IsFamilyChain (hc : HeaderChain hl nl) : Type 0 where
    pub chain : IsChain hc
    pub within : (n h : ℕ) (y : Header) → hc.db.headers n h ≡ some y → F y

  -- What the steps of an import do: the headers stay, and the head gets no lighter.
  pub record Progress (hc hc' : HeaderChain hl nl) : Type 0 where
    pub after : IsFamilyChain hc'
    pub stays : (n h : ℕ) (y : Header) → hc.db.headers n h ≡ some y → hc'.db.headers n h ≡ some y
    pub heavier :
        (l : ℕ)
        → hc.db.tds hc.current.number hc.current_hash ≡ some l
        → (t : ℕ) × (hc'.db.tds hc'.current.number hc'.current_hash ≡ some t) × (l ≤ t)

  pub Progress-trans : {a b c : HeaderChain hl nl} → Progress a b → Progress b c → Progress a c
  Progress-trans p q = record {
    after = q.after;
    stays = λ n h y e. q.stays n h y (p.stays n h y e);
    heavier = λ l e.
        let (t, weighs, le) = p.heavier l e in
        let (u, weighs', le') = q.heavier t weighs in (u, weighs', omega (arith, le, le'));
  }

  -- Other caches.
  pub recached :
      (hc : HeaderChain hl nl) (c : Caches hl nl)
      → IsFamilyChain hc
      → IsCached hc.db c
      → Progress hc (record hc { caches = c })
  recached hc c s k = record {
    after = record {
      chain = record {
        store = s.chain.store;
        cached = k;
        linked = s.chain.linked;
        above = s.chain.above;
        head = s.chain.head;
        pointed = s.chain.pointed;
        current = s.chain.current;
      };
      within = s.within;
    };
    stays = λ n h y e. e;
    heavier = λ l e. (l, e, omega arith);
  }

  module _ (h_law : IsLru hl) (n_law : IsLru nl) (fam : IsFamily F) (hc : HeaderChain hl nl)
      (s : IsFamilyChain hc) (x : Header) (proper : IsProper F x) where
    pub family-IsNew : IsNew hc.db x
    family-IsNew = record {
      positive = proper.positive;
      word = proper.word;
      nonzero = proper.nonzero;
      follows = λ n p at.
          let st = s.chain.store.stored n x.parent_hash p at in
          ap suc (sym st.number)
          ∙ fam.follows x p proper.member (s.within n x.parent_hash p at) (sym st.hash)
              proper.positive;
      fresh = λ n y at.
          fam.one y x (s.within n x.hash y at) proper.member
            (s.chain.store.stored n x.hash y at).hash;
    }

    -- A header that is stored under the hash is the header.
    at_hash :
        (n : ℕ) (y : Header)
        → hc.db.headers n x.hash ≡ some y
        → hc.db.headers x.number x.hash ≡ some x
    at_hash n y at =
        let st = s.chain.store.stored n x.hash y at in
        let same : y ≡ x = fam.one y x (s.within n x.hash y at) proper.member st.hash in
        ap (λ i. hc.db.headers i x.hash) (ap (λ (z : Header). z.number) (sym same) ∙ st.number)
        ∙ at
        ∙ ap some same

    absent_lem :
        hc.db.headers x.number x.hash ≡ none → Store.has_header hc.db x.hash x.number ≡ false
    unfolding Store.has_header
    absent_lem e = rw (s.chain.store.live x.number, e, Store.has_header) refl

    pub has_header-stored :
        has_header hl nl hc.db hc.caches x.hash x.number ≡ true
        → hc.db.headers x.number x.hash ≡ some x
    unfolding has_header
    has_header-stored e = elim (Bool-cases (nl.contains hc.caches.number_cache x.hash)) [
      | inl counted ↦
          let (n, at) = n_law.contains-peek hc.caches.number_cache x.hash counted in
          let (y, there) = s.chain.cached.number x.hash n at in at_hash n y there
      | inr uncounted ↦ elim (Bool-cases (hl.contains hc.caches.header_cache x.hash)) [
        | inl kept ↦
            let (y, at) = h_law.contains-peek hc.caches.header_cache x.hash kept in
            at_hash y.number y (s.chain.cached.header x.hash y at)
        | inr lost ↦ elim (Option-cases (hc.db.headers x.number x.hash)) [
          | inr (y, at) ↦ at_hash x.number y at
          | inl missing ↦ absurd (ground (arith, uncounted, lost, e, absent_lem missing))
        ]
      ]
    ]
