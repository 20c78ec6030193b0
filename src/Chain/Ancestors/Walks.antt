-- ===== src/Chain/Ancestors/Walks.antt =====
-- `GetAncestor` on a chain of headers.
use chain_master.Prelude.{
  ℕ, zero, suc, ◌-◌, ◌<◌, ◌≤◌, ◌≡◌, refl, sym, ap, subst, ◌∙◌, inl, inr, ◌⊎◌, arith, true, false,
  some, ltb, leb, ◌==◌, Bool-cases, u64_mod,
}
use chain_master.Chain.Store.{Header, read_canonical_hash}
use chain_master.Chain.Lru.{Lru, IsLru}
use chain_master.Chain.Headers.{Caches, HeaderChain, before, get_header}
use chain_master.Chain.Headers.Invariant.{
  canon, IsCached, IsChain, Linked-le, read_canonical_hash-canon, before-suc,
}
use chain_master.Chain.Headers.Reads.{get_header-stored}
use chain_master.Chain.Ancestors.{Ancestor, ancestor_loop, parent_of, get_ancestor, back_by}
use chain_master.Chain.Ancestors.Generations.{nth_parent, nth_parent-suc, nth_parent-Linked}

back_by_lem : (n k : ℕ) → k ≤ n → n < u64_mod → back_by n k ≡ n - k
unfolding back_by
back_by_lem n k le w = omega arith

module _ {hl : Lru Header} {nl : Lru ℕ} (hlaw : IsLru hl) (nlaw : IsLru nl) (hc : HeaderChain hl nl)
    (s : IsChain hc) where
  -- What the walk gives: the ancestor, or nothing when more headers than allowed are not canonical.
  pub record Walked (h n k budget : ℕ) (r : Ancestor hl nl) : Type 0 where
    pub kept : IsCached hc.db r.caches
    pub spent : r.budget ≤ budget
    pub reached :
        ((r.hash ≡ nth_parent hc.db.headers k n h) × (r.number ≡ n - k))
        ⊎ ((r.hash ≡ 0) × (r.number ≡ 0) × (budget < k))

  canonical_below : (n h : ℕ) → 0 < h → canon hc.db n ≡ h → n ≤ hc.current.number
  canonical_below n h pos e = elim (Bool-cases (leb n hc.current.number)) [
    | inl le ↦ ground (arith, le)
    | inr gt ↦ absurd (ground (arith, s.above n, gt, e, pos))
  ]

  canonical_parent :
      (n h k : ℕ)
      → 0 < h
      → canon hc.db n ≡ h
      → k ≤ n
      → canon hc.db (n - k) ≡ nth_parent hc.db.headers k n h
  canonical_parent n h k pos e le =
      sym (
        nth_parent-Linked hc.db.headers (canon hc.db) k n le (
          Linked-le hc.db.headers (canon hc.db) n hc.current.number (canonical_below n h pos e)
            s.linked))
      ∙ ap (nth_parent hc.db.headers k n) e

  loop_stop :
      (c : Caches hl nl) (h n k budget : ℕ)
      → (canon hc.db n == h) ≡ true
      → ancestor_loop hl nl (suc k) hc.db c h n budget ≡ record {
        hash = read_canonical_hash hc.db (back_by n (suc k));
        number = back_by n (suc k);
        budget = budget;
        caches = c;
      }
  unfolding ancestor_loop
  loop_stop c h n k budget e = rw (ancestor_loop, read_canonical_hash-canon s.store n, e) refl

  loop_broke :
      (c : Caches hl nl) (h n k budget : ℕ)
      → (canon hc.db n == h) ≡ false
      → (budget == 0) ≡ true
      → ancestor_loop hl nl (suc k) hc.db c h n budget
        ≡ record { hash = 0; number = 0; budget = budget; caches = c }
  unfolding ancestor_loop
  loop_broke c h n k budget e z = rw (ancestor_loop, read_canonical_hash-canon s.store n, e, z) refl

  loop_next :
      (c : Caches hl nl) (h n k budget : ℕ) (x : Header)
      → (canon hc.db n == h) ≡ false
      → (budget == 0) ≡ false
      → (get_header hl nl hc.db c h n).0 ≡ some x
      → ancestor_loop hl nl (suc k) hc.db c h n budget
        ≡ ancestor_loop hl nl k hc.db
            (get_header hl nl hc.db c h n).1
            x.parent_hash
            (before n)
            (budget - 1)
  unfolding ancestor_loop
  loop_next c h n k budget x e z f =
      rw (ancestor_loop, read_canonical_hash-canon s.store n, e, z, f) refl

  ancestor_loop-Walked :
      (k : ℕ) (c : Caches hl nl) (h n budget : ℕ) (x : Header)
      → k ≤ n
      → IsCached hc.db c
      → hc.db.headers n h ≡ some x
      → Walked h n k budget (ancestor_loop hl nl k hc.db c h n budget)
  unfolding ancestor_loop nth_parent
  ancestor_loop-Walked zero c h n budget x le kept at = record {
    kept = kept;
    spent = omega arith;
    reached = inl (refl, omega arith);
  }
  ancestor_loop-Walked (suc k) c h zero budget x le kept at = absurd (omega arith)
  ancestor_loop-Walked (suc k) c h (suc n) budget x le kept at =
      let st = s.store.stored (suc n) h x at in
      elim (Bool-cases (canon hc.db (suc n) == h)) [
        | inl met ↦
            let e : canon hc.db (suc n) ≡ h = ground (arith, met) in
            let back : back_by (suc n) (suc k) ≡ suc n - suc k =
              back_by_lem (suc n) (suc k) le (omega (arith, st.word)) in
            subst (Walked h (suc n) (suc k) budget) (sym (loop_stop c h (suc n) k budget met))
              (record {
                kept = kept;
                spent = omega arith;
                reached = inl (
                  read_canonical_hash-canon s.store (back_by (suc n) (suc k))
                      ∙ ap (canon hc.db) back
                      ∙ canonical_parent (suc n) h (suc k) st.nonzero e le,
                  back,
                );
              })
        | inr apart ↦ elim (Bool-cases (budget == 0)) [
          | inl broke ↦
              subst (Walked h (suc n) (suc k) budget)
                (sym (loop_broke c h (suc n) k budget apart broke))
                (record {
                  kept = kept;
                  spent = omega arith;
                  reached = inr (refl, refl, ground (arith, broke));
                })
          | inr rich ↦
              let (found, kept') = get_header-stored hlaw nlaw s.store c h (suc n) x kept at in
              let (p, there) = st.parent n refl in
              let back : before (suc n) ≡ n = before-suc (suc n) n refl (omega (arith, st.word)) in
              let c' : Caches hl nl = (get_header hl nl hc.db c h (suc n)).1 in
              let r =
                ancestor_loop-Walked k c' x.parent_hash n (budget - 1) p (omega arith) kept'
                  there in
              let from = nth_parent-suc hc.db.headers k (suc n) h x at in
              let rest : Walked h (suc n) (suc k) budget
                  (ancestor_loop hl nl k hc.db c' x.parent_hash n (budget - 1)) =
                record {
                  kept = r.kept;
                  spent = omega (arith, r.spent);
                  reached = elim r.reached [
                    | inl (same, level) ↦ inl (
                      same
                          ∙ ap (λ i. nth_parent hc.db.headers k i x.parent_hash) (omega arith)
                          ∙ sym from,
                      omega (arith, level),
                    )
                    | inr (none_there, bottom, short) ↦
                        inr (none_there, bottom, ground (arith, short, rich))
                  ];
                } in
              subst (Walked h (suc n) (suc k) budget)
                (sym (
                  loop_next c h (suc n) k budget x apart rich found
                  ∙ ap (λ i. ancestor_loop hl nl k hc.db c' x.parent_hash i (budget - 1)) back))
                rest
        ]
      ]

  parent_of_lem :
      (c : Caches hl nl) (h n budget : ℕ) (x : Header)
      → (get_header hl nl hc.db c h n).0 ≡ some x
      → parent_of hl nl hc.db c h n budget ≡ record {
        hash = x.parent_hash;
        number = before n;
        budget = budget;
        caches = (get_header hl nl hc.db c h n).1;
      }
  unfolding parent_of
  parent_of_lem c h n budget x f = rw (parent_of, f) refl

  parent_of-Walked :
      (c : Caches hl nl) (h n budget : ℕ) (x : Header)
      → IsCached hc.db c
      → hc.db.headers (suc n) h ≡ some x
      → Walked h (suc n) 1 budget (parent_of hl nl hc.db c h (suc n) budget)
  unfolding nth_parent
  parent_of-Walked c h n budget x kept at =
      let st = s.store.stored (suc n) h x at in
      let (found, kept') = get_header-stored hlaw nlaw s.store c h (suc n) x kept at in
      subst (Walked h (suc n) 1 budget) (sym (parent_of_lem c h (suc n) budget x found)) (record {
        kept = kept';
        spent = omega arith;
        reached = inl (
          sym (nth_parent-suc hc.db.headers 0 (suc n) h x at),
          before-suc (suc n) n refl (omega (arith, st.word)) ∙ omega arith,
        );
      })

  one_back :
      (c : Caches hl nl) (h n k budget : ℕ) (x : Header)
      → k ≤ n
      → IsCached hc.db c
      → hc.db.headers n h ≡ some x
      → k ≡ 1
      → Walked h n k budget (parent_of hl nl hc.db c h n budget)
  one_back c h zero k budget x le kept at one = absurd (omega arith)
  one_back c h (suc n) k budget x le kept at one =
      subst (λ j. Walked h (suc n) j budget (parent_of hl nl hc.db c h (suc n) budget)) (sym one)
        (parent_of-Walked c h n budget x kept at)

  -- On a chain of headers with true caches that keep the laws of golang-lru, for a stored header
  -- and at most as many generations as its number: `GetAncestor` returns the hash that the parent
  -- hashes lead to in so many generations, and its number, or it returns zeros, where
  -- `maxNonCanonical` is less than the generations. It does not raise `maxNonCanonical`, and the
  -- caches stay true.
  pub get_ancestor-Walked :
      (c : Caches hl nl) (h n k budget : ℕ) (x : Header)
      → k ≤ n
      → IsCached hc.db c
      → hc.db.headers n h ≡ some x
      → Walked h n k budget (get_ancestor hl nl hc.db c h n k budget)
  unfolding get_ancestor
  get_ancestor-Walked c h n k budget x le kept at =
      let small : ltb n k ≡ false = ground (arith, le) in
      elim (Bool-cases (k == 1)) [
        | inr other ↦
            rw (get_ancestor, small, other) (ancestor_loop-Walked k c h n budget x le kept at)
        | inl one ↦
            rw (get_ancestor, small, one)
              (one_back c h n k budget x le kept at (ground (arith, one)))
      ]
