-- ===== src/Chain/Rewind/Rewound.antt =====
-- `SetHead` on a chain of headers without others beside it above the new head.
use chain_master.Prelude.{
  ℕ, suc, ◌<◌, ◌≤◌, ◌≡◌, refl, sym, ap, ◌∙◌, inl, inr, arith, true, false, none, some, ltb, leb,
  Bool-cases, Option-cases, min,
}
use chain_master.Chain.Store.{Header, ChainDb}
use chain_master.Chain.Lru.{Lru, IsLru}
use chain_master.Chain.Headers.{HeaderChain}
use chain_master.Chain.Headers.Invariant.{
  canon, IsStored, IsStore, IsChain, Linked, Linked-le, Linked-at, Linked-cong, one_number,
}
use chain_master.Chain.Rewind.{drop_headers, rewind_loop, set_head}
use chain_master.Chain.Rewind.Erased.{within, IsErased}
use chain_master.Chain.Rewind.Back.{IsMid, rewind_loop-Looped}

-- The database of a chain once the canonical headers above `low` are deleted.
module _ {hl : Lru Header} {nl : Lru ℕ} (top low : ℕ) (f : ℕ → ℕ) (hc : HeaderChain hl nl)
    (s : IsMid top low f hc) (d : ChainDb) (e : IsErased low top f hc.db d) where
  off : (n h : ℕ) → n ≤ low → within low top f n h ≡ false
  off n h le = ground (arith, le)

  -- What is stored above `low` goes.
  on : (n h : ℕ) (x : Header) → hc.db.headers n h ≡ some x → low < n → within low top f n h ≡ true
  on n h x at lt =
      let same : f n ≡ h = s.only n h x at lt in
      let pos = (s.store.stored n h x at).nonzero in
      elim (Bool-cases (leb n top)) [
        | inl up ↦ ground (arith, lt, up, same)
        | inr high ↦ absurd (ground (arith, s.above n, high, same, pos))
      ]

  kept : (n h : ℕ) → n ≤ low → d.headers n h ≡ hc.db.headers n h
  kept n h le = e.headers n h ∙ rw (off n h le) refl

  kept_td : (n h : ℕ) → n ≤ low → d.tds n h ≡ hc.db.tds n h
  kept_td n h le = e.tds n h ∙ rw (off n h le) refl

  -- What is left was there, and is not above `low`.
  left : (n h : ℕ) (x : Header) → d.headers n h ≡ some x → (hc.db.headers n h ≡ some x) × (n ≤ low)
  left n h x at = elim (Bool-cases (within low top f n h)) [
    | inl gone ↦ let clash : none ≡ some x = rw gone at (sym (e.headers n h) ∙ at) in absurd ((cc))
    | inr stays ↦
        let there : hc.db.headers n h ≡ some x = rw stays at (sym (e.headers n h) ∙ at) in
        (
          there,
          elim (Bool-cases (ltb low n)) [
            | inr low_enough ↦ ground (arith, low_enough)
            | inl high ↦ absurd (ground (arith, on n h x there (ground (arith, high)), stays))
          ],
        )
  ]

  left_td : (n h t : ℕ) → d.tds n h ≡ some t → (hc.db.tds n h ≡ some t) × (n ≤ low)
  left_td n h t at = elim (Bool-cases (within low top f n h)) [
    | inl gone ↦ let clash : none ≡ some t = rw gone at (sym (e.tds n h) ∙ at) in absurd ((cc))
    | inr stays ↦
        let there : hc.db.tds n h ≡ some t = rw stays at (sym (e.tds n h) ∙ at) in
        let (x, held) = s.store.valued n h t there in
        (
          there,
          elim (Bool-cases (ltb low n)) [
            | inr low_enough ↦ ground (arith, low_enough)
            | inl high ↦ absurd (ground (arith, on n h x held (ground (arith, high)), stays))
          ],
        )
  ]

  kept_number : (n h : ℕ) (x : Header) → hc.db.headers n h ≡ some x → n ≤ low → d.numbers h ≡ some n
  kept_number n h x at le =
      e.numbers_kept h (λ j above up same.
        let (y, there) = s.held j up in
        let here = ap (hc.db.headers j) (sym same) ∙ there in
        absurd (omega (arith, one_number s.store n j h x y at here, le, above)))
      ∙ (s.store.stored n h x at).indexed

  left_number : (n h : ℕ) → d.numbers h ≡ some n → (x : Header) × (d.headers n h ≡ some x)
  left_number n h at =
      let (x, there) = s.store.numbered n h (e.numbers_from h n at) in
      elim (Bool-cases (ltb low n)) [
        | inr low_enough ↦ (x, kept n h (ground (arith, low_enough)) ∙ there)
        | inl high ↦
            let lt : low < n = ground (arith, high) in
            let same : f n ≡ h = s.only n h x there lt in
            let up : n ≤ top = ground (arith, on n h x there lt) in
            let gone : none ≡ some n = sym (e.numbers_gone n lt up) ∙ ap d.numbers same ∙ at in
            absurd ((cc))
      ]

  left-IsStored : (n h : ℕ) (x : Header) → d.headers n h ≡ some x → IsStored d n h x
  left-IsStored n h x at =
      let (there, le) = left n h x at in
      let st = s.store.stored n h x there in
      record {
        hash = st.hash;
        number = st.number;
        nonzero = st.nonzero;
        word = st.word;
        indexed = kept_number n h x there le;
        weighed = let (t, weighs) = st.weighed in (t, kept_td n h le ∙ weighs);
        parent = λ m above.
            let (p, held) = st.parent m above in
            (p, kept m x.parent_hash (omega (arith, above, le)) ∙ held);
      }

  pub left-IsStore : IsStore hc.genesis.hash d
  left-IsStore = record {
    live = λ n. ap (λ a. a n) e.ancient ∙ s.store.live n;
    stored = left-IsStored;
    rooted = λ h x at. s.store.rooted h x (left 0 h x at).0;
    valued = λ n h t at.
        let (there, le) = left_td n h t at in
        let (x, held) = s.store.valued n h t there in (x, kept n h le ∙ held);
    numbered = left_number;
    summed = λ n h t p x at weighs below.
        s.store.summed n h t p x (left (suc n) h x at).0 (left_td (suc n) h t weighs).0
          (left_td n x.parent_hash p below).0;
  }

  pub left-canon : (n : ℕ) → n ≤ low → canon d n ≡ f n
  left-canon n le = e.canonical n ∙ ground (arith, le, s.named n)

  -- The rest is linked as it was.
  pub left-Linked : hc.current.number ≤ low → Linked d.headers (canon d) hc.current.number
  left-Linked le =
      Linked-cong hc.db.headers d.headers f (canon d) hc.current.number
        (λ j h x up at. kept j h (omega (arith, up, le)) ∙ at)
        (λ j up. left-canon j (omega (arith, up, le))) s.linked

  pub gone-canon : (n : ℕ) → low < n → canon d n ≡ 0
  gone-canon n lt = e.canonical n ∙ ground (arith, lt, s.named n, s.above n)

  pub gone_above : (n h : ℕ) → low < n → d.headers n h ≡ none
  gone_above n h lt = elim (Option-cases (d.headers n h)) [
    | inl gone ↦ gone
    | inr (x, at) ↦ absurd (omega (arith, (left n h x at).1, lt))
  ]

module _ {hl : Lru Header} {nl : Lru ℕ} where
  -- A chain whose head is at most at the number `low`, with what was stored up to there.
  pub record IsRewound (low : ℕ) (hc hc' : HeaderChain hl nl) : Type 0 where
    pub chain : IsChain hc'
    pub head : hc'.current.number ≡ min low hc.current.number
    pub kept : (n h : ℕ) → n ≤ low → hc'.db.headers n h ≡ hc.db.headers n h
    pub gone : (n h : ℕ) → low < n → hc'.db.headers n h ≡ none

  module _ (hlaw : IsLru hl) (nlaw : IsLru nl) (low : ℕ) (hc : HeaderChain hl nl) (s : IsChain hc)
      (alone : (n h : ℕ) (x : Header)
        → hc.db.headers n h ≡ some x
        → low < n
        → canon hc.db n ≡ h) where
    start-IsMid : IsMid hc.current.number low (canon hc.db) hc
    start-IsMid = record {
      store = s.store;
      cached = s.cached;
      named = λ n. refl;
      linked = s.linked;
      held = λ n le.
          Linked-at hc.db.headers (canon hc.db) n
            (Linked-le hc.db.headers (canon hc.db) n hc.current.number le s.linked);
      above = s.above;
      only = alone;
      head = s.head;
      pointed = s.pointed;
      current = s.current;
    }

    -- On a chain of headers whose caches keep the laws of golang-lru, where each stored header
    -- above a number is canonical: `SetHead` to that number brings the head down to it, or leaves
    -- the head where it is not above; the headers up to the number stay as they were, none is
    -- stored above, and the chain of headers is one again.
    pub set_head-IsRewound : IsRewound low hc (set_head hl nl low hc)
    unfolding set_head
    set_head-IsRewound =
        let r =
          rewind_loop-Looped hlaw nlaw hc.current.number low (canon hc.db) hc.current.number hc
            (omega arith) start-IsMid in
        let hc' : HeaderChain hl nl = (rewind_loop hl nl hc.current.number low hc).0 in
        let d : ChainDb = drop_headers hc'.db (rewind_loop hl nl hc.current.number low hc).1 in
        let top = hc.current.number in
        let f = canon hc.db in
        let e : IsErased low top f hc'.db d = r.erased hc'.db in
        let le : hc'.current.number ≤ low = omega (arith, r.down) in
        record {
          chain = record {
            store = left-IsStore top low f hc' r.mid d e;
            cached = record {
              header =
                  λ h x at. absurd (ground (arith, hlaw.peek-purge hc'.caches.header_cache h, at));
              td = λ h t at. absurd (ground (arith, nlaw.peek-purge hc'.caches.td_cache h, at));
              number =
                  λ h n at. absurd (ground (arith, nlaw.peek-purge hc'.caches.number_cache h, at));
            };
            linked = left-Linked top low f hc' r.mid d e le;
            above = λ n lt. elim (Bool-cases (ltb low n)) [
              | inl high ↦ gone-canon top low f hc' r.mid d e n (ground (arith, high))
              | inr low_enough ↦
                  left-canon top low f hc' r.mid d e n (ground (arith, low_enough))
                  ∙ s.above n (ground (arith, lt, low_enough, r.down))
            ];
            head = left-canon top low f hc' r.mid d e hc'.current.number le ∙ r.mid.head;
            pointed = e.head_header ∙ r.mid.pointed;
            current =
                kept top low f hc' r.mid d e hc'.current.number hc'.current_hash le ∙ r.mid.current;
          };
          head = r.down;
          kept = λ n h up. kept top low f hc' r.mid d e n h up ∙ ap (λ g. g n h) r.headers;
          gone = λ n h lt. gone_above top low f hc' r.mid d e n h lt;
        }
