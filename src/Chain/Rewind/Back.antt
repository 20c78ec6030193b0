-- ===== src/Chain/Rewind/Back.antt =====
-- The rounds of `SetHead` go down the canonical chain.
use chain_master.Prelude.{
  ℕ, zero, suc, ◌<◌, ◌≤◌, ◌≡◌, refl, sym, ap, subst, ◌∙◌, inl, inr, arith, true, false, Option,
  some, List, [], ◌∷◌, ltb, Bool-cases, min,
}
use mathlib.Core.Option.{some-injective}
use chain_master.Chain.Store.{Header, ChainDb, write_head_header_hash}
use chain_master.Chain.Lru.{Lru, IsLru}
use chain_master.Chain.Headers.{Caches, HeaderChain, before, get_header}
use chain_master.Chain.Headers.Invariant.{suc_of, canon, IsStore, IsCached, Linked, before-suc}
use chain_master.Chain.Headers.Reads.{get_header-stored}
use chain_master.Chain.Headers.Choice.{relabelled}
use chain_master.Chain.Rewind.{drop_header, drop_headers, header_or, step_back, rewind_loop}
use chain_master.Chain.Rewind.Erased.{IsErased, none-IsErased, more-IsErased}

-- A chain whose head goes down from the number `top`, where its canonical hashes are `f`, to the number
-- `low`; above that no header is stored beside them.
pub record IsMid {hl : Lru Header} {nl : Lru ℕ} (top low : ℕ) (f : ℕ → ℕ) (hc : HeaderChain hl nl)
    : Type 0 where
  pub store : IsStore hc.genesis.hash hc.db
  pub cached : IsCached hc.db hc.caches
  pub named : (n : ℕ) → canon hc.db n ≡ f n
  pub linked : Linked hc.db.headers f hc.current.number
  pub held : (n : ℕ) → n ≤ top → (x : Header) × (hc.db.headers n (f n) ≡ some x)
  pub above : (n : ℕ) → top < n → f n ≡ 0
  pub only : (n h : ℕ) (x : Header) → hc.db.headers n h ≡ some x → low < n → f n ≡ h
  pub head : f hc.current.number ≡ hc.current_hash
  pub pointed : hc.db.head_header ≡ some hc.current_hash
  pub current : hc.db.headers hc.current.number hc.current_hash ≡ some hc.current

module _ {hl : Lru Header} {nl : Lru ℕ} (hlaw : IsLru hl) (nlaw : IsLru nl) (top low : ℕ)
    (f : ℕ → ℕ) where
  module _ (hc : HeaderChain hl nl) (s : IsMid top low f hc) (m : ℕ)
      (number : hc.current.number ≡ suc m) where
    linked_here : Linked hc.db.headers f (suc m)
    linked_here = subst (Linked hc.db.headers f) number s.linked

    parent_named : hc.current.parent_hash ≡ f m
    parent_named =
        let ((x, at, up), below) = linked_here in
        let same : some x ≡ some hc.current =
          sym at
          ∙ ap (λ n. hc.db.headers n (f n)) (sym number)
          ∙ ap (hc.db.headers hc.current.number) s.head
          ∙ s.current in
        ap (λ (y : Header). y.parent_hash) (sym (some-injective _ _ same)) ∙ up

    back : before hc.current.number ≡ m
    back = before-suc hc.current.number m number (
        omega (
          arith,
          number,
          (s.store.stored hc.current.number hc.current_hash hc.current s.current).word,
          (s.store.stored hc.current.number hc.current_hash hc.current s.current).number,
        ))

    parent_held : (p : Header) × (hc.db.headers m hc.current.parent_hash ≡ some p)
    parent_held =
        (s.store.stored hc.current.number hc.current_hash hc.current s.current).parent m number

    abbrev found : Option Header × Caches hl nl
    found = get_header hl nl hc.db hc.caches hc.current.parent_hash m

    step_back_lem :
        (p : Header)
        → found.0 ≡ some p
        → step_back hl nl hc ≡ record hc {
          db = write_head_header_hash hc.db hc.current.parent_hash;
          current = p;
          current_hash = hc.current.parent_hash;
          caches = found.1;
        }
    unfolding step_back header_or
    step_back_lem p e = rw (step_back, back, e) refl

    -- One round keeps what holds, one number lower.
    pub step_back-IsMid :
        IsMid top low f (step_back hl nl hc)
        × ((step_back hl nl hc).current.number ≡ m)
        × ((step_back hl nl hc).genesis ≡ hc.genesis)
        × ((step_back hl nl hc).db.headers ≡ hc.db.headers)
    unfolding write_head_header_hash canon
    step_back-IsMid =
        let (p, at) = parent_held in
        let (e, kept) =
          get_header-stored hlaw nlaw s.store hc.caches hc.current.parent_hash m p s.cached at in
        let level = (s.store.stored m hc.current.parent_hash p at).number in
        subst
          (λ (r : HeaderChain hl nl).
            IsMid top low f r
            × (r.current.number ≡ m)
            × (r.genesis ≡ hc.genesis)
            × (r.db.headers ≡ hc.db.headers))
          (sym (step_back_lem p e))
          (
            record {
              store = relabelled hc.db.canonical (some hc.current.parent_hash) s.store;
              cached = record { header = kept.header; td = kept.td; number = kept.number };
              named = s.named;
              linked = subst (Linked hc.db.headers f) (sym level) linked_here.1;
              held = s.held;
              above = s.above;
              only = s.only;
              head = ap f level ∙ sym parent_named;
              pointed = refl;
              current = ap (λ n. hc.db.headers n hc.current.parent_hash) level ∙ at;
            },
            level,
            refl,
            refl,
          )

  -- How the loop ends.
  pub record Looped (hc : HeaderChain hl nl) (r : HeaderChain hl nl × List (ℕ × ℕ)) : Type 0 where
    pub mid : IsMid top low f r.0
    pub down : r.0.current.number ≡ min low hc.current.number
    pub genesis : r.0.genesis ≡ hc.genesis
    pub headers : r.0.db.headers ≡ hc.db.headers
    pub erased : (d : ChainDb) → IsErased low hc.current.number f d (drop_headers d r.1)

  loop_stop :
      (k : ℕ) (hc : HeaderChain hl nl)
      → ltb low hc.current.number ≡ false
      → rewind_loop hl nl (suc k) low hc ≡ (hc, [])
  unfolding rewind_loop
  loop_stop k hc e = rw (rewind_loop, e) refl

  loop_next :
      (k : ℕ) (hc : HeaderChain hl nl)
      → ltb low hc.current.number ≡ true
      → rewind_loop hl nl (suc k) low hc ≡ (
        (rewind_loop hl nl k low (step_back hl nl hc)).0,
        (hc.current.hash, hc.current.number) ∷ (rewind_loop hl nl k low (step_back hl nl hc)).1,
      )
  unfolding rewind_loop
  loop_next k hc e = rw (rewind_loop, e) refl

  stopped :
      (hc : HeaderChain hl nl) → IsMid top low f hc → hc.current.number ≤ low → Looped hc (hc, [])
  unfolding drop_headers
  stopped hc s le = record {
    mid = s;
    down = omega (arith, le);
    genesis = refl;
    headers = refl;
    erased = λ d. none-IsErased low hc.current.number f d le;
  }

  went :
      (hc : HeaderChain hl nl) (m : ℕ) (r : HeaderChain hl nl × List (ℕ × ℕ))
      → (s : IsMid top low f hc) → hc.current.number ≡ suc m
      → low < suc m
      → Looped (step_back hl nl hc) r
      → Looped hc (r.0, (hc.current.hash, hc.current.number) ∷ r.1)
  unfolding drop_headers
  went hc m r s number lt d =
      let (mid, level, genesis, headers) = step_back-IsMid hc s m number in
      let hash : hc.current.hash ≡ f (suc m) =
        (s.store.stored hc.current.number hc.current_hash hc.current s.current).hash
        ∙ sym s.head
        ∙ ap f number in
      record {
        mid = d.mid;
        down = d.down ∙ omega (arith, level, number, lt);
        genesis = d.genesis ∙ genesis;
        headers = d.headers ∙ headers;
        erased = λ b.
            let next : ChainDb = drop_header b (f (suc m)) (suc m) in
            let rest : IsErased low m f next (drop_headers next r.1) =
              subst (λ i. IsErased low i f next (drop_headers next r.1)) level (d.erased next) in
            subst (λ i. IsErased low i f b (drop_headers (drop_header b hc.current.hash i) r.1))
              (sym number)
              (subst (λ h. IsErased low (suc m) f b (drop_headers (drop_header b h (suc m)) r.1))
                (sym hash) (more-IsErased low m f b (drop_headers next r.1) lt rest));
      }

  pub rewind_loop-Looped :
      (k : ℕ) (hc : HeaderChain hl nl)
      → hc.current.number ≤ k
      → IsMid top low f hc
      → Looped hc (rewind_loop hl nl k low hc)
  unfolding rewind_loop
  rewind_loop-Looped zero hc le s = stopped hc s (omega (arith, le))
  rewind_loop-Looped (suc k) hc le s = elim (Bool-cases (ltb low hc.current.number)) [
    | inr low_enough ↦
        subst (Looped hc) (sym (loop_stop k hc low_enough))
          (stopped hc s (ground (arith, low_enough)))
    | inl high ↦
        let (m, number) = suc_of hc.current.number (ground (arith, high)) in
        let (mid, level, _, _) = step_back-IsMid hc s m number in
        subst (Looped hc) (sym (loop_next k hc high)) (
          went hc m (rewind_loop hl nl k low (step_back hl nl hc)) s number
            (ground (arith, high, number))
            (rewind_loop-Looped k (step_back hl nl hc) (omega (arith, level, number, le)) mid))
  ]
