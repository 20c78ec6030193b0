-- ===== src/Chain/Headers/Arrival.antt =====
-- The database with one more header.
use chain_master.Prelude.{
  ℕ, suc, ◌+◌, ◌<◌, ◌≡◌, refl, sym, ap, subst, ◌∙◌, inl, inr, ◌⊎◌, arith, ◌&&◌, some, ◌==◌,
  if◌then◌else◌, Bool-cases, u64_mod,
}
use mathlib.Core.Option.{some-injective}
use chain_master.Chain.Store
use chain_master.Chain.Store.{Header, ChainDb, update, update₂, write_td}
use chain_master.Chain.Lru.{Lru}
use chain_master.Chain.Headers.{Caches}
use chain_master.Chain.Headers.Invariant.{canon, IsStored, IsStore, IsCached}

-- A header whose number follows that of its parent, and whose hash is that of no other header.
pub record IsNew (db : ChainDb) (x : Header) : Type 0 where
  pub positive : 0 < x.number
  pub word : x.number + 1 < u64_mod
  pub nonzero : 0 < x.hash
  pub follows : (n : ℕ) (p : Header) → db.headers n x.parent_hash ≡ some p → suc n ≡ x.number
  pub fresh : (n : ℕ) (y : Header) → db.headers n x.hash ≡ some y → y ≡ x

-- `WriteTd` and `WriteHeader`.
abbrev pub arrive : ChainDb → Header → ℕ → ChainDb
arrive db x t = Store.write_header (write_td db x.hash x.number t) x

module _ {g : ℕ} {db : ChainDb} (s : IsStore g db) {x : Header} (new : IsNew db x) (m t pt : ℕ)
    (p : Header) (number : x.number ≡ suc m) (parent : db.headers m x.parent_hash ≡ some p)
    (weight : db.tds m x.parent_hash ≡ some pt) (total : t ≡ x.difficulty + pt) where
  arrive-headers :
      (n h : ℕ)
      → (arrive db x t).headers n h
        ≡ (if x.number == n && x.hash == h then some x else db.headers n h)
  unfolding Store.write_header write_td
  arrive-headers n h = refl

  arrive-tds :
      (n h : ℕ)
      → (arrive db x t).tds n h ≡ (if x.number == n && x.hash == h then some t else db.tds n h)
  unfolding Store.write_header write_td
  arrive-tds n h = refl

  arrive-numbers :
      (h : ℕ) → (arrive db x t).numbers h ≡ (if x.hash == h then some x.number else db.numbers h)
  unfolding Store.write_header write_td
  arrive-numbers h = refl

  -- What was stored stays.
  pub arrive_more :
      (n h : ℕ) (y : Header) → db.headers n h ≡ some y → (arrive db x t).headers n h ≡ some y
  arrive_more n h y e = elim (Bool-cases (x.number == n && x.hash == h)) [
    | inl same ↦
        let at : x.hash ≡ h = ground (arith, same) in
        let one : y ≡ x = new.fresh n y (ap (db.headers n) at ∙ e) in
        arrive-headers n h ∙ rw same (ap some (sym one))
    | inr other ↦ arrive-headers n h ∙ rw other e
  ]

  pub arrive_self : (arrive db x t).headers x.number x.hash ≡ some x
  arrive_self = arrive-headers x.number x.hash ∙ ground arith

  -- What is stored is the new header, or was stored before.
  arrive-entry :
      (n h : ℕ) (y : Header)
      → (arrive db x t).headers n h ≡ some y
      → ((x.number ≡ n) × (x.hash ≡ h) × (y ≡ x)) ⊎ (db.headers n h ≡ some y)
  arrive-entry n h y e = elim (Bool-cases (x.number == n && x.hash == h)) [
    | inl same ↦
        let at : some x ≡ some y = rw same at (sym (arrive-headers n h) ∙ e) in
        inl (ground (arith, same), ground (arith, same), sym (some-injective _ _ at))
    | inr other ↦ inr (rw other at (sym (arrive-headers n h) ∙ e))
  ]

  arrive-entry_td :
      (n h u : ℕ)
      → (arrive db x t).tds n h ≡ some u
      → ((x.number ≡ n) × (x.hash ≡ h)) ⊎ (db.tds n h ≡ some u)
  arrive-entry_td n h u e = elim (Bool-cases (x.number == n && x.hash == h)) [
    | inl same ↦ inl (ground (arith, same), ground (arith, same))
    | inr other ↦ inr (rw other at (sym (arrive-tds n h) ∙ e))
  ]

  -- A difficulty that was stored stays too, since it is the same sum.
  pub arrive_more_tds : (n h u : ℕ) → db.tds n h ≡ some u → (arrive db x t).tds n h ≡ some u
  arrive_more_tds n h u e = elim (Bool-cases (x.number == n && x.hash == h)) [
    | inr other ↦ arrive-tds n h ∙ rw other e
    | inl same ↦
        let at : x.hash ≡ h = ground (arith, same) in
        let level : n ≡ suc m = ground (arith, same, number) in
        let (y, here) = s.valued n h u e in
        let one : y ≡ x = new.fresh n y (ap (db.headers n) at ∙ here) in
        let sum =
          s.summed m h u pt y (ap (λ k. db.headers k h) (sym level) ∙ here)
            (ap (λ k. db.tds k h) (sym level) ∙ e)
            (ap (λ (z : Header). db.tds m z.parent_hash) one ∙ weight) in
        let same_td : t ≡ u = omega (arith, sum, total, ap (λ (z : Header). z.difficulty) one) in
        arrive-tds n h ∙ rw same (ap some same_td)
  ]

  pub arrive_self_td : (arrive db x t).tds x.number x.hash ≡ some t
  arrive_self_td = arrive-tds x.number x.hash ∙ ground arith

  new-IsStored : IsStored (arrive db x t) x.number x.hash x
  new-IsStored = record {
    hash = refl;
    number = refl;
    nonzero = new.nonzero;
    word = new.word;
    indexed = arrive-numbers x.hash ∙ ground arith;
    weighed = (t, arrive_self_td);
    parent = λ k e. (
      p,
      arrive_more k x.parent_hash p
          (ap (λ j. db.headers j x.parent_hash) (omega (arith, e, number)) ∙ parent),
    );
  }

  old-IsStored : (n h : ℕ) (y : Header) → db.headers n h ≡ some y → IsStored (arrive db x t) n h y
  old-IsStored n h y e =
      let st = s.stored n h y e in
      let (u, weighs) = st.weighed in
      let indexed : (arrive db x t).numbers h ≡ some n = elim (Bool-cases (x.hash == h)) [
        | inr other ↦ arrive-numbers h ∙ rw other st.indexed
        | inl same ↦
            let at : x.hash ≡ h = ground (arith, same) in
            let one : y ≡ x = new.fresh n y (ap (db.headers n) at ∙ e) in
            arrive-numbers h
            ∙ rw same (ap some (ap (λ (z : Header). z.number) (sym one) ∙ st.number))
      ] in
      record {
        hash = st.hash;
        number = st.number;
        nonzero = st.nonzero;
        word = st.word;
        indexed = indexed;
        weighed = (u, arrive_more_tds n h u weighs);
        parent = λ k level.
            let (q, above) = st.parent k level in (q, arrive_more k y.parent_hash q above);
      }

  arrive-IsStored :
      (n h : ℕ) (y : Header) → (arrive db x t).headers n h ≡ some y → IsStored (arrive db x t) n h y
  arrive-IsStored n h y e = elim (arrive-entry n h y e) [
    | inl (level, at, one) ↦
        subst (λ z. IsStored (arrive db x t) n h z) (sym one)
          (subst (λ k. IsStored (arrive db x t) n k x) at
            (subst (λ k. IsStored (arrive db x t) k x.hash x) level new-IsStored))
    | inr old ↦ old-IsStored n h y old
  ]

  arrive-summed :
      (n h u q : ℕ) (y : Header)
      → (arrive db x t).headers (suc n) h ≡ some y
      → (arrive db x t).tds (suc n) h ≡ some u
      → (arrive db x t).tds n y.parent_hash ≡ some q
      → u ≡ y.difficulty + q
  arrive-summed n h u q y e f k = elim (arrive-entry (suc n) h y e) [
    | inl (level, at, one) ↦
        let weighs : some t ≡ some u =
          sym arrive_self_td
          ∙ ap (λ j. (arrive db x t).tds j x.hash) level
          ∙ ap ((arrive db x t).tds (suc n)) at
          ∙ f in
        let below : n ≡ m = omega (arith, level, number) in
        elim (arrive-entry_td n x.parent_hash q
          (ap (λ (z : Header). (arrive db x t).tds n z.parent_hash) (sym one) ∙ k)) [
            | inl (same, _) ↦ absurd (omega (arith, same, level))
            | inr old ↦
                let base : some pt ≡ some q =
                  sym weight ∙ ap (λ j. db.tds j x.parent_hash) (sym below) ∙ old in
                omega (
                  arith,
                  some-injective _ _ weighs,
                  some-injective _ _ base,
                  total,
                  ap (λ (z : Header). z.difficulty) one,
                )
          ]
    | inr old ↦
        let st = s.stored (suc n) h y old in
        let (v, weighs) = st.weighed in
        let (z, there) = st.parent n refl in
        let (w, base) = (s.stored n y.parent_hash z there).weighed in
        let same : some v ≡ some u = sym (arrive_more_tds (suc n) h v weighs) ∙ f in
        let same' : some w ≡ some q = sym (arrive_more_tds n y.parent_hash w base) ∙ k in
        omega (
          arith,
          s.summed n h v w y old weighs base,
          some-injective _ _ same,
          some-injective _ _ same',
        )
  ]

  arrive-numbered :
      (n h : ℕ)
      → (arrive db x t).numbers h ≡ some n
      → (y : Header) × ((arrive db x t).headers n h ≡ some y)
  arrive-numbered n h e = elim (Bool-cases (x.hash == h)) [
    | inl same ↦
        let at : some x.number ≡ some n = rw same at (sym (arrive-numbers h) ∙ e) in
        (
          x,
          ap (λ j. (arrive db x t).headers j h) (sym (some-injective _ _ at))
              ∙ ap ((arrive db x t).headers x.number) (sym (ground (arith, same)))
              ∙ arrive_self,
        )
    | inr other ↦
        let old : db.numbers h ≡ some n = rw other at (sym (arrive-numbers h) ∙ e) in
        let (y, at) = s.numbered n h old in (y, arrive_more n h y at)
  ]

  -- Nothing but the header is stored anew.
  pub arrive_only :
      (n h : ℕ) (y : Header)
      → (arrive db x t).headers n h ≡ some y
      → (y ≡ x) ⊎ (db.headers n h ≡ some y)
  arrive_only n h y e = elim (arrive-entry n h y e) [
    | inl (_, _, one) ↦ inl one
    | inr old ↦ inr old
  ]

  pub arrive-IsStore : IsStore g (arrive db x t)
  unfolding Store.write_header write_td
  arrive-IsStore = record {
    live = s.live;
    stored = arrive-IsStored;
    rooted = λ h y e. elim (arrive-entry 0 h y e) [
      | inl (level, at, one) ↦ absurd (omega (arith, level, new.positive))
      | inr old ↦ s.rooted h y old
    ];
    valued = λ n h u e. elim (arrive-entry_td n h u e) [
      | inl (level, at) ↦ (
        x,
        ap (λ j. (arrive db x t).headers j h) (sym level)
            ∙ ap ((arrive db x t).headers x.number) (sym at)
            ∙ arrive_self,
      )
      | inr old ↦ let (y, there) = s.valued n h u old in (y, arrive_more n h y there)
    ];
    numbered = arrive-numbered;
    summed = arrive-summed;
  }

  pub arrive-IsCached :
      {hl : Lru Header} {nl : Lru ℕ} (c : Caches hl nl) → IsCached db c → IsCached (arrive db x t) c
  arrive-IsCached c k = record {
    header = λ h y e. arrive_more y.number h y (k.header h y e);
    td = λ h u e. let (n, at) = k.td h u e in (n, arrive_more_tds n h u at);
    number = λ h n e. let (y, at) = k.number h n e in (y, arrive_more n h y at);
  }

  pub arrive-canon : (n : ℕ) → canon (arrive db x t) n ≡ canon db n
  unfolding canon Store.write_header write_td
  arrive-canon n = refl
