-- ===== src/Chain/Headers/Reads.antt =====
-- Reads through the caches find what the database holds.
use chain_master.Prelude.{
  ℕ, ◌≡◌, ◌≢◌, sym, ap, ◌∙◌, inl, inr, arith, Option, none, some, ◌==◌, Bool-cases, Option-cases,
  subst,
}
use mathlib.Core.Option.{some-injective}
use chain_master.Chain.Store.{Header, ChainDb, read_header, read_td}
use chain_master.Chain.Lru.{Lru, IsLru}
use chain_master.Chain.Headers.{Caches, keep_td, get_td, keep_header, get_header}
use chain_master.Chain.Headers.Invariant.{
  IsStore, IsCached, read_header-live, read_td-live, one_number,
}

module _ {hl : Lru Header} {nl : Lru ℕ} (hlaw : IsLru hl) (nlaw : IsLru nl) where
  -- A cache that gained one true entry.
  added :
      {V : Type 0} (l : Lru V) (w : IsLru l) (P : ℕ → V → Type 0) (c : l.Cache) (k : ℕ) (v : V)
      → ((j : ℕ) (u : V) → l.peek c j ≡ some u → P j u)
      → P k v
      → (j : ℕ) (u : V) → l.peek (l.add c k v) j ≡ some u
      → P j u
  added l w P c k v old new j u e = elim (Bool-cases (k == j)) [
    | inl same ↦
        let at : k ≡ j = ground (arith, same) in
        let e' = subst (λ i. l.peek (l.add c k v) i ≡ some u) (sym at) e in
        subst (λ i. P i u) at (subst (P k) (sym (w.peek-add_self c k v u e')) new)
    | inr other ↦
        let apart : k ≢ j = λ at. ground (arith, other, at) in
        old j u (w.peek-add_other c k j v u apart e)
  ]

  module _ {g : ℕ} {db : ChainDb} (s : IsStore g db) where
    pub add_header-IsCached :
        (c : Caches hl nl) (h : ℕ) (x : Header)
        → IsCached db c
        → db.headers x.number h ≡ some x
        → IsCached db (record c { header_cache = hl.add c.header_cache h x })
    add_header-IsCached c h x k e = record {
      header = added hl hlaw (λ j y. db.headers y.number j ≡ some y) c.header_cache h x k.header e;
      td = k.td;
      number = k.number;
    }

    pub add_td-IsCached :
        (c : Caches hl nl) (h n t : ℕ)
        → IsCached db c
        → db.tds n h ≡ some t
        → IsCached db (record c { td_cache = nl.add c.td_cache h t })
    add_td-IsCached c h n t k e = record {
      header = k.header;
      td = added nl nlaw (λ j u. (m : ℕ) × (db.tds m j ≡ some u)) c.td_cache h t k.td (n, e);
      number = k.number;
    }

    pub add_number-IsCached :
        (c : Caches hl nl) (h n : ℕ) (x : Header)
        → IsCached db c
        → db.headers n h ≡ some x
        → IsCached db (record c { number_cache = nl.add c.number_cache h n })
    add_number-IsCached c h n x k e = record {
      header = k.header;
      td = k.td;
      number =
          added nl nlaw (λ j m. (y : Header) × (db.headers m j ≡ some y)) c.number_cache h n
            k.number (x, e);
    }

    -- What a read of a difficulty gives: the caches stay true, and what is found is in the database.
    pub record TdRead (h n : ℕ) (r : Option ℕ × Caches hl nl) : Type 0 where
      pub kept : IsCached db r.1
      pub found : (t : ℕ) → r.0 ≡ some t → (m : ℕ) × (db.tds m h ≡ some t)
      pub missed : r.0 ≡ none → db.tds n h ≡ none

    keep_td-TdRead :
        (c : Caches hl nl) (h n : ℕ) (r : Option ℕ)
        → IsCached db c
        → db.tds n h ≡ r
        → TdRead h n (keep_td hl nl c h r)
    unfolding keep_td
    keep_td-TdRead c h n none k e = record {
      kept = k;
      found = λ t f. absurd ((cc));
      missed = λ _. e;
    }
    keep_td-TdRead c h n (some t) k e = record {
      kept = add_td-IsCached c h n t k e;
      found = λ u f. (n, e ∙ f);
      missed = λ f. absurd ((cc));
    }

    pub get_td-TdRead :
        (c : Caches hl nl) (h n : ℕ) → IsCached db c → TdRead h n (get_td hl nl db c h n)
    unfolding get_td
    get_td-TdRead c h n k =
        let c' : Caches hl nl = record c { td_cache = (nl.get c.td_cache h).1 } in
        let k' : IsCached db c' = record {
          header = k.header;
          td = λ j t e. k.td j t (sym (nlaw.peek-get c.td_cache h j) ∙ e);
          number = k.number;
        } in
        elim (Option-cases (nl.get c.td_cache h).0) [
          | inl miss ↦
              rw (miss, get_td)
                (keep_td-TdRead c' h n (read_td db h n) k' (sym (read_td-live s h n)))
          | inr (t, hit) ↦
              let old = k.td h t (sym (nlaw.get-peek c.td_cache h) ∙ hit) in
              rw (hit, get_td)
                (record {
                  kept = k';
                  found = λ u e.
                      subst (λ v. (m : ℕ) × (db.tds m h ≡ some v)) (some-injective _ _ e) old;
                  missed = λ e. absurd ((cc));
                })
        ]

    -- The difficulty of a stored header is found.
    pub get_td-stored :
        (c : Caches hl nl) (h n t : ℕ)
        → IsCached db c
        → db.tds n h ≡ some t
        → (get_td hl nl db c h n).0 ≡ some t
    get_td-stored c h n t k e =
        let r = get_td-TdRead c h n k in
        elim (Option-cases (get_td hl nl db c h n).0) [
          | inl miss ↦ absurd (ground (arith, r.missed miss, e))
          | inr (u, hit) ↦
              let (m, at) = r.found u hit in
              let (x, here) = s.valued n h t e in
              let (y, there) = s.valued m h u at in
              let same : m ≡ n = one_number s m n h y x there here in
              hit ∙ sym at ∙ ap (λ i. db.tds i h) same ∙ e
        ]

    keep_header-stored :
        (c : Caches hl nl) (h : ℕ) (x : Header) (r : Option Header)
        → IsCached db c
        → r ≡ some x
        → db.headers x.number h ≡ some x
        → ((keep_header hl nl c h r).0 ≡ some x) × IsCached db (keep_header hl nl c h r).1
    unfolding keep_header
    keep_header-stored c h x none k e at = absurd ((cc))
    keep_header-stored c h x (some y) k e at =
        let same : x ≡ y = sym (some-injective _ _ e) in
        (
          e,
          add_header-IsCached c h y k
              (subst (λ (z : Header). db.headers z.number h ≡ some z) same at),
        )

    -- A stored header is found.
    pub get_header-stored :
        (c : Caches hl nl) (h n : ℕ) (x : Header)
        → IsCached db c
        → db.headers n h ≡ some x
        → ((get_header hl nl db c h n).0 ≡ some x) × IsCached db (get_header hl nl db c h n).1
    unfolding get_header
    get_header-stored c h n x k e =
        let c' : Caches hl nl = record c { header_cache = (hl.get c.header_cache h).1 } in
        let k' : IsCached db c' = record {
          header = λ j y f. k.header j y (sym (hlaw.peek-get c.header_cache h j) ∙ f);
          td = k.td;
          number = k.number;
        } in
        let number = (s.stored n h x e).number in
        elim (Option-cases (hl.get c.header_cache h).0) [
          | inl miss ↦
              rw (miss, get_header)
                (keep_header-stored c' h x (read_header db h n) k' (read_header-live s h n ∙ e)
                  (ap (λ i. db.headers i h) number ∙ e))
          | inr (y, hit) ↦
              let old = k.header h y (sym (hlaw.get-peek c.header_cache h) ∙ hit) in
              let same : y.number ≡ n = one_number s y.number n h y x old e in
              rw (hit, get_header) (sym old ∙ ap (λ i. db.headers i h) same ∙ e, k')
        ]
