-- ===== src/Chain/Headers/Choice.antt =====
-- `WriteHeader` on a chain of headers.
use chain_master.Prelude.{
  ◌%◌, u64_mod, ℕ, suc, ◌+◌, ◌<◌, ◌≤◌, ◌≡◌, refl, sym, ap, subst, ◌∙◌, arith, Option, some, List,
  [], ◌∷◌, ◌++◌, ltb, ◌==◌, if◌then◌else◌,
}
use chain_master.Chain.Store
use chain_master.Chain.Store.{Header, ChainDb}
use chain_master.Chain.Lru.{Lru, IsLru}
use chain_master.Chain.Headers.{
  Marker, put_canonical, drop_canonical, put_head, write_marker, write_markers, drop_above, Caches,
  HeaderChain, cache_header,
}
use chain_master.Chain.Headers.Invariant.{canon, IsStore, IsCached, Linked, Linked-cong}
use chain_master.Chain.Headers.Reads.{add_header-IsCached, add_td-IsCached, add_number-IsCached}
use chain_master.Chain.Headers.Markers.{
  write_markers-append, write_markers-Marked, Marked, canon-put, drop_above-canon, Links,
}

-- Canonical hashes and the head do not matter to what is stored.
pub relabelled :
    {g : ℕ} {db : ChainDb} (c : ℕ → Option ℕ) (h : Option ℕ)
    → IsStore g db
    → IsStore g (record db { canonical = c; head_header = h })
relabelled c h s = record {
  live = s.live;
  stored = λ n i x e.
      let st = s.stored n i x e in
      record {
        hash = st.hash;
        number = st.number;
        nonzero = st.nonzero;
        word = st.word;
        indexed = st.indexed;
        weighed = st.weighed;
        parent = st.parent;
      };
  rooted = s.rooted;
  valued = s.valued;
  numbered = s.numbered;
  summed = s.summed;
}

pub write_markers-IsStore :
    {g : ℕ} (db : ChainDb) (ms : List Marker) → IsStore g db → IsStore g (write_markers db ms)
unfolding write_markers write_marker Store.write_canonical_hash Store.delete_canonical_hash
    Store.write_head_header_hash
write_markers-IsStore db [] s = s
write_markers-IsStore db (put_canonical hash number ∷ ms) s =
    let db' : ChainDb = write_marker db (put_canonical hash number) in
    write_markers-IsStore db' ms (relabelled db'.canonical db'.head_header s)
write_markers-IsStore db (drop_canonical number ∷ ms) s =
    let db' : ChainDb = write_marker db (drop_canonical number) in
    write_markers-IsStore db' ms (relabelled db'.canonical db'.head_header s)
write_markers-IsStore db (put_head hash ∷ ms) s =
    let db' : ChainDb = write_marker db (put_head hash) in
    write_markers-IsStore db' ms (relabelled db'.canonical db'.head_header s)

canon-put_head : (db : ChainDb) (h j : ℕ) → canon (write_marker db (put_head h)) j ≡ canon db j
unfolding canon write_marker Store.write_head_header_hash
canon-put_head db h j = refl

module _ {hl : Lru Header} {nl : Lru ℕ} where
  pub Marked-IsCached :
      {db db' : ChainDb} (c : Caches hl nl) → Marked db db' → IsCached db c → IsCached db' c
  Marked-IsCached c w k = record {
    header = λ h x e. ap (λ f. f x.number h) w.headers ∙ k.header h x e;
    td = λ h t e. let (n, at) = k.td h t e in (n, ap (λ f. f n h) w.tds ∙ at);
    number = λ h n e. let (x, at) = k.number h n e in (x, ap (λ f. f n h) w.headers ∙ at);
  }

  module _ (hlaw : IsLru hl) (nlaw : IsLru nl) where
    -- What `tdCache.Add` and `headerCache.Add` remember is stored.
    pub cache_header-IsCached :
        {g : ℕ} (hc : HeaderChain hl nl) (x : Header) (t : ℕ)
        → IsStore g hc.db
        → IsCached hc.db hc.caches
        → hc.db.headers x.number x.hash ≡ some x
        → hc.db.tds x.number x.hash ≡ some t
        → IsCached hc.db (cache_header hl nl hc x t).caches
    unfolding cache_header
    cache_header-IsCached hc x t s k at weight =
        let k' = add_header-IsCached hlaw nlaw s hc.caches x.hash x k at in
        let c' : Caches hl nl = record hc.caches {
          header_cache = hl.add hc.caches.header_cache x.hash x;
        } in
        let k'' = add_td-IsCached hlaw nlaw s c' x.hash x.number t k' weight in
        add_number-IsCached hlaw nlaw s (record c' { td_cache = nl.add c'.td_cache x.hash t })
          x.hash x.number x k'' at

-- The database once all markers of a reorganisation to the header `x` are written.
module _ {hl : Lru Header} {nl : Lru ℕ} (hlaw : IsLru hl) (nlaw : IsLru nl) {g : ℕ} {db : ChainDb}
    (s : IsStore g db) (top : ℕ) (l : Linked db.headers (canon db) top)
    (above : (n : ℕ) → top < n → canon db n ≡ 0) (x : Header) (m : ℕ) (number : x.number ≡ suc m)
    (self : db.headers x.number x.hash ≡ some x) (links : List Marker)
    (r : Links hlaw nlaw s top l above x.parent_hash m links) where
  abbrev dropped : ChainDb
  dropped = write_markers db (drop_above (suc top) db ((x.number + 1) % u64_mod))

  abbrev relinked : ChainDb
  relinked = write_markers dropped links

  abbrev pub remarked : ChainDb
  remarked = write_markers db (
      drop_above (suc top) db ((x.number + 1) % u64_mod)
      ++ (links ++ (put_canonical x.hash x.number ∷ put_head x.hash ∷ [])))

  no_wrap : (x.number + 1) % u64_mod ≡ x.number + 1
  no_wrap = omega (arith, (s.stored x.number x.hash x self).word)

  canon-dropped : (j : ℕ) → canon dropped j ≡ (if ltb j (x.number + 1) then canon db j else 0)
  canon-dropped j =
      drop_above-canon s top l above (suc top) ((x.number + 1) % u64_mod) db j (omega arith)
        (λ i le. refl)
      ∙ ap (λ n. if ltb j n then canon db j else 0) no_wrap

  dropped_same : (j : ℕ) → j ≤ m → canon dropped j ≡ canon db j
  dropped_same j le = canon-dropped j ∙ ground (arith, le, number)

  canon-remarked : (j : ℕ) → canon remarked j ≡ (if x.number == j then x.hash else canon relinked j)
  unfolding write_markers
  canon-remarked j =
      ap (λ (d : ChainDb). canon d j)
        (write_markers-append db (drop_above (suc top) db ((x.number + 1) % u64_mod)) _
          ∙ write_markers-append dropped links _)
      ∙ canon-put_head (write_marker relinked (put_canonical x.hash x.number)) x.hash j
      ∙ canon-put relinked x.hash x.number j

  remarked_below : (j : ℕ) → j ≤ m → canon remarked j ≡ canon relinked j
  remarked_below j le = canon-remarked j ∙ ground (arith, le, number)

  pub remarked_self : canon remarked x.number ≡ x.hash
  remarked_self = canon-remarked x.number ∙ ground arith

  pub remarked_above : (j : ℕ) → x.number < j → canon remarked j ≡ 0
  remarked_above j lt =
      canon-remarked j ∙ ground (arith, lt, number, r.higher dropped j, canon-dropped j)

  pub remarked_pointed : remarked.head_header ≡ some x.hash
  unfolding write_markers write_marker Store.write_head_header_hash
  remarked_pointed =
      ap (λ (d : ChainDb). d.head_header)
        (write_markers-append db (drop_above (suc top) db ((x.number + 1) % u64_mod)) _
          ∙ write_markers-append dropped links _)

  pub remarked-Linked : Linked remarked.headers (canon remarked) x.number
  remarked-Linked =
      let same = (write_markers-Marked db _).headers in
      subst (λ f. Linked f (canon remarked) x.number) (sym same)
        (subst (Linked db.headers (canon remarked)) (sym number) (
          (
            x,
            ap (db.headers (suc m)) (ap (canon remarked) (sym number) ∙ remarked_self)
                ∙ ap (λ n. db.headers n x.hash) (sym number)
                ∙ self,
            sym (remarked_below m (omega arith) ∙ r.ends dropped dropped_same),
          ),
          Linked-cong db.headers db.headers (canon relinked) (canon remarked) m (λ j h y le at. at)
              remarked_below (r.linked dropped dropped_same),
        ))
