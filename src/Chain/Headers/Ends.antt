-- ===== src/Chain/Headers/Ends.antt =====
-- How `WriteHeader` ends on a chain of headers.
use chain_master.Prelude.{
  ℕ, suc, ◌+◌, ◌<◌, ◌≤◌, ◌≡◌, refl, sym, ap, subst, ◌∙◌, inl, inr, ◌⊎◌, arith, Bool, true, false,
  none, some, List, Bool-cases,
}
use chain_master.Chain.Store
use chain_master.Chain.Store.{Header, ChainDb}
use chain_master.Chain.Lru.{Lru, IsLru}
use chain_master.Chain.Headers.{
  Marker, write_markers, canon_stat, side_stat, Caches, HeaderChain, Written, unknown_ancestor,
  crashed, written, before, get_header, cache_header, link_loop, is_reorg, markers, reorganise,
  write_known,
}
use chain_master.Chain.Headers.Invariant.{
  canon, IsStore, IsCached, IsChain, Linked, Linked-cong, before-suc,
}
use chain_master.Chain.Headers.Reads.{get_header-stored}
use chain_master.Chain.Headers.Markers.{write_markers-Marked}
use chain_master.Chain.Headers.Linking.{Linking, link_loop-Linking}
use chain_master.Chain.Headers.Arrival.{
  IsNew, arrive, arrive_more, arrive_more_tds, arrive_only, arrive_self, arrive_self_td,
  arrive-IsStore, arrive-IsCached, arrive-canon,
}
use chain_master.Chain.Headers.Choice.{
  write_markers-IsStore, Marked-IsCached, cache_header-IsCached, remarked_self, remarked_above,
  remarked_pointed, remarked-Linked,
}

module _ (hl : Lru Header) (nl : Lru ℕ) (coin : Bool) (t l n k : ℕ) where
  heavier : is_reorg hl nl coin t l n k ≡ true → l ≤ t
  unfolding is_reorg
  heavier e = ground (arith, e)

  lighter : is_reorg hl nl coin t l n k ≡ false → t ≤ l
  unfolding is_reorg
  lighter e = ground (arith, e)

module _ {hl : Lru Header} {nl : Lru ℕ} where
  -- At most the header `x` is stored anew, and what is stored stays.
  pub record Grown (hc hc' : HeaderChain hl nl) (x : Header) : Type 0 where
    pub chain : IsChain hc'
    pub genesis : hc'.genesis ≡ hc.genesis
    pub stays : (n h : ℕ) (y : Header) → hc.db.headers n h ≡ some y → hc'.db.headers n h ≡ some y
    pub only :
        (n h : ℕ) (y : Header)
        → hc'.db.headers n h ≡ some y
        → (y ≡ x) ⊎ (hc.db.headers n h ≡ some y)
    pub weights : (n h u : ℕ) → hc.db.tds n h ≡ some u → hc'.db.tds n h ≡ some u

  -- The header `x` is stored, and its total difficulty is `t`, where `l` is that of the head before.
  pub record Weighed (hc hc' : HeaderChain hl nl) (x : Header) (t l : ℕ) : Type 0 where
    pub arrived : hc'.db.headers x.number x.hash ≡ some x
    pub weight : hc'.db.tds x.number x.hash ≡ some t
    pub before_it : hc.db.tds hc.current.number hc.current_hash ≡ some l

  unfoldable pub Ends : HeaderChain hl nl → Header → Written hl nl → Type 0
  Ends hc x (unknown_ancestor hc') =
      Grown hc hc' x
      × (hc'.db ≡ hc.db)
      × ((m : ℕ) → x.number ≡ suc m → hc.db.headers m x.parent_hash ≡ none)
  Ends hc x crashed = ⊥
  Ends hc x (written hc' canon_stat) =
      Grown hc hc' x
      × (hc'.current ≡ x)
      × (hc'.current_hash ≡ x.hash)
      × ((t : ℕ) × (l : ℕ) × Weighed hc hc' x t l × (l ≤ t))
  Ends hc x (written hc' side_stat) =
      Grown hc hc' x
      × (hc'.current ≡ hc.current)
      × (hc'.current_hash ≡ hc.current_hash)
      × ((t : ℕ) × (l : ℕ) × Weighed hc hc' x t l × (t ≤ l))

  module _ (hlaw : IsLru hl) (nlaw : IsLru nl) (hc : HeaderChain hl nl) (s : IsChain hc)
      (x : Header) (new : IsNew hc.db x) (c : Caches hl nl) (cached : IsCached hc.db c)
      (m t pt l : ℕ) (p : Header) (number : x.number ≡ suc m)
      (parent : hc.db.headers m x.parent_hash ≡ some p)
      (weight : hc.db.tds m x.parent_hash ≡ some pt) (total : t ≡ x.difficulty + pt)
      (local : hc.db.tds hc.current.number hc.current_hash ≡ some l) where
    abbrev after : HeaderChain hl nl
    after = record hc { db = arrive hc.db x t; caches = c }

    after-IsStore : IsStore hc.genesis.hash after.db
    after-IsStore = arrive-IsStore s.store new m t pt p number parent weight total

    after-IsCached : IsCached after.db c
    after-IsCached = arrive-IsCached s.store new m t pt p number parent weight total c cached

    after_more : (n h : ℕ) (y : Header) → hc.db.headers n h ≡ some y → after.db.headers n h ≡ some y
    after_more = arrive_more s.store new m t pt p number parent weight total

    after_only :
        (n h : ℕ) (y : Header)
        → after.db.headers n h ≡ some y
        → (y ≡ x) ⊎ (hc.db.headers n h ≡ some y)
    after_only = arrive_only s.store new m t pt p number parent weight total

    after_weights : (n h u : ℕ) → hc.db.tds n h ≡ some u → after.db.tds n h ≡ some u
    after_weights = arrive_more_tds s.store new m t pt p number parent weight total

    after_self : after.db.headers x.number x.hash ≡ some x
    after_self = arrive_self s.store new m t pt p number parent weight total

    after_self_td : after.db.tds x.number x.hash ≡ some t
    after_self_td = arrive_self_td s.store new m t pt p number parent weight total

    after-canon : (n : ℕ) → canon after.db n ≡ canon hc.db n
    after-canon = arrive-canon s.store new m t pt p number parent weight total

    after_pointed : after.db.head_header ≡ some hc.current_hash
    unfolding Store.write_header Store.write_td
    after_pointed = s.pointed

    after-Linked : Linked after.db.headers (canon after.db) hc.current.number
    after-Linked =
        Linked-cong hc.db.headers after.db.headers (canon hc.db) (canon after.db) hc.current.number
          (λ j h y le. after_more j h y) (λ j le. after-canon j) s.linked

    after_above : (n : ℕ) → hc.current.number < n → canon after.db n ≡ 0
    after_above n lt = after-canon n ∙ s.above n lt

    -- The header stays beside the canonical chain.
    side_Ends : t ≤ l → Ends hc x (written (cache_header hl nl after x t) side_stat)
    unfolding Ends cache_header
    side_Ends le = (
      record {
        chain = record {
          store = after-IsStore;
          cached =
              cache_header-IsCached hlaw nlaw after x t after-IsStore after-IsCached after_self
                after_self_td;
          linked = after-Linked;
          above = after_above;
          head = after-canon hc.current.number ∙ s.head;
          pointed = after_pointed;
          current = after_more hc.current.number hc.current_hash hc.current s.current;
        };
        genesis = refl;
        stays = after_more;
        only = after_only;
        weights = after_weights;
      },
      refl,
      refl,
      (t, l, record { arrived = after_self; weight = after_self_td; before_it = local }, le),
    )

    back : before x.number ≡ m
    back = before-suc x.number m number (omega (arith, new.word))

    parent_stays : after.db.headers m x.parent_hash ≡ some p
    parent_stays = after_more m x.parent_hash p parent

    reorganise_lem :
        (links : List Marker) (c' c'' : Caches hl nl)
        → get_header hl nl after.db c x.parent_hash m ≡ (some p, c')
        → link_loop hl nl x.number after.db c' x.parent_hash m (some p) ≡ some (links, c'')
        → reorganise hl nl after x t
          ≡ written
              (cache_header hl nl
                (record hc {
                  db = write_markers after.db (markers hl nl after x links);
                  current = x;
                  current_hash = x.hash;
                  caches = c'';
                })
                x
                t)
              canon_stat
    unfolding reorganise
    reorganise_lem links c' c'' e f = rw (reorganise, back, e, f) refl

    linking :
        (c' : Caches hl nl)
        → IsCached after.db c'
        → Linking hlaw nlaw after-IsStore hc.current.number after-Linked after_above x.parent_hash m
            (link_loop hl nl x.number after.db c' x.parent_hash m (some p))
    linking c' kept =
        link_loop-Linking hlaw nlaw after-IsStore hc.current.number after-Linked after_above
          x.number c' x.parent_hash m p (omega (arith, number)) kept parent_stays

    -- The header becomes the head of the canonical chain.
    canon_Ends : l ≤ t → Ends hc x (reorganise hl nl after x t)
    unfolding Ends cache_header markers
    canon_Ends le =
        let (found, kept) =
          get_header-stored hlaw nlaw after-IsStore c x.parent_hash m p after-IsCached
            parent_stays in
        let c' : Caches hl nl = (get_header hl nl after.db c x.parent_hash m).1 in
        let r = linking c' kept in
        let db : ChainDb = write_markers after.db (markers hl nl after x r.links) in
        let w = write_markers-Marked after.db (markers hl nl after x r.links) in
        let store : IsStore hc.genesis.hash db = write_markers-IsStore after.db _ after-IsStore in
        let self : db.headers x.number x.hash ≡ some x =
          ap (λ f. f x.number x.hash) w.headers ∙ after_self in
        let self_td : db.tds x.number x.hash ≡ some t =
          ap (λ f. f x.number x.hash) w.tds ∙ after_self_td in
        let hc' : HeaderChain hl nl = record hc {
          db = db;
          current = x;
          current_hash = x.hash;
          caches = r.caches;
        } in
        subst (Ends hc x)
          (sym (reorganise_lem r.links c' r.caches (ap (λ o. (o, c')) found) r.done))
          (
            record {
              chain = record {
                store = store;
                cached =
                    cache_header-IsCached hlaw nlaw hc' x t store
                      (Marked-IsCached r.caches w r.kept) self self_td;
                linked =
                    remarked-Linked hlaw nlaw after-IsStore hc.current.number after-Linked
                      after_above x m number after_self r.links r.linking;
                above =
                    remarked_above hlaw nlaw after-IsStore hc.current.number after-Linked
                      after_above x m number after_self r.links r.linking;
                head =
                    remarked_self hlaw nlaw after-IsStore hc.current.number after-Linked after_above
                      x m number after_self r.links r.linking;
                pointed =
                    remarked_pointed hlaw nlaw after-IsStore hc.current.number after-Linked
                      after_above x m number after_self r.links r.linking;
                current = self;
              };
              genesis = refl;
              stays = λ n h y e. ap (λ f. f n h) w.headers ∙ after_more n h y e;
              only = λ n h y e. after_only n h y (ap (λ f. f n h) (sym w.headers) ∙ e);
              weights = λ n h u e. ap (λ f. f n h) w.tds ∙ after_weights n h u e;
            },
            refl,
            refl,
            (t, l, record { arrived = self; weight = self_td; before_it = local }, le),
          )

    pub known_Ends :
        (coin : Bool) → Ends hc x (write_known hl nl coin (record hc { caches = c }) x t l)
    unfolding write_known
    known_Ends coin = elim (Bool-cases (is_reorg hl nl coin t l x.number hc.current.number)) [
      | inl more ↦ rw (write_known, more) (canon_Ends (heavier hl nl coin t l _ _ more))
      | inr less ↦ rw (write_known, less) (side_Ends (lighter hl nl coin t l _ _ less))
    ]
