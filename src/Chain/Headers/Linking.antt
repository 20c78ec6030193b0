-- ===== src/Chain/Headers/Linking.antt =====
-- The loop that links the ancestors of a header ends, and links them all.
use chain_master.Prelude.{
  ℕ, zero, suc, ◌<◌, ◌≡◌, refl, sym, ap, ◌∙◌, inl, inr, arith, true, false, Option, some, List, [],
  ◌∷◌, ◌==◌, Bool-cases,
}
use chain_master.Chain.Store.{Header, ChainDb}
use chain_master.Chain.Lru.{Lru, IsLru}
use chain_master.Chain.Headers.{Marker, put_canonical, Caches, before, get_header, link_loop}
use chain_master.Chain.Headers.Invariant.{
  canon, IsStore, IsCached, Linked, Linked-le, Linked-at, before-suc, read_canonical_hash-canon,
}
use chain_master.Chain.Headers.Reads.{get_header-stored}
use chain_master.Chain.Headers.Markers.{Links, no_Links, put_Links}

module _ {hl : Lru Header} {nl : Lru ℕ} (hlaw : IsLru hl) (nlaw : IsLru nl) {g : ℕ} {db : ChainDb}
    (s : IsStore g db) (top : ℕ) (l : Linked db.headers (canon db) top)
    (above : (n : ℕ) → top < n → canon db n ≡ 0) where
  -- How the loop ends.
  pub record Linking (h m : ℕ) (r : Option (List Marker × Caches hl nl)) : Type 0 where
    pub links : List Marker
    pub caches : Caches hl nl
    pub done : r ≡ some (links, caches)
    pub kept : IsCached db caches
    pub linking : Links hlaw nlaw s top l above h m links

  link-stop :
      (k : ℕ) (c : Caches hl nl) (h m : ℕ) (header : Option Header)
      → (canon db m == h) ≡ true
      → link_loop hl nl (suc k) db c h m header ≡ some ([], c)
  unfolding link_loop
  link-stop k c h m header e = rw (link_loop, read_canonical_hash-canon s m, e) refl

  link-step :
      (k : ℕ) (c c' : Caches hl nl) (h m i : ℕ) (x : Header) (next : Option Header)
      (ms : List Marker) (c'' : Caches hl nl)
      → (canon db m == h) ≡ false
      → before x.number ≡ i
      → get_header hl nl db c x.parent_hash i ≡ (next, c')
      → link_loop hl nl k db c' x.parent_hash i next ≡ some (ms, c'')
      → link_loop hl nl (suc k) db c h m (some x) ≡ some (put_canonical h m ∷ ms, c'')
  unfolding link_loop
  link-step k c c' h m i x next ms c'' e b r rest =
      rw (link_loop, read_canonical_hash-canon s m, e, b, r, rest) refl

  stopped :
      (k : ℕ) (c : Caches hl nl) (h m : ℕ) (x : Header)
      → IsCached db c
      → db.headers m h ≡ some x
      → (canon db m == h) ≡ true
      → Linking h m (link_loop hl nl (suc k) db c h m (some x))
  stopped k c h m x kept at e = record {
    links = [];
    caches = c;
    done = link-stop k c h m (some x) e;
    kept = kept;
    linking = no_Links hlaw nlaw s top l above h m (s.stored m h x at).nonzero (ground (arith, e));
  }

  -- The genesis block is canonical.
  root : (h : ℕ) (x : Header) → db.headers 0 h ≡ some x → canon db 0 ≡ h
  root h x at =
      let (y, here) =
        Linked-at db.headers (canon db) 0 (Linked-le db.headers (canon db) 0 top (omega arith) l) in
      s.rooted (canon db 0) y here ∙ sym (s.rooted h x at)

  pub link_loop-Linking :
      (k : ℕ) (c : Caches hl nl) (h m : ℕ) (x : Header)
      → m < k
      → IsCached db c
      → db.headers m h ≡ some x
      → Linking h m (link_loop hl nl k db c h m (some x))
  link_loop-Linking zero c h m x lt kept at = absurd (omega arith)
  link_loop-Linking (suc k) c h zero x lt kept at =
      stopped k c h 0 x kept at (ground (arith, root h x at))
  link_loop-Linking (suc k) c h (suc m) x lt kept at = elim (Bool-cases (canon db (suc m) == h)) [
    | inl met ↦ stopped k c h (suc m) x kept at met
    | inr apart ↦
        let st = s.stored (suc m) h x at in
        let (p, there) = st.parent m refl in
        let back : before x.number ≡ m =
          before-suc x.number m st.number (omega (arith, st.number, st.word)) in
        let (found, kept') = get_header-stored hlaw nlaw s c x.parent_hash m p kept there in
        let c' = (get_header hl nl db c x.parent_hash m).1 in
        let r = link_loop-Linking k c' x.parent_hash m p (omega arith) kept' there in
        record {
          links = put_canonical h (suc m) ∷ r.links;
          caches = r.caches;
          done =
              link-step k c c' h (suc m) m x (some p) r.links r.caches apart back
                (ap (λ o. (o, c')) found) r.done;
          kept = r.kept;
          linking = put_Links hlaw nlaw s top l above h m x r.links at r.linking;
        }
  ]
