-- ===== src/Chain/Headers/Whole.antt =====
-- `WriteHeader` on a chain of headers, from the first read on.
use chain_master.Prelude.{
  ℕ, suc, ◌+◌, ◌≡◌, refl, sym, ap, subst, ◌∙◌, inl, inr, arith, Bool, Option, none, some,
  Option-cases,
}
use chain_master.Chain.Store.{Header}
use chain_master.Chain.Lru.{Lru, IsLru}
use chain_master.Chain.Headers.{
  Caches, HeaderChain, unknown_ancestor, before, get_td, write_known, write_header,
}
use chain_master.Chain.Headers.Invariant.{suc_of, IsCached, IsChain, before-suc}
use chain_master.Chain.Headers.Reads.{TdRead, get_td-TdRead, get_td-stored}
use chain_master.Chain.Headers.Arrival.{IsNew}
use chain_master.Chain.Headers.Ends.{Ends, known_Ends}

module _ {hl : Lru Header} {nl : Lru ℕ} (hlaw : IsLru hl) (nlaw : IsLru nl) (hc : HeaderChain hl nl)
    (s : IsChain hc) (x : Header) (new : IsNew hc.db x) where
  predecessor : (m : ℕ) × (x.number ≡ suc m)
  predecessor = suc_of x.number new.positive

  abbrev asked : Option ℕ × Caches hl nl
  asked = get_td hl nl hc.db hc.caches x.parent_hash (before x.number)

  asked-TdRead : TdRead hlaw nlaw s.store x.parent_hash (before x.number) asked
  asked-TdRead = get_td-TdRead hlaw nlaw s.store hc.caches x.parent_hash (before x.number) s.cached

  unknown_Ends : asked.0 ≡ none → Ends hc x (unknown_ancestor (record hc { caches = asked.1 }))
  unfolding Ends
  unknown_Ends miss = (
    record {
      chain = record {
        store = s.store;
        cached = asked-TdRead.kept;
        linked = s.linked;
        above = s.above;
        head = s.head;
        pointed = s.pointed;
        current = s.current;
      };
      genesis = refl;
      stays = λ n h y e. e;
      only = λ n h y e. inr e;
      weights = λ n h u e. e;
    },
    refl,
    λ m number. elim (Option-cases (hc.db.headers m x.parent_hash)) [
      | inl missing ↦ missing
      | inr (p, at) ↦
          let (t, weighs) = (s.store.stored m x.parent_hash p at).weighed in
          let gone =
            ap (λ n. hc.db.tds n x.parent_hash)
              (sym (before-suc x.number m number (omega (arith, new.word))))
            ∙ asked-TdRead.missed miss in
          absurd (ground (arith, gone, weighs))
    ],
  )

  weighed_Ends :
      (coin : Bool) (ptd l : ℕ) (c : Caches hl nl)
      → IsCached hc.db c
      → asked.0 ≡ some ptd
      → hc.db.tds hc.current.number hc.current_hash ≡ some l
      → Ends hc x (write_known hl nl coin (record hc { caches = c }) x (x.difficulty + ptd) l)
  weighed_Ends coin ptd l c cached hit local =
      let (m, number) = predecessor in
      let (k, weight) = asked-TdRead.found ptd hit in
      let (p, parent) = s.store.valued k x.parent_hash ptd weight in
      let level : k ≡ m = omega (arith, new.follows k p parent, number) in
      known_Ends hlaw nlaw hc s x new c cached m (x.difficulty + ptd) ptd l p number
        (ap (λ n. hc.db.headers n x.parent_hash) (sym level) ∙ parent)
        (ap (λ n. hc.db.tds n x.parent_hash) (sym level) ∙ weight) refl local coin

  missed_lem :
      (coin : Bool)
      → asked.0 ≡ none
      → write_header hl nl coin hc x ≡ unknown_ancestor (record hc { caches = asked.1 })
  unfolding write_header
  missed_lem coin miss = rw (write_header, miss) refl

  abbrev local_asked : Option ℕ × Caches hl nl
  local_asked = get_td hl nl hc.db asked.1 hc.current_hash hc.current.number

  weighed_lem :
      (coin : Bool) (ptd l : ℕ)
      → asked.0 ≡ some ptd
      → local_asked.0 ≡ some l
      → write_header hl nl coin hc x
        ≡ write_known hl nl coin (record hc { caches = local_asked.1 }) x (x.difficulty + ptd) l
  unfolding write_header
  weighed_lem coin ptd l hit found = rw (write_header, hit, found) refl

  -- On a chain of headers whose caches keep the laws of golang-lru, for a header whose hash is not
  -- zero and is that of no other stored header, and whose number is positive, less than 2 ^ 64 -
  -- 1, and follows that of any stored header with the hash of its parent, whatever the random
  -- number: `WriteHeader` does not read a nil header or difficulty. It says that the ancestor is
  -- unknown, changes nothing in the database, and the parent is not stored; or the header becomes
  -- the head, where its total difficulty is at least that of the old head; or it stays beside the
  -- chain, where it is at most that. In each case the headers are stored with their ancestors and
  -- sums of difficulties, the caches are true, and the canonical hashes lead from the head to the
  -- genesis block and are zero above; in the last two the header is stored with its difficulty.
  pub write_header_lem : (coin : Bool) → Ends hc x (write_header hl nl coin hc x)
  write_header_lem coin = elim (Option-cases asked.0) [
    | inl miss ↦ subst (Ends hc x) (sym (missed_lem coin miss)) (unknown_Ends miss)
    | inr (ptd, hit) ↦
        let (l, local) =
          (s.store.stored hc.current.number hc.current_hash hc.current s.current).weighed in
        let r =
          get_td-TdRead hlaw nlaw s.store asked.1 hc.current_hash hc.current.number
            asked-TdRead.kept in
        let found =
          get_td-stored hlaw nlaw s.store asked.1 hc.current_hash hc.current.number l
            asked-TdRead.kept local in
        subst (Ends hc x) (sym (weighed_lem coin ptd l hit found))
          (weighed_Ends coin ptd l local_asked.1 r.kept hit local)
  ]
