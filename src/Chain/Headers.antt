-- ===== src/Chain/Headers.antt =====
-- headerchain.go: the chain of headers, with the choice of the canonical one by total difficulty.
pub mod Invariant
pub mod Reads
pub mod Markers
pub mod Linking
pub mod Arrival
pub mod Choice
pub mod Ends
pub mod Whole
use mathlib.Core.Option
use chain_master.Prelude.{
  ℕ, zero, suc, ◌+◌, ◌-◌, ◌%◌, Bool, true, false, not, ◌&&◌, ◌||◌, Option, none, some, List, [],
  ◌∷◌, ◌++◌, ltb, leb, ◌==◌, if◌then◌else◌, u64_mod,
}
use chain_master.Chain.Store
use chain_master.Chain.Store.{
  Header, ChainDb, read_canonical_hash, read_header, read_td, read_header_number,
  write_canonical_hash, delete_canonical_hash, write_head_header_hash, delete_header, write_td,
  delete_td,
}
use chain_master.Chain.Lru.{Lru}

-- `number - 1` on `uint64`.
unfoldable pub before : ℕ → ℕ
before number = (number + u64_mod - 1) % u64_mod

-- What a batch of markers is to write.
pub data Marker : Type 0 where
  put_canonical : ℕ → ℕ → Marker
  drop_canonical : ℕ → Marker
  put_head : ℕ → Marker

unfoldable pub write_marker : ChainDb → Marker → ChainDb
unfolding write_canonical_hash delete_canonical_hash write_head_header_hash
write_marker db (put_canonical hash number) = write_canonical_hash db hash number
write_marker db (drop_canonical number) = delete_canonical_hash db number
write_marker db (put_head hash) = write_head_header_hash db hash

-- `Write` of a batch.
unfoldable pub write_markers : ChainDb → List Marker → ChainDb
write_markers db [] = db
write_markers db (marker ∷ markers) = write_markers (write_marker db marker) markers

pub data WriteStatus : Type 0 where
  canon_stat side_stat : WriteStatus

-- The loop that drops the canonical hashes above a header, on the rounds left; it reads the database
-- that the batch is not yet written to.
unfoldable pub drop_above : ℕ → ChainDb → ℕ → List Marker
drop_above zero db number = []
drop_above (suc k) db number = elim (read_canonical_hash db number == 0) [
  | true ↦ []
  | false ↦ drop_canonical number ∷ drop_above k db ((number + 1) % u64_mod)
]

module _ (hl : Lru Header) (nl : Lru ℕ) where
  pub record Caches : Type 0 where
    pub header_cache : hl.Cache
    pub td_cache : nl.Cache
    pub number_cache : nl.Cache

  pub record HeaderChain : Type 0 where
    pub db : ChainDb
    pub genesis : Header
    pub current : Header
    pub current_hash : ℕ
    pub caches : Caches

  -- How `WriteHeader` ends. A crash is a nil header or difficulty.
  pub data Written : Type 0 where
    unknown_ancestor : HeaderChain → Written
    crashed : Written
    written : HeaderChain → WriteStatus → Written

  unfoldable pub keep_td : Caches → ℕ → Option ℕ → Option ℕ × Caches
  keep_td c hash none = (none, c)
  keep_td c hash (some td) = (some td, record c { td_cache = nl.add c.td_cache hash td })

  unfoldable pub get_td : ChainDb → Caches → ℕ → ℕ → Option ℕ × Caches
  unfolding keep_td
  get_td db c hash number =
      let (found, cache) = nl.get c.td_cache hash in
      let c' = record c { td_cache = cache } in
      elim found [ some td ↦ (some td, c') | none ↦ keep_td c' hash (read_td db hash number) ]

  unfoldable pub keep_header : Caches → ℕ → Option Header → Option Header × Caches
  keep_header c hash none = (none, c)
  keep_header c hash (some header) =
      (some header, record c { header_cache = hl.add c.header_cache hash header })

  unfoldable pub get_header : ChainDb → Caches → ℕ → ℕ → Option Header × Caches
  unfolding keep_header
  get_header db c hash number =
      let (found, cache) = hl.get c.header_cache hash in
      let c' = record c { header_cache = cache } in
      elim found [
        | some header ↦ (some header, c')
        | none ↦ keep_header c' hash (read_header db hash number)
      ]

  unfoldable pub keep_number : Caches → ℕ → Option ℕ → Option ℕ × Caches
  keep_number c hash none = (none, c)
  keep_number c hash (some number) =
      (some number, record c { number_cache = nl.add c.number_cache hash number })

  unfoldable pub get_block_number : ChainDb → Caches → ℕ → Option ℕ × Caches
  unfolding keep_number
  get_block_number db c hash =
      let (found, cache) = nl.get c.number_cache hash in
      let c' = record c { number_cache = cache } in
      elim found [
        | some number ↦ (some number, c')
        | none ↦ keep_number c' hash (read_header_number db hash)
      ]

  unfoldable pub has_header : ChainDb → Caches → ℕ → ℕ → Bool
  has_header db c hash number =
      if nl.contains c.number_cache hash || hl.contains c.header_cache hash
      then true
      else Store.has_header db hash number

  -- `tdCache.Add`, `headerCache.Add` and `numberCache.Add`.
  unfoldable pub cache_header : HeaderChain → Header → ℕ → HeaderChain
  cache_header hc header td = record hc {
    caches = record {
      header_cache = hl.add hc.caches.header_cache header.hash header;
      td_cache = nl.add hc.caches.td_cache header.hash td;
      number_cache = nl.add hc.caches.number_cache header.hash header.number;
    };
  }

  -- The loop that makes the ancestors of a header canonical, on the rounds left; `none` is a nil
  -- header.
  unfoldable pub link_loop :
      ℕ → ChainDb → Caches → ℕ → ℕ → Option Header → Option (List Marker × Caches)
  link_loop zero db c hash number header = none
  link_loop (suc k) db c hash number header = elim (read_canonical_hash db number == hash) [
    | true ↦ some ([], c)
    | false ↦ elim header [
      | none ↦ none
      | some h ↦
          let (next, c') = get_header db c h.parent_hash (before h.number) in
          Option.map (λ (r : List Marker × Caches). (put_canonical hash number ∷ r.0, r.1))
            (link_loop k db c' h.parent_hash (before h.number) next)
    ]
  ]

  -- The choice of the canonical chain; `coin` is the random number at a tie.
  unfoldable pub is_reorg : Bool → ℕ → ℕ → ℕ → ℕ → Bool
  is_reorg coin extern local number head =
      ltb local extern || extern == local && (ltb number head || number == head && coin)

  -- All the markers of a reorganisation.
  unfoldable pub markers : HeaderChain → Header → List Marker → List Marker
  markers hc header links =
      drop_above (suc hc.current.number) hc.db ((header.number + 1) % u64_mod)
      ++ (links ++ (put_canonical header.hash header.number ∷ put_head header.hash ∷ []))

  unfoldable pub reorganise : HeaderChain → Header → ℕ → Written
  reorganise hc header td =
      let (parent, c) = get_header hc.db hc.caches header.parent_hash (before header.number) in
      elim (link_loop header.number hc.db c header.parent_hash (before header.number) parent) [
        | none ↦ crashed
        | some (links, c') ↦
            written
              (cache_header
                (record hc {
                  db = write_markers hc.db (markers hc header links);
                  current = header;
                  current_hash = header.hash;
                  caches = c';
                })
                header td)
              canon_stat
      ]

  -- `WriteHeader` from the write to the database on.
  unfoldable pub write_known : Bool → HeaderChain → Header → ℕ → ℕ → Written
  write_known coin hc header extern local =
      let hc' = record hc {
        db = Store.write_header (write_td hc.db header.hash header.number extern) header;
      } in
      if is_reorg coin extern local header.number hc.current.number
      then reorganise hc' header extern
      else written (cache_header hc' header extern) side_stat

  unfoldable pub write_header : Bool → HeaderChain → Header → Written
  write_header coin hc header =
      let (parent_td, c) = get_td hc.db hc.caches header.parent_hash (before header.number) in
      elim parent_td [
        | none ↦ unknown_ancestor (record hc { caches = c })
        | some ptd ↦
            let (local, c') = get_td hc.db c hc.current_hash hc.current.number in
            elim local [
              | none ↦ crashed
              | some td ↦
                  write_known coin (record hc { caches = c' }) header (header.difficulty + ptd) td
            ]
      ]
