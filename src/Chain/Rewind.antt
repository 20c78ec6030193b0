-- ===== src/Chain/Rewind.antt =====
-- headerchain.go: `SetHead`, whose callbacks write keys that are not of headers, `NewHeaderChain` and
-- the setters.
pub mod Erased
pub mod Back
pub mod Rewound
use chain_master.Prelude.{
  ℕ, zero, suc, Bool, true, false, Option, none, some, List, [], ◌∷◌, ltb, ◌==◌, if◌then◌else◌,
}
use chain_master.Chain.Store.{
  Header, ChainDb, read_head_block_hash, write_head_header_hash, delete_header, delete_td,
  delete_canonical_hash,
}
use chain_master.Chain.Lru.{Lru}
use chain_master.Chain.Headers.{Caches, HeaderChain, before, get_header}
use chain_master.Chain.Ancestors.{get_header_by_hash, get_header_by_number}

-- The deletions of a header in the batch, by its hash and number.
unfoldable pub drop_header : ChainDb → ℕ → ℕ → ChainDb
unfolding delete_header delete_td delete_canonical_hash
drop_header db hash number =
    delete_canonical_hash (delete_td (delete_header db hash number) hash number) number

-- `Write` of the batch.
unfoldable pub drop_headers : ChainDb → List (ℕ × ℕ) → ChainDb
unfolding drop_header
drop_headers db [] = db
drop_headers db ((hash, number) ∷ gone) = drop_headers (drop_header db hash number) gone

unfoldable pub header_or : Header → Option Header → Header
header_or genesis none = genesis
header_or genesis (some parent) = parent

module _ (hl : Lru Header) (nl : Lru ℕ) where
  -- One round: the parent of the head becomes the head.
  unfoldable pub step_back : HeaderChain hl nl → HeaderChain hl nl
  unfolding header_or
  step_back hc =
      let parent_hash = hc.current.parent_hash in
      let (parent, c) = get_header hl nl hc.db hc.caches parent_hash (before hc.current.number) in
      record hc {
        db = write_head_header_hash hc.db parent_hash;
        current = header_or hc.genesis parent;
        current_hash = parent_hash;
        caches = c;
      }

  -- The rounds left, with the hashes and numbers of the headers to delete.
  unfoldable pub rewind_loop : ℕ → ℕ → HeaderChain hl nl → HeaderChain hl nl × List (ℕ × ℕ)
  unfolding step_back
  rewind_loop zero head hc = (hc, [])
  rewind_loop (suc k) head hc = elim (ltb head hc.current.number) [
    | false ↦ (hc, [])
    | true ↦
        let (hc', gone) = rewind_loop k head (step_back hc) in
        (hc', (hc.current.hash, hc.current.number) ∷ gone)
  ]

  unfoldable pub set_head : ℕ → HeaderChain hl nl → HeaderChain hl nl
  unfolding rewind_loop drop_headers
  set_head head hc =
      let (hc', gone) = rewind_loop hc.current.number head hc in
      record hc' {
        db = drop_headers hc'.db gone;
        caches = record {
          header_cache = hl.purge hc'.caches.header_cache;
          td_cache = nl.purge hc'.caches.td_cache;
          number_cache = nl.purge hc'.caches.number_cache;
        };
      }

  unfoldable pub set_current_header : HeaderChain hl nl → Header → HeaderChain hl nl
  set_current_header hc head = record hc { current = head; current_hash = head.hash }

  unfoldable pub set_genesis : HeaderChain hl nl → Header → HeaderChain hl nl
  set_genesis hc head = record hc { genesis = head }

  -- The header of the last block, where both are there.
  unfoldable pub last_header : ChainDb → Caches hl nl → Header → Header × Caches hl nl
  last_header db c genesis =
      let hash = read_head_block_hash db in
      let (header, c') = get_header_by_hash hl nl db c hash in
      if hash == 0 then (genesis, c) else (header_or genesis header, c')

  -- With the new caches; no result is `ErrNoGenesis`.
  unfoldable pub new_header_chain : ChainDb → Caches hl nl → Option (HeaderChain hl nl)
  unfolding last_header set_current_header
  new_header_chain db c =
      let (found, c') = get_header_by_number hl nl db c 0 in
      elim found [
        | none ↦ none
        | some genesis ↦
            let (last, c'') = last_header db c' genesis in
            some (
              set_current_header
                (record {
                  db = db;
                  genesis = genesis;
                  current = last;
                  current_hash = 0;
                  caches = c'';
                })
                last)
      ]
