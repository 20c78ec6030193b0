-- ===== src/Chain/Ancestors/Hashes.antt =====
-- `GetBlockHashesFromHash` on a chain of headers.
use chain_master.Prelude.{ℕ, ◌≡◌, refl, sym, ap, ◌∙◌, inl, inr, some, Option-cases}
use chain_master.Chain.Store.{Header, ChainDb, read_header_number}
use chain_master.Chain.Lru.{Lru, IsLru}
use chain_master.Chain.Headers.{Caches, keep_number, get_block_number}
use chain_master.Chain.Headers.Invariant.{IsStore, IsCached, one_number}
use chain_master.Chain.Headers.Reads.{get_header-stored, add_number-IsCached}
use chain_master.Chain.Ancestors.{get_header_by_hash}

module _ {hl : Lru Header} {nl : Lru ℕ} (hlaw : IsLru hl) (nlaw : IsLru nl) {g : ℕ} {db : ChainDb}
    (s : IsStore g db) where
  keep_number-stored :
      (c : Caches hl nl) (h n : ℕ) (x : Header)
      → IsCached db c
      → db.headers n h ≡ some x
      → IsCached db (keep_number hl nl c h (some n)).1
  unfolding keep_number
  keep_number-stored c h n x k at = add_number-IsCached hlaw nlaw s c h n x k at

  get_block_number-stored :
      (c : Caches hl nl) (h n : ℕ) (x : Header)
      → IsCached db c
      → db.headers n h ≡ some x
      → ((get_block_number hl nl db c h).0 ≡ some n) × IsCached db (get_block_number hl nl db c h).1
  unfolding get_block_number read_header_number keep_number
  get_block_number-stored c h n x k at =
      let c' : Caches hl nl = record c { number_cache = (nl.get c.number_cache h).1 } in
      let k' : IsCached db c' = record {
        header = k.header;
        td = k.td;
        number = λ j m e. k.number j m (sym (nlaw.peek-get c.number_cache h j) ∙ e);
      } in
      elim (Option-cases (nl.get c.number_cache h).0) [
        | inl miss ↦
            rw (miss, get_block_number, (s.stored n h x at).indexed)
              (refl, keep_number-stored c' h n x k' at)
        | inr (m, hit) ↦
            let (y, there) = k.number h m (sym (nlaw.get-peek c.number_cache h) ∙ hit) in
            rw (hit, get_block_number) (ap some (one_number s m n h y x there at), k')
      ]

  pub get_header_by_hash-stored :
      (c : Caches hl nl) (h n : ℕ) (x : Header)
      → IsCached db c
      → db.headers n h ≡ some x
      → ((get_header_by_hash hl nl db c h).0 ≡ some x)
        × IsCached db (get_header_by_hash hl nl db c h).1
  unfolding get_header_by_hash
  get_header_by_hash-stored c h n x k at =
      let (found, k') = get_block_number-stored c h n x k at in
      rw (found, get_header_by_hash)
        (get_header-stored hlaw nlaw s (get_block_number hl nl db c h).1 h n x k' at)
