-- ===== src/Chain/Ancestors.antt =====
-- headerchain.go: headers by hash and by number, and the walks back to ancestors.
pub mod Generations
pub mod Walks
pub mod Hashes
use chain_master.Prelude.{
  ℕ, zero, suc, ◌+◌, ◌-◌, ◌%◌, Bool, true, false, Option, none, some, List, [], ◌∷◌, ltb, ◌==◌,
  if◌then◌else◌, u64_mod,
}
use chain_master.Chain.Store.{Header, ChainDb, read_canonical_hash}
use chain_master.Chain.Lru.{Lru}
use chain_master.Chain.Headers.{Caches, before, get_td, get_header, get_block_number}

-- `number - ancestor` on `uint64`.
unfoldable pub back_by : ℕ → ℕ → ℕ
back_by number ancestor = (number + u64_mod - ancestor) % u64_mod

module _ (hl : Lru Header) (nl : Lru ℕ) where
  unfoldable pub get_td_by_hash : ChainDb → Caches hl nl → ℕ → Option ℕ × Caches hl nl
  get_td_by_hash db c hash =
      let (number, c') = get_block_number hl nl db c hash in
      elim number [ none ↦ (none, c') | some n ↦ get_td hl nl db c' hash n ]

  unfoldable pub get_header_by_hash : ChainDb → Caches hl nl → ℕ → Option Header × Caches hl nl
  get_header_by_hash db c hash =
      let (number, c') = get_block_number hl nl db c hash in
      elim number [ none ↦ (none, c') | some n ↦ get_header hl nl db c' hash n ]

  unfoldable pub get_header_by_number : ChainDb → Caches hl nl → ℕ → Option Header × Caches hl nl
  get_header_by_number db c number =
      let hash = read_canonical_hash db number in
      if hash == 0 then (none, c) else get_header hl nl db c hash number

  -- The rounds of `GetBlockHashesFromHash`.
  unfoldable pub hashes_loop : ℕ → ChainDb → Caches hl nl → Header → List ℕ × Caches hl nl
  hashes_loop zero db c header = ([], c)
  hashes_loop (suc k) db c header =
      let next = header.parent_hash in
      let (found, c') = get_header hl nl db c next (before header.number) in
      elim found [
        | none ↦ ([], c')
        | some parent ↦ elim (parent.number == 0) [
          | true ↦ (next ∷ [], c')
          | false ↦ let (rest, c'') = hashes_loop k db c' parent in (next ∷ rest, c'')
        ]
      ]

  unfoldable pub get_block_hashes_from_hash : ChainDb → Caches hl nl → ℕ → ℕ → List ℕ × Caches hl nl
  unfolding hashes_loop
  get_block_hashes_from_hash db c hash max =
      let (header, c') = get_header_by_hash db c hash in
      elim header [ none ↦ ([], c') | some h ↦ hashes_loop max db c' h ]

  -- The hash and the number, and what is left of `maxNonCanonical`.
  pub record Ancestor : Type 0 where
    pub hash : ℕ
    pub number : ℕ
    pub budget : ℕ
    pub caches : Caches hl nl

  -- The rounds of `GetAncestor`; the canonical hash that it reads twice is the same both times.
  unfoldable pub ancestor_loop : ℕ → ChainDb → Caches hl nl → ℕ → ℕ → ℕ → Ancestor
  ancestor_loop zero db c hash number budget = record {
    hash = hash;
    number = number;
    budget = budget;
    caches = c;
  }
  ancestor_loop (suc k) db c hash number budget = elim (read_canonical_hash db number == hash) [
    | true ↦ record {
      hash = read_canonical_hash db (back_by number (suc k));
      number = back_by number (suc k);
      budget = budget;
      caches = c;
    }
    | false ↦ elim (budget == 0) [
      | true ↦ record { hash = 0; number = 0; budget = budget; caches = c }
      | false ↦
          let (header, c') = get_header hl nl db c hash number in
          elim header [
            | none ↦ record { hash = 0; number = 0; budget = budget - 1; caches = c' }
            | some h ↦ ancestor_loop k db c' h.parent_hash (before number) (budget - 1)
          ]
    ]
  ]

  unfoldable pub parent_of : ChainDb → Caches hl nl → ℕ → ℕ → ℕ → Ancestor
  parent_of db c hash number budget =
      let (header, c') = get_header hl nl db c hash number in
      elim header [
        | none ↦ record { hash = 0; number = 0; budget = budget; caches = c' }
        | some h ↦ record {
          hash = h.parent_hash;
          number = before number;
          budget = budget;
          caches = c';
        }
      ]

  unfoldable pub get_ancestor : ChainDb → Caches hl nl → ℕ → ℕ → ℕ → ℕ → Ancestor
  unfolding parent_of ancestor_loop
  get_ancestor db c hash number ancestor budget =
      if ltb number ancestor
      then record { hash = 0; number = 0; budget = budget; caches = c }
      else if ancestor == 1
      then parent_of db c hash number budget
      else ancestor_loop ancestor db c hash number budget
