-- ===== src/ForkId.antt =====
-- forkid.go: the fork identifier of EIP-2124 and the filter on those of peers. The checksum is a
-- parameter: the CRC of the genesis hash, and its update by the eight bytes of a block number. The
-- four bytes of an identifier are compared as the 32-bit word that they spell.
pub mod Forks
pub mod Peers
mod Tests
use chain_master.Prelude.{
  ℕ, zero, suc, ◌%◌, Bool, true, false, ◌&&◌, Option, none, some, List, [], ◌∷◌, ◌++◌, ltb, leb,
  ◌==◌, if◌then◌else◌, length, u64_mod,
}

pub record ForkId : Type 0 where
  pub hash : ℕ
  pub next : ℕ

pub data FilterError : Type 0 where
  remote_stale : FilterError
  local_incompatible_or_stale : FilterError

-- The block numbers of a configuration: its `*big.Int` fields whose names end in `Block`, in order.
unfoldable pub fork_blocks : List (Option ℕ) → List ℕ
fork_blocks [] = []
fork_blocks (none ∷ rules) = fork_blocks rules
fork_blocks (some n ∷ rules) = n % u64_mod ∷ fork_blocks rules

-- A round of the outer loop of the sort: the entry `i`, and the others after their exchanges.
unfoldable pub sweep : ℕ → List ℕ → ℕ × List ℕ
sweep x [] = (x, [])
sweep x (y ∷ ys) =
    let (low, rest) = sweep (if ltb y x then y else x) ys in
    (low, (if ltb y x then x else y) ∷ rest)

pub sort_loop : ℕ → List ℕ → List ℕ
sort_loop zero xs = xs
sort_loop (suc k) [] = []
sort_loop (suc k) (x ∷ xs) = let (low, rest) = sweep x xs in low ∷ sort_loop k rest

unfoldable pub sort_forks : List ℕ → List ℕ
unfolding sort_loop
sort_forks xs = sort_loop (length xs) xs

-- The loop that removes an entry equal to the one before it.
unfoldable pub dedup_loop : ℕ → List ℕ → List ℕ
dedup_loop last [] = []
dedup_loop last (x ∷ xs) = if x == last then dedup_loop last xs else x ∷ dedup_loop x xs

unfoldable pub dedup : List ℕ → List ℕ
dedup [] = []
dedup (x ∷ xs) = x ∷ dedup_loop x xs

-- A fork at the genesis block is none.
unfoldable pub skip_genesis : List ℕ → List ℕ
skip_genesis [] = []
skip_genesis (x ∷ xs) = if x == 0 then xs else x ∷ xs

unfoldable pub gather_forks : List (Option ℕ) → List ℕ
gather_forks rules = skip_genesis (dedup (sort_forks (fork_blocks rules)))

module _ (checksum_update : ℕ → ℕ → ℕ) where
  -- The loop of `newID`.
  unfoldable pub id_loop : ℕ → List ℕ → ℕ → ForkId
  id_loop hash [] head = record { hash = hash; next = 0 }
  id_loop hash (fork ∷ forks) head =
      if leb fork head
      then id_loop (checksum_update hash fork) forks head
      else record { hash = hash; next = fork }

  -- `newID`, from the checksum of the genesis hash.
  unfoldable pub new_id : List (Option ℕ) → ℕ → ℕ → ForkId
  new_id config genesis head = id_loop genesis (gather_forks config) head

  -- `sums[i]` and `forks[i]`, with the largest word as the last fork.
  unfoldable pub entries : ℕ → List ℕ → List (ℕ × ℕ)
  entries hash [] = (hash, 18446744073709551615) ∷ []
  entries hash (fork ∷ forks) = (hash, fork) ∷ entries (checksum_update hash fork) forks

-- The search of the sums after the present one.
unfoldable pub has_sum : ℕ → List (ℕ × ℕ) → Bool
has_sum hash [] = false
has_sum hash ((sum, fork) ∷ rest) = if sum == hash then true else has_sum hash rest

-- The search of the sums before the present one, and then of those after it.
unfoldable pub match_past : ForkId → List (ℕ × ℕ) → List (ℕ × ℕ) → Option FilterError
match_past id [] future =
    if has_sum id.hash future then none else some FilterError.local_incompatible_or_stale
match_past id ((sum, fork) ∷ past) future =
    if sum == id.hash
    then if fork == id.next then none else some FilterError.remote_stale
    else match_past id past future

-- What the filter says at the present entry.
unfoldable pub decide : ForkId → ℕ → List (ℕ × ℕ) → ℕ → List (ℕ × ℕ) → Option FilterError
decide id head past sum future =
    if sum == id.hash
    then if ltb 0 id.next && leb id.next head
      then some FilterError.local_incompatible_or_stale
      else none
    else match_past id past future

-- The loop of the filter, with the entries before the present one.
unfoldable pub filter_loop : ForkId → ℕ → List (ℕ × ℕ) → List (ℕ × ℕ) → Option FilterError
filter_loop id head past [] = none
filter_loop id head past ((sum, fork) ∷ rest) =
    if ltb fork head
    then filter_loop id head (past ++ (sum, fork) ∷ []) rest
    else decide id head past sum rest

-- `newFilter`: no error is `none`.
unfoldable pub new_filter : (ℕ → ℕ → ℕ) → List (Option ℕ) → ℕ → ℕ → ForkId → Option FilterError
new_filter checksum_update config genesis head id =
    filter_loop id head [] (entries checksum_update genesis (gather_forks config))
