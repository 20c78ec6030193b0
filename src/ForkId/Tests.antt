-- ===== src/ForkId/Tests.antt =====
-- A configuration with the forks 5 and 9, and the theorems at it.
use chain_master.Prelude.{
  ℕ, ◌+◌, ◌*◌, ◌≡◌, arith, Option, none, some, List, [], ◌∷◌, ltb, ◌&&◌, refl,
}
use chain_master.ForkId.{
  FilterError, fork_blocks, sweep, sort_forks, dedup, dedup_loop, skip_genesis, gather_forks,
  entries, new_id, new_filter,
}
use chain_master.ForkId.Forks.{Ascends, has, gather_forks-Ascends}
use chain_master.ForkId.Peers.{new_filter-peer, new_filter-at_fork}

abbrev rules : List (Option ℕ)
rules = some 0 ∷ none ∷ some 9 ∷ some 5 ∷ some 5 ∷ []

abbrev update : ℕ → ℕ → ℕ
update hash fork = hash * 31 + fork

gather_forks-Ascends_example :
    Ascends 0 (gather_forks rules)
    × ((n : ℕ) → has n (gather_forks rules) ≡ (ltb 0 n && has n (fork_blocks rules)))
gather_forks-Ascends_example = gather_forks-Ascends rules

-- The local node is at the block 7, and the peer has passed both forks.
new_filter-peer_example : new_filter update rules 1 7 (new_id update rules 1 20) ≡ none
unfolding gather_forks fork_blocks sort_forks sweep dedup dedup_loop skip_genesis entries
new_filter-peer_example =
    new_filter-peer update rules 1 7 20 (omega arith) (omega arith, (omega arith, tt))
      ((omega arith, (omega arith, tt)), ((omega arith, tt), (tt, tt)))

-- The local node is at the fork 9, and the peer has passed the fork 5 only.
new_filter-at_fork_example :
    new_filter update rules 1 9 (new_id update rules 1 7)
    ≡ some FilterError.local_incompatible_or_stale
unfolding gather_forks fork_blocks sort_forks sweep dedup dedup_loop skip_genesis
new_filter-at_fork_example = new_filter-at_fork update rules 1 9 7 (omega arith) (omega arith, refl)
