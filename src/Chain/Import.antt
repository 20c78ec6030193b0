-- ===== src/Chain/Import.antt =====
-- headerchain.go: `ValidateHeaderChain` and `InsertHeaderChain`, and their composition in
-- blockchain.go.
pub mod Seals
pub mod Family
pub mod Rounds
pub mod Outcome
pub mod Whole
use chain_master.Prelude.{
  ℕ, zero, suc, ◌+◌, ◌-◌, ◌*◌, ◌/◌, ◌%◌, Bool, true, false, not, ◌&&◌, Option, none, some, List, [],
  ◌∷◌, length, leb, ◌==◌, if◌then◌else◌, u64_mod,
}
use chain_master.Chain.Store.{Header}
use chain_master.Chain.Lru.{Lru}
use chain_master.Chain.Headers.{
  Caches, HeaderChain, Written, unknown_ancestor, crashed, written, get_td, has_header,
  write_header,
}

pub data ImportError : Type 0 where
  non_contiguous aborted blacklisted unknown_parent : ImportError
  unverified : ℕ → ImportError

-- The loop over neighbours, from the header `prev` on.
unfoldable pub contiguous : Header → List Header → Bool
contiguous prev [] = true
contiguous prev (header ∷ chain) =
    header.number == (prev.number + 1) % u64_mod
    && (header.parent_hash == prev.hash && contiguous header chain)

unfoldable pub is_contiguous : List Header → Bool
unfolding contiguous
is_contiguous [] = true
is_contiguous (header ∷ chain) = contiguous header chain

-- `seals[index] = true`.
unfoldable pub set_seal : (ℕ → Bool) → ℕ → ℕ → Bool
set_seal seals index i = if index == i then true else seals i

unfoldable pub clamp : ℕ → ℕ → ℕ
clamp index len = if leb len index then len - 1 else index

-- The rounds left of the loop that draws a header out of each `check_freq`, from the round `i` on;
-- `draw` are the random numbers.
unfoldable pub draw_seals : ℕ → ℕ → ℕ → (ℕ → ℕ) → ℕ → (ℕ → Bool) → ℕ → Bool
draw_seals zero i check_freq draw len seals = seals
draw_seals (suc k) i check_freq draw len seals =
    draw_seals k (i + 1) check_freq draw len (set_seal seals (clamp (i * check_freq + draw i) len))

-- The headers whose seals are verified.
unfoldable pub sealed : ℕ → (ℕ → ℕ) → ℕ → ℕ → Bool
sealed check_freq draw len =
    if check_freq == 0
    then (λ i. false)
    else set_seal (draw_seals (len / check_freq) 0 check_freq draw len (λ i. false)) (len - 1)

-- What the code reads elsewhere: whether it is interrupted, the bad hashes, the engine.
pub record Surroundings : Type 0 where
  pub interrupted : ℕ → Bool
  pub bad : ℕ → Bool
  pub draw : ℕ → ℕ
  pub verify_headers : List Header → (ℕ → Bool) → ℕ → Option ℕ

-- The loop over the results of the engine, from the header `i` on.
unfoldable pub check_results :
    Surroundings → (ℕ → Option ℕ) → ℕ → List Header → ℕ × Option ImportError
check_results env results i [] = (0, none)
check_results env results i (header ∷ chain) = elim (env.interrupted i) [
  | true ↦ (0, some aborted)
  | false ↦ elim (env.bad header.hash) [
    | true ↦ (i, some blacklisted)
    | false ↦ elim (results i) [
      | some err ↦ (i, some (unverified err))
      | none ↦ check_results env results (i + 1) chain
    ]
  ]
]

-- No result is the crash of `seals[len(seals)-1]` on no headers.
unfoldable pub validate_header_chain :
    Surroundings → List Header → ℕ → Option (ℕ × Option ImportError)
unfolding check_results is_contiguous
validate_header_chain env chain check_freq =
    let results = env.verify_headers chain (sealed check_freq env.draw (length chain)) in
    if is_contiguous chain
    then (if not (check_freq == 0) && length chain == 0
        then none
        else some (check_results env results 0 chain))
    else some (0, some non_contiguous)

module _ (hl : Lru Header) (nl : Lru ℕ) where
  -- What the loop does with a header.
  pub data Decision : Type 0 where
    broke : Decision
    ignored processed : HeaderChain hl nl → Decision

  unfoldable pub decide_known : HeaderChain hl nl → Header → Decision
  decide_known hc header =
      let (extern, c) = get_td hl nl hc.db hc.caches header.hash header.number in
      let (local, c') = get_td hl nl hc.db c hc.current_hash hc.current.number in
      let hc' : HeaderChain hl nl = record hc { caches = c' } in
      elim extern [
        | none ↦ ignored hc'
        | some td ↦ elim local [
          | none ↦ broke
          | some l ↦ if leb td l then ignored hc' else processed hc'
        ]
      ]

  unfoldable pub decide_header : HeaderChain hl nl → Header → Decision
  unfolding decide_known
  decide_header hc header =
      if has_header hl nl hc.db hc.caches header.hash header.number
      then decide_known hc header
      else processed hc

  pub data Imported : Type 0 where
    panicked : Imported
    imported : HeaderChain hl nl → ℕ → Option ImportError → Imported

  -- The callback of `BlockChain.InsertHeaderChain`, before the rest of the headers.
  unfoldable pub go_on : ℕ → (HeaderChain hl nl → Imported) → Written hl nl → Imported
  go_on i rest (unknown_ancestor hc) = imported hc i (some unknown_parent)
  go_on i rest crashed = panicked
  go_on i rest (written hc status) = rest hc

  unfoldable pub carry_out :
      ℕ → Bool → (HeaderChain hl nl → Imported) → Header → Decision → Imported
  unfolding go_on
  carry_out i coin rest header broke = panicked
  carry_out i coin rest header (ignored hc) = rest hc
  carry_out i coin rest header (processed hc) = go_on i rest (write_header hl nl coin hc header)

  -- The loop, from the header `i` on; `coins` are the random numbers of `WriteHeader`.
  unfoldable pub insert_loop :
      Surroundings → (ℕ → Bool) → ℕ → HeaderChain hl nl → List Header → Imported
  unfolding decide_header carry_out
  insert_loop env coins i hc [] = imported hc 0 none
  insert_loop env coins i hc (header ∷ chain) =
      let rest : HeaderChain hl nl → Imported = λ hc'. insert_loop env coins (i + 1) hc' chain in
      if env.interrupted i
      then imported hc i (some aborted)
      else carry_out i (coins i) rest header (decide_header hc header)

  -- With the logging, which reads the last header.
  unfoldable pub insert_headers :
      Surroundings → (ℕ → Bool) → HeaderChain hl nl → List Header → Imported
  unfolding insert_loop
  insert_headers env coins hc [] = panicked
  insert_headers env coins hc (header ∷ chain) = insert_loop env coins 0 hc (header ∷ chain)

  unfoldable pub insert_header_chain :
      Surroundings → Surroundings → (ℕ → Bool) → HeaderChain hl nl → List Header → ℕ → Imported
  unfolding validate_header_chain insert_headers
  insert_header_chain env env' coins hc chain check_freq =
      elim (validate_header_chain env chain check_freq) [
        | none ↦ panicked
        | some (i, some err) ↦ imported hc i (some err)
        | some (i, none) ↦ insert_headers env' coins hc chain
      ]
