-- ===== src/ForkId/Peers.antt =====
-- Two nodes with the same configuration.
use mathlib.Core.List.{append_assoc}
use chain_master.Prelude.{
  ℕ, ◌<◌, ◌≡◌, ◌≢◌, refl, sym, ◌∙◌, inl, inr, arith, true, false, Option, none, some, List, [], ◌∷◌,
  ◌++◌, ltb, leb, if◌then◌else◌, u64_mod, subst, Bool-cases, All,
}
use chain_master.ForkId.{
  ForkId, FilterError, gather_forks, id_loop, new_id, entries, has_sum, match_past, decide,
  filter_loop, new_filter,
}

-- No entry has the sum.
abbrev pub Avoids : ℕ → List (ℕ × ℕ) → Type 0
Avoids hash [] = Unit
Avoids hash ((sum, fork) ∷ rest) = (sum ≢ hash) × Avoids hash rest

-- No two entries have the same sum.
abbrev pub Separate : List (ℕ × ℕ) → Type 0
Separate [] = Unit
Separate ((sum, fork) ∷ rest) = Avoids sum rest × Separate rest

Avoids-append :
    (hash : ℕ) (xs : List (ℕ × ℕ)) (sum fork : ℕ)
    → Avoids hash xs
    → sum ≢ hash
    → Avoids hash (xs ++ (sum, fork) ∷ [])
Avoids-append hash [] sum fork a h = (h, tt)
Avoids-append hash ((s, f) ∷ xs) sum fork a h = (a.0, Avoids-append hash xs sum fork a.1 h)

-- A search passes over the entries without the sum.
match_past-Avoids :
    (id : ForkId) (past future : List (ℕ × ℕ))
    → Avoids id.hash past
    → has_sum id.hash future ≡ true
    → match_past id past future ≡ none
unfolding match_past
match_past-Avoids id [] future a h = ground (arith, h)
match_past-Avoids id ((sum, fork) ∷ past) future a h =
    ground (arith, match_past-Avoids id past future a.1 h)

-- The first entry with the sum decides a search.
match_past-hit :
    (id : ForkId) (past more future : List (ℕ × ℕ))
    → Avoids id.hash past
    → match_past id (past ++ (id.hash, id.next) ∷ more) future ≡ none
unfolding match_past
match_past-hit id [] more future a = ground arith
match_past-hit id ((sum, fork) ∷ past) more future a =
    ground (arith, match_past-hit id past more future a.1)

-- A peer whose last fork is in the past and who announces the next one is accepted.
filter_loop-behind :
    (id : ForkId) (head : ℕ) (past more rest : List (ℕ × ℕ))
    → Avoids id.hash past
    → Avoids id.hash rest
    → filter_loop id head (past ++ (id.hash, id.next) ∷ more) rest ≡ none
unfolding filter_loop decide
filter_loop-behind id head past more [] a b = refl
filter_loop-behind id head past more ((sum, fork) ∷ rest) a b =
    let deeper = filter_loop-behind id head past (more ++ (sum, fork) ∷ []) rest a b.1 in
    ground (
      arith,
      b.0,
      deeper,
      append_assoc past ((id.hash, id.next) ∷ more) ((sum, fork) ∷ []),
      match_past-hit id past more rest a,
    )

-- The forks that the remote head has passed are below the local head, which is the next one.
abbrev pub ForksBelow : ℕ → ℕ → List ℕ → Type 0
ForksBelow remote head [] = ⊥
ForksBelow remote head (fork ∷ forks) =
    if leb fork remote then (fork < head) × ForksBelow remote head forks else fork ≡ head

filter_loop-later :
    (id : ForkId) (head : ℕ) (past : List (ℕ × ℕ)) (sum fork : ℕ) (rest : List (ℕ × ℕ))
    → ltb fork head ≡ true
    → filter_loop id head past ((sum, fork) ∷ rest)
      ≡ filter_loop id head (past ++ (sum, fork) ∷ []) rest
unfolding filter_loop
filter_loop-later id head past sum fork rest e = rw e refl

filter_loop-here :
    (id : ForkId) (head : ℕ) (past : List (ℕ × ℕ)) (sum fork : ℕ) (rest : List (ℕ × ℕ))
    → ltb fork head ≡ false
    → filter_loop id head past ((sum, fork) ∷ rest) ≡ decide id head past sum rest
unfolding filter_loop
filter_loop-here id head past sum fork rest e = rw e refl

module _ (update : ℕ → ℕ → ℕ) where
  id_loop-passed :
      (hash fork : ℕ) (forks : List ℕ) (remote : ℕ)
      → leb fork remote ≡ true
      → id_loop update hash (fork ∷ forks) remote ≡ id_loop update (update hash fork) forks remote
  unfolding id_loop
  id_loop-passed hash fork forks remote e = rw e refl

  id_loop-waiting :
      (hash fork : ℕ) (forks : List ℕ) (remote : ℕ)
      → leb fork remote ≡ false
      → id_loop update hash (fork ∷ forks) remote ≡ record { hash = hash; next = fork }
  unfolding id_loop
  id_loop-waiting hash fork forks remote e = rw e refl

  id_loop-has_sum :
      (hash : ℕ) (forks : List ℕ) (remote : ℕ)
      → has_sum (id_loop update hash forks remote).hash (entries update hash forks) ≡ true
  unfolding has_sum id_loop entries
  id_loop-has_sum hash [] remote = ground arith
  id_loop-has_sum hash (fork ∷ forks) remote =
      ground (arith, id_loop-has_sum (update hash fork) forks remote)

  id_loop-Avoids :
      (sum hash : ℕ) (forks : List ℕ) (remote : ℕ)
      → Avoids sum (entries update hash forks)
      → sum ≢ (id_loop update hash forks remote).hash
  unfolding id_loop entries
  id_loop-Avoids sum hash [] remote a = ground (arith, a.0)
  id_loop-Avoids sum hash (fork ∷ forks) remote a =
      ground (arith, a.0, id_loop-Avoids sum (update hash fork) forks remote a.1)

  -- Past all forks: both announce no fork.
  filter_loop-last :
      (past : List (ℕ × ℕ)) (hash head remote : ℕ)
      → head < u64_mod
      → filter_loop (id_loop update hash [] remote) head past (entries update hash []) ≡ none
  unfolding id_loop entries filter_loop decide
  filter_loop-last past hash head remote w = ground arith

  -- The local head is no fork block.
  filter_loop-peer :
      (past : List (ℕ × ℕ)) (hash : ℕ) (forks : List ℕ) (head remote : ℕ)
      → head < u64_mod
      → All (λ fork. head ≢ fork) forks
      → Separate (entries update hash forks)
      → Avoids (id_loop update hash forks remote).hash past
      → filter_loop (id_loop update hash forks remote) head past (entries update hash forks) ≡ none
  unfolding entries decide
  filter_loop-peer past hash [] head remote w n s a = filter_loop-last past hash head remote w
  filter_loop-peer past hash (fork ∷ forks) head remote w n s a =
      let future = entries update (update hash fork) forks in
      elim (Bool-cases (leb fork remote)) [
        | inl passed ↦
            let e = id_loop-passed hash fork forks remote passed in
            let id = id_loop update (update hash fork) forks remote in
            let other = id_loop-Avoids hash (update hash fork) forks remote s.0 in
            let before : Avoids id.hash past = subst (λ i. Avoids i.hash past) e a in
            let found =
              match_past-Avoids id past future before
                (id_loop-has_sum (update hash fork) forks remote) in
            let deeper =
              filter_loop-peer (past ++ (hash, fork) ∷ []) (update hash fork) forks head remote w
                n.1 s.1 (Avoids-append id.hash past hash fork before other) in
            subst (λ i. filter_loop i head past ((hash, fork) ∷ future) ≡ none) (sym e)
              (elim (Bool-cases (ltb fork head)) [
                | inl later ↦ filter_loop-later id head past hash fork future later ∙ deeper
                | inr here ↦
                    filter_loop-here id head past hash fork future here
                    ∙ ground (arith, other, found)
              ])
        | inr waiting ↦
            let e = id_loop-waiting hash fork forks remote waiting in
            let id : ForkId = record { hash = hash; next = fork } in
            let before : Avoids hash past = subst (λ i. Avoids i.hash past) e a in
            let behind = filter_loop-behind id head past [] future before s.0 in
            subst (λ i. filter_loop i head past ((hash, fork) ∷ future) ≡ none) (sym e)
              (elim (Bool-cases (ltb fork head)) [
                | inl later ↦ filter_loop-later id head past hash fork future later ∙ behind
                | inr here ↦
                    filter_loop-here id head past hash fork future here ∙ ground (arith, n.0)
              ])
      ]

  -- A local head that is a fork block, and a peer that has passed the same forks below it.
  filter_loop-at_fork :
      (past : List (ℕ × ℕ)) (hash : ℕ) (forks : List ℕ) (head remote : ℕ)
      → 0 < head
      → ForksBelow remote head forks
      → filter_loop (id_loop update hash forks remote) head past (entries update hash forks)
        ≡ some FilterError.local_incompatible_or_stale
  unfolding entries decide
  filter_loop-at_fork past hash [] head remote p b = absurd b
  filter_loop-at_fork past hash (fork ∷ forks) head remote p b =
      let future = entries update (update hash fork) forks in
      elim (Bool-cases (leb fork remote)) [
        | inl passed ↦
            let e = id_loop-passed hash fork forks remote passed in
            let id = id_loop update (update hash fork) forks remote in
            let (lower, below) : (fork < head) × ForksBelow remote head forks = rw passed at b in
            subst
              (λ i.
                filter_loop i head past ((hash, fork) ∷ future)
                ≡ some FilterError.local_incompatible_or_stale)
              (sym e)
              (filter_loop-later id head past hash fork future (ground (arith, lower))
                ∙ filter_loop-at_fork (past ++ (hash, fork) ∷ []) (update hash fork) forks head
                    remote p below)
        | inr waiting ↦
            let e = id_loop-waiting hash fork forks remote waiting in
            let id : ForkId = record { hash = hash; next = fork } in
            let same : fork ≡ head = rw waiting at b in
            subst
              (λ i.
                filter_loop i head past ((hash, fork) ∷ future)
                ≡ some FilterError.local_incompatible_or_stale)
              (sym e)
              (filter_loop-here id head past hash fork future (ground (arith, same))
                ∙ ground (arith, same, p))
      ]

-- Take one configuration, with separate checksums, and a local head that is a 64-bit word and no
-- fork block. The filter accepts the identifier of every node with this configuration, whatever its
-- head: one at the same fork, one that is behind and one that is ahead.
pub new_filter-peer :
    (update : ℕ → ℕ → ℕ) (config : List (Option ℕ)) (genesis head remote : ℕ)
    → head < u64_mod
    → All (λ fork. head ≢ fork) (gather_forks config)
    → Separate (entries update genesis (gather_forks config))
    → new_filter update config genesis head (new_id update config genesis remote) ≡ none
unfolding new_filter new_id
new_filter-peer update config genesis head remote w n s =
    filter_loop-peer update [] genesis (gather_forks config) head remote w n s tt

-- At a fork block the same filter refuses the node with the same configuration that has passed
-- every fork before that block and has not reached it yet, as an incompatible one.
pub new_filter-at_fork :
    (update : ℕ → ℕ → ℕ) (config : List (Option ℕ)) (genesis head remote : ℕ)
    → 0 < head
    → ForksBelow remote head (gather_forks config)
    → new_filter update config genesis head (new_id update config genesis remote)
      ≡ some FilterError.local_incompatible_or_stale
unfolding new_filter new_id
new_filter-at_fork update config genesis head remote p b =
    filter_loop-at_fork update [] genesis (gather_forks config) head remote p b
