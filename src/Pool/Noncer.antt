-- ===== src/Pool/Noncer.antt =====
-- tx_noncer.go: the nonces of the pending transactions, with the nonces of a state behind them. Each
-- operation holds the lock from its start to its end, so it is one step.
use chain_master.Prelude.{
  ℕ, ◌≡◌, refl, ap, ◌∙◌, inl, inr, arith, Option, none, some, List, [], ◌∷◌, leb, ◌==◌,
  if◌then◌else◌, Option-cases, Bool-cases,
}
use chain_master.Prelude.GoMap.{GoMap, lookup, insert, lookup-insert}

pub record TxNoncer : Type 0 where
  -- `GetNonce` of the copied state.
  pub fallback : ℕ → ℕ
  pub nonces : GoMap ℕ

unfoldable pub new_tx_noncer : (ℕ → ℕ) → TxNoncer
new_tx_noncer state = record { fallback = state; nonces = [] }

-- The nonce of the map, which is first read from the state where it is missing.
unfoldable pub load : TxNoncer → ℕ → ℕ × TxNoncer
load n addr = elim (lookup addr n.nonces) [
  | some nonce ↦ (nonce, n)
  | none ↦ (n.fallback addr, record n { nonces = insert addr (n.fallback addr) n.nonces })
]

unfoldable pub get : TxNoncer → ℕ → ℕ × TxNoncer
get n addr = load n addr

unfoldable pub set : TxNoncer → ℕ → ℕ → TxNoncer
set n addr nonce = record n { nonces = insert addr nonce n.nonces }

unfoldable pub set_if_lower : TxNoncer → ℕ → ℕ → TxNoncer
set_if_lower n addr nonce =
    let (current, n') = load n addr in if leb current nonce then n' else set n' addr nonce

-- A call of one of the operations.
pub data Call : Type 0 where
  getting : ℕ → Call
  setting : ℕ → ℕ → Call
  lowering : ℕ → ℕ → Call

-- The results of the `get`s in a sequence of calls.
unfoldable pub run : List Call → TxNoncer → List ℕ
run [] n = []
run (Call.getting a ∷ calls) n = let (nonce, n') = get n a in nonce ∷ run calls n'
run (Call.setting a k ∷ calls) n = run calls (set n a k)
run (Call.lowering a k ∷ calls) n = run calls (set_if_lower n a k)

-- The same calls on a function from addresses to nonces.
abbrev put_at : ℕ → ℕ → (ℕ → ℕ) → ℕ → ℕ
put_at a k f b = if a == b then k else f b

abbrev smaller : ℕ → ℕ → ℕ
smaller n k = if leb n k then n else k

abbrev pub ideal_run : List Call → (ℕ → ℕ) → List ℕ
ideal_run [] f = []
ideal_run (Call.getting a ∷ calls) f = f a ∷ ideal_run calls f
ideal_run (Call.setting a k ∷ calls) f = ideal_run calls (put_at a k f)
ideal_run (Call.lowering a k ∷ calls) f = ideal_run calls (put_at a (smaller (f a) k) f)

-- The nonce that a reader sees.
abbrev or_else : Option ℕ → ℕ → ℕ
or_else none d = d
or_else (some n) d = n

abbrev view : TxNoncer → ℕ → ℕ
view n a = or_else (lookup a n.nonces) (n.fallback a)

load-view : (n : TxNoncer) (a b : ℕ) → ((load n a).0 ≡ view n a) × (view (load n a).1 b ≡ view n b)
unfolding load
load-view n a b = elim (Option-cases (lookup a n.nonces)) [
  | inl missing ↦
      rw (missing, load) (refl, ground (arith, lookup-insert a b (n.fallback a) n.nonces, missing))
  | inr (k, there) ↦ rw (there, load) (refl, refl)
]

set-view : (n : TxNoncer) (a b k : ℕ) → view (set n a k) b ≡ put_at a k (view n) b
unfolding set
set-view n a b k = ground (arith, lookup-insert a b k n.nonces)

set_if_lower-view :
    (n : TxNoncer) (a b k : ℕ)
    → view (set_if_lower n a k) b ≡ put_at a (smaller (view n a) k) (view n) b
unfolding set_if_lower
set_if_lower-view n a b k =
    let (now, same) = load-view n a b in
    let stored = set-view (load n a).1 a b k in
    elim (Bool-cases (leb (load n a).0 k)) [
      | inl low ↦ rw low (ground (arith, now, same, low))
      | inr high ↦ rw high (stored ∙ ground (arith, now, same, high))
    ]

-- A function decides the results of all calls on it.
ideal_run-ext :
    (calls : List Call) (f g : ℕ → ℕ)
    → ((a : ℕ) → f a ≡ g a)
    → ideal_run calls f ≡ ideal_run calls g
ideal_run-ext [] f g h = refl
ideal_run-ext (Call.getting a ∷ calls) f g h = rw (h a, ideal_run-ext calls f g h) refl
ideal_run-ext (Call.setting a k ∷ calls) f g h = ideal_run-ext calls _ _ (λ b. ground (arith, h b))
ideal_run-ext (Call.lowering a k ∷ calls) f g h =
    ideal_run-ext calls _ _ (λ b. ground (arith, h a, h b))

run-view : (calls : List Call) (n : TxNoncer) → run calls n ≡ ideal_run calls (view n)
unfolding run get
run-view [] n = refl
run-view (Call.getting a ∷ calls) n =
    rw ((load-view n a a).0, run-view calls (load n a).1)
      (ap (◌∷◌ (view n a)) (ideal_run-ext calls _ _ (λ b. (load-view n a b).1)))
run-view (Call.setting a k ∷ calls) n =
    run-view calls (set n a k) ∙ ideal_run-ext calls _ _ (λ b. set-view n a b k)
run-view (Call.lowering a k ∷ calls) n =
    run-view calls (set_if_lower n a k) ∙ ideal_run-ext calls _ _ (λ b. set_if_lower-view n a b k)

-- Any sequence of calls on a new noncer reads what it would read from a function that starts as
-- the nonces of the state: the map of what was read before is never seen.
pub run-ideal :
    (calls : List Call) (state : ℕ → ℕ) → run calls (new_tx_noncer state) ≡ ideal_run calls state
unfolding new_tx_noncer
run-ideal calls state = run-view calls (new_tx_noncer state)
