-- ===== src/Chain/Headers/Invariant.antt =====
-- What holds of the database and the caches of a chain of headers between two calls.
use chain_master.Prelude.{
  ℕ, zero, suc, ◌+◌, ◌<◌, ◌≤◌, ◌≡◌, refl, sym, ap, ◌∙◌, inl, inr, arith, Option, none, some, ◌==◌,
  Bool-cases, u64_mod, subst,
}
use mathlib.Core.Option.{some-injective}
use chain_master.Chain.Store.{
  Header, ChainDb, hash_or_zero, read_canonical_hash, read_header, read_td,
}
use chain_master.Chain.Lru.{Lru}
use chain_master.Chain.Headers.{Caches, HeaderChain, before}

-- The canonical hash of a number, zero where there is none.
unfoldable pub canon : ChainDb → ℕ → ℕ
canon db n = hash_or_zero (db.canonical n)

-- A stored header of the number `n` and the hash `h`.
pub record IsStored (db : ChainDb) (n h : ℕ) (x : Header) : Type 0 where
  pub hash : x.hash ≡ h
  pub number : x.number ≡ n
  pub nonzero : 0 < h
  pub word : n + 1 < u64_mod
  pub indexed : db.numbers h ≡ some n
  pub weighed : (t : ℕ) × (db.tds n h ≡ some t)
  pub parent : (m : ℕ) → n ≡ suc m → (p : Header) × (db.headers m x.parent_hash ≡ some p)

-- Headers are stored with their ancestors down to the genesis block, whose hash is `g`, and with the
-- sums of their difficulties. Nothing is frozen.
pub record IsStore (g : ℕ) (db : ChainDb) : Type 0 where
  pub live : (n : ℕ) → db.ancient n ≡ none
  pub stored : (n h : ℕ) (x : Header) → db.headers n h ≡ some x → IsStored db n h x
  pub rooted : (h : ℕ) (x : Header) → db.headers 0 h ≡ some x → h ≡ g
  pub valued : (n h t : ℕ) → db.tds n h ≡ some t → (x : Header) × (db.headers n h ≡ some x)
  pub numbered : (n h : ℕ) → db.numbers h ≡ some n → (x : Header) × (db.headers n h ≡ some x)
  pub summed :
      (n h t p : ℕ) (x : Header)
      → db.headers (suc n) h ≡ some x
      → db.tds (suc n) h ≡ some t
      → db.tds n x.parent_hash ≡ some p
      → t ≡ x.difficulty + p

-- The hashes `f` up to a number lead from a stored header to its parent each.
abbrev pub Linked : (ℕ → ℕ → Option Header) → (ℕ → ℕ) → ℕ → Type 0
Linked headers f zero = (x : Header) × (headers 0 (f 0) ≡ some x)
Linked headers f (suc m) =
    ((x : Header) × (headers (suc m) (f (suc m)) ≡ some x) × (x.parent_hash ≡ f m))
    × Linked headers f m

module _ {hl : Lru Header} {nl : Lru ℕ} where
  -- The caches hold what the database holds.
  pub record IsCached (db : ChainDb) (c : Caches hl nl) : Type 0 where
    pub header :
        (h : ℕ) (x : Header) → hl.peek c.header_cache h ≡ some x → db.headers x.number h ≡ some x
    pub td : (h t : ℕ) → nl.peek c.td_cache h ≡ some t → (n : ℕ) × (db.tds n h ≡ some t)
    pub number :
        (h n : ℕ) → nl.peek c.number_cache h ≡ some n → (x : Header) × (db.headers n h ≡ some x)

  pub record IsChain (hc : HeaderChain hl nl) : Type 0 where
    pub store : IsStore hc.genesis.hash hc.db
    pub cached : IsCached hc.db hc.caches
    pub linked : Linked hc.db.headers (canon hc.db) hc.current.number
    pub above : (n : ℕ) → hc.current.number < n → canon hc.db n ≡ 0
    pub head : canon hc.db hc.current.number ≡ hc.current_hash
    pub pointed : hc.db.head_header ≡ some hc.current_hash
    pub current : hc.db.headers hc.current.number hc.current_hash ≡ some hc.current

pub before-suc : (n m : ℕ) → n ≡ suc m → n < u64_mod → before n ≡ m
unfolding before
before-suc n m e w = omega arith

module _ {g : ℕ} {db : ChainDb} (s : IsStore g db) where
  pub read_canonical_hash-canon : (n : ℕ) → read_canonical_hash db n ≡ canon db n
  unfolding read_canonical_hash canon
  read_canonical_hash-canon n = rw (s.live n, read_canonical_hash) refl

  pub read_header-live : (h n : ℕ) → read_header db h n ≡ db.headers n h
  unfolding read_header
  read_header-live h n = rw (s.live n, read_header) refl

  pub read_td-live : (h n : ℕ) → read_td db h n ≡ db.tds n h
  unfolding read_td
  read_td-live h n = rw (s.live n, read_td) refl

  -- A hash has one number.
  pub one_number :
      (n m h : ℕ) (x y : Header) → db.headers n h ≡ some x → db.headers m h ≡ some y → n ≡ m
  one_number n m h x y e f =
      some-injective _ _ (sym (s.stored n h x e).indexed ∙ (s.stored m h y f).indexed)

pub Linked-le :
    (headers : ℕ → ℕ → Option Header) (f : ℕ → ℕ) (m n : ℕ)
    → m ≤ n
    → Linked headers f n
    → Linked headers f m
Linked-le headers f zero zero h l = l
Linked-le headers f (suc m) zero h l = absurd (omega arith)
Linked-le headers f m (suc n) h l = elim (Bool-cases (m == suc n)) [
  | inl same ↦ let e : suc n ≡ m = ground (arith, same) in subst (Linked headers f) e l
  | inr less ↦ Linked-le headers f m n (ground (arith, less)) l.1
]

-- Linking needs the hashes up to the number only, and stays where more headers are stored.
pub Linked-cong :
    (headers headers' : ℕ → ℕ → Option Header) (f f' : ℕ → ℕ) (n : ℕ)
    → ((j h : ℕ) (x : Header) → j ≤ n → headers j h ≡ some x → headers' j h ≡ some x)
    → ((j : ℕ) → j ≤ n → f' j ≡ f j)
    → Linked headers f n
    → Linked headers' f' n
Linked-cong headers headers' f f' zero more same (x, at) =
    (x, ap (headers' 0) (same 0 (omega arith)) ∙ more 0 (f 0) x (omega arith) at)
Linked-cong headers headers' f f' (suc m) more same ((x, at, parent), rest) = (
  (
    x,
    ap (headers' (suc m)) (same (suc m) (omega arith))
        ∙ more (suc m) (f (suc m)) x (omega arith) at,
    parent ∙ sym (same m (omega arith)),
  ),
  Linked-cong headers headers' f f' m (λ j h y le. more j h y (omega (arith, le)))
      (λ j h. same j (omega (arith, h))) rest,
)

pub Linked-at :
    (headers : ℕ → ℕ → Option Header) (f : ℕ → ℕ) (n : ℕ)
    → Linked headers f n
    → (x : Header) × (headers n (f n) ≡ some x)
Linked-at headers f zero l = l
Linked-at headers f (suc n) l = (l.0.0, l.0.1)

-- A positive number has a predecessor.
pub suc_of : (n : ℕ) → 0 < n → (m : ℕ) × (n ≡ suc m)
suc_of zero h = absurd (omega arith)
suc_of (suc m) h = (m, refl)
