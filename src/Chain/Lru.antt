-- ===== src/Chain/Lru.antt =====
-- The cache of the package golang-lru, which the repository does not hold, as a parameter.
use chain_master.Prelude.{ℕ, ◌≡◌, ◌≢◌, Bool, true, Option, none, some}

pub record Lru (V : Type 0) : Type 1 where
  pub Cache : Type 0
  pub get : Cache → ℕ → Option V × Cache
  pub peek : Cache → ℕ → Option V
  pub add : Cache → ℕ → V → Cache
  pub contains : Cache → ℕ → Bool
  pub purge : Cache → Cache

-- What its documentation says: `Get` finds what `Peek` does and takes nothing out; `Add` may take out
-- other keys, and what is there afterwards is new or was there before.
pub record IsLru {V : Type 0} (l : Lru V) : Type 0 where
  pub get-peek : (c : l.Cache) (k : ℕ) → (l.get c k).0 ≡ l.peek c k
  pub peek-get : (c : l.Cache) (k j : ℕ) → l.peek (l.get c k).1 j ≡ l.peek c j
  pub peek-add_self : (c : l.Cache) (k : ℕ) (v w : V) → l.peek (l.add c k v) k ≡ some w → w ≡ v
  pub peek-add_other :
      (c : l.Cache) (k j : ℕ) (v w : V)
      → k ≢ j
      → l.peek (l.add c k v) j ≡ some w
      → l.peek c j ≡ some w
  pub contains-peek :
      (c : l.Cache) (k : ℕ) → l.contains c k ≡ true → (v : V) × (l.peek c k ≡ some v)
  pub peek-purge : (c : l.Cache) (k : ℕ) → l.peek (l.purge c) k ≡ none
