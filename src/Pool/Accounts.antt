-- ===== src/Pool/Accounts.antt =====
-- accountSet of tx_pool.go: a set of addresses with a cached list of them.
pub mod Members
use chain_master.Prelude.{
  ℕ, Bool, true, false, Option, none, some, List, [], ◌∷◌, ◌==◌, if◌then◌else◌,
}
use chain_master.Pool.Tx.{Tx}

pub record AccountSet : Type 0 where
  pub accounts : List ℕ
  pub cache : Option (List ℕ)

unfoldable pub new_account_set : AccountSet
new_account_set = record { accounts = []; cache = none }

-- `m[addr] = struct{}{}` on a map that is a set of addresses.
unfoldable pub has_address : ℕ → List ℕ → Bool
has_address addr [] = false
has_address addr (a ∷ others) = if a == addr then true else has_address addr others

unfoldable pub insert_address : ℕ → List ℕ → List ℕ
insert_address addr others = if has_address addr others then others else addr ∷ others

unfoldable pub contains : AccountSet → ℕ → Bool
contains s addr = has_address addr s.accounts

unfoldable pub contains_tx : AccountSet → Tx → Bool
contains_tx s tx = elim tx.sender [ none ↦ false | some addr ↦ contains s addr ]

unfoldable pub add : AccountSet → ℕ → AccountSet
add s addr = record { accounts = insert_address addr s.accounts; cache = none }

unfoldable pub add_tx : AccountSet → Tx → AccountSet
add_tx s tx = elim tx.sender [ none ↦ s | some addr ↦ add s addr ]

unfoldable pub flatten : AccountSet → List ℕ × AccountSet
flatten s = elim s.cache [
  | some others ↦ (others, s)
  | none ↦ (s.accounts, record s { cache = some s.accounts })
]

unfoldable pub insert_all : List ℕ → List ℕ → List ℕ
insert_all [] others = others
insert_all (addr ∷ addrs) others = insert_all addrs (insert_address addr others)

unfoldable pub merge : AccountSet → AccountSet → AccountSet
merge s other = record { accounts = insert_all other.accounts s.accounts; cache = none }
