-- ===== src/Pool/Lookup.antt =====
-- txLookup of tx_pool.go: all transactions of the pool by hash, with the number of slots that they
-- take. The sizes are whole numbers of bytes, so dividing them by 2 ^ 15 rounds down as it does here. Each operation holds the lock from its start to its end.
use chain_master.Prelude.{
  ℕ, ◌+◌, ◌-◌, ◌/◌, ◌≡◌, refl, arith, Option, none, some, List, [], ◌∷◌, ◌==◌, if◌then◌else◌,
  length,
}
use chain_master.Prelude.GoMap.{
  GoMap, lookup, insert, delete, values, Distinct, insert-Distinct, delete-Distinct, lookup-delete,
  lookup-insert,
}
use chain_master.Pool.Tx.{Tx}

pub record TxLookup : Type 0 where
  pub all : GoMap Tx
  pub slots : ℕ

unfoldable pub new_tx_lookup : TxLookup
new_tx_lookup = record { all = []; slots = 0 }

-- The slots of 32 KB that a transaction takes.
unfoldable pub num_slots : Tx → ℕ
num_slots tx = (tx.size + 32768 - 1) / 32768

unfoldable pub get : TxLookup → ℕ → Option Tx
get t hash = lookup hash t.all

unfoldable pub count : TxLookup → ℕ
count t = length t.all

unfoldable pub add : TxLookup → Tx → TxLookup
add t tx = record { all = insert tx.hash tx t.all; slots = t.slots + num_slots tx }

-- `none` where the hash is missing: the size of a nil transaction is asked for.
unfoldable pub remove : TxLookup → ℕ → Option TxLookup
remove t hash = elim (lookup hash t.all) [
  | none ↦ none
  | some tx ↦ some (record { all = delete hash t.all; slots = t.slots - num_slots tx })
]

abbrev pub total : List Tx → ℕ
total [] = 0
total (tx ∷ txs) = num_slots tx + total txs

-- The slots are those of the transactions, and no hash is there twice.
pub record IsCounted (t : TxLookup) : Type 0 where
  pub distinct : Distinct t.all
  pub counted : t.slots ≡ total (values t.all)

-- A new lookup counts no slots.
pub new_tx_lookup-IsCounted : IsCounted new_tx_lookup
unfolding new_tx_lookup
new_tx_lookup-IsCounted = record { distinct = tt; counted = refl }

total-insert :
    (hash : ℕ) (tx : Tx) (m : GoMap Tx)
    → lookup hash m ≡ none
    → total (values (insert hash tx m)) ≡ total (values m) + num_slots tx
total-insert hash tx [] e = omega arith
total-insert hash tx ((h, x) ∷ m) e = ground (arith, total-insert hash tx m)

total-delete :
    (hash : ℕ) (tx : Tx) (m : GoMap Tx)
    → lookup hash m ≡ some tx
    → total (values m) ≡ total (values (delete hash m)) + num_slots tx
total-delete hash tx [] e = ground arith
total-delete hash tx ((h, x) ∷ m) e = ground (arith, total-delete hash tx m)

-- Adding a transaction with a new hash keeps the count of the slots exact, makes the hash lead to
-- it, and changes no other hash.
pub add-IsCounted :
    (t : TxLookup) (tx : Tx)
    → IsCounted t
    → get t tx.hash ≡ none
    → IsCounted (add t tx)
      × ((hash : ℕ) → get (add t tx) hash ≡ (if tx.hash == hash then some tx else get t hash))
unfolding add get
add-IsCounted t tx c e = (
  record {
    distinct = insert-Distinct tx.hash tx t.all c.distinct;
    counted = omega (arith, c.counted, total-insert tx.hash tx t.all e);
  },
  λ hash. lookup-insert tx.hash hash tx t.all,
)

-- Removing the hash of a stored transaction does not fail, keeps the count of the slots exact, and
-- takes out that hash and no other.
pub remove-IsCounted :
    (t : TxLookup) (tx : Tx) (hash : ℕ)
    → IsCounted t
    → get t hash ≡ some tx
    → (t' : TxLookup) × (remove t hash ≡ some t')
      × IsCounted t'
      × (t'.slots + num_slots tx ≡ t.slots)
      × ((k : ℕ) → get t' k ≡ (if hash == k then none else get t k))
unfolding remove get
remove-IsCounted t tx hash c e =
    let at : lookup hash t.all ≡ some tx = e in
    let gone = total-delete hash tx t.all at in
    (
      record { all = delete hash t.all; slots = t.slots - num_slots tx },
      rw (at, remove) refl,
      record {
        distinct = delete-Distinct hash t.all c.distinct;
        counted = omega (arith, c.counted, gone);
      },
      omega (arith, c.counted, gone),
      λ k. lookup-delete hash k t.all c.distinct,
    )
