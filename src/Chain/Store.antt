-- ===== src/Chain/Store.antt =====
-- accessors_chain.go: canonical hashes, headers, their numbers and total difficulties. The database is
-- a map for each kind of key, which the prefixes and lengths of schema.go keep apart; the values are
-- those that RLP encodes. The ancient store is read first, and nothing writes to it here.
use chain_master.Prelude.{ℕ, Bool, true, false, ◌&&◌, Option, none, some, ◌==◌, if◌then◌else◌}

-- The fields of a header that the chain reads, with its hash. The hash of no header is zero.
pub record Header : Type 0 where
  pub hash : ℕ
  pub parent_hash : ℕ
  pub number : ℕ
  pub difficulty : ℕ

-- A frozen block.
pub record Ancient : Type 0 where
  pub hash : ℕ
  pub header : Header
  pub td : ℕ

pub record ChainDb : Type 0 where
  pub ancient : ℕ → Option Ancient
  -- By number.
  pub canonical : ℕ → Option ℕ
  -- By number and hash.
  pub headers : ℕ → ℕ → Option Header
  pub tds : ℕ → ℕ → Option ℕ
  -- By hash.
  pub numbers : ℕ → Option ℕ
  pub head_header : Option ℕ
  pub head_block : Option ℕ

-- `Put` and `Delete` of a key of one number.
abbrev pub update {ℓ} : {A : Type ℓ} → (ℕ → A) → ℕ → A → ℕ → A
update f k a j = if k == j then a else f j

abbrev pub update₂ {ℓ} : {A : Type ℓ} → (ℕ → ℕ → A) → ℕ → ℕ → A → ℕ → ℕ → A
update₂ f k h a j i = if k == j && h == i then a else f j i

-- `Hash{}`, where the hash is missing.
unfoldable pub hash_or_zero : Option ℕ → ℕ
hash_or_zero none = 0
hash_or_zero (some hash) = hash

unfoldable pub read_canonical_hash : ChainDb → ℕ → ℕ
unfolding hash_or_zero
read_canonical_hash db number = elim (db.ancient number) [
  | some frozen ↦ frozen.hash
  | none ↦ hash_or_zero (db.canonical number)
]

unfoldable pub read_header : ChainDb → ℕ → ℕ → Option Header
read_header db hash number = elim (db.ancient number) [
  | none ↦ db.headers number hash
  | some frozen ↦ if frozen.header.hash == hash then some frozen.header else db.headers number hash
]

unfoldable pub has_header : ChainDb → ℕ → ℕ → Bool
has_header db hash number = elim (db.ancient number) [
  | none ↦ elim (db.headers number hash) [ none ↦ false | some header ↦ true ]
  | some frozen ↦
      if frozen.hash == hash
      then true
      else elim (db.headers number hash) [ none ↦ false | some header ↦ true ]
]

unfoldable pub read_td : ChainDb → ℕ → ℕ → Option ℕ
read_td db hash number = elim (db.ancient number) [
  | none ↦ db.tds number hash
  | some frozen ↦ if frozen.hash == hash then some frozen.td else db.tds number hash
]

unfoldable pub read_header_number : ChainDb → ℕ → Option ℕ
read_header_number db hash = db.numbers hash

unfoldable pub read_head_header_hash : ChainDb → ℕ
unfolding hash_or_zero
read_head_header_hash db = hash_or_zero db.head_header

unfoldable pub read_head_block_hash : ChainDb → ℕ
unfolding hash_or_zero
read_head_block_hash db = hash_or_zero db.head_block

unfoldable pub write_head_block_hash : ChainDb → ℕ → ChainDb
write_head_block_hash db hash = record db { head_block = some hash }

unfoldable pub write_canonical_hash : ChainDb → ℕ → ℕ → ChainDb
write_canonical_hash db hash number = record db {
  canonical = update db.canonical number (some hash);
}

unfoldable pub delete_canonical_hash : ChainDb → ℕ → ChainDb
delete_canonical_hash db number = record db { canonical = update db.canonical number none }

unfoldable pub write_header_number : ChainDb → ℕ → ℕ → ChainDb
write_header_number db hash number = record db { numbers = update db.numbers hash (some number) }

unfoldable pub write_head_header_hash : ChainDb → ℕ → ChainDb
write_head_header_hash db hash = record db { head_header = some hash }

unfoldable pub write_header : ChainDb → Header → ChainDb
unfolding write_header_number
write_header db header =
    let db' = write_header_number db header.hash header.number in
    record db' { headers = update₂ db'.headers header.number header.hash (some header) }

unfoldable pub delete_header : ChainDb → ℕ → ℕ → ChainDb
delete_header db hash number = record db {
  headers = update₂ db.headers number hash none;
  numbers = update db.numbers hash none;
}

unfoldable pub write_td : ChainDb → ℕ → ℕ → ℕ → ChainDb
write_td db hash number td = record db { tds = update₂ db.tds number hash (some td) }

unfoldable pub delete_td : ChainDb → ℕ → ℕ → ChainDb
delete_td db hash number = record db { tds = update₂ db.tds number hash none }
