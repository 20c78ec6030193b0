-- ===== src/Pool.antt =====
-- The transaction pool of the package core: transactions by nonce, by account and by hash.
pub mod Tx
pub mod SortedMap
pub mod TxList
pub mod Noncer
pub mod Lookup
pub mod Accounts
pub mod Priced
pub mod State
pub mod Moves
pub mod Admit
pub mod Reorg
pub mod Truncate
pub mod Events
pub mod Depth
pub mod Reset
pub mod Schedule
pub mod Journal
pub mod Views
pub mod Errors
pub mod Valid
pub mod Walk
pub mod Consistent
mod Tests
mod Examples
