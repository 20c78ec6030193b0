-- ===== src/Pool/Consistent.antt =====
-- What keeps the parts of the pool together: every transaction of `all` stands in one of the lists.
-- Transactions are counted by an arbitrary test, so that an order does not matter.
pub mod Tally
pub mod Indexed
pub mod Owned
pub mod Changes
pub mod Lists
pub mod Moves
pub mod Compose
pub mod Promote
pub mod Demote
pub mod Standing
pub mod Remove
pub mod Removal
pub mod Swap
pub mod Add
pub mod Entry
pub mod Overlap
pub mod Room
pub mod Batch
pub mod Kept
pub mod Renewed
pub mod PutBack
