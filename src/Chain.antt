-- ===== src/Chain.antt =====
-- The chain of headers of the package core, over the typed accessors of the package rawdb.
pub mod Store
pub mod Lru
pub mod Headers
pub mod Ancestors
pub mod Import
pub mod Rewind
mod Three
mod Tests
