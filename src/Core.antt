-- ===== src/Core.antt =====
-- The package core: what a transaction does to the world state, and the gas accounting of a block.
pub mod Run
pub mod Params
pub mod GasPool
pub mod Intrinsic
pub mod World
pub mod Transition
pub mod GasLimit
pub mod Processor
mod Tests
