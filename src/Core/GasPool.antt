-- ===== src/Core/GasPool.antt =====
-- gaspool.go: the gas that is left to the transactions of a block, a `uint64`.
use chain_master.Prelude.{ℕ, ◌+◌, ◌-◌, ◌%◌, ltb, if◌then◌else◌, u64_mod}
use chain_master.Core.Run.{gas_limit_reached, Run, ok, err, panic}

-- Panics when the pool would pass the largest `uint64`.
unfoldable pub add_gas : ℕ → ℕ → Run ℕ
add_gas gp amount = if ltb (u64_mod - 1 - amount) gp then panic else ok ((gp + amount) % u64_mod)

unfoldable pub sub_gas : ℕ → ℕ → Run ℕ
sub_gas gp amount =
    if ltb gp amount then err gas_limit_reached else ok ((gp + u64_mod - amount) % u64_mod)
