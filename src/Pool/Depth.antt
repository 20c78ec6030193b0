-- ===== src/Pool/Depth.antt =====
-- The depth of a reorganisation in tx_pool.go, which the code computes on `float64`.
use chain_master.Prelude.{ℕ, zero, suc, ◌+◌, ◌-◌, ◌*◌, ◌/◌, ◌%◌, ◌^◌, ltb, ◌==◌, if◌then◌else◌}

-- The quotient by `2 ^ e`, rounded to the nearest, ties to even.
unfoldable pub round_quotient : ℕ → ℕ → ℕ
round_quotient n e =
    let quotient = n / 2 ^ e in
    let rest = 2 * (n % 2 ^ e) in
    if ltb rest (2 ^ e)
    then quotient
    else if ltb (2 ^ e) rest
    then quotient + 1
    else quotient + quotient % 2

-- The number of low bits that 53 bits leave out, at most the rounds left and `e`.
unfoldable pub spare_bits : ℕ → ℕ → ℕ → ℕ
spare_bits zero n e = e
spare_bits (suc k) n e =
    let more = spare_bits k n (e + 1) in if ltb n (2 ^ (53 + e)) then e else more

-- `float64` of a `uint64`.
unfoldable pub to_float : ℕ → ℕ
unfolding round_quotient spare_bits
to_float n = let e = spare_bits 11 n 0 in if e == 0 then n else round_quotient n e * 2 ^ e

-- `uint64(math.Abs(float64(a) - float64(b)))`; the difference is rounded again.
unfoldable pub depth : ℕ → ℕ → ℕ
unfolding to_float
depth a b = let x = to_float a in let y = to_float b in to_float (if ltb x y then y - x else x - y)
