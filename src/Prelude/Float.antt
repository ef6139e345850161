-- ===== src/Prelude/Float.antt =====
-- float64 as far as quotients of integers go: rounding to 53 bits, to the nearest and ties to even, of
-- natural numbers that lie far below the largest float64.
pub mod Laws
use wordotron_api.Prelude.{ℕ, zero, suc, ◌+◌, ◌-◌, ◌*◌, ◌/◌, ◌%◌, ◌^◌, ltb, if◌then◌else◌}

-- The integer next to a / b; of two that are equally near, the even one.
abbrev pub round_div : ℕ → ℕ → ℕ
round_div a b =
    let q = a / b in
    let r = a % b in if ltb (2 * r) b then q else if ltb b (2 * r) then q + 1 else q + q % 2

-- a / b from 2 ^ 53 on, rounded to a multiple of the least power of two that leaves 53 bits: `unit` is
-- doubled until then.
abbrev pub round_large : ℕ → ℕ → ℕ → ℕ → ℕ
round_large zero a b unit = round_div a (b * unit) * unit
round_large (suc k) a b unit =
    let wider = round_large k a b (2 * unit) in
    if ltb a (2 ^ 53 * (b * unit)) then round_div a (b * unit) * unit else wider

-- float64(n) for an int64
unfoldable pub float64 : ℕ → ℕ
float64 n = if ltb n (2 ^ 53) then n else round_large 11 n 1 1

-- The least integer that is not below m / unit.
abbrev pub ceil_div : ℕ → ℕ → ℕ
ceil_div m unit = (m + unit - 1) / unit

-- The ceiling of a / b rounded to 53 bits: `a` and `unit` are doubled until the quotient has 53.
abbrev pub ceil_small : ℕ → ℕ → ℕ → ℕ → ℕ
ceil_small zero a b unit = ceil_div (round_div a b) unit
ceil_small (suc k) a b unit =
    let finer = ceil_small k (2 * a) b (2 * unit) in
    if ltb a (2 ^ 52 * b) then finer else ceil_div (round_div a b) unit

-- math.Ceil(x / y) of two integers as float64, both below 2 ^ 64. The quotient has 53 bits after at
-- most 116 doublings, unless it is 0, or after at most 11 of the unit.
unfoldable pub ceil_quotient : ℕ → ℕ → ℕ
ceil_quotient x y = if ltb x (2 ^ 53 * y) then ceil_small 116 x y 1 else round_large 11 x y 1
