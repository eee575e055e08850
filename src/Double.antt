-- ===== src/Double.antt =====
-- The arithmetic of `double` in dedup.c and progress.c, as IEEE 754 has it: every operation gives the
-- number with 53 significant bits that is nearest to the exact result, and of two such the even one.
-- A double is written as a number of units that it is a multiple of, 2^-52 or 2^-116.
pub mod Rounding
use dedup.Prelude.{ℕ, zero, suc, ◌+◌, ◌*◌, ◌/◌, ◌%◌, ◌^◌, ltb, if◌then◌else◌}

-- The whole number nearest to n / d.
unfoldable pub round_even : ℕ → ℕ → ℕ
round_even n d =
    let q = n / d in
    let r = n % d in if ltb (2 * r) d then q else if ltb d (2 * r) then q + 1 else q + q % 2

-- The number with 53 significant bits nearest to n / d: halved until it has no more, rounded, and
-- doubled as often. Numbers below 2^117 are halved 64 times at most.
unfoldable pub round_53 : ℕ → ℕ → ℕ → ℕ
unfolding round_even
round_53 zero n d = round_even n d
round_53 (suc rounds) n d =
    let rest = round_53 rounds n (2 * d) in if ltb n (d * 2 ^ 53) then round_even n d else 2 * rest
