-- ===== src/Double.antt =====
-- The JavaScript numbers that the payouts and the displays compute with: non-negative binary64.
-- A double is the number of units of 2^-1074 (the least subnormal) that it stands for, so each
-- finite double is a natural number; overflow to Infinity (from 2^1024 on) is not modelled.
pub mod Rounding
pub mod Exact
pub mod Percent
mod Tests
use solounlucky.Prelude.{ℕ, zero, suc, ◌+◌, ◌-◌, ◌*◌, ◌/◌, ◌%◌, ◌^◌, ltb, ◌==◌, if◌then◌else◌}

-- The value 1.
unfoldable pub scale : ℕ
scale = 2 ^ 1074

-- The spacing of the doubles next to num / den: the least power of two whose 2^53rd multiple is
-- above. Starting at q, it doubles at most `fuel` times.
unfoldable pub ulp_from : (fuel num den q : ℕ) → ℕ
ulp_from zero num den q = q
ulp_from (suc fuel) num den q =
    let wider = ulp_from fuel num den (2 * q) in if ltb num (2 ^ 53 * q * den) then q else wider

unfoldable pub ulp : ℕ → ℕ → ℕ
ulp num den = ulp_from num num den 1

-- The multiple of q nearest to num / den; a tie goes to the even multiple.
unfoldable pub nearest : (num den q : ℕ) → ℕ
nearest num den q =
    let step = q * den in
    let m = num / step in
    let r = num % step in
    if ltb (2 * r) step
    then m * q
    else if ltb step (2 * r)
    then (m + 1) * q
    else if m % 2 == 0
    then m * q
    else (m + 1) * q

-- The double nearest to num / den units.
unfoldable pub round : ℕ → ℕ → ℕ
round num den = nearest num den (ulp num den)

unfoldable pub of_ℕ : ℕ → ℕ
of_ℕ n = round (n * scale) 1

-- A decimal literal num / den of the source.
unfoldable pub literal : ℕ → ℕ → ℕ
literal num den = round (num * scale) den

unfoldable pub add : ℕ → ℕ → ℕ
add a b = round (a + b) 1

-- a - b for b ≤ a: the model has no negative doubles, and gives 0 there.
unfoldable pub sub : ℕ → ℕ → ℕ
sub a b = round (a - b) 1

unfoldable pub mul : ℕ → ℕ → ℕ
mul a b = round (a * b) scale

-- a / b for a positive b.
unfoldable pub div : ℕ → ℕ → ℕ
div a b = round (a * scale) b

-- `Math.floor`, as a natural number.
unfoldable pub floor : ℕ → ℕ
floor a = a / scale

-- What a test by evaluation unfolds.
unfoldable pub arithmetic : Unit {0}
unfolding scale ulp_from ulp nearest round of_ℕ literal add sub mul div floor
arithmetic = tt
