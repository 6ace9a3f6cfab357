-- ===== src/Double/Exact.antt =====
-- Where the arithmetic of doubles (Double.antt) is the arithmetic of whole numbers.
use native.Mathlib.Nat.{div-eq_of_lt-le, mul-le-mul, mul-le-mul_right, le_refl}
use native.Mathlib.Decide.{dec_lt}
use solounlucky.Prelude.{ℕ, ◌+◌, ◌-◌, ◌*◌, ◌^◌, ◌≤◌, ◌<◌, ◌≡◌, ap, ◌⊎◌, arith}
use solounlucky.Double.{round, scale, of_ℕ, add, sub, floor}
use solounlucky.Double.Rounding.{le-round, round-le, round_error}

-- 1 is far above the least double.
pub scale_large : 2 ^ 60 < scale
unfolding scale
scale_large = omega arith

pos_of_den : (den : ℕ) → 0 < den → 0 < scale * den
pos_of_den den d = grind (arith, scale_large)

-- A whole number below 2^53 is not rounded.
pub round_whole :
    (num den c : ℕ) → 0 < den → c < 2 ^ 53 → num ≡ c * (scale * den) → round num den ≡ c * scale
round_whole num den c d small e =
    let pos = pos_of_den den d in
    let bound : num < 2 ^ 53 * (scale * den) =
      omega (arith, e, mul-le-mul small (le_refl (scale * den))) in
    omega (
      arith,
      le-round num den c d bound (omega (arith, e)),
      round-le num den c d bound (omega (arith, e)),
    )

pub of_ℕ_whole : (n : ℕ) → n < 2 ^ 53 → of_ℕ n ≡ n * scale
unfolding of_ℕ
of_ℕ_whole n h = round_whole (n * scale) 1 n (omega arith) h (omega arith)

below_of_error :
    (num den r n : ℕ)
    → (2 ^ 53 + 1) * num < 2 ^ 53 * ((n + 1) * (scale * den))
    → 2 * num + den < 2 * ((n + 1) * (scale * den))
    → (2 ^ 53 * (r * den) ≤ (2 ^ 53 + 1) * num) ⊎ (2 * (r * den) ≤ 2 * num + den)
    → r < (n + 1) * scale
below_of_error num den r n high least error = elim (dec_lt r ((n + 1) * scale)) [
  | yes below ↦ below
  | no above ↦
      let far : (n + 1) * scale ≤ r = omega arith in
      absurd (omega (arith, mul-le-mul_right den far))
]

-- Rounding a quotient does not carry it up to the next whole number, if the quotient keeps a
-- relative distance of 2^-53 from it.
pub floor-round :
    (num den n : ℕ)
    → 0 < den
    → num < 2 ^ 53 * (scale * den)
    → n * (scale * den) ≤ num
    → (2 ^ 53 + 1) * num < 2 ^ 53 * ((n + 1) * (scale * den))
    → 2 * num + den < 2 * ((n + 1) * (scale * den))
    → floor (round num den) ≡ n
unfolding floor
floor-round num den n d bound low high least =
    let r = round num den in
    let below = below_of_error num den r n high least (round_error num den d) in
    div-eq_of_lt-le scale (le-round num den n d bound low) below

-- Sums and differences of whole numbers below 2^53 are not rounded.
pub add_whole : (a b : ℕ) → a + b < 2 ^ 53 → add (a * scale) (b * scale) ≡ (a + b) * scale
unfolding add
add_whole a b h = round_whole (a * scale + b * scale) 1 (a + b) (omega arith) h (omega arith)

pub sub_whole : (a b : ℕ) → b ≤ a → a < 2 ^ 53 → sub (a * scale) (b * scale) ≡ (a - b) * scale
unfolding sub
sub_whole a b le h =
    let e : a - b + b ≡ a = omega arith in
    round_whole (a * scale - b * scale) 1 (a - b) (omega arith) (omega arith)
      (omega (arith, ap (λ (k : ℕ). k * scale) e))
