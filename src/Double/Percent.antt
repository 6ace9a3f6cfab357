-- ===== src/Double/Percent.antt =====
-- The floor of a product with a decimal literal, and of a quotient of whole numbers (Double.antt).
use native.Mathlib.Nat.{
  div-add-mod, mod-lt, mul-le-mul, mul-le-mul_right, le_of_mul-le-mul_left, le_of_mul-le-mul_right,
  le_refl, div-le_self,
}
use solounlucky.Prelude.{ℕ, ◌+◌, ◌*◌, ◌/◌, ◌^◌, ◌≤◌, ◌<◌, ◌≡◌, ap, arith}
use solounlucky.Double.{round, scale, of_ℕ, literal, mul, div, floor}
use solounlucky.Double.Exact.{scale_large, of_ℕ_whole, floor-round}

lt_of_mul_left : (k m n : ℕ) → k * m < k * n → m < n
lt_of_mul_left k m n h = grind arith

-- The bounds of t * L between the multiples of s, where L is a little above a / b of s.
module _ (a b t l s : ℕ) (pos : 0 < b) (low : a * s ≤ b * l)
    (high : 2 ^ 53 * (b * l) ≤ (2 ^ 53 + 1) * (a * s)) where
  product_low : t * a / b * (s * s) ≤ t * s * l
  product_low =
      le_of_mul-le-mul_left {k = b}
        (omega (
          arith,
          mul-le-mul_right (t * s) low,
          ap (λ (k : ℕ). k * (s * s)) (div-add-mod (t * a) b),
        ))
        pos

  product_high :
      0 < s * s
      → (2 ^ 54 + 1) * (a * t) < 2 ^ 106
      → (2 ^ 53 + 1) * (t * s * l) < 2 ^ 53 * ((t * a / b + 1) * (s * s))
  product_high p size = lt_of_mul_left (2 ^ 53 * b) _ _ (
      omega (
        arith,
        p,
        mul-le-mul_right (t * s) high,
        mul-le-mul_right (s * s) size,
        mul-le-mul_right (s * s) (mod-lt (t * a) pos),
        ap (λ (k : ℕ). k * (s * s)) (div-add-mod (t * a) b),
      ))

-- n / d for whole numbers: what separates it from the next whole number.
quotient_high :
    (n d s : ℕ)
    → 0 < d
    → 0 < s * s
    → n < 2 ^ 53
    → (2 ^ 53 + 1) * (n * s * s) < 2 ^ 53 * ((n / d + 1) * (s * (d * s)))
quotient_high n d s pos p small = omega (
  arith,
  p,
  mul-le-mul_right (s * s) small,
  mul-le-mul_right (s * s) (mod-lt n pos),
  ap (λ (k : ℕ). k * (s * s)) (div-add-mod n d),
)

-- The same as `floor-round`, from the two bounds alone.
floor-round_gap :
    (num den n : ℕ)
    → 0 < den
    → n < 2 ^ 53
    → n * (scale * den) ≤ num
    → (2 ^ 53 + 1) * num < 2 ^ 53 * ((n + 1) * (scale * den))
    → floor (round num den) ≡ n
floor-round_gap num den n d small low high =
    let large : 2 ^ 60 * den ≤ scale * den = mul-le-mul_right den (omega (arith, scale_large)) in
    let top : (n + 1) * (scale * den) ≤ 2 ^ 53 * (scale * den) =
      mul-le-mul_right (scale * den) (omega arith) in
    floor-round num den n d (omega arith) low high (omega arith)

scale_square_pos : 0 < scale * scale
scale_square_pos = grind (arith, scale_large)

-- `Math.floor(t * L)` is the exact whole part of t * a / b, where the literal L stands for a / b and
-- was rounded up, and t is not large.
pub floor-mul-literal :
    (a b t : ℕ)
    → 0 < b
    → a ≤ b
    → a * scale ≤ b * literal a b
    → 2 ^ 53 * (b * literal a b) ≤ (2 ^ 53 + 1) * (a * scale)
    → (2 ^ 54 + 1) * (a * t) < 2 ^ 106
    → t < 2 ^ 53
    → floor (mul (of_ℕ t) (literal a b)) ≡ t * a / b
unfolding mul
floor-mul-literal a b t pos le low high size small =
    let l = literal a b in
    let n = t * a / b in
    let fits : n * b ≤ t * b = omega (arith, div-add-mod (t * a) b, mul-le-mul (le_refl t) le) in
    let n_le : n ≤ t = le_of_mul-le-mul_right {k = b} fits pos in
    rw (of_ℕ_whole t small) (
      floor-round_gap (t * scale * l) scale n (omega (arith, scale_large)) (omega arith)
        (product_low a b t l scale pos low high)
        (product_high a b t l scale pos low high scale_square_pos size))

-- `Math.floor(n / d)` is the quotient of the whole numbers.
pub floor-div : (n d : ℕ) → 0 < d → n < 2 ^ 53 → d < 2 ^ 53 → floor (div (of_ℕ n) (of_ℕ d)) ≡ n / d
unfolding div
floor-div n d pos small_n small_d =
    let low : n / d * (scale * (d * scale)) ≤ n * scale * scale =
      omega (arith, ap (λ (k : ℕ). k * (scale * scale)) (div-add-mod n d)) in
    rw (of_ℕ_whole n small_n, of_ℕ_whole d small_d)
      (floor-round_gap (n * scale * scale) (d * scale) (n / d) (grind (arith, scale_large))
        (omega (arith, div-le_self n d)) low (quotient_high n d scale pos scale_square_pos small_n))
