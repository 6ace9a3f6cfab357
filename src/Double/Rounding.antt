-- ===== src/Double/Rounding.antt =====
-- Rounding to the nearest double: the spacing, the error, and exactness (Double.antt).
use native.Mathlib.Nat.{
  div-add-mod, mod-lt, pow-le-pow_right, pow-suc, pow-zero, mul_assoc, mul-le-mul, le_refl,
  zero-add, suc-add,
}
use mathlib.Core.Path.{subst}
use native.Mathlib.Decide.{dec_lt}
use solounlucky.Prelude.{
  ℕ, zero, suc, ◌+◌, ◌-◌, ◌*◌, ◌/◌, ◌%◌, ◌^◌, ◌≤◌, ◌<◌, ◌≡◌, refl, sym, ap, ◌∙◌, ◌⊎◌, inl, inr,
  arith, ltb, ltb→lt, ltb→le, Bool-cases,
}
use solounlucky.Double.{ulp_from, ulp, nearest, round, scale}

-- What the search for the spacing establishes.
pub record IsSpacing (num den q u : ℕ) : Type 0 where
  pub above : num < 2 ^ 53 * (u * den)
  pub tight : (u ≡ q) ⊎ (2 ^ 52 * (u * den) ≤ num)
  pub power : ℕ
  pub doubled : u ≡ 2 ^ power * q

ulp_from-IsSpacing :
    (fuel num den q : ℕ)
    → 0 < den
    → num < 2 ^ 53 * ((q + fuel) * den)
    → 0 < q
    → IsSpacing num den q (ulp_from fuel num den q)
unfolding ulp_from
ulp_from-IsSpacing zero num den q d h p = record {
  above = omega arith;
  tight = inl refl;
  power = 0;
  doubled = omega arith;
}
ulp_from-IsSpacing (suc fuel) num den q d h p = elim (Bool-cases (ltb num (2 ^ 53 * q * den))) [
  | inl e ↦ rw e record {
    above = omega (arith, ltb→lt _ _ e);
    tight = inl refl;
    power = 0;
    doubled = omega arith;
  }
  | inr e ↦
      let wide : den ≤ q * den = grind arith in
      let found = ulp_from-IsSpacing fuel num den (2 * q) d (omega arith) (omega arith) in
      rw e record {
        above = found.above;
        tight = inr (elim found.tight [
          | inl same ↦ rw same (omega (arith, ltb→le _ _ e))
          | inr enough ↦ enough
        ]);
        power = suc found.power;
        doubled = rw pow-suc (omega (arith, found.doubled));
      }
]

pos_of_above : (num a : ℕ) → num < 2 ^ 53 * a → 0 < a
pos_of_above num a h = omega arith

lt_of_mul : (a b c : ℕ) → a * c < b * c → a < b
lt_of_mul a b c h = grind arith

-- The multiple of q that `nearest` gives is off by at most half of q, and lies on the same side of
-- every multiple of q as the exact value.
pub record IsNearest (num den q r : ℕ) : Type 0 where
  pub count : ℕ
  pub multiple : r ≡ count * q
  pub not_far_above : 2 * (r * den) ≤ 2 * num + q * den
  pub not_far_below : 2 * num ≤ 2 * (r * den) + q * den

nearest-cases :
    (num den q : ℕ)
    → let m = num / (q * den) in
      ((nearest num den q ≡ m * q) × (2 * (num % (q * den)) ≤ q * den))
      ⊎ ((nearest num den q ≡ (m + 1) * q) × (q * den ≤ 2 * (num % (q * den))))
unfolding nearest
nearest-cases num den q = ground arith

pub nearest-IsNearest : (num den q : ℕ) → 0 < q * den → IsNearest num den q (nearest num den q)
nearest-IsNearest num den q h =
    let m = num / (q * den) in
    let e = div-add-mod num (q * den) in
    elim (nearest-cases num den q) [
      | inl (down, small) ↦ record {
        count = m;
        multiple = down;
        not_far_above = rw down (omega arith);
        not_far_below = rw down (omega arith);
      }
      | inr (up, large) ↦ record {
        count = m + 1;
        multiple = up;
        not_far_above = rw up (omega arith);
        not_far_below = rw up (omega (arith, mod-lt num h));
      }
    ]

pow-add : (a m n : ℕ) → a ^ (m + n) ≡ a ^ m * a ^ n
pow-add a zero n = rw (pow-zero, zero-add) (omega arith)
pow-add a (suc m) n = rw (suc-add, pow-suc, pow-suc, pow-add a m n) (omega arith)

pow-dvd-scale : (k : ℕ) → 2 ^ k < 2 * scale → (c : ℕ) × (scale ≡ c * 2 ^ k)
unfolding scale
pow-dvd-scale k h = elim (dec_lt 1074 k) [
  | yes large ↦ absurd (omega (arith, pow-le-pow_right {n = 2} (omega arith) large))
  | no small ↦
      let e : 1074 - k + k ≡ 1074 = omega arith in
      (2 ^ (1074 - k), rw e at (pow-add 2 (1074 - k) k))
]

-- What rounding establishes, with the spacing that it found.
pub record IsRounded (num den r : ℕ) : Type 0 where
  pub step : ℕ
  pub spacing : IsSpacing num den 1 step
  pub near : IsNearest num den step r

pub round-IsRounded : (num den : ℕ) → 0 < den → IsRounded num den (round num den)
unfolding round ulp
round-IsRounded num den d =
    let u = ulp_from num num den 1 in
    let spacing = ulp_from-IsSpacing num num den 1 d (grind arith) (omega arith) in
    record {
      step = u;
      spacing = spacing;
      near = nearest-IsNearest num den u (pos_of_above num _ spacing.above);
    }

-- Below 2^53 the spacing divides 1.
spacing-dvd-scale :
    (num den u : ℕ)
    → 0 < den
    → num < 2 ^ 53 * (scale * den)
    → IsSpacing num den 1 u
    → (c : ℕ) × (scale ≡ c * u)
spacing-dvd-scale num den u d bound s = elim s.tight [
  | inl one ↦ (scale, rw one (omega arith))
  | inr tight ↦
      let small : u < 2 * scale = lt_of_mul u (2 * scale) den (omega arith) in
      let power : u ≡ 2 ^ s.power = omega (arith, s.doubled) in
      let (c, e) = pow-dvd-scale s.power (subst (λ t. t < 2 * scale) power small) in
      (c, e ∙ ap (λ (t : ℕ). c * t) (sym power))
]

le_of_steps : (a b w : ℕ) → 0 < w → 2 * (a * w) ≤ 2 * (b * w) + w → a ≤ b
le_of_steps a b w p h = elim (dec_lt b a) [
  | yes less ↦ absurd (omega (arith, mul-le-mul less (le_refl w)))
  | no more ↦ omega arith
]

module _ (num den c : ℕ) (d : 0 < den) (bound : num < 2 ^ 53 * (scale * den)) where
  -- Below 2^53 every whole number is a double, and rounding does not pass it.
  pub le-round : c * (scale * den) ≤ num → c * scale ≤ round num den
  le-round h =
      let rounded = round-IsRounded num den d in
      let u = rounded.step in
      let n = rounded.near.count in
      let (k, e) = spacing-dvd-scale num den u d bound rounded.spacing in
      let exact : c * (scale * den) ≡ c * k * (u * den) = rw e (omega arith) in
      let near : round num den * den ≡ n * (u * den) =
        ap (λ (t : ℕ). t * den) rounded.near.multiple ∙ mul_assoc n u den in
      let steps : c * k ≤ n =
        le_of_steps (c * k) n (u * den) (pos_of_above num _ rounded.spacing.above)
          (omega (arith, rounded.near.not_far_below)) in
      rw (rounded.near.multiple, e) (omega (arith, mul-le-mul steps (le_refl u)))

  pub round-le : num ≤ c * (scale * den) → round num den ≤ c * scale
  round-le h =
      let rounded = round-IsRounded num den d in
      let u = rounded.step in
      let n = rounded.near.count in
      let (k, e) = spacing-dvd-scale num den u d bound rounded.spacing in
      let exact : c * (scale * den) ≡ c * k * (u * den) = rw e (omega arith) in
      let near : round num den * den ≡ n * (u * den) =
        ap (λ (t : ℕ). t * den) rounded.near.multiple ∙ mul_assoc n u den in
      let steps : n ≤ c * k =
        le_of_steps n (c * k) (u * den) (pos_of_above num _ rounded.spacing.above)
          (omega (arith, rounded.near.not_far_above)) in
      rw (rounded.near.multiple, e) (omega (arith, mul-le-mul steps (le_refl u)))

-- The rounding error is at most half a unit in the last place.
pub round_error :
    (num den : ℕ)
    → 0 < den
    → (2 ^ 53 * (round num den * den) ≤ (2 ^ 53 + 1) * num)
      ⊎ (2 * (round num den * den) ≤ 2 * num + den)
round_error num den d =
    let rounded = round-IsRounded num den d in
    elim rounded.spacing.tight [
      | inl one ↦ inr (omega (arith, rounded.near.not_far_above, ap (λ (t : ℕ). t * den) one))
      | inr tight ↦ inl (omega (arith, rounded.near.not_far_above))
    ]
