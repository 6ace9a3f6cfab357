-- ===== src/Payout/Exact.antt =====
-- `calcPayouts` (web/lib/db.ts) against exact percentages.
use solounlucky.Prelude.{ℕ, ◌+◌, ◌-◌, ◌*◌, ◌/◌, ◌^◌, ◌≤◌, ◌<◌, ◌≡◌, refl, arith, leb→le}
use solounlucky.Double.{scale, of_ℕ, literal, add, sub, mul, floor, arithmetic}
use solounlucky.Double.Exact.{of_ℕ_whole, add_whole, sub_whole}
use solounlucky.Double.Percent.{floor-mul-literal, floor-div}
use solounlucky.Payout.{finder_percent, pool_fee_percent, Payouts, calc_payouts}

-- 2.1% as a double lies just above 2.1%.
finder_low : 21 * scale ≤ 1000 * literal 21 1000
unfolding arithmetic
finder_low = leb→le _ _ refl

finder_high : 2 ^ 53 * (1000 * literal 21 1000) ≤ (2 ^ 53 + 1) * (21 * scale)
unfolding arithmetic
finder_high = leb→le _ _ refl

pub floor-mul-percent :
    (t : ℕ) → t < 2 ^ 47 → floor (mul (of_ℕ t) (literal 21 1000)) ≡ t * 21 / 1000
floor-mul-percent t h =
    floor-mul-literal 21 1000 t (omega arith) (omega arith) finder_low finder_high (omega arith)
      (omega arith)

-- The payouts in whole numbers.
abbrev pub percent_of : ℕ → ℕ
percent_of t = t * 21 / 1000

abbrev pub slot_of : ℕ → ℕ
slot_of t = (t - percent_of t - percent_of t) / 21

abbrev pub exact_payouts : ℕ → Payouts
exact_payouts t = record {
  finder_sats = percent_of t;
  per_slot = slot_of t;
  pool_fee_sats = percent_of t;
}

of_ℕ-add : (a b : ℕ) → a + b < 2 ^ 53 → add (of_ℕ a) (of_ℕ b) ≡ of_ℕ (a + b)
of_ℕ-add a b h =
    rw (of_ℕ_whole a (omega arith), of_ℕ_whole b (omega arith), of_ℕ_whole (a + b) h)
      (add_whole a b h)

of_ℕ-sub : (a b : ℕ) → b ≤ a → a < 2 ^ 53 → sub (of_ℕ a) (of_ℕ b) ≡ of_ℕ (a - b)
of_ℕ-sub a b le h =
    rw (of_ℕ_whole a h, of_ℕ_whole b (omega arith), of_ℕ_whole (a - b) (omega arith))
      (sub_whole a b le h)

-- If the reward is below 2^47 satoshis, the payouts computed in floating point are the exact whole
-- parts of 2.1%, 2.1% and a 21st of the rest.
pub calc_payouts_exact :
    (subsidy fees filled : ℕ)
    → subsidy + fees < 2 ^ 47
    → calc_payouts subsidy fees filled ≡ exact_payouts (subsidy + fees)
unfolding calc_payouts finder_percent pool_fee_percent
calc_payouts_exact subsidy fees filled h =
    let t = subsidy + fees in
    let p = percent_of t in
    rw (
      of_ℕ-add subsidy fees (omega arith),
      floor-mul-percent t h,
      of_ℕ-sub t p (omega arith) (omega arith),
      of_ℕ-sub (t - p) p (omega arith) (omega arith),
      floor-div (t - p - p) 21 (omega arith) (omega arith) (omega arith),
    )

-- If the reward is below 2^47 satoshis, the finder's bonus, the pool fee and 21 slots never exceed
-- the reward, and what is left over is less than 21 satoshis.
pub calc_payouts_conserve :
    (subsidy fees filled : ℕ)
    → subsidy + fees < 2 ^ 47
    → let p = calc_payouts subsidy fees filled in
      (p.finder_sats + p.pool_fee_sats + 21 * p.per_slot ≤ subsidy + fees)
      × (subsidy + fees < p.finder_sats + p.pool_fee_sats + 21 * p.per_slot + 21)
calc_payouts_conserve subsidy fees filled h =
    rw (calc_payouts_exact subsidy fees filled h) (omega arith, omega arith)
