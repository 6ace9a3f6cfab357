-- ===== src/Solo/Payouts.antt =====
-- What a solo block pays (reward-service/internal/solo/handler.go).
use solounlucky.Prelude.{
  ℕ, ◌+◌, ◌*◌, ◌/◌, ◌^◌, ◌≤◌, ◌<◌, ◌≡◌, refl, pos, [], ◌∷◌, Text, arith, leb→le,
}
use solounlucky.Double.{scale, of_ℕ, literal, mul, floor, arithmetic}
use solounlucky.Double.Percent.{floor-mul-literal}
use solounlucky.Coinbase.{pool_fee_address}
use solounlucky.Solo.{solo_fee_percent, solo_fee, solo_payout, solo_outputs}

-- 1% as a double lies just above 1%.
fee_low : 1 * scale ≤ 100 * literal 1 100
unfolding arithmetic
fee_low = leb→le _ _ refl

fee_high : 2 ^ 53 * (100 * literal 1 100) ≤ (2 ^ 53 + 1) * (1 * scale)
unfolding arithmetic
fee_high = leb→le _ _ refl

floor-mul-fee : (t : ℕ) → t < 2 ^ 47 → floor (mul (of_ℕ t) (literal 1 100)) ≡ t * 1 / 100
floor-mul-fee t h =
    floor-mul-literal 1 100 t (omega arith) (omega arith) fee_low fee_high (omega arith)
      (omega arith)

solo_fee-exact :
    (fees : ℕ) → 312_500_000 + fees < 2 ^ 47 → solo_fee fees ≡ (312_500_000 + fees) / 100
unfolding solo_fee solo_fee_percent
solo_fee-exact fees h = rw (floor-mul-fee (312_500_000 + fees) h) (omega arith)

-- For a reward below 2^47 satoshis the pool takes the exact whole part of 1%, in floating point too, and
-- the finder the rest: the two outputs add up to the reward.
pub solo_outputs_pay :
    (miner : Text) (fees : ℕ)
    → 312_500_000 + fees < 2 ^ 47
    → (solo_outputs miner fees
        ≡ record { address = miner; amount_sats = pos (solo_payout fees) }
          ∷ record { address = pool_fee_address; amount_sats = pos ((312_500_000 + fees) / 100) }
          ∷ [])
      × (solo_payout fees + (312_500_000 + fees) / 100 ≡ 312_500_000 + fees)
unfolding solo_outputs solo_payout
solo_outputs_pay miner fees h =
    (rw (solo_fee-exact fees h), rw (solo_fee-exact fees h) (omega arith))
