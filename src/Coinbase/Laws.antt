-- ===== src/Coinbase/Laws.antt =====
-- What `BuildOutputs` (reward-service/internal/coinbase/builder.go) pays.
use native.Mathlib.Nat.{mul-le-mul_right}
use solounlucky.Prelude.{
  ℕ, zero, suc, ◌+◌, ◌-◌, ◌*◌, ◌^◌, ◌≤◌, ◌<◌, ◌≡◌, refl, ap, inl, inr, List, [], ◌∷◌, ◌++◌, map,
  some, Text, length, take, arith, ltb, ==_iff, if◌then◌else◌, length-take, Bool-cases, ltb→le,
}
use solounlucky.Payout.{calc_payouts}
use solounlucky.Payout.Exact.{floor-mul-percent, percent_of, slot_of, calc_payouts_exact}
use solounlucky.Coinbase.{
  finder_percent, pool_fee_percent, pool_fee_address, CoinbaseOutput, total_of, pay_slot, assemble,
  build_outputs,
}

total_of-paid :
    (s : ℕ) (ranked : List Text) (last : CoinbaseOutput)
    → total_of (map (pay_slot s) ranked ++ last ∷ []) ≡ length ranked * s + last.amount_sats
total_of-paid s [] last = omega arith
total_of-paid s (a ∷ ranked) last = omega (arith, total_of-paid s ranked last)

abbrev pub filled_of : List Text → ℕ
filled_of ranked = if ltb 21 (length ranked) then 21 else length ranked

-- The layout: the finder, the first 21 ranked addresses at most, the pool.
abbrev pub outputs_of : Text → ℕ → List Text → List CoinbaseOutput
outputs_of miner total ranked =
    let slot = slot_of total in
    record { address = miner; amount_sats = percent_of total }
    ∷ (map (pay_slot slot) (take 21 ranked)
        ++ record {
          address = pool_fee_address;
          amount_sats = total - percent_of total - filled_of ranked * slot;
        }
          ∷ [])

take-all : (n : ℕ) (xs : List Text) → length xs ≤ n → take (length xs) xs ≡ take n xs
take-all zero [] h = refl
take-all zero (x ∷ xs) h = elim h [ ]
take-all (suc n) [] h = refl
take-all (suc n) (x ∷ xs) h = ap (◌∷◌ x) (take-all n xs (omega arith))

take-filled : (ranked : List Text) → take (filled_of ranked) ranked ≡ take 21 ranked
take-filled ranked = elim (Bool-cases (ltb 21 (length ranked))) [
  | inl more ↦ rw more
  | inr few ↦ rw few (take-all 21 ranked (ltb→le _ _ few))
]

length-take-filled : (ranked : List Text) → length (take 21 ranked) ≡ filled_of ranked
length-take-filled ranked = rw (length-take 21 ranked) (ground arith)

filled_of-le : (ranked : List Text) → filled_of ranked ≤ 21
filled_of-le ranked = ground arith

pub paid-le : (f s r : ℕ) → f ≤ 21 → s * 21 ≤ r → f * s ≤ r
paid-le f s r h e = omega (arith, mul-le-mul_right s h)

pub total_of-outputs_of :
    (miner : Text) (t : ℕ) (ranked : List Text) → total_of (outputs_of miner t ranked) ≡ t
total_of-outputs_of miner t ranked =
    let s = slot_of t in
    let last : CoinbaseOutput = record {
      address = pool_fee_address;
      amount_sats = t - percent_of t - filled_of ranked * s;
    } in
    rw (total_of-paid s (take 21 ranked) last, length-take-filled ranked)
      (omega (
        arith,
        paid-le (filled_of ranked) s (t - percent_of t) (filled_of-le ranked) (omega arith),
      ))

-- What goes to the pool, added up as the code does.
pool-amount :
    (t f : ℕ)
    → f ≤ 21
    → let rest = t - percent_of t - percent_of t in
      percent_of t + slot_of t * (21 - f) + (rest - slot_of t * 21)
      ≡ t - percent_of t - f * slot_of t
pool-amount t f h =
    let s = slot_of t in
    let e : 21 - f + f ≡ 21 = omega arith in
    let d : s * (21 - f) + s * f ≡ s * 21 = omega (arith, ap (λ (k : ℕ). s * k) e) in
    omega (arith, paid-le f s (t - percent_of t - percent_of t) h (omega arith))

assemble_lem :
    (miner : Text) (t : ℕ) (ranked : List Text)
    → assemble miner t (percent_of t) (percent_of t) ranked ≡ some (outputs_of miner t ranked)
unfolding assemble
assemble_lem miner t ranked = rw (
  take-filled ranked,
  pool-amount t (filled_of ranked) (filled_of-le ranked),
  (==_iff _ t).1 (total_of-outputs_of miner t ranked),
)

pub build_outputs_lem :
    (miner : Text) (subsidy fees : ℕ) (ranked : List Text)
    → subsidy + fees < 2 ^ 47
    → build_outputs miner subsidy fees ranked ≡ some (outputs_of miner (subsidy + fees) ranked)
unfolding build_outputs finder_percent pool_fee_percent
build_outputs_lem miner subsidy fees ranked h =
    rw (floor-mul-percent (subsidy + fees) h) (assemble_lem miner (subsidy + fees) ranked)

-- For a reward below 2^47 satoshis `BuildOutputs` does not panic. It pays 2.1% to the finder, then the
-- slot amount of `calcPayouts` to each of the first 21 ranked addresses in order, then the rest of
-- the reward to the pool, and the amounts add up to the reward.
pub build_outputs_pays :
    (miner : Text) (subsidy fees : ℕ) (ranked : List Text)
    → subsidy + fees < 2 ^ 47
    → (build_outputs miner subsidy fees ranked ≡ some (outputs_of miner (subsidy + fees) ranked))
      × (total_of (outputs_of miner (subsidy + fees) ranked) ≡ subsidy + fees)
      × (slot_of (subsidy + fees) ≡ (calc_payouts subsidy fees (length ranked)).per_slot)
build_outputs_pays miner subsidy fees ranked h = (
  build_outputs_lem miner subsidy fees ranked h,
  total_of-outputs_of miner (subsidy + fees) ranked,
  rw (calc_payouts_exact subsidy fees (length ranked) h),
)
