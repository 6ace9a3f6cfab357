-- ===== src/Coinbase.antt =====
-- reward-service/internal/coinbase/builder.go: the outputs of the coinbase transaction, which the
-- web application's payouts mirror. `int64` amounts are naturals: the results stand for amounts that
-- stay below 2^63. A `float64` product with 0.021 is that of Double.antt.
pub mod Laws
use solounlucky.Prelude.{
  ℕ, ◌+◌, ◌-◌, ◌*◌, ◌/◌, List, [], ◌∷◌, ◌++◌, map, Option, none, some, Text, codes, length, take,
  ltb, ◌==◌, if◌then◌else◌,
}
use solounlucky.Double.{of_ℕ, literal, mul, floor}

unfoldable pub finder_percent : ℕ
finder_percent = literal 21 1000

unfoldable pub pool_fee_percent : ℕ
pool_fee_percent = literal 21 1000

abbrev pub max_ranked_slots : ℕ
max_ranked_slots = 21

unfoldable pub pool_fee_address : Text
pool_fee_address = codes "1DR9pDLvFVnaJBRT5M4hUJLiuCQ7YE8D7b"

pub record CoinbaseOutput : Type 0 where
  pub address : Text
  pub amount_sats : ℕ

abbrev pub total_of : List CoinbaseOutput → ℕ
total_of [] = 0
total_of (o ∷ os) = o.amount_sats + total_of os

abbrev pub pay_slot : ℕ → Text → CoinbaseOutput
pay_slot per_slot address = record { address = address; amount_sats = per_slot }

-- From the two percentages on: `none` is the panic at the end.
unfoldable pub assemble :
    (miner : Text) (total finder_amount pool_fee_base : ℕ) (ranked : List Text)
    → Option (List CoinbaseOutput)
assemble miner total finder_amount pool_fee_base ranked =
    let remaining = total - finder_amount - pool_fee_base in
    let per_slot = remaining / max_ranked_slots in
    let dust = remaining - per_slot * max_ranked_slots in
    let filled = if ltb max_ranked_slots (length ranked) then max_ranked_slots else length ranked in
    let unfilled = max_ranked_slots - filled in
    let pool_fee_out = pool_fee_base + per_slot * unfilled + dust in
    let outputs =
      record { address = miner; amount_sats = finder_amount }
      ∷ (map (pay_slot per_slot) (take filled ranked)
          ++ record { address = pool_fee_address; amount_sats = pool_fee_out } ∷ []) in
    if total_of outputs == total then some outputs else none

unfoldable pub build_outputs :
    (miner : Text) (subsidy fees : ℕ) (ranked : List Text) → Option (List CoinbaseOutput)
build_outputs miner subsidy fees ranked =
    let total = subsidy + fees in
    let finder_amount = floor (mul (of_ℕ total) finder_percent) in
    let pool_fee_base = floor (mul (of_ℕ total) pool_fee_percent) in
    assemble miner total finder_amount pool_fee_base ranked
