-- ===== src/Payout.antt =====
-- The reward constants and `calcPayouts` of web/lib/db.ts. Amounts are whole numbers of satoshis; the
-- arithmetic between them is that of doubles.
pub mod Exact
use solounlucky.Prelude.{ℕ, ◌+◌, ◌-◌, ◌*◌}
use solounlucky.Double.{of_ℕ, literal, add, sub, mul, div, floor}

unfoldable pub finder_percent : ℕ
finder_percent = literal 21 1000

unfoldable pub pool_fee_percent : ℕ
pool_fee_percent = literal 21 1000

abbrev pub max_ranked_slots : ℕ
max_ranked_slots = 21

abbrev pub subsidy_sats : ℕ
subsidy_sats = 312_500_000

pub record Payouts : Type 0 where
  pub finder_sats : ℕ
  pub per_slot : ℕ
  pub pool_fee_sats : ℕ

-- `filled` is not read, as in the source.
unfoldable pub calc_payouts : (subsidy fees filled : ℕ) → Payouts
calc_payouts subsidy fees filled =
    let total = add (of_ℕ subsidy) (of_ℕ fees) in
    let finder = floor (mul total finder_percent) in
    let pool_fee = floor (mul total pool_fee_percent) in
    let remaining = sub (sub total (of_ℕ finder)) (of_ℕ pool_fee) in
    record {
      finder_sats = finder;
      per_slot = floor (div remaining (of_ℕ max_ranked_slots));
      pool_fee_sats = pool_fee;
    }
