-- ===== src/Examples/Payouts.antt =====
-- Rewards: web/lib/db.ts and reward-service/internal/coinbase/builder.go at the block reward of today.
use solounlucky.Prelude.{◌+◌, ◌*◌, ◌≤◌, ◌<◌, ◌≡◌, [], ◌∷◌, some, arith}
use solounlucky.Payout.{calc_payouts}
use solounlucky.Payout.Exact.{exact_payouts, slot_of, calc_payouts_exact, calc_payouts_conserve}
use solounlucky.Coinbase.{build_outputs, total_of}
use solounlucky.Coinbase.Laws.{outputs_of, build_outputs_pays}
use solounlucky.Examples.{alice, bob, carol}

calc_payouts_exact_example : calc_payouts 312_500_000 25_000 21 ≡ exact_payouts 312_525_000
calc_payouts_exact_example = calc_payouts_exact 312_500_000 25_000 21 (omega arith)

calc_payouts_conserve_example :
    let p = calc_payouts 312_500_000 25_000 21 in
    (p.finder_sats + p.pool_fee_sats + 21 * p.per_slot ≤ 312_525_000)
    × (312_525_000 < p.finder_sats + p.pool_fee_sats + 21 * p.per_slot + 21)
calc_payouts_conserve_example = calc_payouts_conserve 312_500_000 25_000 21 (omega arith)

build_outputs_pays_example :
    (build_outputs carol 312_500_000 25_000 (alice ∷ bob ∷ [])
      ≡ some (outputs_of carol 312_525_000 (alice ∷ bob ∷ [])))
    × (total_of (outputs_of carol 312_525_000 (alice ∷ bob ∷ [])) ≡ 312_525_000)
    × (slot_of 312_525_000 ≡ (calc_payouts 312_500_000 25_000 2).per_slot)
build_outputs_pays_example =
    build_outputs_pays carol 312_500_000 25_000 (alice ∷ bob ∷ []) (omega arith)
