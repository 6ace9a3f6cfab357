-- ===== src/Pool/Outputs.antt =====
-- `GetCoinbaseOutputs` of the shared pool (reward-service/cmd/server/main.go) and the snapshot that is
-- stored with a block (reward-service/internal/leaderboard/service.go).
use solounlucky.Prelude.{
  ℕ, zero, suc, ◌+◌, ◌-◌, ◌*◌, ◌^◌, ◌≤◌, ◌<◌, ◌≡◌, refl, ap, ◌∙◌, pos, List, [], ◌∷◌, ◌++◌, map,
  some, Text, length, take, ltb, arith, length-map, if◌then◌else◌,
}
use solounlucky.Payout.Exact.{floor-mul-percent, percent_of, slot_of}
use solounlucky.Coinbase.{
  CoinbaseOutput, finder_percent, pool_fee_percent, pool_fee_address, pay_slot,
}
use solounlucky.Coinbase.Laws.{outputs_of, filled_of, paid-le, build_outputs_lem}
use solounlucky.Store.{SnapshotEntry}
use solounlucky.Service.Ranking.{Entry}
use solounlucky.Service.Blocks.{snapshot_slot, build_snapshot}
use solounlucky.Socket.{Output}
use solounlucky.Pool.{Pool, output_of, get_coinbase_outputs}

snapshot_slot_lem :
    (fees : ℕ) → 312_500_000 + fees < 2 ^ 47 → snapshot_slot fees ≡ slot_of (312_500_000 + fees)
unfolding snapshot_slot finder_percent pool_fee_percent
snapshot_slot_lem fees h = rw (floor-mul-percent (312_500_000 + fees) h) refl

-- The output that pays an entry of a snapshot.
abbrev pub paid : SnapshotEntry → Output
paid e = record { address = e.address; amount_sats = pos e.amount_sats }

take-whole {ℓ} : {A : Type ℓ} (n : ℕ) (xs : List A) → length xs ≤ n → take n xs ≡ xs
take-whole zero [] h = refl
take-whole zero (x ∷ xs) h = absurd (omega arith)
take-whole (suc n) [] h = refl
take-whole (suc n) (x ∷ xs) h = ap (◌∷◌ x) (take-whole n xs (omega arith))

middle_paid :
    (s : ℕ) (entries : List Entry) (last : CoinbaseOutput)
    → map output_of (map (pay_slot s) (map (λ e. e.btc_address) entries) ++ last ∷ [])
      ≡ map (λ e. record { address = e.btc_address; amount_sats = pos s }) entries
        ++ output_of last ∷ []
middle_paid s [] last = refl
middle_paid s (e ∷ entries) last =
    ap (◌∷◌ (output_of (pay_slot s e.btc_address))) (middle_paid s entries last)

snapshot_paid :
    (fees : ℕ) (entries : List Entry)
    → map paid (build_snapshot entries fees)
      ≡ map
          (λ e. record { address = e.btc_address; amount_sats = pos (snapshot_slot fees) })
          entries
unfolding build_snapshot
snapshot_paid fees [] = refl
snapshot_paid fees (e ∷ entries) =
    ap (◌∷◌ record { address = e.btc_address; amount_sats = pos (snapshot_slot fees) })
      (snapshot_paid fees entries)

pub get_coinbase_outputs_lem :
    (p : Pool) (miner : Text) (fees : ℕ)
    → 312_500_000 + fees < 2 ^ 47
    → get_coinbase_outputs p miner fees
      ≡ some (
          map output_of (outputs_of miner (312_500_000 + fees) (map (λ e. e.btc_address) p.top_21)))
unfolding get_coinbase_outputs
get_coinbase_outputs_lem p miner fees small =
    rw
      (
        build_outputs_lem miner 312_500_000 fees (map (λ e. e.btc_address) p.top_21) small,
        get_coinbase_outputs,
      )
      refl

filled_of-entries :
    (entries : List Entry)
    → length entries ≤ 21
    → filled_of (map (λ e. e.btc_address) entries) ≡ length entries
filled_of-entries entries few = go _ (length-map (λ e. e.btc_address) entries)
  where
    go : (n : ℕ) → n ≡ length entries → (if ltb 21 n then 21 else n) ≡ length entries
    go n e = ground arith

pub outputs_of-entries :
    (miner : Text) (t : ℕ) (entries : List Entry)
    → length entries ≤ 21
    → map output_of (outputs_of miner t (map (λ e. e.btc_address) entries))
      ≡ record { address = miner; amount_sats = pos (percent_of t) }
        ∷ (map (λ e. record { address = e.btc_address; amount_sats = pos (slot_of t) }) entries
            ++ record {
              address = pool_fee_address;
              amount_sats = pos (t - percent_of t - length entries * slot_of t);
            }
              ∷ [])
outputs_of-entries miner t entries few =
    let ranked = map (λ e. e.btc_address) entries in
    let length_ranked : length ranked ≡ length entries = length-map _ entries in
    let last : CoinbaseOutput = record {
      address = pool_fee_address;
      amount_sats = t - percent_of t - length entries * slot_of t;
    } in
    rw (take-whole 21 ranked (omega arith), filled_of-entries entries few)
      (ap (◌∷◌ record { address = miner; amount_sats = pos (percent_of t) })
        (middle_paid (slot_of t) entries last))

outputs_fit :
    (t n : ℕ) → n ≤ 21 → percent_of t + n * slot_of t + (t - percent_of t - n * slot_of t) ≡ t
outputs_fit t n few =
    omega (arith, paid-le n (slot_of t) (t - percent_of t - percent_of t) few (omega arith))

-- For a reward below 2^47 satoshis and at most 21 ranked miners, the outputs that the gateway is told are
-- the finder's 2.1%, then exactly the amounts that the snapshot of these miners records, then the
-- rest for the pool, and they add up to the reward. `BuildOutputs` does not panic.
pub get_coinbase_outputs_pay :
    (p : Pool) (miner : Text) (fees : ℕ)
    → length p.top_21 ≤ 21
    → 312_500_000 + fees < 2 ^ 47
    → let total = 312_500_000 + fees in
      let rest = total - percent_of total - length p.top_21 * snapshot_slot fees in
      (get_coinbase_outputs p miner fees
        ≡ some (
            record { address = miner; amount_sats = pos (percent_of total) }
            ∷ (map paid (build_snapshot p.top_21 fees)
                ++ record { address = pool_fee_address; amount_sats = pos rest } ∷ [])))
      × (percent_of total + length p.top_21 * snapshot_slot fees + rest ≡ total)
get_coinbase_outputs_pay p miner fees few small =
    let total = 312_500_000 + fees in
    rw (snapshot_paid fees p.top_21, snapshot_slot_lem fees small)
      (
        get_coinbase_outputs_lem p miner fees small
            ∙ ap some (outputs_of-entries miner total p.top_21 few),
        outputs_fit total (length p.top_21) few,
      )
