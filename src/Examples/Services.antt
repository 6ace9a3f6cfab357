-- ===== src/Examples/Services.antt =====
-- The leaderboard service and the socket server on the small pool of Examples.antt.
use solounlucky.Prelude.{
  ℕ, ◌+◌, ◌*◌, ◌/◌, ◌≡◌, ◌⊎◌, pos, false, [], ◌∷◌, none, some, Text, codes, arith, replicate,
}
use solounlucky.Js.{Number, finite, whole}
use solounlucky.Double.{scale}
use solounlucky.Db.Outcome.{Outcome, returned, thrown}
use solounlucky.Coinbase.{pool_fee_address}
use solounlucky.Service.Database.{Database}
use solounlucky.Service.Shares.{PendingShare, Service, set_string, flush_shares}
use solounlucky.Service.Shares.Flushing.{Written, flush_shares_atomic}
use solounlucky.Service.Blocks.Renewal.{quiet}
use solounlucky.Solo.{solo_outputs, solo_payout}
use solounlucky.Solo.Payouts.{solo_outputs_pay}
use solounlucky.Examples.{alice, bob, carol, sample}

abbrev pub base : Database
base = record { tables = sample; next_round = 3; next_block = 4; next_solo = 1 }

abbrev pub numeric : Text → Outcome ℕ
numeric s = elim (set_string s) [
  | none ↦ thrown (codes "invalid input syntax for type numeric")
  | some b ↦ returned b.magnitude
]

abbrev pub numeric_of_double : Number → Outcome ℕ
numeric_of_double (finite false x) = returned ((2 * x + scale) / (2 * scale))
numeric_of_double _ = thrown (codes "invalid input syntax for type numeric")

abbrev pending : Text → PendingShare
pending a = record {
  round_id = 2;
  btc_address = a;
  worker_name = codes "rig";
  difficulty = some record { negative = false; magnitude = 1000 };
  true_diff = whole 7000;
  source_port = 3333;
}

abbrev full : Service
full = record { buffer = pending alice ∷ pending bob ∷ [] }

-- An address of 91 characters after alice's.
abbrev overfull : Service
overfull = record { buffer = pending alice ∷ pending (replicate 91 b'x') ∷ [] }

flush_shares_atomic_example :
    let (result, s', d') = flush_shares numeric numeric_of_double quiet full base in
    (s'.buffer ≡ [])
    × (((result ≡ returned tt) × Written numeric numeric_of_double full.buffer base d')
        ⊎ ((e : Text) × (result ≡ thrown e) × (d' ≡ base)))
flush_shares_atomic_example = flush_shares_atomic numeric numeric_of_double quiet full base

solo_outputs_pay_example :
    (solo_outputs carol 25_000
      ≡ record { address = carol; amount_sats = pos (solo_payout 25_000) }
        ∷ record { address = pool_fee_address; amount_sats = pos (312_525_000 / 100) }
        ∷ [])
    × (solo_payout 25_000 + 312_525_000 / 100 ≡ 312_525_000)
solo_outputs_pay_example = solo_outputs_pay carol 25_000 (omega arith)
