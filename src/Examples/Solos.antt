-- ===== src/Examples/Solos.antt =====
-- The solo pool and the polling of both pools, on the small pool of Examples.antt.
use solounlucky.Prelude.{
  ℕ, ◌≡◌, refl, ◌⊎◌, ℤ, pos, negsuc, true, false, List, [], ◌∷◌, ◌++◌, none, some, Text, codes,
  arith,
}
use solounlucky.Sql.Insertion.{by_insertion}
use solounlucky.Store.{SoloBlockRow}
use solounlucky.Db.Outcome.{Outcome, returned}
use solounlucky.Service.Database.{Database, Faults, read_solo}
use solounlucky.Service.Blocks.Renewal.{quiet}
use solounlucky.Service.Blocks.{UnconfirmedBlock}
use solounlucky.Socket.{BlockMessage}
use solounlucky.Polling.{poll_until}
use solounlucky.Pool.{Pool, check_block}
use solounlucky.Pool.Ending.{Turn, check_turn, polling_ends}
use solounlucky.Pool.Server.Keeping.{waiting}
use solounlucky.Solo.{Solo, solo_payout, solo_block_found, check_solo_block}
use solounlucky.Solo.Ending.{check_solo_turn, solo_polling_ends}
use solounlucky.Solo.Server.{
  SoloServer, recover_solo, launch_solo, wake_solo, poll_solo, SoloSteps, unchanged, step,
  block_reported, woken, polled, solo_waiting,
}
use solounlucky.Solo.Server.Keeping.{IsSoloSound}
use solounlucky.Solo.Server.Invariant.{
  IsSoloWatched, SoloSteps-IsSoloSound, SoloSteps-IsSoloWatched,
}
use solounlucky.Rpc.{RpcResponse, get_block_confirmations}
use solounlucky.Rpc.Verdicts.{IsAnswer, check_block_answered}
use solounlucky.Examples.{alice}
use solounlucky.Examples.Pools.{launched, one_confirmation, two_confirmations}
use solounlucky.Examples.Services.{base}

abbrev solo_block : (id : ℕ) (hash : Text) → SoloBlockRow
solo_block id hash = record {
  id = id;
  height = 900_000;
  hash = hash;
  found_at = 0;
  finder_address = alice;
  coinbase_txid = some [];
  fees_sats = 25_000;
  payout_sats = solo_payout 25_000;
  confirmed = false;
  is_orphaned = false;
}

-- A database with a solo block that waits.
abbrev mined : Database
mined = record base {
  tables = record base.tables { solo_blocks = solo_block 0 (codes "00a1") ∷ [] };
}

mined-IsSoloSound : IsSoloSound mined
mined-IsSoloSound = record {
  distinct = (tt, tt);
  kept = (record { numbered = omega arith; priced = refl; decided = refl }, tt);
}

abbrev reported : BlockMessage
reported = record {
  height = 900_001;
  hash = codes "00b2";
  finder_address = alice;
  coinbase_txid = [];
  fees_sats = 0;
}

-- The loop wakes up on what is left from before, another block is reported, and a turn confirms both.
abbrev after_report : SoloServer
after_report = record (wake_solo (launch_solo quiet mined)) {
  solo = (solo_block_found quiet reported (wake_solo (launch_solo quiet mined)).solo).1;
}

abbrev settled : SoloServer
settled = poll_solo quiet two_confirmations after_report

seeded : (launch_solo quiet mined).solo.block_pending ≡ true
unfolding launch_solo recover_solo
seeded = refl

idle : (launch_solo quiet mined).polling ≡ false
unfolding launch_solo
idle = refl

busy_loop : after_report.polling ≡ true
unfolding wake_solo launch_solo
busy_loop = refl

settling : SoloSteps (launch_solo quiet mined) settled
settling =
    step after_report settled
      (step (wake_solo (launch_solo quiet mined)) after_report
        (step (launch_solo quiet mined) (wake_solo (launch_solo quiet mined)) unchanged
          (woken idle seeded))
        (block_reported quiet reported))
      (polled quiet two_confirmations busy_loop)

SoloSteps-IsSoloSound_example : IsSoloSound settled.solo.database
SoloSteps-IsSoloSound_example = SoloSteps-IsSoloSound quiet mined settled mined-IsSoloSound settling

SoloSteps-IsSoloWatched_example : IsSoloWatched settled
unfolding settling
SoloSteps-IsSoloWatched_example =
    SoloSteps-IsSoloWatched quiet mined settled refl settling (((tt, tt), tt), λ id. refl)

-- A turn on which nothing is decided, one on which the query fails, and one that decides.
abbrev failing : Faults
failing (read_solo id) = none
failing _ = some (codes "connection refused")

abbrev turns : List Turn
turns = (quiet, one_confirmation) ∷ (failing, two_confirmations) ∷ []

solo_polling_ends_example :
    (s' : Solo) × (poll_until check_solo_turn
        (turns ++ (quiet, two_confirmations) ∷ [])
        after_report.solo
      ≡ some s')
    × (solo_waiting s' ≡ 0)
solo_polling_ends_example =
    solo_polling_ends turns [] two_confirmations after_report.solo
      ((λ id. refl), ((λ id. refl), tt)) (λ hash. omega arith)

polling_ends_example :
    (p' : Pool) × (poll_until
        (check_turn by_insertion)
        (turns ++ (quiet, two_confirmations) ∷ [])
        launched.pool
      ≡ some p')
    × (waiting p' ≡ 0)
polling_ends_example =
    polling_ends by_insertion turns [] two_confirmations launched.pool (λ hash. omega arith)

-- The first body reports that the block is not known.
abbrev unmarshal_response : Text → Outcome (RpcResponse ℤ)
unmarshal_response body = returned record {
  result = pos 2;
  error = some record { code = negsuc 4; message = codes "Block not found" };
}

abbrev exchange : Text → Outcome Text
exchange hash = returned (codes "{}")

abbrev asked : Text → Outcome ℤ
asked hash = get_block_confirmations unmarshal_response returned (exchange hash)

abbrev unconfirmed : UnconfirmedBlock
unconfirmed = record { id = 1; hash = codes "00a1"; height = 900_000; round_id = 2 }

check_block_answered_example :
    ((check_block quiet asked unconfirmed 0 launched.pool ≡ (1, launched.pool))
      ⊎ ((n : ℤ) × IsAnswer unmarshal_response returned (exchange (codes "00a1")) n))
    × ((check_solo_block quiet asked (solo_block 0 (codes "00a1")) 0 after_report.solo
          ≡ (1, after_report.solo))
        ⊎ ((n : ℤ) × IsAnswer unmarshal_response returned (exchange (codes "00a1")) n))
check_block_answered_example =
    check_block_answered unmarshal_response returned exchange quiet unconfirmed
      (solo_block 0 (codes "00a1")) 0 launched.pool after_report.solo
