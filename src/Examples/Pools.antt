-- ===== src/Examples/Pools.antt =====
-- The server of the shared pool on the small pool of Examples.antt, with two blocks that wait.
use solounlucky.Prelude.{
  codes, ℕ, ◌+◌, ◌-◌, ◌*◌, ◌≡◌, refl, pos, ℤ, true, false, List, [], ◌∷◌, ◌++◌, some, Text, arith,
  map, count_by, text_eq,
}
use solounlucky.Sql.Insertion.{by_insertion, insertion_sort, insert}
use solounlucky.Store.{SnapshotEntry, Block}
use solounlucky.Sql.{distinct, max_of, sum_of, bool_or, rank_by}
use solounlucky.Double.{arithmetic}
use solounlucky.Js.{numbers}
use solounlucky.Payout.{calc_payouts, finder_percent, pool_fee_percent}
use solounlucky.Db.Miner.{MinerStats, get_miner_stats}
use solounlucky.Db.Miner.Agreement.{Agrees}
use solounlucky.Pool.Server.Reading.{Steps-Agrees}
use solounlucky.Examples.Board.{board, entry_of}
use solounlucky.Leaderboard.{
  gap_ends, session_start, in_session, aggregate, active_round, round_shares, times_of,
  session_shares, joined_row, recent_addresses, joined, rank_of,
}
use solounlucky.Db.Outcome.{Outcome, returned}
use solounlucky.Db.Board.{
  LeaderboardEntry, get_leaderboard, board_row, board_rows, board_entry, entries_of,
}
use solounlucky.Coinbase.{pool_fee_address}
use solounlucky.Payout.Exact.{percent_of}
use solounlucky.Service.Database.{Database, execute}
use solounlucky.Service.Ranking.{Entry, get_top_21}
use solounlucky.Service.Ranking.Agreement.{place, board_place, place_among, get_top_21-Agrees}
use solounlucky.Sql.Standing.{AreFirst}
use solounlucky.Leaderboard.{Joined}
use solounlucky.Service.Blocks.{
  is_unconfirmed, unconfirmed_of, get_unconfirmed_blocks, confirm_block, round_closed,
  build_snapshot, snapshot_slot,
}
use solounlucky.Service.Blocks.Sound.{IsSound}
use solounlucky.Service.Blocks.Renewal.{quiet, confirm_block_renews}
use solounlucky.Pool.{
  Pool, start, active_round_id, check_blocks, check_confirmations, get_coinbase_outputs,
}
use solounlucky.Pool.Confirmations.{check_confirmations_done}
use solounlucky.Pool.Outputs.{paid, get_coinbase_outputs_pay}
use solounlucky.Pool.Reverts.{check_blocks_revert}
use solounlucky.Pool.Settling.{check_confirmations_settles}
use solounlucky.Pool.Server.{
  Server, launch, recover, wake, poll, woken, polled, Steps, unchanged, step,
}
use solounlucky.Pool.Server.Invariant.{IsWatched, Steps-IsSound, Steps-IsWatched}
use solounlucky.Examples.{alice, bob, carol, whole_quotient, clock, sample, block_of}
use solounlucky.Examples.Services.{base, numeric, numeric_of_double}

abbrev waiting_block : (id age : ℕ) → Block
waiting_block id age = record (block_of id age) { confirmed = false }

abbrev busy : Database
busy = record base {
  tables = record sample {
    blocks = waiting_block 1 5000 ∷ waiting_block 2 4000 ∷ block_of 3 3000 ∷ [];
  };
}

abbrev pub one_confirmation : Text → Outcome ℤ
one_confirmation hash = returned (pos 1)

abbrev pub two_confirmations : Text → Outcome ℤ
two_confirmations hash = returned (pos 2)

abbrev one_miner : List SnapshotEntry
one_miner = record { rank = 1; address = alice; amount_sats = 14_255_952 } ∷ []

busy-IsSound : IsSound busy
busy-IsSound = record {
  one_open = refl;
  named = (refl, (refl, (refl, tt)));
  numbered = (omega arith, (omega arith, tt));
  stored = ((one_miner, refl), ((one_miner, refl), ((one_miner, refl), tt)));
  booked = ((refl, refl), ((refl, refl), ((refl, refl), ((refl, refl), tt))));
}

abbrev pub launched : Server
launched = record {
  pool = record {
    service = record { buffer = [] };
    round_id = 2;
    top_21 = [];
    block_pending = true;
    database = busy;
  };
  polling = false;
}

launch_runs : launch by_insertion quiet busy ≡ returned launched
unfolding launch recover start active_round_id active_round get_unconfirmed_blocks execute
    insertion_sort insert
launch_runs = refl

-- The loop wakes up, and one turn of it confirms both blocks.
abbrev turned : Server
turned = poll quiet two_confirmations by_insertion (wake launched)

turns : Steps by_insertion numeric numeric_of_double launched turned
unfolding wake
turns =
    step (wake launched) turned (step launched (wake launched) unchanged (woken refl refl))
      (polled quiet two_confirmations refl)

Steps-IsSound_example : IsSound turned.pool.database
Steps-IsSound_example =
    Steps-IsSound by_insertion numeric numeric_of_double quiet busy launched turned busy-IsSound
      launch_runs turns

Steps-IsWatched_example : IsWatched turned
Steps-IsWatched_example =
    Steps-IsWatched by_insertion numeric numeric_of_double quiet busy launched turned refl
      launch_runs turns

turn_settles : (check_confirmations quiet two_confirmations by_insertion launched.pool).0 ≡ 0
turn_settles =
    check_confirmations_settles two_confirmations by_insertion launched.pool
      ((λ _. omega arith), ((λ _. omega arith), ((λ _. omega arith), tt)))

check_confirmations_done_example :
    count_by is_unconfirmed
      (check_confirmations quiet two_confirmations by_insertion
        launched.pool).1.database.tables.blocks
    ≡ 0
check_confirmations_done_example =
    check_confirmations_done by_insertion quiet two_confirmations launched.pool turn_settles

check_blocks_revert_example :
    let (pending, p') =
      check_blocks quiet two_confirmations
        (unconfirmed_of (waiting_block 1 5000) ∷ unconfirmed_of (waiting_block 2 4000) ∷ [])
        0
        launched.pool in
    (pending ≡ 0) × (p'.round_id ≡ 2) × (round_closed p'.round_id p'.database.tables.rounds ≡ true)
unfolding round_closed
check_blocks_revert_example =
    check_blocks_revert two_confirmations (unconfirmed_of (waiting_block 1 5000))
      (unconfirmed_of (waiting_block 2 4000)) launched.pool 2 2 2 busy-IsSound refl refl refl refl
      (omega arith) refl (omega arith)

confirm_block_renews_example :
    let (result, d') = confirm_block quiet 1 busy in
    (result ≡ returned 3)
    × (active_round by_insertion d'.tables.rounds ≡ some 3)
    × (get_leaderboard by_insertion whole_quotient (returned d'.tables) 21 ≡ returned [])
unfolding round_closed
confirm_block_renews_example =
    confirm_block_renews by_insertion whole_quotient 21 1 busy busy-IsSound refl refl

abbrev pub ranked : Pool
ranked = record launched.pool {
  top_21 =
      record {
        btc_address = alice;
        best_share_difficulty = 5000;
        last_activity = some clock;
        rank = 1;
      }
      ∷ record {
        btc_address = bob;
        best_share_difficulty = 5000;
        last_activity = some clock;
        rank = 1;
      }
      ∷ [];
}

get_coinbase_outputs_pay_example :
    let rest = 312_525_000 - percent_of 312_525_000 - 2 * snapshot_slot 25_000 in
    (get_coinbase_outputs ranked carol 25_000
      ≡ some (
          record { address = carol; amount_sats = pos (percent_of 312_525_000) }
          ∷ (map paid (build_snapshot ranked.top_21 25_000)
              ++ record { address = pool_fee_address; amount_sats = pos rest } ∷ [])))
    × (percent_of 312_525_000 + 2 * snapshot_slot 25_000 + rest ≡ 312_525_000)
get_coinbase_outputs_pay_example =
    get_coinbase_outputs_pay ranked carol 25_000 (omega arith) (omega arith)

round_2 : active_round by_insertion sample.rounds ≡ some 2
unfolding active_round insertion_sort insert
round_2 = refl

get_top_21-Agrees_example :
    (entries : List Entry) × (board : List LeaderboardEntry) × (rows others : List Joined)
    × (get_top_21 by_insertion quiet sample 2 ≡ returned entries)
    × (get_leaderboard by_insertion whole_quotient (returned sample) 21 ≡ returned board)
    × AreFirst (λ r. r.alltime_best) 21 (joined by_insertion sample) rows
    × AreFirst (λ r. r.alltime_best) 21 (joined by_insertion sample) others
    × (map place entries ≡ map (place_among (joined by_insertion sample)) rows)
    × (map board_place board ≡ map (place_among (joined by_insertion sample)) others)
    × (map (λ e. e.rank) entries ≡ map (λ e. e.rank) board)
get_top_21-Agrees_example =
    get_top_21-Agrees by_insertion by_insertion whole_quotient sample 2 round_2
      (refl, (refl, (refl, (refl, tt))))
      (
        (9000, refl, omega arith),
        ((5000, refl, omega arith), ((5000, refl, omega arith), ((700, refl, omega arith), tt))),
      )

busy_board : get_leaderboard by_insertion whole_quotient (returned busy.tables) 21 ≡ returned board
unfolding get_leaderboard entries_of board_rows board_row board_entry rank_of joined
    recent_addresses round_shares active_round joined_row session_shares times_of aggregate
    session_start gap_ends in_session distinct max_of sum_of bool_or rank_by calc_payouts
    finder_percent pool_fee_percent arithmetic numbers insertion_sort insert text_eq
busy_board = refl

-- Bob's entry, when the loop has woken up.
Steps-Agrees_example :
    (m : MinerStats) × (get_miner_stats by_insertion whole_quotient
        (returned (wake launched).pool.database.tables)
        bob
      ≡ returned m)
    × Agrees by_insertion whole_quotient
        (wake launched).pool.database.tables
        (entry_of 1 bob 3600 (codes "5000") (codes "7101467"))
        m
unfolding wake
Steps-Agrees_example =
    Steps-Agrees by_insertion numeric numeric_of_double whole_quotient quiet busy launched
      (wake launched) 21 0 busy-IsSound launch_runs
      (step launched (wake launched) unchanged (woken refl refl)) busy_board refl
