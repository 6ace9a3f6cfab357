-- ===== src/Examples/Board.antt =====
-- The ranking of the small pool of Examples.antt: web/lib/db.ts and the leaderboard's page.
use Prim.Native.Nat.{min}
use solounlucky.Prelude.{
  replicate, ℕ, ◌-◌, ◌*◌, ◌^◌, ◌≡◌, refl, true, List, [], ◌∷◌, map, some, Text, codes, All, length,
  text_eq, ◌/◌,
}
use solounlucky.Double.{literal, arithmetic}
use solounlucky.Js.{Number, numbers, div_by, parse_float}
use solounlucky.Sql.{distinct, max_of, sum_of, bool_or, rank_by}
use solounlucky.Sql.Insertion.{by_insertion, insertion_sort, insert}
use solounlucky.Sql.Ranking.{IsRanking}
use solounlucky.Store.{second}
use solounlucky.Leaderboard.{
  gap_ends, session_start, in_session, aggregate, active_round, round_shares, times_of,
  session_shares, joined_row, recent_addresses, joined, rank_of,
}
use solounlucky.Payout.{calc_payouts, finder_percent, pool_fee_percent}
use solounlucky.Db.Outcome.{Outcome, returned}
use solounlucky.Db.Board.{
  LeaderboardEntry, board_row, board_rows, board_entry, entries_of, get_leaderboard,
}
use solounlucky.Leaderboard.Unique.{IsUnlike}
use solounlucky.Pages.Miner.Absent.{IsUnranked, get_miner_stats-IsUnranked}
use solounlucky.Db.Board.Ranks.{get_leaderboard_ranked, standing, standing_among}
use solounlucky.Sql.Standing.{AreFirst}
use solounlucky.Leaderboard.{Joined}
use solounlucky.Db.Miner.{MinerStats, get_miner_stats}
use solounlucky.Db.Miner.Agreement.{get_miner_stats-Agrees, Agrees}
use solounlucky.Pages.Ranking.{table_rows, open_slot, cutoff, unpaid, entry_row, dash}
use solounlucky.Pages.Ranking.Slots.{table_rows_complete, paid_row, numbers_after}
use solounlucky.Pages.Tables.{BlockRow, SoloRow}
use solounlucky.Pages.Loading.{Section, MinerPage, blocks_page, solo_page, miner_page}
use solounlucky.Pages.Loading.Shown.{Shows, HasCards, block_pages_show, miner_page-HasCards}
use solounlucky.Prelude.{count_by, ◌++◌, ◌<◌, ◌≤◌, ◌-◌}
use solounlucky.Examples.{alice, bob, carol, whole_quotient, clock, sample}

abbrev pub entry_of : (rank : ℕ) (a : Text) (ago : ℕ) (best hashrate : Text) → LeaderboardEntry
entry_of rank a ago best hashrate = record {
  rank = rank;
  btc_address = a;
  best_share = some best;
  last_seen = some ((clock - ago * second) / 1000);
  estimated_payout_sats = 14_255_952;
  hashrate_7d_ths = div_by (parse_float hashrate) (literal (10 ^ 12) 1);
  is_rental = true;
}

-- Alice and bob share the first place, and carol is third.
abbrev pub board : List LeaderboardEntry
board =
    entry_of 1 bob 3600 (codes "5000") (codes "7101467")
    ∷ entry_of 1 alice 60 (codes "5000") (codes "7101467")
    ∷ entry_of 3 carol 30 (codes "700") (codes "7101467")
    ∷ []

board_runs :
    (get_leaderboard by_insertion whole_quotient (returned sample) 100 ≡ returned board)
    × (get_leaderboard by_insertion whole_quotient (returned sample) 21 ≡ returned board)
unfolding get_leaderboard entries_of board_rows board_row board_entry rank_of joined
    recent_addresses round_shares active_round joined_row session_shares times_of aggregate
    session_start gap_ends in_session distinct max_of sum_of bool_or rank_by calc_payouts
    finder_percent pool_fee_percent arithmetic numbers insertion_sort insert text_eq
board_runs = (refl, refl)

get_leaderboard_ranked_example :
    (entries : List LeaderboardEntry) × (get_leaderboard by_insertion whole_quotient
        (returned sample)
        2
      ≡ returned entries)
    × ((rows : List Joined) × AreFirst (λ r. r.alltime_best) 2 (joined by_insertion sample) rows
        × (map standing entries ≡ map (standing_among (joined by_insertion sample)) rows))
    × IsRanking 1 1 (map (λ e. e.rank) entries)
    × All (λ e. e.estimated_payout_sats ≡ 14_255_952) entries
get_leaderboard_ranked_example = get_leaderboard_ranked by_insertion whole_quotient sample 2

get_miner_stats-Agrees_example :
    (m : MinerStats) × (get_miner_stats by_insertion whole_quotient (returned sample) carol
      ≡ returned m)
    × Agrees by_insertion whole_quotient sample
        (entry_of 3 carol 30 (codes "700") (codes "7101467"))
        m
get_miner_stats-Agrees_example =
    get_miner_stats-Agrees by_insertion whole_quotient sample 100 2
      ((_, refl), ((_, refl), ((_, refl), tt))) board_runs.0 refl

table_rows_complete_example :
    (top rest : List LeaderboardEntry) × (board ≡ top ++ rest)
    × All (λ e. e.rank ≤ 21) top
    × All (λ e. 21 < e.rank) rest
    × (min 21 (length board) ≤ length top)
    × (table_rows board
        ≡ map paid_row top
          ++ (map open_slot (numbers_after (length board) (21 - length board))
              ++ (cutoff ∷ map (λ e. unpaid (entry_row dash e)) rest)))
table_rows_complete_example =
    table_rows_complete by_insertion whole_quotient sample 100 board_runs.0

abbrev dave : Text
dave = replicate 12 b'd'

dave-IsUnlike : All (IsUnlike dave) (recent_addresses by_insertion sample)
unfolding recent_addresses round_shares active_round distinct insertion_sort insert text_eq
dave-IsUnlike = (refl, (refl, (refl, tt)))

get_miner_stats-IsUnranked_example :
    (m : MinerStats) × (get_miner_stats by_insertion whole_quotient (returned sample) dave
      ≡ returned m)
    × IsUnranked by_insertion whole_quotient sample 0 m
get_miner_stats-IsUnranked_example =
    get_miner_stats-IsUnranked by_insertion whole_quotient sample 0 dave
      ((_, refl), ((_, refl), ((_, refl), tt))) dave-IsUnlike

abbrev any_offset : Number → Outcome ℕ
any_offset x = returned 0

block_pages_show_example :
    ((s : Section BlockRow) × (blocks_page by_insertion whole_quotient any_offset 0
          (returned sample)
        ≡ returned s)
      × Shows 50 (count_by (λ b. b.confirmed) sample.blocks) s)
    × ((s : Section SoloRow) × (solo_page by_insertion whole_quotient any_offset 0 (returned sample)
          ≡ returned s)
        × Shows 20 (length sample.solo_blocks) s)
block_pages_show_example = block_pages_show by_insertion whole_quotient any_offset 0 sample refl

miner_page-HasCards_example :
    (p : MinerPage) × (miner_page by_insertion whole_quotient any_offset
        (clock / 1000)
        carol
        (returned sample)
      ≡ returned p)
    × HasCards (entry_of 3 carol 30 (codes "700") (codes "7101467")) p.cards
miner_page-HasCards_example =
    miner_page-HasCards by_insertion whole_quotient any_offset (clock / 1000) sample 100 2
      ((_, refl), ((_, refl), ((_, refl), tt))) board_runs.0 refl
