-- ===== src/Examples/Sessions.antt =====
-- The queries' rows on the small pool of Examples.antt: web/lib/db.ts.
use solounlucky.Prelude.{to_string, ℕ, ◌≡◌, refl, List, [], ◌∷◌, map, filter, length}
use solounlucky.Sql.Insertion.{by_insertion}
use solounlucky.Sql.{sum_of}
use solounlucky.Db.Miner.{history_rows}
use solounlucky.Db.Miner.History.{history_rows_add_up}
use solounlucky.Leaderboard.{
  is_recent, of_address, in_session, session_start, times_of, session_shares,
}
use solounlucky.Leaderboard.Sessions.{last_session, filter-session_start}
use solounlucky.Leaderboard.Rows.{length-session_shares}
use solounlucky.Leaderboard.{Joined, joined, round_shares, active_round}
use solounlucky.Leaderboard.Best.{joined-best}
use solounlucky.Store.{Share, Tables}
use solounlucky.Leaderboard.Unique.{rows_at}
use solounlucky.Sql.{max_of}
use solounlucky.Examples.{share_of, bob}
use solounlucky.Prelude.{arith, text_eq}
use solounlucky.Sql.Insertion.{insertion_sort}
use solounlucky.Examples.{alice, whole_quotient, sample, shares}

-- Two shares, an idle fortnight, and two more shares.
abbrev times : List ℕ
times = 1 ∷ 2 ∷ 1_209_600_000_002 ∷ 1_209_600_000_003 ∷ []

filter-session_start_example : filter (in_session (session_start times)) times ≡ last_session times
filter-session_start_example =
    filter-session_start times
      ((refl, (refl, (refl, tt))), ((refl, (refl, tt)), ((refl, tt), (tt, tt))))

length-session_shares_example :
    length (session_shares by_insertion alice shares)
    ≡ length (last_session (times_of by_insertion alice shares))
length-session_shares_example = length-session_shares by_insertion alice shares

-- Alice mines every three days: her share of 9000 is twelve days old.
abbrev steady : List Share
steady =
    share_of alice 1_036_800 9000
    ∷ share_of bob 3600 5000
    ∷ share_of alice 777_600 5000
    ∷ share_of alice 518_400 5000
    ∷ share_of alice 259_200 5000
    ∷ share_of alice 60 5000
    ∷ []

abbrev steady_tables : Tables
steady_tables = record sample { shares = steady }

joined-best_example :
    (r : Joined) × (rows_at alice (joined by_insertion steady_tables) ≡ r ∷ [])
    × (r.alltime_best
        ≡ max_of (
            map
              (λ s. s.true_difficulty)
              (of_address alice (round_shares by_insertion steady_tables))))
unfolding times_of insertion_sort text_eq round_shares active_round
joined-best_example = joined-best by_insertion steady_tables alice (omega arith) refl

history_rows_add_up_example :
    (counts : List ℕ) × (map (λ r. r.count) (history_rows by_insertion whole_quotient sample alice)
      ≡ map to_string counts)
    × (sum_of counts ≡ length (filter (is_recent sample.now) (of_address alice shares)))
history_rows_add_up_example = history_rows_add_up by_insertion whole_quotient sample alice
