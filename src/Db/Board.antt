-- ===== src/Db/Board.antt =====
-- `getLeaderboard` of web/lib/db.ts. Dates are milliseconds. `quotient_text n d` stands for the text of
-- the NUMERIC quotient n / d, whose scale the database chooses.
pub mod Ranks
pub mod Prefix
use solounlucky.Prelude.{
  ℕ, ◌+◌, ◌*◌, ◌/◌, ◌^◌, Bool, true, false, List, [], ◌∷◌, map, Option, none, some, Text, take,
  length, to_string,
}
use solounlucky.Double.{literal}
use solounlucky.Js.{Number, parse_float, div_by}
use solounlucky.Sql.{OrderBy}
use solounlucky.Sql.Laws.{descending}
use solounlucky.Store.{Tables}
use solounlucky.Leaderboard.{Joined, joined, rank_of}
use solounlucky.Payout.{Payouts, calc_payouts, subsidy_sats}
use solounlucky.Db.Outcome.{Outcome, returned, thrown, ◌>>=◌}

pub record LeaderboardEntry : Type 0 where
  pub rank : ℕ
  pub btc_address : Text
  pub best_share : Option Text
  pub last_seen : Option ℕ
  pub estimated_payout_sats : ℕ
  pub hashrate_7d_ths : Number
  pub is_rental : Bool

abbrev pub or_false : Option Bool → Bool
or_false none = false
or_false (some b) = b

abbrev pub map_option : {A B : Type 0} → (A → B) → Option A → Option B
map_option f none = none
map_option f (some a) = some (f a)

-- A TIMESTAMPTZ as a JavaScript date.
abbrev pub to_date : ℕ → ℕ
to_date micros = micros / 1000

-- A row of the result, as the query selects it.
pub record BoardRow : Type 0 where
  pub btc_address : Text
  pub best_share : Option Text
  pub last_seen : Option ℕ
  pub rank : ℕ
  pub hashrate_7d_hs : Text
  pub is_rental : Option Bool

module _ (db : OrderBy) (quotient_text : ℕ → ℕ → Text) where
  unfoldable pub board_row : Tables → Joined → BoardRow
  board_row t r = record {
    btc_address = r.btc_address;
    best_share = map_option to_string r.alltime_best;
    last_seen = map_option to_date r.last_seen;
    rank = rank_of db t r;
    hashrate_7d_hs = quotient_text (r.sum_diff * 4_294_967_296) (7 * 86_400);
    is_rental = r.is_rental;
  }

  -- ORDER BY a.alltime_best DESC LIMIT $1
  unfoldable pub board_rows : Tables → ℕ → List BoardRow
  board_rows t limit =
      take limit
        (map (board_row t) (db.order_by Joined (descending λ r. r.alltime_best) (joined db t)))

  unfoldable pub board_entry : ℕ → BoardRow → LeaderboardEntry
  board_entry per_slot row = record {
    rank = row.rank;
    btc_address = row.btc_address;
    best_share = row.best_share;
    last_seen = row.last_seen;
    estimated_payout_sats = per_slot;
    hashrate_7d_ths = div_by (parse_float row.hashrate_7d_hs) (literal (10 ^ 12) 1);
    is_rental = or_false row.is_rental;
  }

  -- From the rows on. An empty result returns early.
  unfoldable pub entries_of : List BoardRow → List LeaderboardEntry
  entries_of [] = []
  entries_of (r ∷ rows) =
      let payouts = calc_payouts subsidy_sats 0 (length (r ∷ rows)) in
      map (board_entry payouts.per_slot) (r ∷ rows)

  -- The connection fails, or gives the tables.
  unfoldable pub get_leaderboard : Outcome Tables → ℕ → Outcome (List LeaderboardEntry)
  get_leaderboard connection limit = do t ← connection; returned (entries_of (board_rows t limit))
