-- ===== src/Db/Miner.antt =====
-- `getMinerStats` of web/lib/db.ts: its three queries and the record that it makes of them.
pub mod Agreement
pub mod History
use solounlucky.Prelude.{
  ℕ, ◌+◌, ◌*◌, ◌/◌, ◌^◌, Bool, true, false, not, ◌&&◌, List, [], ◌∷◌, ◌++◌, map, Option, none, some,
  Text, codes, take, length, to_string, text_eq, filter, ltb, leb, ◌==◌, if◌then◌else◌,
}
use solounlucky.Double.{literal}
use solounlucky.Js.{Number, parse_float, div_by}
use solounlucky.Sql.{OrderBy, max_of}
use solounlucky.Sql.Laws.{descending}
use solounlucky.Store.{Tables, Share, Block, SnapshotEntry, second}
use solounlucky.Leaderboard.{Joined, joined, rank_of, of_address, is_recent}
use solounlucky.Payout.{Payouts, calc_payouts, subsidy_sats}
use solounlucky.Db.Outcome.{Outcome, returned, thrown, ◌>>=◌}
use solounlucky.Db.Board.{BoardRow, board_row, map_option, to_date}

pub record HistoryRow : Type 0 where
  pub hour : ℕ
  pub count : Text
  pub best : Option Text

pub record AppearanceRow : Type 0 where
  pub height : ℕ
  pub found_at : ℕ
  pub amount_sats : Text

pub record MinerStats : Type 0 where
  pub address : Text
  pub current_rank : Option ℕ
  pub best_share : Option Text
  pub last_seen : Option ℕ
  pub estimated_payout_sats : Option ℕ
  pub hashrate_7d_ths : Option Number
  pub share_history : List HistoryRow
  pub blocks_in_top_21 : List AppearanceRow

-- `DATE_TRUNC('hour', submitted_at)`
abbrev pub hour_of : Share → ℕ
hour_of s = let hour = 3600 * second in s.submitted_at / hour * hour

unfoldable pub distinct_hours : List ℕ → List ℕ
distinct_hours [] = []
distinct_hours (h ∷ hs) = h ∷ filter (λ k. not (h == k)) (distinct_hours hs)

-- A BIGINT arrives as a text.
-- `jsonb_array_elements(top_21_snapshot) AS elem WHERE elem->>'address' = $1`
unfoldable pub appearances : Text → List SnapshotEntry → Block → List AppearanceRow
appearances a [] b = []
appearances a (e ∷ es) b =
    let row : AppearanceRow = record {
      height = b.height;
      found_at = b.found_at;
      amount_sats = to_string e.amount_sats;
    } in
    if text_eq a e.address then row ∷ appearances a es b else appearances a es b

-- The time as it arrives, a `Date`.
abbrev pub dated : AppearanceRow → AppearanceRow
dated r = record r { found_at = to_date r.found_at }

-- Over blocks; `jsonb_array_elements` of JSON that is no array fails the query.
unfoldable pub block_appearances : Text → List Block → Outcome (List AppearanceRow)
block_appearances a [] = returned []
block_appearances a (b ∷ bs) = elim b.top_21_snapshot [
  | none ↦ thrown (codes "cannot extract elements from a scalar")
  | some es ↦ block_appearances a bs >>= λ rest. returned (appearances a es b ++ rest)
]

-- `value ? … : null` of a text: the empty text is falsy.
abbrev pub hashrate_of : Text → Option Number
hashrate_of [] = none
hashrate_of (c ∷ s) = some (div_by (parse_float (c ∷ s)) (literal (10 ^ 12) 1))

module _ (db : OrderBy) (quotient_text : ℕ → ℕ → Text) where
  -- `SELECT … FROM ranked WHERE btc_address = $1`
  unfoldable pub rank_rows : Tables → Text → List BoardRow
  rank_rows t a =
      map (board_row db quotient_text t) (filter (λ r. text_eq a r.btc_address) (joined db t))

  unfoldable pub history_row : List Share → ℕ → HistoryRow
  history_row shares hour =
      let bucket = filter (λ s. hour_of s == hour) shares in
      record {
        hour = to_date hour;
        count = to_string (length bucket);
        best = map_option to_string (max_of (map (λ s. s.true_difficulty) bucket));
      }

  unfoldable pub history_rows : Tables → Text → List HistoryRow
  history_rows t a =
      let shares = filter (is_recent t.now) (of_address a t.shares) in
      map (history_row shares) (db.order_by ℕ leb (distinct_hours (map hour_of shares)))

  unfoldable pub block_rows : Tables → Text → Outcome (List AppearanceRow)
  block_rows t a = do
    rows ← block_appearances a (filter (λ b. b.confirmed) t.blocks)
    returned
        (map dated (take 10 (db.order_by AppearanceRow (descending λ r. some r.found_at) rows)))

  -- The record made of the rows; only the first ranked row is read.
  unfoldable pub miner_stats :
      Text → List BoardRow → List HistoryRow → List AppearanceRow → MinerStats
  miner_stats a rows history appeared =
      let payouts = calc_payouts subsidy_sats 0 21 in
      let first : Option BoardRow = elim rows [ [] ↦ none | r ∷ _ ↦ some r ] in
      record {
        address = a;
        current_rank = map_option (λ r. r.rank) first;
        best_share = elim first [ none ↦ none | some r ↦ r.best_share ];
        last_seen = elim first [ none ↦ none | some r ↦ r.last_seen ];
        estimated_payout_sats = map_option (λ r. payouts.per_slot) first;
        hashrate_7d_ths = elim first [ none ↦ none | some r ↦ hashrate_of r.hashrate_7d_hs ];
        share_history = history;
        blocks_in_top_21 = appeared;
      }

  -- The three queries run on one state of the tables; a failure of any rejects the promise.
  unfoldable pub get_miner_stats : Outcome Tables → Text → Outcome MinerStats
  get_miner_stats connection a = do
    t ← connection
    appeared ← block_rows t a
    returned (miner_stats a (rank_rows t a) (history_rows t a) appeared)
