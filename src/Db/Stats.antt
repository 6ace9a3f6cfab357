-- ===== src/Db/Stats.antt =====
-- `getPoolStats` and `getExtendedPoolStats` of web/lib/db.ts.
pub mod Threshold
pub mod Counts
use solounlucky.Prelude.{
  ℕ, ◌+◌, ◌*◌, ◌^◌, Bool, true, false, not, ◌&&◌, List, [], ◌∷◌, map, Option, none, some, Text,
  codes, length, to_string, filter, ltb, leb, ◌==◌, if◌then◌else◌,
}
use solounlucky.Js.{Number, parse_int, parse_float}
use solounlucky.Sql.{OrderBy, distinct, max_of, sum_of, rank_by}
use solounlucky.Sql.Laws.{descending}
use solounlucky.Store.{Tables, Round, Share, Block, week, ten_minutes}
use solounlucky.Leaderboard.{active_round, round_shares, of_address, is_active, is_recent}
use solounlucky.Db.Outcome.{Outcome, returned, thrown, ◌>>=◌}
use solounlucky.Db.Board.{map_option, to_date}

pub record PoolStats : Type 0 where
  pub total_blocks : Number
  pub active_miners_7d : Number
  pub current_round_started : Option ℕ
  pub latest_block_height : Option ℕ

pub record ExtendedPoolStats : Type 0 where
  pub stats : PoolStats
  pub accepted_shares_total : Number
  pub best_share_ever : Text
  pub min_top_21_share : Option Text
  pub pool_hashrate_hs : Number

-- MIN ignores NULL.
abbrev pub smaller : ℕ → Option ℕ → Option ℕ
smaller a none = some a
smaller a (some b) = some (if ltb b a then b else a)

unfoldable pub min_of : List (Option ℕ) → Option ℕ
min_of [] = none
min_of (none ∷ xs) = min_of xs
min_of (some a ∷ xs) = smaller a (min_of xs)

-- `ROUND(x)::BIGINT::TEXT` of a whole NUMERIC: out of the range of BIGINT the query fails.
abbrev pub bigint_text : Option ℕ → Outcome (Option Text)
bigint_text none = returned none
bigint_text (some n) =
    if ltb n (2 ^ 63) then returned (some (to_string n)) else thrown (codes "bigint out of range")

abbrev pub count_text : {A : Type 0} → List A → Text
count_text xs = to_string (length xs)

-- A row of `best_per_address`.
pub record BestRow : Type 0 where
  pub btc_address : Text
  pub best_share : Option ℕ

module _ (db : OrderBy) (quotient_text : ℕ → ℕ → Text) where
  abbrev pub confirmed_blocks : Tables → List Block
  confirmed_blocks t = filter (λ b. b.confirmed) t.blocks

  abbrev pub active_addresses : Tables → List Text
  active_addresses t = distinct (map (λ s. s.btc_address) (filter (is_recent t.now) t.shares))

  abbrev pub round_started : Tables → Option ℕ
  round_started t =
      let rows =
        db.order_by Round (descending λ r. some r.started_at) (filter is_active t.rounds) in
      elim rows [ [] ↦ none | r ∷ _ ↦ some (to_date r.started_at) ]

  abbrev pub latest_height : Tables → Option ℕ
  latest_height t =
      let rows = db.order_by Block (descending λ b. some b.found_at) (confirmed_blocks t) in
      elim rows [ [] ↦ none | b ∷ _ ↦ some b.height ]

  unfoldable pub pool_stats : Tables → PoolStats
  pool_stats t = record {
    total_blocks = parse_int (count_text (confirmed_blocks t));
    active_miners_7d = parse_int (count_text (active_addresses t));
    current_round_started = round_started t;
    latest_block_height = latest_height t;
  }

  unfoldable pub get_pool_stats : Outcome Tables → Outcome PoolStats
  get_pool_stats connection = do t ← connection; returned (pool_stats t)

  unfoldable pub eligible_shares : Tables → List Share
  eligible_shares t = filter (λ s. is_recent t.now s && not s.is_stale) (round_shares db t)

  unfoldable pub best_per_address : Tables → List BestRow
  best_per_address t =
      let shares = eligible_shares t in
      let best = λ (a : Text). max_of (map (λ s. s.true_difficulty) (of_address a shares)) in
      map (λ a. record { btc_address = a; best_share = best a })
        (distinct (map (λ s. s.btc_address) shares))

  -- `SELECT MIN(best_share) FROM ranked WHERE rnk <= 21`
  unfoldable pub min_top_21 : List BestRow → Option ℕ
  min_top_21 rows =
      min_of
        (map (λ r. r.best_share) (filter (λ r. leb (rank_by (λ q. q.best_share) rows r) 21) rows))

  unfoldable pub recent_difficulty : Tables → ℕ
  recent_difficulty t = sum_of (
      map (λ s. s.share_difficulty)
        (filter (λ s. ltb t.now (s.submitted_at + ten_minutes) && not s.is_stale) t.shares))

  unfoldable pub get_extended_pool_stats : Outcome Tables → Outcome ExtendedPoolStats
  get_extended_pool_stats connection = do
    t ← connection
    best_ever ← bigint_text (max_of (map (λ s. s.true_difficulty) t.shares))
    min_share ← bigint_text (min_top_21 (best_per_address t))
    returned record {
      stats = pool_stats t;
      accepted_shares_total = parse_int (count_text (filter (λ s. not s.is_stale) t.shares));
      best_share_ever = elim best_ever [ none ↦ codes "0" | some s ↦ s ];
      min_top_21_share = min_share;
      pool_hashrate_hs = parse_float (quotient_text (recent_difficulty t * 4_294_967_296) 600);
    }
