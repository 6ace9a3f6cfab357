-- ===== src/Pages/Ranking.antt =====
-- web/app/leaderboard/page.tsx and web/app/page.tsx.
pub mod Slots
pub mod Live
use solounlucky.Prelude.{
  ℕ, zero, suc, ◌+◌, ◌-◌, ◌^◌, Bool, true, false, List, [], ◌∷◌, ◌++◌, map, Option, none, some, inl,
  Text, codes, length, take, filter, ltb, leb, if◌then◌else◌, to_string,
}
use solounlucky.Double.{literal, of_ℕ}
use solounlucky.Js.{Number, finite, is_at_least, to_fixed, whole}
use solounlucky.Format.{format_btc, format_best_share, truncate}
use solounlucky.Db.Board.{LeaderboardEntry}
use solounlucky.Db.Stats.{PoolStats}

pub data Badge : Type 0 where
  rental pro home : Badge

unfoldable pub badge_of : LeaderboardEntry → Badge
badge_of e =
    if e.is_rental
    then rental
    else if is_at_least e.hashrate_7d_ths (literal 100 1)
    then pro
    else home

pub record EntryRow : Type 0 where
  pub rank : ℕ
  pub link : Text
  pub address : Text
  pub badge : Badge
  pub best_share : Text
  pub payout : Text

-- The rows of the table body.
pub data TableRow : Type 0 where
  ranked : EntryRow → TableRow
  open_slot : (rank : ℕ) → TableRow
  cutoff : TableRow
  unpaid : EntryRow → TableRow

abbrev pub dash : Text
dash = 0x2014 ∷ []

-- `formatBestShare` of null, which is falsy, or of '0', its default elsewhere, is the dash.
abbrev pub best_of : Option Text → Text
best_of none = dash
best_of (some s) = format_best_share (inl s)

unfoldable pub entry_row : Text → LeaderboardEntry → EntryRow
entry_row payout e = record {
  rank = e.rank;
  link = codes "/miner/" ++ e.btc_address;
  address = truncate e.btc_address 10 8;
  badge = badge_of e;
  best_share = best_of e.best_share;
  payout = payout;
}

abbrev pub in_top_21 : LeaderboardEntry → Bool
in_top_21 e = leb e.rank 21

abbrev pub below_top_21 : LeaderboardEntry → Bool
below_top_21 e = ltb 21 e.rank

unfoldable pub ranked_row : LeaderboardEntry → TableRow
ranked_row e = ranked (entry_row (format_btc (whole e.estimated_payout_sats)) e)

unfoldable pub unpaid_row : LeaderboardEntry → TableRow
unpaid_row e = unpaid (entry_row dash e)

-- The open slots, `count` of them, from the number after `start` on.
unfoldable pub open_slots : (start count : ℕ) → List TableRow
open_slots start zero = []
open_slots start (suc n) = open_slot (start + 1) ∷ open_slots (start + 1) n

unfoldable pub table_rows : List LeaderboardEntry → List TableRow
table_rows leaderboard =
    let top_21 = filter in_top_21 leaderboard in
    map ranked_row top_21
    ++ (open_slots (length top_21) (21 - length top_21)
        ++ (cutoff ∷ map unpaid_row (filter below_top_21 leaderboard)))

-- The four live numbers of the home page, from `getPoolStats()` and `getLeaderboard(21)`.
pub record LiveNumbers : Type 0 where
  pub blocks_found : Number
  pub active_miners : Number
  pub slots_filled : Text
  pub btc_per_slot : Text

unfoldable pub live_numbers : PoolStats → List LeaderboardEntry → LiveNumbers
live_numbers stats leaderboard = record {
  blocks_found = stats.total_blocks;
  active_miners = stats.active_miners_7d;
  slots_filled = to_string (length leaderboard) ++ codes " / 21";
  btc_per_slot = elim leaderboard [
    | [] ↦ dash
    | e ∷ _ ↦ format_btc (whole e.estimated_payout_sats)
  ];
}
