-- ===== src/Pages/Tables.antt =====
-- The tables of blocks: web/app/blocks/page.tsx, web/app/stats/page.tsx and web/app/solo/page.tsx.
use solounlucky.Prelude.{ℕ, ◌++◌, Bool, Text, codes, to_string, if◌then◌else◌}
use solounlucky.Format.{format_btc, truncate, time_ago}
use solounlucky.Db.Blocks.{BlockSummary, SoloBlock}

pub record BlockRow : Type 0 where
  pub height : ℕ
  pub found : Text
  pub link : Text
  pub finder : Text
  pub fees : Text
  pub slots : Text

unfoldable pub block_row : ℕ → BlockSummary → BlockRow
block_row now b = record {
  height = b.height;
  found = time_ago now b.found_at;
  link = codes "/miner/" ++ b.finder_address;
  finder = truncate b.finder_address 10 8;
  fees = format_btc b.block_fees_sats;
  slots = to_string b.slots_filled ++ codes " / 21";
}

pub data Status : Type 0 where
  orphaned confirmed pending : Status

-- `StatusBadge`
unfoldable pub status_badge : (is_confirmed is_orphaned : Bool) → Status
status_badge is_confirmed is_orphaned =
    if is_orphaned then orphaned else if is_confirmed then confirmed else pending

pub record SoloRow : Type 0 where
  pub height : ℕ
  pub link : Text
  pub finder : Text
  pub payout : Text
  pub found : Text
  pub status : Status

unfoldable pub solo_row : ℕ → SoloBlock → SoloRow
solo_row now b = record {
  height = b.height;
  link = codes "https://mempool.space/address/" ++ b.finder_address;
  finder = truncate b.finder_address 16 8;
  payout = format_btc b.payout_sats;
  found = time_ago now b.found_at;
  status = status_badge b.confirmed b.is_orphaned;
}
