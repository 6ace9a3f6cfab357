-- ===== src/Pages/Loading.antt =====
-- The pages under web/app that read the database: what they load, and which of their parts they show.
-- `Promise.all` is of promises that end in the order of the list.
pub mod Shown
use solounlucky.Prelude.{ℕ, Bool, true, false, List, [], ◌∷◌, map, Option, none, some, Text, codes}
use solounlucky.Js.{Number}
use solounlucky.Sql.{OrderBy}
use solounlucky.Store.{Tables}
use solounlucky.Js.{finite}
use solounlucky.Db.Outcome.{Outcome, returned, ◌>>=◌}
use solounlucky.Db.Board.{LeaderboardEntry, get_leaderboard}
use solounlucky.Db.Miner.{MinerStats, HistoryRow, AppearanceRow, get_miner_stats}
use solounlucky.Db.Stats.{PoolStats, ExtendedPoolStats, get_pool_stats, get_extended_pool_stats}
use solounlucky.Db.Blocks.{BlockSummary, SoloBlock, get_blocks, get_solo_blocks}
use solounlucky.External.{ExternalStats}
use solounlucky.Pages.Ranking.{TableRow, table_rows, LiveNumbers, live_numbers}
use solounlucky.Pages.Miner.{Card, cards, activity_rows, appearance_rows}
use solounlucky.Pages.Stats.{StatsView, stats_view}
use solounlucky.Pages.Tables.{BlockRow, block_row, SoloRow, solo_row}

-- A part that shows a table, or what stands in its place while there is nothing to show.
pub data Section (A : Type 0) : Type 0 where
  notice : (lines : List Text) → Section A
  table : (headings : List Text) (rows : List A) → Section A

-- `xs.length === 0 ? … : …`
abbrev pub section_of : {A B : Type 0} → (lines headings : List Text) → (A → B) → List A → Section B
section_of lines headings row [] = notice lines
section_of lines headings row (x ∷ xs) = table headings (map row (x ∷ xs))

abbrev pub no_blocks : List Text
no_blocks =
    codes "0"
    ∷ codes "Unlucky21 has not found any blocks…. YET"
    ∷ codes "Be the first — connect your miner."
    ∷ []

abbrev pub block_headings : List Text
block_headings = codes "Height" ∷ codes "Found" ∷ codes "Finder" ∷ codes "Fees" ∷ codes "Slots" ∷ []

abbrev pub no_solo_blocks : List Text
no_solo_blocks =
    codes "No blocks found yet."
    ∷ codes
        "Every valid block submitted on port 5555 will appear here with the finder's address and payout."
    ∷ []

abbrev pub solo_headings : List Text
solo_headings =
    codes "Height" ∷ codes "Finder" ∷ codes "Payout" ∷ codes "Found" ∷ codes "Status" ∷ []

-- A part that is shown only if there is something to show: `xs.length > 0 && …`.
abbrev pub part_of :
    {A B : Type 0} → (headings : List Text) → (List A → List B) → List A → Option (Section B)
part_of headings rows [] = none
part_of headings rows (x ∷ xs) = some (table headings (rows (x ∷ xs)))

abbrev pub activity_headings : List Text
activity_headings = codes "Hour (UTC)" ∷ codes "Shares" ∷ codes "Best Share" ∷ []

abbrev pub appearance_headings : List Text
appearance_headings = codes "Height" ∷ codes "Found" ∷ codes "Payout" ∷ []

pub record StatsPage : Type 0 where
  pub view : StatsView
  pub blocks : Section BlockRow

-- The cards, or the notice that the address is not on the leaderboard.
pub record MinerPage : Type 0 where
  pub cards : Option (List Card)
  pub activity : Option (Section (ℕ × Text × Text))
  pub appearances : Option (Section (ℕ × Text × Text))

abbrev pub whole_offset : Number
whole_offset = finite false 0

unfoldable pub miner_page_of : (now : ℕ) → MinerStats → MinerPage
miner_page_of now stats = record {
  cards = cards now stats;
  activity = part_of activity_headings activity_rows stats.share_history;
  appearances = part_of appearance_headings (appearance_rows now) stats.blocks_in_top_21;
}

module _ (db : OrderBy) (quotient_text : ℕ → ℕ → Text) (to_bigint : Number → Outcome ℕ)
    (now : ℕ) where
  -- `BlocksPage`
  unfoldable pub blocks_page : Outcome Tables → Outcome (Section BlockRow)
  blocks_page connection = do
    blocks ← get_blocks db to_bigint connection 50 whole_offset
    returned (section_of no_blocks block_headings (block_row now) blocks)

  -- `SoloPage`
  unfoldable pub solo_page : Outcome Tables → Outcome (Section SoloRow)
  solo_page connection = do
    blocks ← get_solo_blocks db to_bigint connection 20
    returned (section_of no_solo_blocks solo_headings (solo_row now) blocks)

  -- `StatsPage`; `getExternalStats` is never rejected.
  unfoldable pub stats_page :
      (exp_neg : ℕ → ℕ) (external : ExternalStats) → Outcome Tables → Outcome StatsPage
  stats_page exp_neg external connection = do
    stats ← get_extended_pool_stats db quotient_text connection
    blocks ← get_blocks db to_bigint connection 20 whole_offset
    returned record {
      view = stats_view exp_neg stats external;
      blocks = section_of no_blocks block_headings (block_row now) blocks;
    }

  -- `HomePage`
  unfoldable pub home_page : Outcome Tables → Outcome LiveNumbers
  home_page connection = do
    stats ← get_pool_stats db quotient_text connection
    leaderboard ← get_leaderboard db quotient_text connection 21
    returned (live_numbers stats leaderboard)

  -- `LeaderboardPage`
  unfoldable pub leaderboard_page : Outcome Tables → Outcome (List TableRow)
  leaderboard_page connection = do
    leaderboard ← get_leaderboard db quotient_text connection 100
    returned (table_rows leaderboard)

  -- `MinerDetailPage`, of an address that `decodeURIComponent` has read
  unfoldable pub miner_page : (address : Text) → Outcome Tables → Outcome MinerPage
  miner_page address connection = do
    stats ← get_miner_stats db quotient_text connection address
    returned (miner_page_of now stats)
