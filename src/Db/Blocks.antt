-- ===== src/Db/Blocks.antt =====
-- `getBlocks`, `getBlock` and `getSoloBlocks` of web/lib/db.ts.
pub mod Pagination
pub mod Lookup
use solounlucky.Prelude.{
  ℕ, Bool, true, List, [], ◌∷◌, map, Option, none, some, Text, take, drop, length, to_string,
  filter, ◌==◌,
}
use solounlucky.Js.{Number, parse_int}
use solounlucky.Sql.{OrderBy}
use solounlucky.Sql.Laws.{descending}
use solounlucky.Store.{Tables, Block, SnapshotEntry, SoloBlockRow}
use solounlucky.Db.Outcome.{Outcome, returned, thrown, ◌>>=◌}
use solounlucky.Db.Board.{to_date}

pub record BlockSummary : Type 0 where
  pub id : ℕ
  pub height : ℕ
  pub found_at : ℕ
  pub finder_address : Text
  pub block_fees_sats : Number
  pub slots_filled : ℕ

-- A snapshot that is no array is given as it is, or as an empty list if it is null: `none` stands for that.
pub record BlockDetail : Type 0 where
  pub summary : BlockSummary
  pub hash : Text
  pub coinbase_txid : Option Text
  pub top_21_snapshot : Option (List SnapshotEntry)

pub record SoloBlock : Type 0 where
  pub id : ℕ
  pub height : ℕ
  pub hash : Text
  pub found_at : ℕ
  pub finder_address : Text
  pub coinbase_txid : Option Text
  pub fees_sats : Number
  pub payout_sats : Number
  pub confirmed : Bool
  pub is_orphaned : Bool

abbrev pub snapshot_of : Option (List SnapshotEntry) → List SnapshotEntry
snapshot_of none = []
snapshot_of (some es) = es

-- A BIGINT column arrives as a text.
unfoldable pub summary_of : Block → BlockSummary
summary_of b = record {
  id = b.id;
  height = b.height;
  found_at = to_date b.found_at;
  finder_address = b.finder_address;
  block_fees_sats = parse_int (to_string b.block_fees_sats);
  slots_filled = length (snapshot_of b.top_21_snapshot);
}

unfoldable pub solo_of : SoloBlockRow → SoloBlock
solo_of r = record {
  id = r.id;
  height = r.height;
  hash = r.hash;
  found_at = to_date r.found_at;
  finder_address = r.finder_address;
  coinbase_txid = r.coinbase_txid;
  fees_sats = parse_int (to_string r.fees_sats);
  payout_sats = parse_int (to_string r.payout_sats);
  confirmed = r.confirmed;
  is_orphaned = r.is_orphaned;
}

-- `to_bigint` stands for the driver and the database taking a number as OFFSET: a number that is no
-- BIGINT is refused.
module _ (db : OrderBy) (to_bigint : Number → Outcome ℕ) where
  unfoldable pub get_blocks : Outcome Tables → ℕ → Number → Outcome (List BlockSummary)
  get_blocks connection limit offset = do
    t ← connection
    skipped ← to_bigint offset
    let rows =
        db.order_by Block (descending λ b. some b.found_at) (filter (λ b. b.confirmed) t.blocks)
    returned (map summary_of (take limit (drop skipped rows)))

  -- LIMIT 1 with no order: any block of the height.
  unfoldable pub get_block : Outcome Tables → ℕ → Outcome (Option BlockDetail)
  get_block connection height = do
    t ← connection
    let rows = db.order_by Block (λ _ _. true) (filter (λ b. b.height == height) t.blocks)
    elim rows [
      | [] ↦ returned none
      | b ∷ _ ↦ returned (
          some record {
            summary = summary_of b;
            hash = b.hash;
            coinbase_txid = b.coinbase_txid;
            top_21_snapshot = b.top_21_snapshot;
          })
    ]

  unfoldable pub get_solo_blocks : Outcome Tables → ℕ → Outcome (List SoloBlock)
  get_solo_blocks connection limit = do
    t ← connection
    let rows = db.order_by SoloBlockRow (descending λ r. some r.found_at) t.solo_blocks
    returned (map solo_of (take limit rows))
