-- ===== src/Store.antt =====
-- The tables that reward-service writes and web/lib/db.ts reads, with the columns that their statements
-- name (reward-service/internal/db/schema.sql). Times are microseconds since the epoch.
use solounlucky.Prelude.{ℕ, ◌*◌, Bool, List, Option, Text}

pub record Round : Type 0 where
  pub id : ℕ
  pub started_at : ℕ
  pub ended_at : Option ℕ
  pub block_id : Option ℕ

pub record Share : Type 0 where
  pub round_id : ℕ
  pub btc_address : Text
  pub worker_name : Text
  pub share_difficulty : ℕ
  pub submitted_at : ℕ
  pub is_stale : Bool
  pub true_difficulty : Option ℕ
  pub source_port : Option ℕ

pub record SnapshotEntry : Type 0 where
  pub rank : ℕ
  pub address : Text
  pub amount_sats : ℕ

-- `top_21_snapshot` is `none` where the stored JSON is no array.
pub record Block : Type 0 where
  pub id : ℕ
  pub round_id : ℕ
  pub height : ℕ
  pub hash : Text
  pub found_at : ℕ
  pub finder_address : Text
  pub coinbase_txid : Option Text
  pub top_21_snapshot : Option (List SnapshotEntry)
  pub block_fees_sats : ℕ
  pub confirmed : Bool
  pub is_orphaned : Bool

pub record SoloBlockRow : Type 0 where
  pub id : ℕ
  pub height : ℕ
  pub hash : Text
  pub found_at : ℕ
  pub finder_address : Text
  pub coinbase_txid : Option Text
  pub fees_sats : ℕ
  pub payout_sats : ℕ
  pub confirmed : Bool
  pub is_orphaned : Bool

pub record Worker : Type 0 where
  pub btc_address : Text
  pub worker_name : Text
  pub last_seen : ℕ

-- The tables at the time `now` of a query.
pub record Tables : Type 0 where
  pub now : ℕ
  pub rounds : List Round
  pub shares : List Share
  pub blocks : List Block
  pub solo_blocks : List SoloBlockRow
  pub workers : List Worker

abbrev pub second : ℕ
second = 1_000_000

-- INTERVAL '7 days'
abbrev pub week : ℕ
week = 7 * 86_400 * second

-- INTERVAL '10 minutes'
abbrev pub ten_minutes : ℕ
ten_minutes = 600 * second
