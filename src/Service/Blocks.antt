-- ===== src/Service/Blocks.antt =====
-- reward-service/internal/leaderboard/service.go: the blocks, their snapshots, and the rounds that they
-- end.
pub mod Rounds
pub mod Rows
pub mod Ends
pub mod Records
pub mod Renewal
pub mod Sound
use solounlucky.Prelude.{
  ℕ, suc, ◌+◌, ◌-◌, ◌/◌, Bool, true, false, not, ◌&&◌, List, [], ◌∷◌, ◌++◌, map, Option, none, some,
  Text, codes, length, filter, any_by, text_eq, leb, ◌==◌, if◌then◌else◌,
}
use solounlucky.Double.{of_ℕ, mul, floor}
use solounlucky.Sql.{OrderBy}
use solounlucky.Store.{Tables, Round, Block, SnapshotEntry}
use solounlucky.Coinbase.{finder_percent, pool_fee_percent, max_ranked_slots}
use solounlucky.Db.Outcome.{Outcome, returned, thrown, ◌>>=◌, ◌>>◌}
use solounlucky.Service.Database.{
  Database, Faults, insert_block, select_round, begin_confirm, select_closed, mark_confirmed,
  close_round, open_round, commit_confirm, select_unconfirmed, mark_orphaned, execute, after, wrap,
  check, settle, has_round,
}
use solounlucky.Service.Ranking.{Entry, get_top_21}

pub record BlockFound : Type 0 where
  pub round_id : ℕ
  pub height : ℕ
  pub hash : Text
  pub finder_address : Text
  pub coinbase_txid : Text
  pub fees_sats : ℕ

unfoldable pub snapshot_slot : (fees : ℕ) → ℕ
snapshot_slot fees =
    let total = 312_500_000 + fees in
    let finder_amount = floor (mul (of_ℕ total) finder_percent) in
    let pool_fee_base = floor (mul (of_ℕ total) pool_fee_percent) in
    (total - finder_amount - pool_fee_base) / max_ranked_slots

-- `buildSnapshot`; the JSON is always an array.
unfoldable pub build_snapshot : List Entry → (fees : ℕ) → List SnapshotEntry
build_snapshot entries fees =
    map (λ e. record { rank = e.rank; address = e.btc_address; amount_sats = snapshot_slot fees })
      entries

unfoldable pub block_added : BlockFound → List SnapshotEntry → Database → Database
block_added bf snapshot d = record d {
  tables = record d.tables {
    blocks =
        d.tables.blocks
        ++ record {
          id = d.next_block;
          round_id = bf.round_id;
          height = bf.height;
          hash = bf.hash;
          found_at = d.tables.now;
          finder_address = bf.finder_address;
          coinbase_txid = some bf.coinbase_txid;
          top_21_snapshot = some snapshot;
          block_fees_sats = bf.fees_sats;
          confirmed = false;
          is_orphaned = false;
        }
          ∷ [];
  };
  next_block = suc d.next_block;
}

-- `INSERT INTO blocks`, with the constraints of its columns.
unfoldable pub add_block : BlockFound → List SnapshotEntry → Database → Outcome (ℕ × Database)
add_block bf snapshot d = do
  check (not (any_by (λ b. text_eq bf.hash b.hash) d.tables.blocks)) (codes "duplicate key value")
  check (has_round bf.round_id d.tables.rounds)
      (codes "violates foreign key constraint fk_blocks_round")
  check
      (leb (length bf.hash) 64
        && leb (length bf.finder_address) 90
        && leb (length bf.coinbase_txid) 64)
      (codes "value too long for type character varying")
  returned (d.next_block, block_added bf snapshot d)

-- `RecordUnconfirmedBlock`
unfoldable pub record_unconfirmed_block :
    OrderBy → Faults → BlockFound → Database → Outcome ℕ × Database
record_unconfirmed_block db faults bf d = settle d do
  entries ←
      wrap (codes "RecordUnconfirmedBlock snapshot") (get_top_21 db faults d.tables bf.round_id)
  wrap (codes "RecordUnconfirmedBlock insert")
      (execute faults insert_block >>= λ _. add_block bf (build_snapshot entries bf.fees_sats) d)

abbrev pub block_with : ℕ → List Block → Option Block
block_with id [] = none
block_with id (b ∷ bs) = if b.id == id then some b else block_with id bs

abbrev pub round_of : ℕ → List Block → Outcome ℕ
round_of id bs = elim (block_with id bs) [
  | none ↦ thrown (codes "no rows in result set")
  | some b ↦ returned b.round_id
]

abbrev pub is_closed : Round → Bool
is_closed r = elim r.ended_at [ none ↦ false | some _ ↦ true ]

-- `SELECT ended_at IS NOT NULL FROM rounds WHERE id=$1`
unfoldable pub round_closed : ℕ → List Round → Bool
round_closed id rounds = any_by (λ r. (r.id == id) && is_closed r) rounds

-- The error of that query is dropped, and leaves the variable false.
unfoldable pub already_closed : Faults → (block round : ℕ) → List Round → Bool
already_closed faults block round rounds = elim (faults (select_closed block)) [
  | some _ ↦ false
  | none ↦ round_closed round rounds
]

unfoldable pub confirm_row : ℕ → List Block → List Block
confirm_row id = map (λ b. if b.id == id then record b { confirmed = true } else b)

unfoldable pub end_round : (now block round : ℕ) → List Round → List Round
end_round now block round =
    map (λ r. if r.id == round then record r { ended_at = some now; block_id = some block } else r)

-- The transaction for a round that is still open.
unfoldable pub next_round_opened : (block round : ℕ) → Database → Database
next_round_opened block round d = record d {
  tables = record d.tables {
    blocks = confirm_row block d.tables.blocks;
    rounds =
        end_round d.tables.now block round d.tables.rounds
        ++ record { id = d.next_round; started_at = d.tables.now; ended_at = none; block_id = none }
          ∷ [];
  };
  next_round = suc d.next_round;
}

unfoldable pub confirm_only : (block : ℕ) → Database → Database
confirm_only block d = record d {
  tables = record d.tables { blocks = confirm_row block d.tables.blocks };
}

unfoldable pub close_and_open : Faults → (block round : ℕ) → Database → Outcome (ℕ × Database)
close_and_open faults block round d = do
  wrap (codes "ConfirmBlock mark confirmed") (execute faults (mark_confirmed block))
  wrap (codes "ConfirmBlock close round") (execute faults (close_round block))
  wrap (codes "ConfirmBlock open new round") (execute faults (open_round block))
  wrap (codes "ConfirmBlock commit") (execute faults (commit_confirm block))
  returned (d.next_round, next_round_opened block round d)

unfoldable pub confirm_again : Faults → (block round : ℕ) → Database → Outcome (ℕ × Database)
confirm_again faults block round d = do
  wrap (codes "ConfirmBlock mark confirmed (round already closed)")
      (execute faults (mark_confirmed block))
  wrap (codes "ConfirmBlock commit (round already closed)") (execute faults (commit_confirm block))
  returned (round, confirm_only block d)

-- `ConfirmBlock`
unfoldable pub confirm_block : Faults → (block : ℕ) → Database → Outcome ℕ × Database
confirm_block faults block d = settle d do
  round ←
      wrap (codes "ConfirmBlock get round_id")
        (execute faults (select_round block) >>= λ _. round_of block d.tables.blocks)
  wrap (codes "ConfirmBlock begin tx") (execute faults (begin_confirm block))
  (if already_closed faults block round d.tables.rounds
      then confirm_again (after faults (select_closed block)) block round d
      else close_and_open (after faults (select_closed block)) block round d)

pub record UnconfirmedBlock : Type 0 where
  pub id : ℕ
  pub hash : Text
  pub height : ℕ
  pub round_id : ℕ

abbrev pub is_unconfirmed : Block → Bool
is_unconfirmed b = not b.confirmed && not b.is_orphaned

abbrev pub unconfirmed_of : Block → UnconfirmedBlock
unconfirmed_of b = record { id = b.id; hash = b.hash; height = b.height; round_id = b.round_id }

-- `GetUnconfirmedBlocks`, oldest first
unfoldable pub get_unconfirmed_blocks : OrderBy → Faults → Tables → Outcome (List UnconfirmedBlock)
get_unconfirmed_blocks db faults t = do
  wrap (codes "GetUnconfirmedBlocks") (execute faults select_unconfirmed)
  returned (
      map unconfirmed_of
        (db.order_by Block (λ b c. leb b.found_at c.found_at) (filter is_unconfirmed t.blocks)))

unfoldable pub orphan_row : ℕ → List Block → List Block
orphan_row id = map (λ b. if b.id == id then record b { is_orphaned = true } else b)

unfoldable pub orphan_only : (block : ℕ) → Database → Database
orphan_only block d = record d {
  tables = record d.tables { blocks = orphan_row block d.tables.blocks };
}

unfoldable pub mark_as_orphaned : Faults → (block : ℕ) → Database → Outcome (Unit {0}) × Database
mark_as_orphaned faults block d = settle d do
  wrap (codes "MarkOrphaned") (execute faults (mark_orphaned block))
  returned (tt, orphan_only block d)
