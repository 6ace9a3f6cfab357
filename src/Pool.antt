-- ===== src/Pool.antt =====
-- The shared pool of reward-service/cmd/server/main.go: `poolHandler`, with the database that it writes.
pub mod Confirmations
pub mod Outputs
pub mod Reverts
pub mod Settling
pub mod Server
pub mod Ending
use solounlucky.Prelude.{
  ℕ, ◌+◌, ℤ, pos, negsuc, Bool, true, false, List, [], ◌∷◌, ◌++◌, map, Option, none, some, Text,
  codes, ltb, ◌==◌, if◌then◌else◌,
}
use solounlucky.Js.{Number}
use solounlucky.Sql.{OrderBy}
use solounlucky.Store.{Tables, Round}
use solounlucky.Leaderboard.{active_round}
use solounlucky.Coinbase.{CoinbaseOutput, build_outputs}
use solounlucky.Db.Outcome.{Outcome, returned, thrown, ◌>>=◌}
use solounlucky.Service.Database.{Database, Faults, wrap}
use solounlucky.Service.Shares.{Service, PendingShare, buffer_share, set_string, flush_shares}
use solounlucky.Service.Ranking.{Entry, get_top_21}
use solounlucky.Service.Blocks.{
  BlockFound, UnconfirmedBlock, record_unconfirmed_block, confirm_block, mark_as_orphaned,
  get_unconfirmed_blocks,
}
use solounlucky.Socket.{Output, Handler, ShareMessage, BlockMessage}

-- `ActiveRoundID` of reward-service/internal/db/db.go
unfoldable pub active_round_id : OrderBy → Tables → Outcome ℕ
active_round_id db t = elim (active_round db t.rounds) [
  | none ↦ thrown (codes "active round id: no rows in result set")
  | some id ↦ returned id
]

-- `block_pending` is whether the channel, of one place, is full.
pub record Pool : Type 0 where
  pub service : Service
  pub round_id : ℕ
  pub top_21 : List Entry
  pub block_pending : Bool
  pub database : Database

-- The handler that `main` makes once the active round is known.
unfoldable pub start : ℕ → Database → Pool
start round d = record {
  service = record { buffer = [] };
  round_id = round;
  top_21 = [];
  block_pending = false;
  database = d;
}

abbrev pub output_of : CoinbaseOutput → Output
output_of o = record { address = o.address; amount_sats = pos o.amount_sats }

-- `GetCoinbaseOutputs`: `none` is the panic of `BuildOutputs`.
unfoldable pub get_coinbase_outputs : Pool → Text → ℕ → Option (List Output)
get_coinbase_outputs p miner fees =
    elim (build_outputs miner 312_500_000 fees (map (λ e. e.btc_address) p.top_21)) [
      | none ↦ none
      | some os ↦ some (map output_of os)
    ]

-- `RecordShare`; `%q` is written as the text between quotation marks.
unfoldable pub record_share : ShareMessage → Pool → Outcome (Unit {0}) × Pool
record_share m p = elim (set_string m.difficulty) [
  | none ↦ (thrown (codes "invalid difficulty: " ++ (b'"' ∷ m.difficulty ++ (b'"' ∷ []))), p)
  | some d ↦
      let (result, service) =
        buffer_share
          (record {
            round_id = p.round_id;
            btc_address = m.btc_address;
            worker_name = m.worker_name;
            difficulty = some d;
            true_diff = m.true_difficulty;
            source_port = m.source_port;
          })
          p.service in
      (result, record p { service = service })
]

abbrev pub found_in : ℕ → BlockMessage → BlockFound
found_in round m = record {
  round_id = round;
  height = m.height;
  hash = m.hash;
  finder_address = m.finder_address;
  coinbase_txid = m.coinbase_txid;
  fees_sats = m.fees_sats;
}

abbrev pub after_block : Pool → Outcome ℕ → Database → Outcome (Unit {0}) × Pool
after_block p (thrown e) written =
    (wrap (codes "BlockFound record") (thrown e), record p { database = written })
after_block p (returned id) written =
    (returned tt, record p { database = written; block_pending = true })

abbrev pub after_orphan : (pending : ℕ) → Pool → Outcome (Unit {0}) → Database → ℕ × Pool
after_orphan pending p (thrown e) written = (pending + 1, record p { database = written })
after_orphan pending p (returned _) written = (pending, record p { database = written })

abbrev pub after_confirm : (pending : ℕ) → Pool → Outcome ℕ → Database → ℕ × Pool
after_confirm pending p (thrown e) written = (pending + 1, record p { database = written })
after_confirm pending p (returned round) written =
    (pending, record p { database = written; round_id = round; top_21 = [] })

-- The branches of `checkConfirmations` on the number of confirmations.
abbrev pub by_confirmations {ℓ} : {A : Type ℓ} → Outcome ℤ → (waiting orphaned confirmed : A) → A
by_confirmations (thrown e) waiting orphaned confirmed = waiting
by_confirmations (returned (negsuc n)) waiting orphaned confirmed = orphaned
by_confirmations (returned (pos n)) waiting orphaned confirmed =
    if ltb n 2 then waiting else confirmed

module _ (db : OrderBy) (faults : Faults) where
  -- `BlockFound`
  unfoldable pub block_found : BlockMessage → Pool → Outcome (Unit {0}) × Pool
  block_found m p =
      let (result, written) =
        record_unconfirmed_block db faults (found_in p.round_id m) p.database in
      after_block p result written

  -- `refreshLeaderboard`
  unfoldable pub refresh_leaderboard : Pool → Pool
  refresh_leaderboard p = elim (get_top_21 db faults p.database.tables p.round_id) [
    | thrown e ↦ p
    | returned entries ↦ record p { top_21 = entries }
  ]

module _ (faults : Faults) where
  -- `checkConfirmations` for a block that is off the main chain.
  unfoldable pub orphan : UnconfirmedBlock → (pending : ℕ) → Pool → ℕ × Pool
  orphan b pending p =
      let (result, written) = mark_as_orphaned faults b.id p.database in
      after_orphan pending p result written

  -- `checkConfirmations` for a block with two confirmations.
  unfoldable pub confirm : UnconfirmedBlock → (pending : ℕ) → Pool → ℕ × Pool
  confirm b pending p =
      let (result, written) = confirm_block faults b.id p.database in
      after_confirm pending p result written

  module _ (confirmations : Text → Outcome ℤ) where
    unfoldable pub check_block : UnconfirmedBlock → (pending : ℕ) → Pool → ℕ × Pool
    check_block b pending p =
        by_confirmations (confirmations b.hash) (pending + 1, p) (orphan b pending p)
          (confirm b pending p)

    unfoldable pub check_blocks : List UnconfirmedBlock → (pending : ℕ) → Pool → ℕ × Pool
    check_blocks [] pending p = (pending, p)
    check_blocks (b ∷ bs) pending p =
        let (pending', p') = check_block b pending p in check_blocks bs pending' p'

    -- `checkConfirmations`: the number of blocks that still wait.
    unfoldable pub check_confirmations : OrderBy → Pool → ℕ × Pool
    check_confirmations db p = elim (get_unconfirmed_blocks db faults p.database.tables) [
      | thrown e ↦ (1, p)
      | returned bs ↦ check_blocks bs 0 p
    ]
