-- ===== src/Pool/Server.antt =====
-- The server of the shared pool (reward-service/cmd/server/main.go): its handler's calls, its three
-- loops and the confirmation loop's state. Each call of the handler, and each turn of a loop, is one
-- step.
pub mod Invariant
pub mod Keeping
pub mod Reading
use solounlucky.Prelude.{
  ℕ, ◌≤◌, ◌≡◌, ℤ, Bool, true, false, not, List, [], ◌∷◌, Option, none, some, Text, ◌==◌,
}
use solounlucky.Js.{Number}
use solounlucky.Sql.{OrderBy}
use solounlucky.Store.{Tables}
use solounlucky.Db.Outcome.{Outcome, returned, thrown}
use solounlucky.Service.Database.{Database, Faults}
use solounlucky.Service.Shares.{Service, flush_shares}
use solounlucky.Service.Blocks.{UnconfirmedBlock, get_unconfirmed_blocks}
use solounlucky.Socket.{ShareMessage, BlockMessage}
use solounlucky.Pool.{
  Pool, start, active_round_id, record_share, block_found, refresh_leaderboard, check_confirmations,
}

-- `polling` is whether `startConfirmationLoop` is in its inner loop.
pub record Server : Type 0 where
  pub pool : Pool
  pub polling : Bool

abbrev pub after_recovery : Pool → Outcome (List UnconfirmedBlock) → Pool
after_recovery p (thrown e) = p
after_recovery p (returned []) = p
after_recovery p (returned (b ∷ bs)) = record p { block_pending = true }

-- The seed of `startConfirmationLoop`.
unfoldable pub recover : OrderBy → Faults → Pool → Pool
recover db faults p = after_recovery p (get_unconfirmed_blocks db faults p.database.tables)

-- `main` up to the start of the loops: `thrown` is its exit.
unfoldable pub launch : OrderBy → Faults → Database → Outcome Server
launch db faults d = elim (active_round_id db d.tables) [
  | thrown e ↦ thrown e
  | returned round ↦ returned record { pool = recover db faults (start round d); polling = false }
]

-- The outer loop takes the signal.
unfoldable pub wake : Server → Server
wake s = record s { pool = record s.pool { block_pending = false }; polling = true }

-- A turn of the inner loop, which ends it if no block waits.
unfoldable pub poll : Faults → (Text → Outcome ℤ) → OrderBy → Server → Server
poll faults confirmations db s =
    let (remaining, p) = check_confirmations faults confirmations db s.pool in
    record { pool = p; polling = not (remaining == 0) }

-- A turn of `startShareFlushLoop`; an error is logged.
unfoldable pub flush : (Text → Outcome ℕ) → (Number → Outcome ℕ) → Faults → Pool → Pool
flush numeric numeric_of_double faults p =
    let (_, service, written) =
      flush_shares numeric numeric_of_double faults p.service p.database in
    record p { service = service; database = written }

-- The database's clock.
unfoldable pub advance : ℕ → Pool → Pool
advance now p = record p {
  database = record p.database { tables = record p.database.tables { now = now } };
}

module _ (db : OrderBy) (numeric : Text → Outcome ℕ) (numeric_of_double : Number → Outcome ℕ) where
  -- The statements that fail, and the confirmations that Bitcoin reports, differ from step to step.
  pub data Step (s : Server) : Server → Type 0 where
    share_received : (m : ShareMessage) → Step s (record s { pool = (record_share m s.pool).1 })
    block_reported :
        (faults : Faults) (m : BlockMessage)
        → Step s (record s { pool = (block_found db faults m s.pool).1 })
    refreshed :
        (faults : Faults) → Step s (record s { pool = refresh_leaderboard db faults s.pool })
    flushed :
        (faults : Faults)
        → Step s (record s { pool = flush numeric numeric_of_double faults s.pool })
    woken : s.polling ≡ false → s.pool.block_pending ≡ true → Step s (wake s)
    polled :
        (faults : Faults) (confirmations : Text → Outcome ℤ)
        → s.polling ≡ true
        → Step s (poll faults confirmations db s)
    ticked :
        (now : ℕ)
        → s.pool.database.tables.now ≤ now
        → Step s (record s { pool = advance now s.pool })

  pub data Steps (s : Server) : Server → Type 0 where
    unchanged : Steps s s
    step : (t u : Server) → Steps s t → Step t u → Steps s u
