-- ===== src/Pool/Server/Reading.antt =====
-- What the web application (web/lib/db.ts) reads of the tables that the server
-- (reward-service/cmd/server/main.go) writes.
use solounlucky.Prelude.{ℕ, ◌≡◌, List, some, Text, All-filter, get_elem?}
use solounlucky.Js.{Number}
use solounlucky.Sql.{OrderBy}
use solounlucky.Db.Outcome.{Outcome, returned}
use solounlucky.Db.Board.{LeaderboardEntry, get_leaderboard}
use solounlucky.Db.Miner.{MinerStats, get_miner_stats}
use solounlucky.Db.Miner.Agreement.{Agrees, get_miner_stats-Agrees}
use solounlucky.Service.Database.{Database, Faults}
use solounlucky.Service.Blocks.Sound.{IsSound}
use solounlucky.Pool.Server.{Server, Steps, launch}
use solounlucky.Pool.Server.Invariant.{Steps-IsSound}

module _ (db : OrderBy) (numeric : Text → Outcome ℕ) (numeric_of_double : Number → Outcome ℕ) where
  -- At any time after a launch on a sound database, for every entry of the leaderboard of the web
  -- application the miner's statistics load from the tables that the server has written, and they
  -- give the rank, the best share, the last activity and the estimated payout of that entry.
  pub Steps-Agrees :
      (quotient_text : ℕ → ℕ → Text) (faults : Faults) (d : Database) (s s' : Server) (limit i : ℕ)
      {entries : List LeaderboardEntry} {e : LeaderboardEntry}
      → IsSound d
      → launch db faults d ≡ returned s
      → Steps db numeric numeric_of_double s s'
      → get_leaderboard db quotient_text (returned s'.pool.database.tables) limit ≡ returned entries
      → get_elem? entries i ≡ some e
      → (m : MinerStats) × (get_miner_stats db quotient_text
            (returned s'.pool.database.tables)
            e.btc_address
          ≡ returned m)
        × Agrees db quotient_text s'.pool.database.tables e m
  Steps-Agrees quotient_text faults d s s' limit i sound launched steps shown at =
      let t = s'.pool.database.tables in
      let stored =
        (Steps-IsSound db numeric numeric_of_double faults d s s' sound launched steps).stored in
      get_miner_stats-Agrees db quotient_text t limit i
        (All-filter _ (λ b. b.confirmed) t.blocks stored) shown at
