-- ===== src/Db/Miner/Agreement.antt =====
-- `getMinerStats` agrees with `getLeaderboard` (web/lib/db.ts): two queries that repeat the same common
-- table expressions.
use mathlib.Core.Path.{subst}
use solounlucky.Prelude.{
  ℕ, ◌≡◌, refl, sym, ap, ◌∙◌, List, [], ◌∷◌, map, Option, none, some, Text, All, All-map, All-take,
  All-mono, arith, All-at, take, codes, get_elem?, filter, ◌++◌,
}
use solounlucky.Sql.{OrderBy}
use solounlucky.Sql.Laws.{descending}
use solounlucky.Store.{Tables, Block, SnapshotEntry}
use solounlucky.Leaderboard.{Joined, joined}
use solounlucky.Leaderboard.Unique.{rows_at, joined_unique}
use solounlucky.Payout.{subsidy_sats}
use solounlucky.Payout.Exact.{calc_payouts_exact}
use solounlucky.Db.Outcome.{Outcome, returned, thrown, ◌>>=◌, returned-injective}
use solounlucky.Db.Board.{
  LeaderboardEntry, BoardRow, board_row, board_rows, board_entry, get_leaderboard,
}
use solounlucky.Db.Board.Ranks.{entries_of-eq-map}
use solounlucky.Db.Miner.{dated}
use solounlucky.Db.Miner.{
  MinerStats, HistoryRow, AppearanceRow, rank_rows, history_rows, block_rows, miner_stats,
  get_miner_stats, appearances, block_appearances,
}

module _ (db : OrderBy) (quotient_text : ℕ → ℕ → Text) (t : Tables) where
  rank_rows-found :
      (r : Joined)
      → rows_at r.btc_address (joined db t) ≡ r ∷ []
      → rank_rows db quotient_text t r.btc_address ≡ board_row db quotient_text t r ∷ []
  unfolding rank_rows
  rank_rows-found r h = ap (map (board_row db quotient_text t)) h

  abbrev IsFound : BoardRow → Type 0
  IsFound row = rank_rows db quotient_text t row.btc_address ≡ row ∷ []

  board_rows-IsFound : (limit : ℕ) → All IsFound (board_rows db quotient_text t limit)
  unfolding board_rows board_row
  board_rows-IsFound limit =
      let best = λ (r : Joined). r.alltime_best in
      let rows = db.order_by Joined (descending best) (joined db t) in
      All-take IsFound limit (map (board_row db quotient_text t) rows) (
        All-map IsFound (board_row db quotient_text t) rows (
          All-mono _ _ rows rank_rows-found (
            db.All-order_by Joined (descending best)
              (λ r. rows_at r.btc_address (joined db t) ≡ r ∷ []) (joined db t)
              (joined_unique db t))))

  -- What the miner's page says of an entry.
  pub record Agrees (e : LeaderboardEntry) (m : MinerStats) : Type 0 where
    pub rank : m.current_rank ≡ some e.rank
    pub best_share : m.best_share ≡ e.best_share
    pub last_seen : m.last_seen ≡ e.last_seen
    pub payout : m.estimated_payout_sats ≡ some e.estimated_payout_sats

  miner_stats-found :
      (row : BoardRow) (rows : List BoardRow) (h : List HistoryRow) (b : List AppearanceRow)
      → rows ≡ row ∷ []
      → Agrees
          (board_entry db quotient_text 14_255_952 row)
          (miner_stats db quotient_text row.btc_address rows h b)
  unfolding miner_stats board_entry
  miner_stats-found row rows h b e = rw e record {
    rank = refl;
    best_share = refl;
    last_seen = refl;
    payout = ap (λ p. some p.per_slot) (calc_payouts_exact subsidy_sats 0 21 (omega arith));
  }

  get_miner_stats-found :
      (row : BoardRow) (appeared : List AppearanceRow)
      → IsFound row
      → block_rows db quotient_text t row.btc_address ≡ returned appeared
      → (m : MinerStats) × (get_miner_stats db quotient_text (returned t) row.btc_address
          ≡ returned m)
        × Agrees (board_entry db quotient_text 14_255_952 row) m
  unfolding get_miner_stats
  get_miner_stats-found row appeared found h = (
    miner_stats db quotient_text row.btc_address (rank_rows db quotient_text t row.btc_address)
        (history_rows db quotient_text t row.btc_address) appeared,
    rw h,
    miner_stats-found row _ _ appeared found,
  )

  -- The confirmed blocks' snapshots are JSON arrays.
  abbrev pub HasSnapshot : Block → Type 0
  HasSnapshot b = (es : List SnapshotEntry) × (b.top_21_snapshot ≡ some es)

  block_appearances-step :
      (a : Text) (b : Block) (o : Option (List SnapshotEntry)) (m : Outcome (List AppearanceRow))
      {es : List SnapshotEntry} {rest : List AppearanceRow}
      → o ≡ some es
      → m ≡ returned rest
      → (elim o [
        | none ↦ thrown (codes "cannot extract elements from a scalar")
        | some found ↦ m >>= λ more. returned (appearances a found b ++ more)
      ])
        ≡ returned (appearances a es b ++ rest)
  block_appearances-step a b o m h k = rw (h, k)

  block_appearances-loads :
      (a : Text) (bs : List Block)
      → All HasSnapshot bs
      → (rows : List AppearanceRow) × (block_appearances a bs ≡ returned rows)
  unfolding block_appearances
  block_appearances-loads a [] h = ([], refl)
  block_appearances-loads a (b ∷ bs) ((es, e), h) =
      let (rest, loads) = block_appearances-loads a bs h in
      (appearances a es b ++ rest, block_appearances-step a b _ _ e loads)

  pub block_rows-loads :
      (a : Text)
      → All HasSnapshot (filter (λ b. b.confirmed) t.blocks)
      → (rows : List AppearanceRow) × (block_rows db quotient_text t a ≡ returned rows)
  unfolding block_rows
  block_rows-loads a h =
      let (rows, e) = block_appearances-loads a _ h in
      (map dated (take 10 (db.order_by AppearanceRow (descending λ r. some r.found_at) rows)), rw e)

  abbrev AgreesStats : LeaderboardEntry → Type 0
  AgreesStats e =
      (m : MinerStats) × (get_miner_stats db quotient_text (returned t) e.btc_address ≡ returned m)
      × Agrees e m

  board_entry-AgreesStats :
      (row : BoardRow)
      → All HasSnapshot (filter (λ b. b.confirmed) t.blocks)
      → IsFound row
      → AgreesStats (board_entry db quotient_text 14_255_952 row)
  unfolding board_entry
  board_entry-AgreesStats row snapshots found =
      let (appeared, h) = block_rows-loads row.btc_address snapshots in
      get_miner_stats-found row appeared found h

  -- If the snapshot of each confirmed block is a JSON array, then for every entry of the leaderboard
  -- the miner's statistics load from the same tables, and they give the rank, the best share, the
  -- last activity and the estimated payout of that entry.
  pub get_miner_stats-Agrees :
      (limit i : ℕ) {entries : List LeaderboardEntry} {e : LeaderboardEntry}
      → All HasSnapshot (filter (λ b. b.confirmed) t.blocks)
      → get_leaderboard db quotient_text (returned t) limit ≡ returned entries
      → get_elem? entries i ≡ some e
      → (m : MinerStats) × (get_miner_stats db quotient_text (returned t) e.btc_address
          ≡ returned m)
        × Agrees e m
  unfolding get_leaderboard
  get_miner_stats-Agrees limit i {entries} snapshots h at =
      let rows = board_rows db quotient_text t limit in
      let same : map (board_entry db quotient_text 14_255_952) rows ≡ entries =
        sym (entries_of-eq-map db quotient_text rows) ∙ returned-injective h in
      All-at AgreesStats entries i
        (subst (All AgreesStats) same (
          All-map AgreesStats (board_entry db quotient_text 14_255_952) rows (
            All-mono IsFound _ rows (λ row found. board_entry-AgreesStats row snapshots found)
              (board_rows-IsFound limit))))
        at
