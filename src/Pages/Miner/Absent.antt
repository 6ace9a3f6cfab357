-- ===== src/Pages/Miner/Absent.antt =====
-- The page of a miner who is not ranked (web/app/miner/[address]/page.tsx).
use solounlucky.Prelude.{ℕ, ◌≡◌, refl, List, [], none, Text, All, filter}
use mathlib.Core.Path.{subst, sym}
use solounlucky.Prelude.{map, ap}
use solounlucky.Sql.{OrderBy}
use solounlucky.Store.{Tables}
use solounlucky.Leaderboard.{joined, recent_addresses}
use solounlucky.Leaderboard.Rows.{joined-addresses}
use solounlucky.Leaderboard.Unique.{IsUnlike, rows_at-none}
use solounlucky.Db.Outcome.{returned}
use solounlucky.Db.Board.{BoardRow, board_row}
use solounlucky.Db.Miner.{
  MinerStats, HistoryRow, AppearanceRow, rank_rows, history_rows, miner_stats, get_miner_stats,
}
use solounlucky.Db.Miner.Agreement.{HasSnapshot, block_rows-loads}
use solounlucky.Pages.Miner.{cards}

module _ (db : OrderBy) (quotient_text : ℕ → ℕ → Text) (t : Tables) where
  rank_rows-absent :
      (a : Text) → All (IsUnlike a) (recent_addresses db t) → rank_rows db quotient_text t a ≡ []
  unfolding rank_rows
  rank_rows-absent a h =
      ap (map (board_row db quotient_text t))
        (rows_at-none a (joined db t) (subst (All (IsUnlike a)) (sym (joined-addresses db t)) h))

  abbrev pub IsUnranked : ℕ → MinerStats → Type 0
  IsUnranked now m =
      (m.current_rank ≡ none) × (m.estimated_payout_sats ≡ none) × (cards now m ≡ none)

  miner_stats-IsUnranked :
      (now : ℕ) (a : Text) (rows : List BoardRow) (h : List HistoryRow) (b : List AppearanceRow)
      → rows ≡ []
      → IsUnranked now (miner_stats db quotient_text a rows h b)
  unfolding miner_stats cards
  miner_stats-IsUnranked now a rows h b e = rw e (refl, refl, refl)

  -- An address that has no share in the last seven days of the round, if the snapshot of each confirmed
  -- block is a JSON array, has statistics with no rank and no payout, and its page has no cards.
  pub get_miner_stats-IsUnranked :
      (now : ℕ) (a : Text)
      → All (HasSnapshot db quotient_text t) (filter (λ b. b.confirmed) t.blocks)
      → All (IsUnlike a) (recent_addresses db t)
      → (m : MinerStats) × (get_miner_stats db quotient_text (returned t) a ≡ returned m)
        × IsUnranked now m
  unfolding get_miner_stats
  get_miner_stats-IsUnranked now a snapshots h =
      let (appeared, e) = block_rows-loads db quotient_text t a snapshots in
      let rows = rank_rows db quotient_text t a in
      let history = history_rows db quotient_text t a in
      (
        miner_stats db quotient_text a rows history appeared,
        rw e,
        miner_stats-IsUnranked now a rows history appeared (rank_rows-absent a h),
      )
