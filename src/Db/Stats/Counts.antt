-- ===== src/Db/Stats/Counts.antt =====
-- The totals of `getPoolStats` (web/lib/db.ts).
use solounlucky.Prelude.{ℕ, ◌≡◌, ap, Text, length}
use solounlucky.Js.{whole}
use solounlucky.Js.Roundtrip.{parse_int-to_string}
use solounlucky.Sql.{OrderBy}
use solounlucky.Store.{Tables}
use solounlucky.Db.Outcome.{returned}
use solounlucky.Db.Stats.{
  get_pool_stats, pool_stats, confirmed_blocks, active_addresses, round_started, latest_height,
}

module _ (db : OrderBy) (quotient_text : ℕ → ℕ → Text) where
  pool_stats_counts :
      (t : Tables)
      → pool_stats db quotient_text t ≡ record {
        total_blocks = whole (length (confirmed_blocks db quotient_text t));
        active_miners_7d = whole (length (active_addresses db quotient_text t));
        current_round_started = round_started db quotient_text t;
        latest_block_height = latest_height db quotient_text t;
      }
  unfolding pool_stats
  pool_stats_counts t = rw (
    parse_int-to_string (length (confirmed_blocks db quotient_text t)),
    parse_int-to_string (length (active_addresses db quotient_text t)),
  )

  -- `getPoolStats` counts the confirmed blocks, and the addresses with a share in the last seven days
  -- in any round; both counts survive the trip through the database's text.
  pub get_pool_stats_counts :
      (t : Tables)
      → get_pool_stats db quotient_text (returned t)
        ≡ returned record {
          total_blocks = whole (length (confirmed_blocks db quotient_text t));
          active_miners_7d = whole (length (active_addresses db quotient_text t));
          current_round_started = round_started db quotient_text t;
          latest_block_height = latest_height db quotient_text t;
        }
  unfolding get_pool_stats
  get_pool_stats_counts t = ap returned (pool_stats_counts t)
