-- ===== src/Db/Board/Ranks.antt =====
-- The list that `getLeaderboard` (web/lib/db.ts) returns: its order, ranks, length and payouts.
use Prim.Native.Nat.{min}
use solounlucky.Prelude.{
  ℕ, ◌+◌, ◌≡◌, refl, sym, ap, List, [], ◌∷◌, map, Option, true, Text, All, arith, take, count_by,
  to_string, ◌∙◌, length, map-take, length-take, length-map, length-eq-count_by,
}
use mathlib.Core.Path.{fun_ext, ap₂}
use solounlucky.Sql.{OrderBy, rank_by, above}
use solounlucky.Sql.Standing.{beats, AreFirst, take-AreFirst}
use solounlucky.Sql.Laws.{descending, descending-IsTotal, descending-IsTransitive}
use solounlucky.Sql.Ranking.{IsRanking, IsRanking-take, sorted-IsRanking}
use solounlucky.Store.{Tables}
use solounlucky.Leaderboard.{Joined, joined, rank_of}
use solounlucky.Payout.{subsidy_sats}
use solounlucky.Payout.Exact.{calc_payouts_exact}
use solounlucky.Db.Outcome.{returned}
use solounlucky.Db.Board.{
  LeaderboardEntry, BoardRow, board_row, board_rows, board_entry, entries_of, map_option,
  get_leaderboard,
}

-- What an entry says of the ranking.
pub record Standing : Type 0 where
  pub btc_address : Text
  pub best_share : Option Text
  pub rank : ℕ

abbrev pub standing : LeaderboardEntry → Standing
standing e = record { btc_address = e.btc_address; best_share = e.best_share; rank = e.rank }

-- A row among all rows: how many have a greater best share.
abbrev pub standing_among : List Joined → Joined → Standing
standing_among all r = record {
  btc_address = r.btc_address;
  best_share = map_option to_string r.alltime_best;
  rank = 1 + count_by (λ q. beats q.alltime_best r.alltime_best) all;
}

pub count-beats :
    (k : Option ℕ) (qs : List Joined)
    → count_by (λ q. above q.alltime_best k) qs ≡ count_by (λ q. beats q.alltime_best k) qs
count-beats k [] = refl
count-beats k (q ∷ qs) =
    let same : above q.alltime_best k ≡ beats q.alltime_best k = ground arith in
    rw (same, count-beats k qs) refl

module _ (db : OrderBy) (quotient_text : ℕ → ℕ → Text) where
  abbrev best : Joined → Option ℕ
  best r = r.alltime_best

  abbrev sorted_rows : Tables → List Joined
  sorted_rows t = db.order_by Joined (descending λ r. r.alltime_best) (joined db t)

  rank_of-eq : (t : Tables) → rank_of db t ≡ rank_by (λ r. r.alltime_best) (sorted_rows t)
  unfolding rank_of rank_by
  rank_of-eq t =
      fun_ext λ r. ap (λ (n : ℕ). 1 + n) (sym (db.count_order_by Joined _ _ (joined db t)))

  map-rank :
      (t : Tables) (rs : List Joined)
      → map (λ r. r.rank) (map (board_row db quotient_text t) rs) ≡ map (rank_of db t) rs
  unfolding board_row
  map-rank t [] = refl
  map-rank t (r ∷ rs) = ap (◌∷◌ (rank_of db t r)) (map-rank t rs)

  pub board_rows-IsRanking :
      (t : Tables) (limit : ℕ)
      → IsRanking 1 1 (map (λ r. r.rank) (board_rows db quotient_text t limit))
  unfolding board_rows
  board_rows-IsRanking t limit =
      rw (map-take, map-rank t (sorted_rows t), rank_of-eq t)
        (IsRanking-take limit 1 1 _ (
          sorted-IsRanking (λ r. r.alltime_best) (sorted_rows t)
            (db.order_by-IsSorted Joined (descending best) (descending-IsTotal best)
              (descending-IsTransitive best) (joined db t))))

  pub length-board_rows :
      (t : Tables) (limit : ℕ)
      → length (board_rows db quotient_text t limit) ≡ min limit (length (joined db t))
  unfolding board_rows
  length-board_rows t limit = rw (
    length-take,
    length-map,
    length-eq-count_by (sorted_rows t),
    db.count_order_by Joined _ (λ _. true) (joined db t),
    length-eq-count_by (joined db t),
  )

  -- The early return for no rows is no exception, and each slot pays the same.
  pub entries_of-eq-map :
      (rows : List BoardRow)
      → entries_of db quotient_text rows ≡ map (board_entry db quotient_text 14_255_952) rows
  unfolding entries_of
  entries_of-eq-map [] = refl
  entries_of-eq-map (r ∷ rows) =
      ap (λ p. map (board_entry db quotient_text p.per_slot) (r ∷ rows))
        (calc_payouts_exact subsidy_sats 0 (length (r ∷ rows)) (omega arith))

  map-entry-rank :
      (rows : List BoardRow)
      → map (λ e. e.rank) (map (board_entry db quotient_text 14_255_952) rows)
        ≡ map (λ r. r.rank) rows
  unfolding board_entry
  map-entry-rank [] = refl
  map-entry-rank (r ∷ rows) = ap (◌∷◌ r.rank) (map-entry-rank rows)

  All-payout :
      (rows : List BoardRow)
      → All
          (λ e. e.estimated_payout_sats ≡ 14_255_952)
          (map (board_entry db quotient_text 14_255_952) rows)
  unfolding board_entry
  All-payout [] = tt
  All-payout (r ∷ rows) = (refl, All-payout rows)

  -- The ranks, the number and the payouts of the entries that `getLeaderboard` returns.
  pub get_leaderboard_lists :
      (t : Tables) (limit : ℕ)
      → (entries : List LeaderboardEntry) × (get_leaderboard db quotient_text (returned t) limit
          ≡ returned entries)
        × IsRanking 1 1 (map (λ e. e.rank) entries)
        × (length entries ≡ min limit (length (joined db t)))
        × All (λ e. e.estimated_payout_sats ≡ 14_255_952) entries
  unfolding get_leaderboard
  get_leaderboard_lists t limit =
      let rows = board_rows db quotient_text t limit in
      (
        map (board_entry db quotient_text 14_255_952) rows,
        ap returned (entries_of-eq-map rows),
        rw (map-entry-rank rows) (board_rows-IsRanking t limit),
        rw length-map (length-board_rows t limit),
        All-payout rows,
      )

  map-standing :
      (t : Tables) (rs : List Joined)
      → map standing
          (map (board_entry db quotient_text 14_255_952) (map (board_row db quotient_text t) rs))
        ≡ map (standing_among (joined db t)) rs
  unfolding board_entry board_row rank_of rank_by
  map-standing t [] = refl
  map-standing t (r ∷ rs) =
      ap₂
        (λ n more.
          record {
            btc_address = r.btc_address;
            best_share = map_option to_string r.alltime_best;
            rank = 1 + n;
          }
          ∷ more)
        (count-beats r.alltime_best (joined db t)) (map-standing t rs)

  -- `getLeaderboard` returns an entry for each of the first ranked rows in the order of their best
  -- shares, the greatest first, as many as there are up to the limit: they and the others are all
  -- rows, sorted. An entry has the row's address and best share, and as its rank one more than the
  -- ranked miners with a greater best share. So the first rank is 1, and each further one repeats the
  -- rank before it or is the position. Each entry is promised 14,255,952 satoshis.
  pub get_leaderboard_ranked :
      (t : Tables) (limit : ℕ)
      → (entries : List LeaderboardEntry) × (get_leaderboard db quotient_text (returned t) limit
          ≡ returned entries)
        × ((rows : List Joined) × AreFirst (λ r. r.alltime_best) limit (joined db t) rows
            × (map standing entries ≡ map (standing_among (joined db t)) rows))
        × IsRanking 1 1 (map (λ e. e.rank) entries)
        × All (λ e. e.estimated_payout_sats ≡ 14_255_952) entries
  unfolding get_leaderboard board_rows
  get_leaderboard_ranked t limit =
      let rows = take limit (sorted_rows t) in
      let listed = board_rows db quotient_text t limit in
      (
        map (board_entry db quotient_text 14_255_952) listed,
        ap returned (entries_of-eq-map listed),
        (
          rows,
          take-AreFirst db best limit (joined db t),
          ap (λ rs. map standing (map (board_entry db quotient_text 14_255_952) rs))
                (sym (map-take (board_row db quotient_text t) limit (sorted_rows t)))
              ∙ map-standing t rows,
        ),
        rw (map-entry-rank listed) (board_rows-IsRanking t limit),
        All-payout listed,
      )
