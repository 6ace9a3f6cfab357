-- ===== src/Service/Ranking.antt =====
-- `GetTop21` of reward-service/internal/leaderboard/service.go. Its query is that of `getLeaderboard`
-- (Leaderboard.antt) over the shares of one round that are not stale, so it uses the same
-- definitions.
pub mod Agreement
use solounlucky.Prelude.{
  ℕ, ◌^◌, Bool, true, not, ◌&&◌, List, [], ◌∷◌, map, Option, none, some, Text, codes, filter, take,
  any_by, ltb, ◌==◌, if◌then◌else◌,
}
use solounlucky.Sql.{OrderBy, distinct, max_of, rank_by}
use solounlucky.Sql.Laws.{descending}
use solounlucky.Store.{Tables, Share}
use solounlucky.Leaderboard.{Joined, is_recent, collect, joined_row, session_shares}
use solounlucky.Db.Outcome.{Outcome, returned, thrown, ◌>>=◌, ◌>>◌}
use solounlucky.Service.Database.{Faults, select_top, execute, wrap, check}

pub record Entry : Type 0 where
  pub btc_address : Text
  pub best_share_difficulty : ℕ
  pub last_activity : Option ℕ
  pub rank : ℕ

-- `round_id = $1 AND is_stale = false`
abbrev pub counts : ℕ → Share → Bool
counts round s = (s.round_id == round) && not s.is_stale

-- `FLOOR(MAX(s.true_difficulty))::BIGINT`, as far as it succeeds; NULL has a cast.
abbrev pub has_cast : Option ℕ → Bool
has_cast none = true
has_cast (some n) = ltb n (2 ^ 63)

-- The scan of `best_share` into a string, which NULL is not.
unfoldable pub best_of_row : Joined → Outcome ℕ
best_of_row r = elim r.alltime_best [
  | none ↦ thrown (codes "GetTop21 scan: cannot scan NULL into *string")
  | some n ↦ returned n
]

unfoldable pub entry_of : (Joined → ℕ) → Joined → Outcome Entry
entry_of rank r = do
  best ← best_of_row r
  returned record {
    btc_address = r.btc_address;
    best_share_difficulty = best;
    last_activity = r.last_seen;
    rank = rank r;
  }

unfoldable pub entries_of : (Joined → ℕ) → List Joined → Outcome (List Entry)
entries_of rank [] = returned []
entries_of rank (r ∷ rs) = do
  entry ← entry_of rank r
  entries ← entries_of rank rs
  returned (entry ∷ entries)

module _ (db : OrderBy) where
  -- `recent r JOIN alltime a`, over the shares that count.
  unfoldable pub ranked_rows : ℕ → List Share → List Joined
  ranked_rows now shares =
      collect (joined_row db now shares)
        (distinct (map (λ s. s.btc_address) (filter (is_recent now) shares)))

  unfoldable pub top_rows : Tables → ℕ → List Joined
  top_rows t round = take 21 (
      db.order_by Joined (descending λ r. r.alltime_best)
        (ranked_rows t.now (filter (counts round) t.shares)))

  -- The cast in `alltime`, which is made for each address of the round, ranked or not.
  unfoldable pub has_casts : List Share → Bool
  has_casts shares = not (
      any_by
        (λ a. not (has_cast (max_of (map (λ s. s.true_difficulty) (session_shares db a shares)))))
        (distinct (map (λ s. s.btc_address) shares)))

  unfoldable pub get_top_21 : Faults → Tables → (round : ℕ) → Outcome (List Entry)
  get_top_21 faults t round = do
    wrap (codes "GetTop21 query") (execute faults select_top)
    check (has_casts (filter (counts round) t.shares)) (codes "GetTop21 query: bigint out of range")
    entries_of (rank_by (λ r. r.alltime_best) (ranked_rows t.now (filter (counts round) t.shares)))
        (top_rows t round)
