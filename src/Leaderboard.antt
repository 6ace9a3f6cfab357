-- ===== src/Leaderboard.antt =====
-- The ranking queries of web/lib/db.ts: the common table expressions that `getLeaderboard` and
-- `getMinerStats` share, one definition each.
pub mod Sessions
pub mod Rows
pub mod Unique
pub mod Best
pub mod Order
use solounlucky.Prelude.{
  ℕ, suc, ◌+◌, ◌*◌, Bool, true, false, ◌&&◌, not, List, [], ◌∷◌, map, Option, none, some, Text,
  text_eq, filter, ltb, leb, ◌==◌, if◌then◌else◌,
}
use solounlucky.Sql.{OrderBy, distinct, max_of, sum_of, bool_or, rank_by, IsSorted}
use solounlucky.Sql.Laws.{descending}
use solounlucky.Store.{Round, Share, Tables, week}

-- `SELECT MAX(gap …) WHERE gap_before > '7 days'` over the times of one address in order: the times
-- that follow an idle gap of more than a week. The first time has no gap before it.
unfoldable pub gap_ends : List ℕ → List ℕ
gap_ends [] = []
gap_ends (t ∷ []) = []
gap_ends (t ∷ u ∷ ts) = if ltb (t + week) u then u ∷ gap_ends (u ∷ ts) else gap_ends (u ∷ ts)

unfoldable pub session_start : List ℕ → Option ℕ
session_start ts = max_of (map some (gap_ends ts))

-- `submitted_at >= COALESCE(session_start, '-infinity')`
unfoldable pub in_session : Option ℕ → ℕ → Bool
in_session none t = true
in_session (some start) t = leb start t

-- A row of `recent r JOIN alltime a`.
pub record Joined : Type 0 where
  pub btc_address : Text
  pub alltime_best : Option ℕ
  pub last_seen : Option ℕ
  pub sum_diff : ℕ
  pub is_rental : Option Bool

-- The columns that are read of `active_round`.
abbrev pub is_active : Round → Bool
is_active r = elim r.ended_at [ none ↦ true | some _ ↦ false ]

-- `source_port = 4444`, NULL for a NULL port.
abbrev pub is_rental_port : Option ℕ → Option Bool
is_rental_port none = none
is_rental_port (some p) = some (p == 4444)

abbrev pub of_address : Text → List Share → List Share
of_address a = filter (λ s. text_eq a s.btc_address)

abbrev pub is_recent : ℕ → Share → Bool
is_recent now s = ltb now (s.submitted_at + week)

-- The aggregates of `recent` over the recent shares, and those of `alltime` over the session's.
unfoldable pub aggregate : Text → (recent session : List Share) → Joined
aggregate a recent session = record {
  btc_address = a;
  alltime_best = max_of (map (λ r. r.true_difficulty) session);
  last_seen = max_of (map (λ r. some r.submitted_at) recent);
  sum_diff = sum_of (map (λ r. r.share_difficulty) recent);
  is_rental = bool_or (map (λ r. is_rental_port r.source_port) recent);
}

abbrev pub join_row : Text → (recent session : List Share) → Option Joined
join_row a [] session = none
join_row a (r ∷ rs) [] = none
join_row a (r ∷ rs) (s ∷ more) = some (aggregate a (r ∷ rs) (s ∷ more))

abbrev pub collect : (Text → Option Joined) → List Text → List Joined
collect f [] = []
collect f (a ∷ rest) = elim (f a) [ none ↦ collect f rest | some r ↦ r ∷ collect f rest ]

module _ (db : OrderBy) where
  unfoldable pub active_round : List Round → Option ℕ
  active_round rounds =
      let rows = db.order_by Round (descending λ r. some r.started_at) (filter is_active rounds) in
      elim rows [ [] ↦ none | r ∷ _ ↦ some r.id ]

  -- The shares with `round_id = (SELECT id FROM active_round)`; a NULL id equals nothing.
  unfoldable pub round_shares : Tables → List Share
  round_shares t = elim (active_round t.rounds) [
    | none ↦ []
    | some id ↦ filter (λ s. s.round_id == id) t.shares
  ]

  -- The times of one address, ORDER BY submitted_at.
  unfoldable pub times_of : Text → List Share → List ℕ
  times_of a shares =
      map (λ s. s.submitted_at)
        (db.order_by Share (λ s u. leb s.submitted_at u.submitted_at) (of_address a shares))

  -- The shares that `alltime` aggregates for one address.
  unfoldable pub session_shares : Text → List Share → List Share
  session_shares a shares =
      filter (λ s. in_session (session_start (times_of a shares)) s.submitted_at)
        (of_address a shares)

  -- The rows of one address in `recent r JOIN alltime a`: none if it has no recent share, or none counts.
  unfoldable pub joined_row : ℕ → List Share → Text → Option Joined
  joined_row now shares a =
      join_row a (filter (is_recent now) (of_address a shares)) (session_shares a shares)

  unfoldable pub recent_addresses : Tables → List Text
  recent_addresses t =
      distinct (map (λ s. s.btc_address) (filter (is_recent t.now) (round_shares t)))

  unfoldable pub joined : Tables → List Joined
  joined t = collect (joined_row t.now (round_shares t)) (recent_addresses t)

  -- `RANK() OVER (ORDER BY a.alltime_best DESC)`
  unfoldable pub rank_of : Tables → Joined → ℕ
  rank_of t = rank_by (λ r. r.alltime_best) (joined t)
