-- ===== src/Service/Ranking/Agreement.antt =====
-- `GetTop21` (reward-service/internal/leaderboard/service.go) and `getLeaderboard` (web/lib/db.ts) rank the
-- same miners.
use mathlib.Core.Path.{subst, ap₂, fun_ext}
use solounlucky.Prelude.{
  ℕ, ◌+◌, ◌^◌, ◌<◌, ◌≡◌, refl, sym, ap, ◌∙◌, inl, inr, Bool, true, false, not, List, [], ◌∷◌, map,
  Option, none, some, Text, text_eq, arith, ltb, lt→ltb, ◌==◌, All, All-take, All-filter, any_by,
  filter, take, map-map, Bool-cases,
}
use solounlucky.Sql.{OrderBy, distinct, max_of, larger, rank_by}
use solounlucky.Sql.Laws.{descending}
use solounlucky.Sql.Standing.{AreFirst, take-AreFirst}
use solounlucky.Sql.Sorted.{rank_among, ranks_agree}
use solounlucky.Store.{Tables, Share}
use solounlucky.Leaderboard.{
  Joined, joined, round_shares, recent_addresses, active_round, of_address, is_recent,
  session_shares, joined_row, join_row, collect, aggregate,
}
use solounlucky.Leaderboard.Order.{joined_row-any}
use solounlucky.Db.Outcome.{returned}
use solounlucky.Db.Board.{LeaderboardEntry, get_leaderboard}
use solounlucky.Db.Board.Ranks.{
  Standing, standing, standing_among, count-beats, get_leaderboard_ranked,
}
use solounlucky.Service.Database.{execute}
use solounlucky.Service.Blocks.Renewal.{quiet}
use solounlucky.Service.Ranking.{
  Entry, counts, has_cast, has_casts, best_of_row, entry_of, entries_of, ranked_rows, top_rows,
  get_top_21,
}

-- The best share is a BIGINT.
abbrev pub IsBigint : Joined → Type 0
IsBigint r = (n : ℕ) × (r.alltime_best ≡ some n) × (n < 2 ^ 63)

-- A miner and its rank.
pub record Place : Type 0 where
  pub btc_address : Text
  pub rank : ℕ

abbrev pub place : Entry → Place
place e = record { btc_address = e.btc_address; rank = e.rank }

abbrev pub board_place : LeaderboardEntry → Place
board_place e = record { btc_address = e.btc_address; rank = e.rank }

abbrev joined_place : (Joined → ℕ) → Joined → Place
joined_place rank r = record { btc_address = r.btc_address; rank = rank r }

-- A row's miner, and its rank by the best shares of all rows.
abbrev pub place_among : List Joined → Joined → Place
place_among all = joined_place (rank_among (λ r. r.alltime_best) all)

-- A share whose difficulty is a BIGINT.
abbrev pub IsWhole : Share → Type 0
IsWhole s = (n : ℕ) × (s.true_difficulty ≡ some n) × (n < 2 ^ 63)

max_of-IsWhole :
    (s : Share) (more : List Share)
    → All IsWhole (s ∷ more)
    → (n : ℕ) × (max_of (map (λ u. u.true_difficulty) (s ∷ more)) ≡ some n) × (n < 2 ^ 63)
unfolding max_of
max_of-IsWhole s [] ((n, e, small), a) = (n, rw e refl, small)
max_of-IsWhole s (u ∷ more) ((n, e, small), a) =
    let (m, f, least) = max_of-IsWhole u more a in
    elim (Bool-cases (ltb n m)) [
      | inl lt ↦ (m, rw e (ap (larger n) f ∙ rw lt refl), least)
      | inr ge ↦ (n, rw e (ap (larger n) f ∙ rw ge refl), small)
    ]

max_of-has_cast :
    (ss : List Share) → All IsWhole ss → has_cast (max_of (map (λ u. u.true_difficulty) ss)) ≡ true
unfolding max_of
max_of-has_cast [] a = refl
max_of-has_cast (s ∷ more) a =
    let (n, e, small) = max_of-IsWhole s more a in ap has_cast e ∙ lt→ltb n (2 ^ 63) small

any_by-none :
    (p : Text → Bool) (as' : List Text) → ((a : Text) → p a ≡ false) → any_by p as' ≡ false
any_by-none p [] h = refl
any_by-none p (a ∷ as') h = rw (h a) (any_by-none p as' h)

All-session_shares :
    (db : OrderBy) (a : Text) (shares : List Share)
    → All IsWhole shares
    → All IsWhole (session_shares db a shares)
unfolding session_shares
All-session_shares db a shares w =
    All-filter IsWhole _ (of_address a shares)
      (All-filter IsWhole (λ s. text_eq a s.btc_address) shares w)

has_casts-true :
    (db : OrderBy) (shares : List Share) → All IsWhole shares → has_casts db shares ≡ true
unfolding has_casts
has_casts-true db shares w = ap not (
    any_by-none _ (distinct (map (λ s. s.btc_address) shares))
      λ a. ap not (max_of-has_cast (session_shares db a shares) (All-session_shares db a shares w)))

joined_row-IsBigint :
    (db : OrderBy) (now : ℕ) (shares : List Share) (a : Text) {r : Joined}
    → All IsWhole shares
    → joined_row db now shares a ≡ some r
    → IsBigint r
unfolding joined_row aggregate
joined_row-IsBigint db now shares a {r} w h =
    go (filter (is_recent now) (of_address a shares)) (session_shares db a shares)
      (All-session_shares db a shares w) h
  where
    go : (us ss : List Share) → All IsWhole ss → join_row a us ss ≡ some r → IsBigint r
    go [] ss all e = cc
    go (u ∷ us) [] all e = cc
    go (u ∷ us) (s ∷ more) all e =
        subst (λ (o : Option Joined). elim o as (λ _. Type 0) [ none ↦ Unit | some q ↦ IsBigint q ])
          e (max_of-IsWhole s more all)

collect-IsBigint :
    (f : Text → Option Joined) (keys : List Text)
    → ((a : Text) (r : Joined) → f a ≡ some r → IsBigint r)
    → All IsBigint (collect f keys)
collect-IsBigint f [] h = tt
collect-IsBigint f (k ∷ keys) h = go (f k) (h k) (collect-IsBigint f keys h)
  where
    go :
        (o : Option Joined)
        → ((r : Joined) → o ≡ some r → IsBigint r)
        → All IsBigint (collect f keys)
        → All IsBigint (elim o [ none ↦ collect f keys | some r ↦ r ∷ collect f keys ])
    go none own rest = rest
    go (some r) own rest = (own r refl, rest)

filter-counts :
    (round : ℕ) (ss : List Share)
    → All (λ s. s.is_stale ≡ false) ss
    → filter (counts round) ss ≡ filter (λ s. s.round_id == round) ss
filter-counts round [] a = refl
filter-counts round (s ∷ ss) (h, a) = ground (arith, filter-counts round ss a)

entry_of-eq :
    (rank : Joined → ℕ) (r : Joined)
    → IsBigint r
    → (e : Entry) × (entry_of rank r ≡ returned e) × (place e ≡ joined_place rank r)
unfolding entry_of best_of_row
entry_of-eq rank r (n, e, small) = (
  record {
    btc_address = r.btc_address;
    best_share_difficulty = n;
    last_activity = r.last_seen;
    rank = rank r;
  },
  rw (e, best_of_row) refl,
  refl,
)

entries_of-eq :
    (rank : Joined → ℕ) (rs : List Joined)
    → All IsBigint rs
    → (es : List Entry) × (entries_of rank rs ≡ returned es)
      × (map place es ≡ map (joined_place rank) rs)
unfolding entries_of
entries_of-eq rank [] a = ([], refl, refl)
entries_of-eq rank (r ∷ rs) (h, a) =
    let (e, found, same) = entry_of-eq rank r h in
    let (es, more, rest) = entries_of-eq rank rs a in
    (e ∷ es, rw (found, more) refl, ap₂ (λ x xs. x ∷ xs) same rest)

-- The rows that are ranked for the active round.
module _ (db web : OrderBy) (t : Tables) (round : ℕ) where
  round_shares-active :
      active_round web t.rounds ≡ some round
      → round_shares web t ≡ filter (λ s. s.round_id == round) t.shares
  unfolding round_shares
  round_shares-active active = rw (active, round_shares) refl

  ranked_rows-joined :
      active_round web t.rounds ≡ some round
      → All (λ s. s.is_stale ≡ false) t.shares
      → ranked_rows db t.now (filter (counts round) t.shares) ≡ joined web t
  unfolding ranked_rows joined recent_addresses
  ranked_rows-joined active fresh =
      rw
        (
          filter-counts round t.shares fresh ∙ sym (round_shares-active active),
          joined_row-any db web t.now (round_shares web t),
        )
        refl

ranked_rows-IsBigint :
    (db : OrderBy) (now : ℕ) (shares : List Share)
    → All IsWhole shares
    → All IsBigint (ranked_rows db now shares)
unfolding ranked_rows
ranked_rows-IsBigint db now shares w =
    collect-IsBigint (joined_row db now shares) _ (λ a r h. joined_row-IsBigint db now shares a w h)

abbrev place_of : Standing → Place
place_of p = record { btc_address = p.btc_address; rank = p.rank }

rank_by-among :
    (all : List Joined) → rank_by (λ r. r.alltime_best) all ≡ rank_among (λ r. r.alltime_best) all
unfolding rank_by
rank_by-among all = fun_ext λ r. ap (λ (n : ℕ). 1 + n) (count-beats r.alltime_best all)

-- The service's database and that of the web application may order peers differently, also from one
-- query to the next. If no share is stale and each share's difficulty is a BIGINT, then for the active
-- round `GetTop21` and the leaderboard of 21 entries succeed and rank the same rows: each lists the
-- first 21 of a sort of them by best share, a miner with its address and the rank that it has among
-- all of them, and the ranks of the two lists are the same. So only peers of the last rank can differ.
pub get_top_21-Agrees :
    (db web : OrderBy) (quotient_text : ℕ → ℕ → Text) (t : Tables) (round : ℕ)
    → active_round web t.rounds ≡ some round
    → All (λ s. s.is_stale ≡ false) t.shares
    → All IsWhole t.shares
    → (entries : List Entry) × (board : List LeaderboardEntry) × (rows others : List Joined)
      × (get_top_21 db quiet t round ≡ returned entries)
      × (get_leaderboard web quotient_text (returned t) 21 ≡ returned board)
      × AreFirst (λ r. r.alltime_best) 21 (joined web t) rows
      × AreFirst (λ r. r.alltime_best) 21 (joined web t) others
      × (map place entries ≡ map (place_among (joined web t)) rows)
      × (map board_place board ≡ map (place_among (joined web t)) others)
      × (map (λ e. e.rank) entries ≡ map (λ e. e.rank) board)
unfolding get_top_21 execute top_rows joined
get_top_21-Agrees db web quotient_text t round active fresh wholes =
    let all = joined web t in
    let ranked = ranked_rows-joined db web t round active fresh in
    let rows = take 21 (db.order_by Joined (descending λ r. r.alltime_best) all) in
    let first : AreFirst (λ r. r.alltime_best) 21 all rows =
      take-AreFirst db (λ (r : Joined). r.alltime_best) 21 all in
    let counted = All-filter IsWhole (counts round) t.shares wholes in
    let bigints : All IsBigint all =
      subst (All IsBigint) ranked
        (ranked_rows-IsBigint db t.now (filter (counts round) t.shares) counted) in
    let (entries, found, placed) =
      entries_of-eq (rank_by (λ r. r.alltime_best) all) rows
        (All-take IsBigint 21 _ (db.All-order_by Joined _ IsBigint all bigints)) in
    let (board, shown, (others, second, standings), _, _) =
      get_leaderboard_ranked web quotient_text t 21 in
    let mine : map place entries ≡ map (place_among all) rows =
      placed ∙ ap (λ (rank : Joined → ℕ). map (joined_place rank) rows) (rank_by-among all) in
    let theirs : map board_place board ≡ map (place_among all) others =
      sym (map-map place_of standing board)
      ∙ ap (map place_of) standings
      ∙ map-map place_of (standing_among all) others in
    (
      entries,
      board,
      rows,
      others,
      rw (ranked, has_casts-true db (filter (counts round) t.shares) counted) found,
      shown,
      first,
      second,
      mine,
      theirs,
      sym (map-map (λ (p : Place). p.rank) place entries)
          ∙ ap (map λ (p : Place). p.rank) mine
          ∙ map-map (λ (p : Place). p.rank) (place_among all) rows
          ∙ ranks_agree (λ r. r.alltime_best) 21 all rows others first second
          ∙ sym (map-map (λ (p : Place). p.rank) (place_among all) others)
          ∙ sym (ap (map λ (p : Place). p.rank) theirs)
          ∙ map-map (λ (p : Place). p.rank) board_place board,
    )
