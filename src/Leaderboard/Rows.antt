-- ===== src/Leaderboard/Rows.antt =====
-- Which rows the join of the ranking queries (web/lib/db.ts) has.
use mathlib.Core.Path.{ap₂}
use solounlucky.Prelude.{
  ℕ, ◌<◌, ◌≡◌, refl, sym, ap, ◌∙◌, ◌⊎◌, inl, inr, Bool, true, not, List, [], ◌∷◌, map, Option, none,
  some, Text, text_eq, text_eq_refl, All, All-map, All-filter, All-mono, length, filter, count_by,
  length-filter, length-filter-map, length-map, length-eq-count_by, leb, Bool-cases, arith,
}
use solounlucky.Sql.{OrderBy, IsSorted, distinct, max_of}
use solounlucky.Store.{Share, Tables}
use solounlucky.Leaderboard.{
  Joined, in_session, session_start, of_address, is_recent, times_of, session_shares, aggregate,
  joined_row, join_row, collect, recent_addresses, joined, round_shares,
}
use solounlucky.Leaderboard.Sessions.{last_session, has_gap, filter-session_start}

pub List-cases {ℓ} :
    {A : Type ℓ} (xs : List A) → (xs ≡ []) ⊎ ((y : A) × (ys : List A) × (xs ≡ y ∷ ys))
List-cases [] = inl refl
List-cases (x ∷ xs) = inr (x, xs, refl)

All-sorted_map :
    (f : Share → ℕ) (s : Share) (xs : List Share)
    → All (λ y. leb (f s) (f y) ≡ true) xs
    → All (λ t. leb (f s) t ≡ true) (map f xs)
All-sorted_map f s xs a = All-map (λ t. leb (f s) t ≡ true) f xs a

IsSorted-map :
    (f : Share → ℕ) (xs : List Share)
    → IsSorted (λ s u. leb (f s) (f u)) xs
    → IsSorted leb (map f xs)
IsSorted-map f [] s = tt
IsSorted-map f (x ∷ xs) (a, s) = (All-sorted_map f x xs a, IsSorted-map f xs s)

length-last_session_pos : (ts : List ℕ) → 0 < length ts → 0 < length (last_session ts)
length-last_session_pos [] h = h
length-last_session_pos (t ∷ []) h = omega arith
length-last_session_pos (t ∷ u ∷ ts) h = elim (Bool-cases (has_gap (t ∷ u ∷ ts))) [
  | inl e ↦ rw e (length-last_session_pos (u ∷ ts) (omega arith))
  | inr e ↦ rw e (omega arith)
]

abbrev submitted : Share → ℕ
submitted s = s.submitted_at

abbrev in_time_order : Share → Share → Bool
in_time_order s u = leb (submitted s) (submitted u)

join_row-found :
    (a : Text) (recent session : List Share)
    → 0 < length recent
    → 0 < length session
    → (r : Joined) × (join_row a recent session ≡ some r)
      × (r.btc_address ≡ a)
      × (r.alltime_best ≡ max_of (map (λ s. s.true_difficulty) session))
unfolding aggregate
join_row-found a [] session h k = absurd (omega arith)
join_row-found a (u ∷ us) [] h k = absurd (omega arith)
join_row-found a (u ∷ us) (s ∷ more) h k = (aggregate a (u ∷ us) (s ∷ more), refl, refl, refl)

positive : (p : Share → Bool) (ss : List Share) → 0 < length (filter p ss) → 0 < length ss
positive p [] h = h
positive p (s ∷ ss) h = omega arith

module _ (db : OrderBy) (a : Text) (shares : List Share) where
  pub times_of-IsSorted : IsSorted leb (times_of db a shares)
  unfolding times_of
  times_of-IsSorted = IsSorted-map submitted _ (
      db.order_by-IsSorted Share in_time_order (λ s u. ground arith) (λ s u v h k. ground arith)
        (of_address a shares))

  length-times_of : length (times_of db a shares) ≡ length (of_address a shares)
  unfolding times_of
  length-times_of = rw (
    length-map,
    length-eq-count_by (db.order_by Share in_time_order (of_address a shares)),
    db.count_order_by Share in_time_order (λ _. true) (of_address a shares),
    length-eq-count_by (of_address a shares),
  )

  pub length-filter-times_of :
      (q : ℕ → Bool)
      → length (filter q (times_of db a shares))
        ≡ count_by (λ s. q (submitted s)) (of_address a shares)
  unfolding times_of
  length-filter-times_of q =
      length-filter-map q submitted (db.order_by Share in_time_order (of_address a shares))
      ∙ db.count_order_by Share in_time_order (λ s. q (submitted s)) (of_address a shares)

  -- The shares that count for an address's best share are as many as the times of its last session.
  pub length-session_shares :
      length (session_shares db a shares) ≡ length (last_session (times_of db a shares))
  unfolding session_shares
  length-session_shares =
      let start = session_start (times_of db a shares) in
      length-filter (λ s. in_session start (submitted s)) (of_address a shares)
      ∙ sym (length-filter-times_of (in_session start))
      ∙ ap length (filter-session_start (times_of db a shares) times_of-IsSorted)

  session_shares_pos : 0 < length (of_address a shares) → 0 < length (session_shares db a shares)
  session_shares_pos h =
      rw length-session_shares
        (length-last_session_pos (times_of db a shares) (rw length-times_of h))

  pub joined_row-found :
      (now : ℕ)
      → 0 < length (filter (is_recent now) (of_address a shares))
      → (r : Joined) × (joined_row db now shares a ≡ some r)
        × (r.btc_address ≡ a)
        × (r.alltime_best ≡ max_of (map (λ s. s.true_difficulty) (session_shares db a shares)))
  unfolding joined_row
  joined_row-found now h =
      join_row-found a (filter (is_recent now) (of_address a shares)) (session_shares db a shares) h
        (session_shares_pos (positive (is_recent now) (of_address a shares) h))

pub collect-some :
    (f : Text → Option Joined) (k : Text) (keys : List Text) {r : Joined}
    → f k ≡ some r
    → collect f (k ∷ keys) ≡ r ∷ collect f keys
collect-some f k keys e = ap (λ o. elim o [ none ↦ collect f keys | some q ↦ q ∷ collect f keys ]) e

collect-addresses :
    (f : Text → Option Joined) (keys : List Text)
    → All (λ a. (r : Joined) × (f a ≡ some r) × (r.btc_address ≡ a)) keys
    → map (λ r. r.btc_address) (collect f keys) ≡ keys
collect-addresses f [] a = refl
collect-addresses f (k ∷ keys) ((r, found, same), a) =
    ap (map λ q. q.btc_address) (collect-some f k keys found)
    ∙ ap₂ ◌∷◌ same (collect-addresses f keys a)

-- The recent shares of the address of each recent share are some.
abbrev HasRecent : ℕ → List Share → Text → Type 0
HasRecent now ss a = 0 < length (filter (is_recent now) (of_address a ss))

HasRecent-cons :
    (now : ℕ) (s : Share) (ss : List Share) (us : List Share)
    → All (λ u. HasRecent now ss u.btc_address) us
    → All (λ u. HasRecent now (s ∷ ss) u.btc_address) us
HasRecent-cons now s ss us = All-mono _ _ us (λ u h. ground (arith, h))

All-HasRecent :
    (now : ℕ) (ss : List Share)
    → All (λ s. HasRecent now ss s.btc_address) (filter (is_recent now) ss)
All-HasRecent now [] = tt
All-HasRecent now (s ∷ ss) = elim (Bool-cases (is_recent now s)) [
  | inl e ↦ rw e (own e, HasRecent-cons now s ss (filter (is_recent now) ss) (All-HasRecent now ss))
  | inr e ↦ rw e (HasRecent-cons now s ss (filter (is_recent now) ss) (All-HasRecent now ss))
]
  where
    own : is_recent now s ≡ true → HasRecent now (s ∷ ss) s.btc_address
    own e = let same = text_eq_refl s.btc_address in ground (arith, e, same)

pub All-distinct : (P : Text → Type 0) (keys : List Text) → All P keys → All P (distinct keys)
unfolding distinct
All-distinct P [] a = tt
All-distinct P (k ∷ keys) (h, a) =
    (h, All-filter P (λ b. not (text_eq k b)) (distinct keys) (All-distinct P keys a))

-- Each address of `recent` has a row of its own.
pub joined_keys :
    (db : OrderBy) (t : Tables)
    → All
        (λ a.
          (r : Joined) × (joined_row db t.now (round_shares db t) a ≡ some r) × (r.btc_address ≡ a))
        (recent_addresses db t)
unfolding recent_addresses
joined_keys db t =
    let shares = round_shares db t in
    let recent = filter (is_recent t.now) shares in
    let keys = map (λ s. s.btc_address) recent in
    let present : All (HasRecent t.now shares) keys =
      All-map (HasRecent t.now shares) (λ s. s.btc_address) recent (All-HasRecent t.now shares) in
    All-distinct _ keys (
      All-mono (HasRecent t.now shares) _ keys
        (λ a h. let (r, found, same, _) = joined_row-found db a shares t.now h in (r, found, same))
        present)

-- The join loses no miner: the ranked rows are those of the addresses with a share in the last seven
-- days of the active round, each once.
pub joined-addresses :
    (db : OrderBy) (t : Tables) → map (λ r. r.btc_address) (joined db t) ≡ recent_addresses db t
unfolding joined
joined-addresses db t =
    collect-addresses (joined_row db t.now (round_shares db t)) (recent_addresses db t)
      (joined_keys db t)
