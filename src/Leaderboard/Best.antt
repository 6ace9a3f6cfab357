-- ===== src/Leaderboard/Best.antt =====
-- Which share is a miner's best in the ranking queries (web/lib/db.ts).
use mathlib.Core.Path.{subst}
use solounlucky.Prelude.{
  ℕ, ◌<◌, ◌≡◌, refl, sym, ap, ◌∙◌, inl, inr, true, false, not, List, [], ◌∷◌, map, Option, none,
  some, Text, text_eq, text_eq_iff, All, filter, filter-All, any_by, length, leb, arith, Bool-cases,
}
use solounlucky.Sql.{OrderBy, IsSorted, max_of, distinct}
use solounlucky.Store.{Share, Tables}
use solounlucky.Leaderboard.{
  gap_ends, Joined, in_session, session_start, of_address, is_recent, times_of, session_shares,
  joined_row, collect, joined, recent_addresses, round_shares,
}
use solounlucky.Leaderboard.Sessions.{has_gap, session_start_cases}
use solounlucky.Leaderboard.Rows.{
  times_of-IsSorted, joined_row-found, joined_keys, joined-addresses, collect-some,
}
use solounlucky.Leaderboard.Unique.{rows_at, joined_unique, IsUnlike-sym}

session_start-unbroken :
    (ts : List ℕ) → IsSorted leb ts → has_gap ts ≡ false → session_start ts ≡ none
unfolding session_start gap_ends max_of
session_start-unbroken [] sorted h = refl
session_start-unbroken (t ∷ ts) sorted h = elim (session_start_cases t ts sorted) [
  | inl (start, gap) ↦ start
  | inr (s, start, gap, lt) ↦ absurd (ground (arith, gap, h))
]

All-in_session : (xs : List Share) → All (λ s. in_session none s.submitted_at ≡ true) xs
unfolding in_session
All-in_session [] = tt
All-in_session (x ∷ xs) = (refl, All-in_session xs)

session_shares-unbroken :
    (db : OrderBy) (a : Text) (shares : List Share)
    → has_gap (times_of db a shares) ≡ false
    → session_shares db a shares ≡ of_address a shares
unfolding session_shares
session_shares-unbroken db a shares h =
    let start = session_start-unbroken (times_of db a shares) (times_of-IsSorted db a shares) h in
    rw start (
      filter-All (λ s. in_session none s.submitted_at) (of_address a shares)
        (All-in_session (of_address a shares)))

-- The addresses that are ranked are those with a recent share.
any_by-recent :
    (a : Text) (now : ℕ) (ss : List Share)
    → 0 < length (filter (is_recent now) (of_address a ss))
    → any_by (text_eq a) (map (λ s. s.btc_address) (filter (is_recent now) ss)) ≡ true
any_by-recent a now [] h = absurd (omega arith)
any_by-recent a now (s ∷ ss) h = ground (arith, h, any_by-recent a now ss)

any_by-kept :
    (a k : Text) (bs : List Text)
    → text_eq a k ≡ false
    → any_by (text_eq a) bs ≡ true
    → any_by (text_eq a) (filter (λ b. not (text_eq k b)) bs) ≡ true
any_by-kept a k [] h e = e
any_by-kept a k (b ∷ bs) h e = elim (Bool-cases (text_eq a b)) [
  | inl same ↦
      let b_is : a ≡ b = (text_eq_iff a b).0 same in
      let kept : text_eq k b ≡ false = subst (λ c. text_eq k c ≡ false) b_is (IsUnlike-sym a k h) in
      rw (kept, same) refl
  | inr other ↦
      let later : any_by (text_eq a) bs ≡ true = ground (arith, other, e) in
      ground (arith, other, any_by-kept a k bs h later)
]

any_by-distinct :
    (a : Text) (ks : List Text)
    → any_by (text_eq a) ks ≡ true
    → any_by (text_eq a) (distinct ks) ≡ true
unfolding distinct
any_by-distinct a [] h = h
any_by-distinct a (k ∷ ks) h = elim (Bool-cases (text_eq a k)) [
  | inl same ↦ rw same refl
  | inr other ↦
      rw other
        (any_by-kept a k (distinct ks) other (any_by-distinct a ks (ground (arith, h, other))))
]

collect-own :
    (f : Text → Option Joined) (keys : List Text)
    → All (λ a. (r : Joined) × (f a ≡ some r) × (r.btc_address ≡ a)) keys
    → All (λ r. f r.btc_address ≡ some r) (collect f keys)
collect-own f [] a = tt
collect-own f (k ∷ keys) ((r, found, same), a) =
    subst (All (λ q. f q.btc_address ≡ some q)) (sym (collect-some f k keys found))
      (ap f same ∙ found, collect-own f keys a)

find_row :
    (a : Text) (P : Joined → Type 0) (rows : List Joined)
    → any_by (text_eq a) (map (λ r. r.btc_address) rows) ≡ true
    → All P rows
    → (r : Joined) × (a ≡ r.btc_address) × P r
find_row a P [] h p = cc
find_row a P (r ∷ rows) h (p, ps) = elim (Bool-cases (text_eq a r.btc_address)) [
  | inl same ↦ (r, (text_eq_iff a r.btc_address).0 same, p)
  | inr other ↦ find_row a P rows (ground (arith, h, other)) ps
]

All-both :
    (P Q : Joined → Type 0) (rows : List Joined)
    → All P rows
    → All Q rows
    → All (λ r. P r × Q r) rows
All-both P Q [] p q = tt
All-both P Q (r ∷ rows) (p, ps) (q, qs) = ((p, q), All-both P Q rows ps qs)

-- A best share does not age: if an address has a share in the last seven days of the active round, and
-- between its shares in the round there is no gap of more than a week, then the ranking has one row
-- for it, with the best of all its shares in the round, whatever their age.
pub joined-best :
    (db : OrderBy) (t : Tables) (a : Text)
    → 0 < length (filter (is_recent t.now) (of_address a (round_shares db t)))
    → has_gap (times_of db a (round_shares db t)) ≡ false
    → (r : Joined) × (rows_at a (joined db t) ≡ r ∷ [])
      × (r.alltime_best ≡ max_of (map (λ s. s.true_difficulty) (of_address a (round_shares db t))))
unfolding joined recent_addresses
joined-best db t a recent unbroken =
    let shares = round_shares db t in
    let listed : any_by (text_eq a) (map (λ r. r.btc_address) (joined db t)) ≡ true =
      rw (joined-addresses db t) (any_by-distinct a _ (any_by-recent a t.now shares recent)) in
    let (r, same, (alone, own)) =
      find_row a
        (λ r.
          (rows_at r.btc_address (joined db t) ≡ r ∷ [])
          × (joined_row db t.now shares r.btc_address ≡ some r))
        (joined db t) listed
        (All-both _ _ (joined db t) (joined_unique db t)
          (collect-own (joined_row db t.now shares) (recent_addresses db t) (joined_keys db t))) in
    let (q, found, _, best) = joined_row-found db a shares t.now recent in
    let row : some q ≡ some r = sym found ∙ ap (joined_row db t.now shares) same ∙ own in
    (
      r,
      subst (λ b. rows_at b (joined db t) ≡ r ∷ []) (sym same) alone,
      ap (λ (o : Option Joined). elim o [ none ↦ q.alltime_best | some p ↦ p.alltime_best ])
            (sym row)
          ∙ best
          ∙ ap (λ xs. max_of (map (λ s. s.true_difficulty) xs))
              (session_shares-unbroken db a shares unbroken),
    )
