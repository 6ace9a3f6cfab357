-- ===== src/Db/Miner/History.antt =====
-- The share history of `getMinerStats` (web/lib/db.ts): one row for each hour.
use solounlucky.Prelude.{
  ℕ, ◌+◌, ◌≡◌, refl, ap, ◌∙◌, not, List, [], ◌∷◌, map, Text, All, length, filter, count_by, leb,
  ◌==◌, if◌then◌else◌, to_string, length-filter, arith,
}
use solounlucky.Sql.{OrderBy, sum_of}
use solounlucky.Store.{Tables, Share}
use solounlucky.Leaderboard.{of_address, is_recent}
use solounlucky.Db.Miner.{hour_of, distinct_hours, history_row, history_rows}

count_by-apart :
    (h x : ℕ) (ks : List ℕ)
    → count_by (λ k. x == k) (filter (λ k. not (h == k)) ks)
      ≡ (if h == x then 0 else count_by (λ k. x == k) ks)
count_by-apart h x [] = ground arith
count_by-apart h x (k ∷ ks) = ground (arith, count_by-apart h x ks)

count_by-cons :
    (h x : ℕ) (ks : List ℕ)
    → count_by (λ k. x == k) ks ≡ 1
    → count_by (λ k. x == k) (h ∷ filter (λ k. not (h == k)) ks) ≡ 1
count_by-cons h x ks e = ground (arith, count_by-apart h x ks)

count_by-head :
    (h : ℕ) (ks : List ℕ) → count_by (λ k. h == k) (h ∷ filter (λ k. not (h == k)) ks) ≡ 1
count_by-head h ks = ground (arith, count_by-apart h h ks)

abbrev IsOnce : List ℕ → ℕ → Type 0
IsOnce ks x = count_by (λ k. x == k) ks ≡ 1

All-IsOnce_cons :
    (h : ℕ) (ks xs : List ℕ)
    → All (IsOnce ks) xs
    → All (IsOnce (h ∷ filter (λ k. not (h == k)) ks)) xs
All-IsOnce_cons h ks [] a = tt
All-IsOnce_cons h ks (x ∷ xs) (e, a) = (count_by-cons h x ks e, All-IsOnce_cons h ks xs a)

distinct_hours-IsOnce : (hs : List ℕ) → All (IsOnce (distinct_hours hs)) hs
unfolding distinct_hours
distinct_hours-IsOnce [] = tt
distinct_hours-IsOnce (h ∷ hs) = (
  count_by-head h (distinct_hours hs),
  All-IsOnce_cons h (distinct_hours hs) hs (distinct_hours-IsOnce hs),
)

-- The sizes of the hours' buckets.
abbrev pub sizes : List Share → List ℕ → List ℕ
sizes shares [] = []
sizes shares (h ∷ hs) = count_by (λ s. hour_of s == h) shares ∷ sizes shares hs

sum_of-sizes_nil : (hs : List ℕ) → sum_of (sizes [] hs) ≡ 0
unfolding sum_of
sum_of-sizes_nil [] = refl
sum_of-sizes_nil (h ∷ hs) = omega (arith, sum_of-sizes_nil hs)

sum_of-sizes_cons :
    (s : Share) (shares : List Share) (hs : List ℕ)
    → sum_of (sizes (s ∷ shares) hs) ≡ count_by (λ k. hour_of s == k) hs + sum_of (sizes shares hs)
unfolding sum_of
sum_of-sizes_cons s shares [] = refl
sum_of-sizes_cons s shares (h ∷ hs) = ground (arith, sum_of-sizes_cons s shares hs)

sum_of-sizes :
    (hs : List ℕ) (shares : List Share)
    → All (IsOnce hs) (map hour_of shares)
    → sum_of (sizes shares hs) ≡ length shares
sum_of-sizes hs [] a = sum_of-sizes_nil hs
sum_of-sizes hs (s ∷ shares) (e, a) =
    omega (arith, sum_of-sizes_cons s shares hs, e, sum_of-sizes hs shares a)

map-history_row :
    (db : OrderBy) (quotient_text : ℕ → ℕ → Text) (shares : List Share) (hs : List ℕ)
    → map (λ r. r.count) (map (history_row db quotient_text shares) hs)
      ≡ map to_string (sizes shares hs)
unfolding history_row
map-history_row db quotient_text shares [] = refl
map-history_row db quotient_text shares (h ∷ hs) = rw (length-filter (λ s. hour_of s == h) shares) (
    ap (◌∷◌ (to_string (count_by (λ s. hour_of s == h) shares)))
      (map-history_row db quotient_text shares hs))

-- The hourly counts of the history add up to the miner's shares of the last seven days: no share is
-- left out and none is counted in two hours.
pub history_rows_add_up :
    (db : OrderBy) (quotient_text : ℕ → ℕ → Text) (t : Tables) (a : Text)
    → (counts : List ℕ) × (map (λ r. r.count) (history_rows db quotient_text t a)
        ≡ map to_string counts)
      × (sum_of counts ≡ length (filter (is_recent t.now) (of_address a t.shares)))
unfolding history_rows
history_rows_add_up db quotient_text t a =
    let shares = filter (is_recent t.now) (of_address a t.shares) in
    let hours = db.order_by ℕ leb (distinct_hours (map hour_of shares)) in
    (
      sizes shares hours,
      map-history_row db quotient_text shares hours,
      sum_of-sizes hours shares (
          ordered (map hour_of shares) (distinct_hours (map hour_of shares))
            (distinct_hours-IsOnce (map hour_of shares))),
    )
  where
    ordered : (xs ks : List ℕ) → All (IsOnce ks) xs → All (IsOnce (db.order_by ℕ leb ks)) xs
    ordered [] ks a = tt
    ordered (x ∷ xs) ks (e, a) = (db.count_order_by ℕ leb (λ k. x == k) ks ∙ e, ordered xs ks a)
