-- ===== src/Leaderboard/Unique.antt =====
-- An address has one row in the ranking (web/lib/db.ts), which `getMinerStats` finds by its address.
use mathlib.Core.Path.{subst}
use solounlucky.Prelude.{
  ◌≡◌, refl, sym, ap, inl, inr, Bool, false, not, List, [], ◌∷◌, map, Text, text_eq, text_eq_iff,
  text_eq_refl, All, All-filter, filter, Bool-cases, arith,
}
use solounlucky.Sql.{OrderBy, distinct}
use solounlucky.Store.{Tables}
use solounlucky.Leaderboard.{Joined, joined, recent_addresses}
use solounlucky.Leaderboard.Rows.{joined-addresses}

abbrev pub IsUnlike : Text → Text → Type 0
IsUnlike a b = text_eq a b ≡ false

abbrev pub AreDistinct : List Text → Type 0
AreDistinct [] = Unit
AreDistinct (a ∷ rest) = All (IsUnlike a) rest × AreDistinct rest

AreDistinct-filter :
    (p : Text → Bool) (as' : List Text) → AreDistinct as' → AreDistinct (filter p as')
AreDistinct-filter p [] d = tt
AreDistinct-filter p (a ∷ rest) (u, d) = elim (Bool-cases (p a)) [
  | inl e ↦ rw e (All-filter (IsUnlike a) p rest u, AreDistinct-filter p rest d)
  | inr e ↦ rw e (AreDistinct-filter p rest d)
]

All-filter_self :
    (a : Text) (bs : List Text) → All (IsUnlike a) (filter (λ b. not (text_eq a b)) bs)
All-filter_self a [] = tt
All-filter_self a (b ∷ bs) = elim (Bool-cases (text_eq a b)) [
  | inl e ↦ rw e (All-filter_self a bs)
  | inr e ↦ rw e (e, All-filter_self a bs)
]

distinct-AreDistinct : (keys : List Text) → AreDistinct (distinct keys)
unfolding distinct
distinct-AreDistinct [] = tt
distinct-AreDistinct (k ∷ keys) = (
  All-filter_self k (distinct keys),
  AreDistinct-filter (λ b. not (text_eq k b)) (distinct keys) (distinct-AreDistinct keys),
)

abbrev pub rows_at : Text → List Joined → List Joined
rows_at a = filter (λ r. text_eq a r.btc_address)

pub rows_at-none :
    (a : Text) (rows : List Joined)
    → All (IsUnlike a) (map (λ r. r.btc_address) rows)
    → rows_at a rows ≡ []
rows_at-none a [] u = refl
rows_at-none a (r ∷ rows) (h, u) = rw h (rows_at-none a rows u)

pub IsUnlike-sym : (a b : Text) → IsUnlike a b → IsUnlike b a
IsUnlike-sym a b h = ground (arith, text_eq_iff a b, text_eq_iff b a)

rows_at-found :
    (rows : List Joined)
    → AreDistinct (map (λ r. r.btc_address) rows)
    → All (λ r. rows_at r.btc_address rows ≡ r ∷ []) rows
rows_at-found [] d = tt
rows_at-found (r ∷ rows) (u, d) = (
  rw (text_eq_refl r.btc_address) (ap (◌∷◌ r) (rows_at-none r.btc_address rows u)),
  later rows u (rows_at-found rows d),
)
  where
    later :
        (qs : List Joined)
        → All (IsUnlike r.btc_address) (map (λ q. q.btc_address) qs)
        → All (λ q. rows_at q.btc_address rows ≡ q ∷ []) qs
        → All (λ q. rows_at q.btc_address (r ∷ rows) ≡ q ∷ []) qs
    later [] u a = tt
    later (q ∷ qs) (h, u) (e, a) = (rw (IsUnlike-sym r.btc_address q.btc_address h) e, later qs u a)

-- Each ranked row is the only one of its address.
pub joined_unique :
    (db : OrderBy) (t : Tables)
    → All (λ r. rows_at r.btc_address (joined db t) ≡ r ∷ []) (joined db t)
unfolding recent_addresses
joined_unique db t =
    rows_at-found (joined db t)
      (subst AreDistinct (sym (joined-addresses db t)) (distinct-AreDistinct _))
