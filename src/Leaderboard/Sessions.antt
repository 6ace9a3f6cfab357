-- ===== src/Leaderboard/Sessions.antt =====
-- The session filter of the ranking queries (web/lib/db.ts) against a description of the last
-- uninterrupted session.
use mathlib.Core.Path.{subst}
use solounlucky.Prelude.{
  filter-All, ℕ, ◌+◌, ◌<◌, ◌≡◌, refl, sym, ◌⊎◌, inl, inr, Bool, true, false, ◌||◌, List, [], ◌∷◌,
  Option, none, some, All, filter, ltb, leb, ltb→lt, leb→le, if◌then◌else◌, Bool-cases, arith,
}
use solounlucky.Sql.{IsSorted, max_of, larger}
use solounlucky.Store.{week}
use solounlucky.Leaderboard.{gap_ends, session_start, in_session}

-- Some two neighbours are more than a week apart.
abbrev pub has_gap : List ℕ → Bool
has_gap [] = false
has_gap (t ∷ []) = false
has_gap (t ∷ u ∷ ts) = ltb (t + week) u || has_gap (u ∷ ts)

-- The longest suffix with no such gap.
abbrev pub last_session : List ℕ → List ℕ
last_session [] = []
last_session (t ∷ ts) = if has_gap (t ∷ ts) then last_session ts else t ∷ ts

session_start-cons :
    (t u : ℕ) (ts : List ℕ)
    → session_start (t ∷ u ∷ ts)
      ≡ (if ltb (t + week) u then larger u (session_start (u ∷ ts)) else session_start (u ∷ ts))
unfolding session_start gap_ends max_of
session_start-cons t u ts = ground arith

session_start-one : (t : ℕ) → session_start (t ∷ []) ≡ none
unfolding session_start gap_ends max_of
session_start-one t = refl

-- A session starts after the first time, exactly if there is a gap.
pub session_start_cases :
    (t : ℕ) (ts : List ℕ)
    → IsSorted leb (t ∷ ts)
    → ((session_start (t ∷ ts) ≡ none) × (has_gap (t ∷ ts) ≡ false))
      ⊎ ((s : ℕ) × (session_start (t ∷ ts) ≡ some s) × (has_gap (t ∷ ts) ≡ true) × (t < s))
session_start_cases t [] sorted = inl (session_start-one t, refl)
session_start_cases t (u ∷ ts) ((le, _), rest) = elim (session_start_cases u ts rest) [
  | inl (start, gap) ↦ elim (Bool-cases (ltb (t + week) u)) [
    | inl e ↦ inr (u, rw (session_start-cons t u ts, e, start), rw e, omega (arith, ltb→lt _ _ e))
    | inr e ↦ inl (rw (session_start-cons t u ts, e) start, rw e gap)
  ]
  | inr (s, start, gap, lt) ↦ inr (
    s,
    rw (session_start-cons t u ts, start) (ground arith),
    rw gap (ground arith),
    omega (arith, leb→le t u le),
  )
]

All-in_session-none : (ts : List ℕ) → All (λ t. in_session none t ≡ true) ts
unfolding in_session
All-in_session-none [] = tt
All-in_session-none (t ∷ ts) = (refl, All-in_session-none ts)

All-in_session-some :
    (u : ℕ) (ts : List ℕ)
    → All (λ t. leb u t ≡ true) ts
    → All (λ t. in_session (some u) t ≡ true) ts
unfolding in_session
All-in_session-some u [] a = tt
All-in_session-some u (t ∷ ts) (h, a) = (h, All-in_session-some u ts a)

in_session-before : (s t : ℕ) → t < s → in_session (some s) t ≡ false
unfolding in_session
in_session-before s t h = ground arith

with_start :
    (xs : List ℕ) {ys : List ℕ} {st st' : Option ℕ}
    → st ≡ st'
    → filter (in_session st') xs ≡ ys
    → filter (in_session st) xs ≡ ys
with_start xs {ys} e h = subst (λ st. filter (in_session st) xs ≡ ys) (sym e) h

filter-later :
    (s t : ℕ) (ts : List ℕ) {ys : List ℕ}
    → t < s
    → filter (in_session (some s)) ts ≡ ys
    → filter (in_session (some s)) (t ∷ ts) ≡ ys
filter-later s t ts lt h = rw (in_session-before s t lt) h

-- If the times are in order, the times at or after the session start that the query computes are
-- the last session: the longest suffix in which no two neighbours are more than a week apart.
pub filter-session_start :
    (ts : List ℕ) → IsSorted leb ts → filter (in_session (session_start ts)) ts ≡ last_session ts
filter-session_start [] sorted = refl
filter-session_start (t ∷ []) sorted =
    with_start (t ∷ []) (session_start-one t)
      (filter-All (in_session none) (t ∷ []) (All-in_session-none (t ∷ [])))
filter-session_start (t ∷ u ∷ ts) ((le, below), (above_u, rest)) =
    let cons = session_start-cons t u ts in
    let ih = filter-session_start (u ∷ ts) (above_u, rest) in
    elim (session_start_cases u ts (above_u, rest)) [
      | inl (start, gap) ↦ elim (Bool-cases (ltb (t + week) u)) [
        | inl e ↦ with_start (t ∷ u ∷ ts) {st' = some u} (rw (cons, e, start)) (
            filter-later u t (u ∷ ts) (omega (arith, ltb→lt _ _ e)) (
              rw (e, gap)
                (filter-All (in_session (some u)) (u ∷ ts)
                  (All-in_session-some u (u ∷ ts) (ground arith, above_u)))))
        | inr e ↦ with_start (t ∷ u ∷ ts) {st' = none} (rw (cons, e) start) (
            rw (e, gap)
              (filter-All (in_session none) (t ∷ u ∷ ts) (All-in_session-none (t ∷ u ∷ ts))))
      ]
      | inr (s, start, gap, lt) ↦
          let same : session_start (t ∷ u ∷ ts) ≡ some s = rw (cons, start) (ground arith) in
          let gaps : has_gap (t ∷ u ∷ ts) ≡ true = rw gap (ground arith) in
          with_start (t ∷ u ∷ ts) same (
            filter-later s t (u ∷ ts) (omega (arith, leb→le t u le))
              (rw gaps (with_start (u ∷ ts) (sym start) ih)))
    ]
