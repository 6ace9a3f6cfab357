-- ===== src/Service/Blocks/Ends.antt =====
-- What the updates of a round's row (reward-service/internal/leaderboard/service.go) leave.
use mathlib.Core.Path.{subst}
use solounlucky.Prelude.{
  ℕ, suc, ◌+◌, ◌≤◌, ◌<◌, ◌≡◌, refl, inl, inr, Bool, true, false, List, [], ◌∷◌, ◌++◌, map, none,
  some, codes, arith, ◌==◌, if◌then◌else◌, Option-cases, All, count_by,
}
use solounlucky.Store.{Round, Block}
use solounlucky.Leaderboard.{is_active}
use solounlucky.Db.Outcome.{returned, thrown, returned-injective}
use solounlucky.Service.Database.{has_round}
use solounlucky.Service.Blocks.{block_with, round_of, round_closed, end_round}

-- The rounds after a change that keeps their numbers.
has_round-map :
    (f : Round → Round) (id : ℕ) (rounds : List Round)
    → ((r : Round) → (f r).id ≡ r.id)
    → has_round id (map f rounds) ≡ has_round id rounds
has_round-map f id [] h = refl
has_round-map f id (r ∷ rs) h = rw (h r, has_round-map f id rs h)

pub has_round-append :
    (id : ℕ) (rounds : List Round) (r : Round)
    → has_round id rounds ≡ true
    → has_round id (rounds ++ r ∷ []) ≡ true
has_round-append id [] r h = cc
has_round-append id (q ∷ rs) r h = ground (arith, has_round-append id rs r)

-- Ending a round that is there and has not ended leaves one round fewer open.
pub end_round-count :
    (now block round : ℕ) (rounds : List Round)
    → round_closed round rounds ≡ false
    → count_by is_active (end_round now block round rounds) + count_by (λ r. r.id == round) rounds
      ≡ count_by is_active rounds
unfolding end_round round_closed
end_round-count now block round [] h = refl
end_round-count now block round (r ∷ rs) h =
    let rest = end_round-count now block round rs in
    elim (Option-cases r.ended_at) [
      | inl e ↦ ground (arith, rest)
      | inr (t, e) ↦ ground (arith, rest)
    ]

pub count_by-has_round :
    (id : ℕ) (rounds : List Round)
    → has_round id rounds ≡ true
    → 1 ≤ count_by (λ r. r.id == id) rounds
count_by-has_round id [] h = cc
count_by-has_round id (r ∷ rs) h = ground (arith, count_by-has_round id rs)

pub named_at :
    (rounds : List Round) (block : ℕ) (bs : List Block) {round : ℕ}
    → All (λ b. has_round b.round_id rounds ≡ true) bs
    → round_of block bs ≡ returned round
    → has_round round rounds ≡ true
named_at rounds block [] a h = cc
named_at rounds block (b ∷ bs) {round} (n, a) h = go (b.id == block) (named_at rounds block bs a) h
  where
    go :
        (t : Bool)
        → (round_of block bs ≡ returned round → has_round round rounds ≡ true)
        → elim (if t then some b else block_with block bs) [
          | none ↦ thrown (codes "no rows in result set")
          | some c ↦ returned c.round_id
        ]
          ≡ returned round
        → has_round round rounds ≡ true
    go true rest e = subst (λ k. has_round k rounds ≡ true) (returned-injective e) n
    go false rest e = rest e

pub end_round-has_round :
    (now block round id : ℕ) (rounds : List Round)
    → has_round id (end_round now block round rounds) ≡ has_round id rounds
unfolding end_round
end_round-has_round now block round id rounds = has_round-map _ id rounds (λ r. ground arith)

pub end_round-numbered :
    (now block round n : ℕ) (rounds : List Round)
    → All (λ r. r.id < n) rounds
    → All (λ r. r.id < suc n) (end_round now block round rounds)
unfolding end_round
end_round-numbered now block round n [] a = tt
end_round-numbered now block round n (r ∷ rs) (h, a) =
    (ground arith, end_round-numbered now block round n rs a)
