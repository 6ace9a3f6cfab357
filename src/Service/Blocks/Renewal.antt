-- ===== src/Service/Blocks/Renewal.antt =====
-- The round that `ConfirmBlock` (reward-service/internal/leaderboard/service.go) opens is the one that
-- the queries of web/lib/db.ts call active.
use solounlucky.Prelude.{
  All-mono, ℕ, zero, suc, ◌<◌, ◌≡◌, refl, ap, ◌∙◌, inl, inr, Text, Bool-cases, Bool, true, false,
  List, [], ◌∷◌, ◌++◌, none, some, arith, ◌==◌, All, filter, count_by, take, length,
  length-eq-count_by,
}
use solounlucky.Sql.{OrderBy, distinct}
use solounlucky.Sql.Laws.{descending}
use solounlucky.Store.{Tables, Round, Share}
use solounlucky.Leaderboard.{
  is_active, active_round, round_shares, Joined, joined, recent_addresses,
}
use solounlucky.Db.Outcome.{returned}
use solounlucky.Db.Board.{get_leaderboard, board_rows, entries_of}
use solounlucky.Service.Database.{has_round, Database, Faults, execute}
use solounlucky.Service.Blocks.{
  confirm_block, already_closed, close_and_open, confirm_again, confirm_only, round_of,
  round_closed, end_round, next_round_opened,
}
use solounlucky.Service.Blocks.Sound.{IsBooked, IsSound, ended_rounds-none_open}

filter-none {ℓ} : {A : Type ℓ} (p : A → Bool) (xs : List A) → count_by p xs ≡ 0 → filter p xs ≡ []
filter-none p [] h = refl
filter-none p (x ∷ xs) h = ground (arith, filter-none p xs)

filter-append {ℓ} :
    {A : Type ℓ} (p : A → Bool) (xs ys : List A) → filter p (xs ++ ys) ≡ filter p xs ++ filter p ys
filter-append p [] ys = refl
filter-append p (x ∷ xs) ys = elim (Bool-cases (p x)) [
  | inl e ↦ rw e (ap (◌∷◌ x) (filter-append p xs ys))
  | inr e ↦ rw e (filter-append p xs ys)
]

-- One row is sorted in one way.
order_by-one :
    (db : OrderBy) (A : Type 0) (le : A → A → Bool) (x : A) → db.order_by A le (x ∷ []) ≡ x ∷ []
order_by-one db A le x =
    go (db.order_by A le (x ∷ [])) (db.All-order_by A le (λ y. y ≡ x) (x ∷ []) (refl, tt)) one
  where
    one : length (db.order_by A le (x ∷ [])) ≡ 1
    one =
        length-eq-count_by (db.order_by A le (x ∷ [])) ∙ db.count_order_by A le (λ _. true) (x ∷ [])

    go : (ys : List A) → All (λ y. y ≡ x) ys → length ys ≡ 1 → ys ≡ x ∷ []
    go [] a h = absurd (omega arith)
    go (y ∷ []) (e, a) h = ap (λ z. z ∷ []) e
    go (y ∷ z ∷ zs) a h = absurd (omega arith)

order_by-none : (db : OrderBy) (A : Type 0) (le : A → A → Bool) → db.order_by A le [] ≡ []
order_by-none db A le = go (db.order_by A le []) (db.All-order_by A le (λ _. ⊥) [] tt)
  where
    go : (ys : List A) → All (λ _. ⊥) ys → ys ≡ []
    go [] a = refl
    go (y ∷ ys) (h, a) = absurd h

take-none {ℓ} : {A : Type ℓ} (n : ℕ) → take {A = A} n [] ≡ []
take-none zero = refl
take-none (suc n) = refl

older_round :
    (n id : ℕ) (rounds : List Round)
    → All (λ r. r.id < n) rounds
    → has_round id rounds ≡ true
    → id < n
older_round n id [] a h = cc
older_round n id (r ∷ rs) (l, a) h = ground (arith, older_round n id rs a)

-- Shares of rounds that exist are of rounds before the next.
All-older :
    (n : ℕ) (rounds : List Round)
    → All (λ r. r.id < n) rounds
    → (ss : List Share) → All (IsBooked rounds) ss
    → All (λ s. s.round_id < n) ss
All-older n rounds numbered ss booked =
    All-mono _ _ ss (λ s (fresh, known). older_round n s.round_id rounds numbered known) booked

-- No statement fails.
abbrev pub quiet : Faults
quiet statement = none

pub confirm_block-ends :
    (block : ℕ) (d : Database) {round : ℕ}
    → round_of block d.tables.blocks ≡ returned round
    → round_closed round d.tables.rounds ≡ false
    → confirm_block quiet block d ≡ (returned d.next_round, next_round_opened block round d)
unfolding confirm_block execute already_closed close_and_open
confirm_block-ends block d at opened = rw (at, opened) refl

pub confirm_block-repeats :
    (block : ℕ) (d : Database) {round : ℕ}
    → round_of block d.tables.blocks ≡ returned round
    → round_closed round d.tables.rounds ≡ true
    → confirm_block quiet block d ≡ (returned round, confirm_only block d)
unfolding confirm_block execute already_closed confirm_again
confirm_block-repeats block d at closed = rw (at, closed) refl

module _ (db : OrderBy) where
  active_round-next :
      (block : ℕ) (d : Database) {round : ℕ}
      → round_of block d.tables.blocks ≡ returned round
      → round_closed round d.tables.rounds ≡ false
      → IsSound d
      → active_round db (next_round_opened block round d).tables.rounds ≡ some d.next_round
  unfolding next_round_opened active_round
  active_round-next block d {round} at opened sound =
      let ended = end_round d.tables.now block round d.tables.rounds in
      let new : Round = record {
        id = d.next_round;
        started_at = d.tables.now;
        ended_at = none;
        block_id = none;
      } in
      let only : filter is_active (ended ++ new ∷ []) ≡ new ∷ [] =
        filter-append is_active ended (new ∷ [])
        ∙ rw
            (filter-none is_active ended
              (ended_rounds-none_open d.tables.now block round d at opened sound))
            refl in
      rw (only, order_by-one db Round (descending λ r. some r.started_at) new, active_round) refl

  round_shares-fresh :
      (t : Tables) (n : ℕ)
      → active_round db t.rounds ≡ some n
      → All (λ s. s.round_id < n) t.shares
      → round_shares db t ≡ []
  unfolding round_shares
  round_shares-fresh t n active older = rw (active, round_shares) (go t.shares older)
    where
      go : (ss : List Share) → All (λ s. s.round_id < n) ss → filter (λ s. s.round_id == n) ss ≡ []
      go [] a = refl
      go (s ∷ ss) (h, a) = ground (arith, go ss a)

  joined-fresh : (t : Tables) → round_shares db t ≡ [] → joined db t ≡ []
  unfolding joined recent_addresses distinct
  joined-fresh t none_there = rw none_there refl

  get_leaderboard-fresh :
      (quotient_text : ℕ → ℕ → Text) (t : Tables) (limit : ℕ)
      → round_shares db t ≡ []
      → get_leaderboard db quotient_text (returned t) limit ≡ returned []
  unfolding get_leaderboard board_rows entries_of
  get_leaderboard-fresh quotient_text t limit none_there =
      let sorted = descending {A = Joined} λ r. r.alltime_best in
      rw (joined-fresh t none_there, order_by-none db Joined sorted, take-none limit) refl

  -- When on a sound database the confirmation of a block ends its round, no statement failing, then the
  -- round that it returns is the round that the web application calls active, and its leaderboard
  -- is empty.
  pub confirm_block_renews :
      (quotient_text : ℕ → ℕ → Text) (limit block : ℕ) (d : Database) {round : ℕ}
      → IsSound d
      → round_of block d.tables.blocks ≡ returned round
      → round_closed round d.tables.rounds ≡ false
      → let (result, d') = confirm_block quiet block d in
        (result ≡ returned d.next_round)
        × (active_round db d'.tables.rounds ≡ some d.next_round)
        × (get_leaderboard db quotient_text (returned d'.tables) limit ≡ returned [])
  unfolding next_round_opened
  confirm_block_renews quotient_text limit block d {round} sound at opened =
      let older =
        All-older d.next_round d.tables.rounds sound.numbered d.tables.shares sound.booked in
      let active = active_round-next block d at opened sound in
      let t = (next_round_opened block round d).tables in
      rw (confirm_block-ends block d at opened) (
        refl,
        active,
        get_leaderboard-fresh quotient_text t limit
            (round_shares-fresh t d.next_round active older),
      )
