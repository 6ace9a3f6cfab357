-- ===== src/Pool/Reverts.antt =====
-- Two blocks of one round (reward-service/cmd/server/main.go): where `checkConfirmations` leaves the
-- round that new shares and blocks are booked in.
use mathlib.Core.Path.{subst}
use solounlucky.Prelude.{
  ℕ, ◌≤◌, ◌≡◌, refl, sym, ap, ◌∙◌, ℤ, pos, Bool, true, false, List, [], ◌∷◌, ◌++◌, map, none, some,
  Text, codes, arith, ltb, ◌==◌, if◌then◌else◌,
}
use solounlucky.Store.{Round, Block}
use solounlucky.Db.Outcome.{Outcome, returned, thrown}
use solounlucky.Service.Database.{has_round}
use solounlucky.Service.Blocks.{
  UnconfirmedBlock, block_with, round_of, round_closed, confirm_row, end_round, next_round_opened,
  confirm_only,
}
use solounlucky.Service.Blocks.Sound.{IsSound}
use solounlucky.Service.Blocks.Ends.{named_at}
use solounlucky.Service.Blocks.Renewal.{quiet, confirm_block-ends, confirm_block-repeats}
use solounlucky.Pool.{Pool, confirm, check_block, check_blocks}

-- Updates of a column leave the rounds that blocks name.
pub row-round_of :
    (f : Block → Block)
    → ((b : Block) → (f b).id ≡ b.id)
    → ((b : Block) → (f b).round_id ≡ b.round_id)
    → (id : ℕ) (bs : List Block) → round_of id (map f bs) ≡ round_of id bs
row-round_of f ids rounds id [] = refl
row-round_of f ids rounds id (b ∷ bs) =
    subst (λ i. found (i == id) (f b) (map f bs) ≡ found (b.id == id) b bs) (sym (ids b))
      (go (b.id == id) (row-round_of f ids rounds id bs))
  where
    found : Bool → Block → List Block → Outcome ℕ
    found t c cs = elim (if t then some c else block_with id cs) [
      | none ↦ thrown (codes "no rows in result set")
      | some k ↦ returned k.round_id
    ]

    go :
        (t : Bool)
        → round_of id (map f bs) ≡ round_of id bs
        → found t (f b) (map f bs) ≡ found t b bs
    go true rest = ap returned (rounds b)
    go false rest = rest

confirm_row-round_of :
    (id block : ℕ) (bs : List Block) → round_of id (confirm_row block bs) ≡ round_of id bs
unfolding confirm_row
confirm_row-round_of id block = row-round_of _ (λ b. ground arith) (λ b. ground arith) id

-- A round that has been ended is closed, and stays so when another is opened.
end_round-closed :
    (now block round : ℕ) (rounds : List Round) (new : Round)
    → has_round round rounds ≡ true
    → round_closed round (end_round now block round rounds ++ new ∷ []) ≡ true
unfolding end_round round_closed
end_round-closed now block round [] new h = cc
end_round-closed now block round (r ∷ rs) new h =
    ground (arith, end_round-closed now block round rs new)

abbrev pub renewed : UnconfirmedBlock → (round : ℕ) → Pool → Pool
renewed u round p = record p {
  database = next_round_opened u.id round p.database;
  round_id = p.database.next_round;
  top_21 = [];
}

pub confirm_ends :
    (u : UnconfirmedBlock) (pending : ℕ) (p : Pool) {round : ℕ}
    → round_of u.id p.database.tables.blocks ≡ returned round
    → round_closed round p.database.tables.rounds ≡ false
    → confirm quiet u pending p ≡ (pending, renewed u round p)
unfolding confirm
confirm_ends u pending p at opened = rw (confirm_block-ends u.id p.database at opened) refl

pub confirm_repeats :
    (u : UnconfirmedBlock) (pending : ℕ) (p : Pool) {round : ℕ}
    → round_of u.id p.database.tables.blocks ≡ returned round
    → round_closed round p.database.tables.rounds ≡ true
    → confirm quiet u pending p ≡ (
      pending,
      record p { database = confirm_only u.id p.database; round_id = round; top_21 = [] },
    )
unfolding confirm
confirm_repeats u pending p at closed = rw (confirm_block-repeats u.id p.database at closed) refl

module _ (confirmations : Text → Outcome ℤ) where
  pub check_block-confirms :
      (u : UnconfirmedBlock) (pending : ℕ) (p : Pool) (n : ℕ)
      → confirmations u.hash ≡ returned (pos n)
      → 2 ≤ n
      → check_block quiet confirmations u pending p ≡ confirm quiet u pending p
  unfolding check_block
  check_block-confirms u pending p n h two =
      let enough : ltb n 2 ≡ false = ground arith in rw (h, enough) refl

  -- Two blocks of one open round that reach two confirmations before the same turn of the loop: the
  -- first ends the round and opens a new one, and the second sets the pool back to the round that has
  -- ended. The loop counts no block as waiting.
  pub check_blocks_revert :
      (u v : UnconfirmedBlock) (p : Pool) (round n m : ℕ)
      → IsSound p.database
      → round_of u.id p.database.tables.blocks ≡ returned round
      → round_of v.id p.database.tables.blocks ≡ returned round
      → round_closed round p.database.tables.rounds ≡ false
      → confirmations u.hash ≡ returned (pos n)
      → 2 ≤ n
      → confirmations v.hash ≡ returned (pos m)
      → 2 ≤ m
      → let (pending, p') = check_blocks quiet confirmations (u ∷ v ∷ []) 0 p in
        (pending ≡ 0)
        × (p'.round_id ≡ round)
        × (round_closed p'.round_id p'.database.tables.rounds ≡ true)
  unfolding check_blocks next_round_opened confirm_only
  check_blocks_revert u v p round n m sound at_u at_v opened h_u two_u h_v two_v =
      let d = p.database in
      let there = named_at d.tables.rounds u.id d.tables.blocks sound.named at_u in
      let new : Round = record {
        id = d.next_round;
        started_at = d.tables.now;
        ended_at = none;
        block_id = none;
      } in
      let closed = end_round-closed d.tables.now u.id round d.tables.rounds new there in
      let still = confirm_row-round_of v.id u.id d.tables.blocks ∙ at_v in
      rw
        (
          check_block-confirms u 0 p n h_u two_u,
          confirm_ends u 0 p at_u opened,
          check_block-confirms v 0 (renewed u round p) m h_v two_v,
          confirm_repeats v 0 (renewed u round p) still closed,
        )
        (refl, refl, closed)
