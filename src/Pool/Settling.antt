-- ===== src/Pool/Settling.antt =====
-- `checkConfirmations` of reward-service/cmd/server/main.go when Bitcoin has decided on all blocks: one
-- turn of the loop ends the polling.
use solounlucky.Prelude.{
  ℕ, ◌+◌, ◌≤◌, ◌≡◌, refl, ◌∙◌, inl, inr, ℤ, pos, negsuc, Bool, true, false, List, [], ◌∷◌, map,
  Text, arith, ltb, leb, ◌==◌, Bool-cases, All, All-map, All-mono, All-filter, filter,
}
use solounlucky.Sql.{OrderBy}
use solounlucky.Store.{Block}
use solounlucky.Db.Outcome.{Outcome, returned, thrown}
use solounlucky.Service.Database.{execute}
use solounlucky.Service.Blocks.{
  UnconfirmedBlock, is_unconfirmed, unconfirmed_of, get_unconfirmed_blocks, round_of, round_closed,
  confirm_row, orphan_row, next_round_opened, confirm_only, orphan_only, mark_as_orphaned,
}
use solounlucky.Service.Blocks.Renewal.{quiet}
use solounlucky.Pool.{
  Pool, by_confirmations, orphan, confirm, check_block, check_blocks, check_confirmations,
}
use solounlucky.Pool.Reverts.{row-round_of, confirm_ends, confirm_repeats}

-- The block is off the main chain, or has two confirmations.
abbrev pub IsDecided : Outcome ℤ → Type 0
IsDecided (thrown e) = ⊥
IsDecided (returned (negsuc n)) = Unit
IsDecided (returned (pos n)) = 2 ≤ n

abbrev IsKnown : List Block → ℕ → Type 0
IsKnown bs id = (round : ℕ) × (round_of id bs ≡ returned round)

IsKnown-more : (b : Block) (bs : List Block) (id : ℕ) → IsKnown bs id → IsKnown (b ∷ bs) id
IsKnown-more b bs id (round, e) = elim (Bool-cases (b.id == id)) [
  | inl h ↦ (b.round_id, rw (h, round_of) refl)
  | inr h ↦ (round, rw (h, round_of) e)
]

All-IsKnown : (bs : List Block) → All (λ b. IsKnown bs b.id) bs
All-IsKnown [] = tt
All-IsKnown (b ∷ bs) = (
  (b.round_id, let self : (b.id == b.id) ≡ true = ground arith in rw (self, round_of) refl),
  All-mono _ _ bs (λ c k. IsKnown-more b bs c.id k) (All-IsKnown bs),
)

-- A check that takes the block off the list, and keeps the rounds that blocks name.
record Settles (pending : ℕ) (p : Pool) (after : ℕ × Pool) : Type 0 where
  pub count : after.0 ≡ pending
  pub rounds :
      (id : ℕ) → round_of id after.1.database.tables.blocks ≡ round_of id p.database.tables.blocks

confirm-Settles :
    (u : UnconfirmedBlock) (pending : ℕ) (p : Pool)
    → IsKnown p.database.tables.blocks u.id
    → Settles pending p (confirm quiet u pending p)
unfolding next_round_opened confirm_only confirm_row
confirm-Settles u pending p (round, at) =
    let same : (id : ℕ)
        → round_of id (confirm_row u.id p.database.tables.blocks)
          ≡ round_of id p.database.tables.blocks =
      λ id. row-round_of _ (λ b. ground arith) (λ b. ground arith) id p.database.tables.blocks in
    elim (Bool-cases (round_closed round p.database.tables.rounds)) [
      | inl closed ↦
          rw (confirm_repeats u pending p at closed) record { count = refl; rounds = same }
      | inr opened ↦ rw (confirm_ends u pending p at opened) record { count = refl; rounds = same }
    ]

orphan-Settles :
    (u : UnconfirmedBlock) (pending : ℕ) (p : Pool) → Settles pending p (orphan quiet u pending p)
unfolding orphan mark_as_orphaned orphan_only execute orphan_row
orphan-Settles u pending p = record {
  count = refl;
  rounds = λ id. row-round_of _ (λ b. ground arith) (λ b. ground arith) id p.database.tables.blocks;
}

module _ (confirmations : Text → Outcome ℤ) where
  check_block-Settles :
      (u : UnconfirmedBlock) (pending : ℕ) (p : Pool)
      → IsDecided (confirmations u.hash)
      → IsKnown p.database.tables.blocks u.id
      → Settles pending p (check_block quiet confirmations u pending p)
  unfolding check_block
  check_block-Settles u pending p decided known = go (confirmations u.hash) decided
    where
      checked : Outcome ℤ → ℕ × Pool
      checked o =
          by_confirmations o (pending + 1, p) (orphan quiet u pending p) (confirm quiet u pending p)

      go : (o : Outcome ℤ) → IsDecided o → Settles pending p (checked o)
      go (thrown e) h = absurd h
      go (returned (negsuc n)) h = orphan-Settles u pending p
      go (returned (pos n)) h =
          let enough : ltb n 2 ≡ false = ground arith in
          rw enough (confirm-Settles u pending p known)

  check_blocks-settles :
      (us : List UnconfirmedBlock) (pending : ℕ) (p : Pool)
      → All (λ u. IsDecided (confirmations u.hash)) us
      → All (λ u. IsKnown p.database.tables.blocks u.id) us
      → (check_blocks quiet confirmations us pending p).0 ≡ pending
  unfolding check_blocks
  check_blocks-settles [] pending p decided known = refl
  check_blocks-settles (u ∷ us) pending p (decided, rest) (known, others) =
      let (pending', p') = check_block quiet confirmations u pending p in
      let settled = check_block-Settles u pending p decided known in
      check_blocks-settles us pending' p' rest
        (All-mono _ _ us (λ v (round, e). (round, settled.rounds v.id ∙ e)) others)
      ∙ settled.count

  All-filter_guarded {ℓ κ} :
      {A : Type ℓ} (P : A → Type κ) (q : A → Bool) (xs : List A)
      → All (λ x. q x ≡ true → P x) xs
      → All P (filter q xs)
  All-filter_guarded P q [] a = tt
  All-filter_guarded P q (x ∷ xs) (h, a) = elim (Bool-cases (q x)) [
    | inl e ↦ rw e (h e, All-filter_guarded P q xs a)
    | inr e ↦ rw e (All-filter_guarded P q xs a)
  ]

  -- If no statement fails, and Bitcoin reports each block that waits either as off the main chain or with
  -- at least two confirmations, then `checkConfirmations` returns 0: the polling ends.
  pub check_confirmations_settles :
      (db : OrderBy) (p : Pool)
      → All
          (λ b. is_unconfirmed b ≡ true → IsDecided (confirmations b.hash))
          p.database.tables.blocks
      → (check_confirmations quiet confirmations db p).0 ≡ 0
  unfolding check_confirmations get_unconfirmed_blocks execute
  check_confirmations_settles db p decided =
      let bs = p.database.tables.blocks in
      let older : Block → Block → Bool = λ b c. leb b.found_at c.found_at in
      let waiting = filter is_unconfirmed bs in
      check_blocks-settles (map unconfirmed_of (db.order_by Block older waiting)) 0 p
        (All-map _ unconfirmed_of (db.order_by Block older waiting) (
          db.All-order_by Block older (λ b. IsDecided (confirmations b.hash)) waiting
            (All-filter_guarded _ is_unconfirmed bs decided)))
        (All-map _ unconfirmed_of (db.order_by Block older waiting) (
          db.All-order_by Block older (λ b. IsKnown bs b.id) waiting
            (All-filter _ is_unconfirmed bs (All-IsKnown bs))))
