-- ===== src/Pool/Confirmations.antt =====
-- `checkConfirmations` of reward-service/cmd/server/main.go: what a return of 0 says.
use mathlib.Core.Path.{subst}
use solounlucky.Prelude.{
  ℕ, ◌+◌, ◌≤◌, ◌<◌, ◌≡◌, refl, sym, ◌∙◌, ◌⊎◌, inl, inr, ℤ, pos, negsuc, Bool, true, List, [], ◌∷◌,
  map, Text, arith, ltb, ◌==◌, Bool-cases, All, count_by, filter, any_by, leb, codes, All-mono,
}
use solounlucky.Sql.{OrderBy}
use solounlucky.Store.{Tables, Block}
use solounlucky.Db.Outcome.{Outcome, returned, thrown, returned-injective, >>=-eq-returned}
use solounlucky.Service.Database.{Database, Faults, execute, wrap, select_unconfirmed}
use solounlucky.Service.Blocks.{
  UnconfirmedBlock, is_unconfirmed, unconfirmed_of, get_unconfirmed_blocks, confirm_row, orphan_row,
  next_round_opened, confirm_only, orphan_only,
}
use solounlucky.Service.Blocks.Rounds.{
  Confirmation, failed, ended, repeated, confirm_block_lem, Orphaning, kept, orphaned,
  mark_as_orphaned_lem,
}
use solounlucky.Pool.{
  Pool, after_orphan, after_confirm, by_confirmations, orphan, confirm, check_block, check_blocks,
  check_confirmations,
}

-- Each block that waits is one of those that are still to be checked.
abbrev pub AreListed : List UnconfirmedBlock → List Block → Type 0
AreListed us = All (λ b. is_unconfirmed b ≡ true → any_by (λ u. u.id == b.id) us ≡ true)

confirm_row-AreListed :
    (u : UnconfirmedBlock) (us : List UnconfirmedBlock) (bs : List Block)
    → AreListed (u ∷ us) bs
    → AreListed us (confirm_row u.id bs)
unfolding confirm_row
confirm_row-AreListed u us [] a = tt
confirm_row-AreListed u us (b ∷ bs) (h, a) = (ground arith, confirm_row-AreListed u us bs a)

orphan_row-AreListed :
    (u : UnconfirmedBlock) (us : List UnconfirmedBlock) (bs : List Block)
    → AreListed (u ∷ us) bs
    → AreListed us (orphan_row u.id bs)
unfolding orphan_row
orphan_row-AreListed u us [] a = tt
orphan_row-AreListed u us (b ∷ bs) (h, a) = (ground arith, orphan_row-AreListed u us bs a)

-- A check counts the block as waiting, or takes it off the list.
abbrev IsChecked :
    UnconfirmedBlock → List UnconfirmedBlock → (pending : ℕ) → Pool → ℕ × Pool → Type 0
IsChecked u us pending p (pending', p') =
    (pending < pending')
    ⊎ ((pending' ≡ pending)
        × (AreListed (u ∷ us) p.database.tables.blocks → AreListed us p'.database.tables.blocks))

module _ (faults : Faults) where
  orphan-IsChecked :
      (u : UnconfirmedBlock) (us : List UnconfirmedBlock) (pending : ℕ) (p : Pool)
      → IsChecked u us pending p (orphan faults u pending p)
  unfolding orphan orphan_only
  orphan-IsChecked u us pending p = go (mark_as_orphaned_lem faults u.id p.database)
    where
      go :
          {result : Outcome (Unit {0})} {d' : Database}
          → Orphaning u.id p.database result d'
          → IsChecked u us pending p (after_orphan pending p result d')
      go (kept e) = inl (omega arith)
      go orphaned = inr (refl, orphan_row-AreListed u us p.database.tables.blocks)

  confirm-IsChecked :
      (u : UnconfirmedBlock) (us : List UnconfirmedBlock) (pending : ℕ) (p : Pool)
      → IsChecked u us pending p (confirm faults u pending p)
  unfolding confirm next_round_opened confirm_only
  confirm-IsChecked u us pending p = go (confirm_block_lem faults u.id p.database)
    where
      go :
          {result : Outcome ℕ} {d' : Database}
          → Confirmation u.id p.database result d'
          → IsChecked u us pending p (after_confirm pending p result d')
      go (failed e) = inl (omega arith)
      go (ended round at opened) = inr (refl, confirm_row-AreListed u us p.database.tables.blocks)
      go (repeated round at closed) =
          inr (refl, confirm_row-AreListed u us p.database.tables.blocks)

  module _ (confirmations : Text → Outcome ℤ) where
    check_block-IsChecked :
        (u : UnconfirmedBlock) (us : List UnconfirmedBlock) (pending : ℕ) (p : Pool)
        → IsChecked u us pending p (check_block faults confirmations u pending p)
    unfolding check_block
    check_block-IsChecked u us pending p = go (confirmations u.hash)
      where
        go :
            (o : Outcome ℤ)
            → IsChecked u us pending p (
                by_confirmations o
                  (pending + 1, p)
                  (orphan faults u pending p)
                  (confirm faults u pending p))
        go (thrown e) = inl (omega arith)
        go (returned (negsuc n)) = orphan-IsChecked u us pending p
        go (returned (pos n)) = elim (Bool-cases (ltb n 2)) [
          | inl few ↦ rw few (inl (omega arith))
          | inr more ↦ rw more (confirm-IsChecked u us pending p)
        ]

    -- The count only grows, and if it stays then no block is left.
    check_blocks-AreListed :
        (us : List UnconfirmedBlock) (pending : ℕ) (p : Pool)
        → let (pending', p') = check_blocks faults confirmations us pending p in
          (pending ≤ pending')
          × (pending' ≡ pending
              → AreListed us p.database.tables.blocks
              → AreListed [] p'.database.tables.blocks)
    unfolding check_blocks
    check_blocks-AreListed [] pending p = (omega arith, λ _ a. a)
    check_blocks-AreListed (u ∷ us) pending p =
        let (pending', p') = check_block faults confirmations u pending p in
        let (grown, rest) = check_blocks-AreListed us pending' p' in
        elim (check_block-IsChecked u us pending p) [
          | inl more ↦ (omega arith, λ e. absurd (omega arith))
          | inr (same, listed) ↦ (omega arith, λ e a. rest (e ∙ sym same) (listed a))
        ]

listed_by :
    (n : ℕ) (bs : List Block)
    → any_by (λ u. u.id == n) (map unconfirmed_of bs) ≡ any_by (λ b. b.id == n) bs
listed_by n [] = refl
listed_by n (b ∷ bs) = rw (listed_by n bs)

any_by-count_by {ℓ} :
    {A : Type ℓ} (p : A → Bool) (xs : List A) → any_by p xs ≡ ltb 0 (count_by p xs)
any_by-count_by p [] = ground arith
any_by-count_by p (x ∷ xs) = ground (arith, any_by-count_by p xs)

filter_lists :
    (bs : List Block)
    → All
        (λ b.
          is_unconfirmed b ≡ true → any_by (λ c. c.id == b.id) (filter is_unconfirmed bs) ≡ true)
        bs
filter_lists [] = tt
filter_lists (b ∷ bs) = (
  λ h. rw h (ground arith),
  All-mono _ _ bs (λ c later h. ground (arith, later h)) (filter_lists bs),
)

pub none_listed : (bs : List Block) → AreListed [] bs → count_by is_unconfirmed bs ≡ 0
none_listed [] a = refl
none_listed (b ∷ bs) (h, a) = ground (arith, none_listed bs a)

module _ (db : OrderBy) (faults : Faults) where
  pub get_unconfirmed_blocks-AreListed :
      (t : Tables) {us : List UnconfirmedBlock}
      → get_unconfirmed_blocks db faults t ≡ returned us
      → AreListed us t.blocks
  unfolding get_unconfirmed_blocks
  get_unconfirmed_blocks-AreListed t h =
      let (_, _, h1) =
        >>=-eq-returned (wrap (codes "GetUnconfirmedBlocks") (execute faults select_unconfirmed)) _
          h in
      let waiting = filter is_unconfirmed t.blocks in
      let older : Block → Block → Bool = λ b c. leb b.found_at c.found_at in
      let listed : (n : ℕ)
          → any_by (λ u. u.id == n) (map unconfirmed_of (db.order_by Block older waiting))
            ≡ any_by (λ b. b.id == n) waiting =
        λ n.
          rw
            (
              listed_by n (db.order_by Block older waiting),
              any_by-count_by (λ b. b.id == n) (db.order_by Block older waiting),
              db.count_order_by Block older (λ b. b.id == n) waiting,
            )
            (sym (any_by-count_by (λ b. b.id == n) waiting)) in
      subst (λ us. AreListed us t.blocks) (returned-injective h1)
        (All-mono _ _ t.blocks (λ b there e. listed b.id ∙ there e) (filter_lists t.blocks))

  -- If `checkConfirmations` returns 0, which ends the polling, then no block waits any more: each block
  -- is confirmed or orphaned.
  pub check_confirmations_done :
      (confirmations : Text → Outcome ℤ) (p : Pool)
      → (check_confirmations faults confirmations db p).0 ≡ 0
      → count_by is_unconfirmed
          (check_confirmations faults confirmations db p).1.database.tables.blocks
        ≡ 0
  unfolding check_confirmations
  check_confirmations_done confirmations p h =
      go (get_unconfirmed_blocks db faults p.database.tables)
        (λ us e. get_unconfirmed_blocks-AreListed p.database.tables e) h
    where
      polled : Outcome (List UnconfirmedBlock) → ℕ × Pool
      polled o = elim o [
        | thrown e ↦ (1, p)
        | returned us ↦ check_blocks faults confirmations us 0 p
      ]

      go :
          (o : Outcome (List UnconfirmedBlock))
          → ((us : List UnconfirmedBlock) → o ≡ returned us → AreListed us p.database.tables.blocks)
          → (polled o).0 ≡ 0
          → count_by is_unconfirmed (polled o).1.database.tables.blocks ≡ 0
      go (thrown e) listed h = absurd (omega arith)
      go (returned us) listed h =
          none_listed _ ((check_blocks-AreListed faults confirmations us 0 p).1 h (listed us refl))
