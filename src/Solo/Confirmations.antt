-- ===== src/Solo/Confirmations.antt =====
-- `checkConfirmations` of the solo pool (reward-service/internal/solo/handler.go).
use solounlucky.Prelude.{
  ℕ, ◌+◌, ◌≤◌, ◌<◌, ◌≡◌, refl, sym, ◌∙◌, ◌⊎◌, inl, inr, ℤ, pos, negsuc, true, List, [], ◌∷◌, Option,
  none, some, Text, arith, filter, filter-All, ltb, All, Bool-cases, Option-cases,
}
use solounlucky.Store.{SoloBlockRow}
use solounlucky.Db.Outcome.{Outcome, returned, thrown}
use solounlucky.Service.Database.{Faults, select_solo, read_solo, orphan_solo, confirm_solo}
use solounlucky.Solo.{
  Solo, is_waiting, is_read, confirm_solo_row, orphan_solo_row, with_solo_blocks, solo_verdict,
  unless_failed, check_solo_block, check_solo_blocks, check_solo_confirmations,
}
use solounlucky.Solo.Rows.{AreDistinct, IsKept, confirming-IsVerdict, orphaning-IsVerdict, update}
use solounlucky.Solo.Rows.Checking.{
  IsChecking, filter-IsChecking, fewer-IsChecking, AreListed, filter-AreListed, none_listed,
  update-AreListed, skip-IsChecking, update-IsChecking,
}
use solounlucky.Solo.Server.{solo_waiting}

abbrev rows : Solo → List SoloBlockRow
rows s = s.database.tables.solo_blocks

module _ (faults : Faults) (confirmations : Text → Outcome ℤ) where
  -- What holds of each result of a check holds of the check.
  check_solo_block-cases :
      (P : ℕ × Solo → Type 0) (u : SoloBlockRow) (waiting : ℕ) (s : Solo)
      → P (waiting + 1, s)
      → P (
        waiting,
        with_solo_blocks (update (λ b. record b { is_orphaned = true }) u.id (rows s)) s,
      )
      → P (waiting, with_solo_blocks (update (λ b. record b { confirmed = true }) u.id (rows s)) s)
      → P (check_solo_block faults confirmations u waiting s)
  unfolding check_solo_block confirm_solo_row orphan_solo_row
  check_solo_block-cases P u waiting s kept orphaned confirmed =
      go (confirmations u.hash) (faults (orphan_solo u.id)) (faults (confirm_solo u.id))
    where
      go :
          (o : Outcome ℤ) (f g : Option Text)
          → P (
              solo_verdict o
                (waiting + 1, s)
                (unless_failed f
                  (waiting + 1, s)
                  (waiting, with_solo_blocks (orphan_solo_row u.id (rows s)) s))
                (unless_failed g
                  (waiting + 1, s)
                  (waiting, with_solo_blocks (confirm_solo_row u.id (rows s)) s)))
      go (thrown e) f g = kept
      go (returned (negsuc n)) none g = orphaned
      go (returned (negsuc n)) (some e) g = kept
      go (returned (pos n)) f none = elim (Bool-cases (ltb n 2)) [
        | inl few ↦ rw few kept
        | inr enough ↦ rw enough confirmed
      ]
      go (returned (pos n)) f (some e) = elim (Bool-cases (ltb n 2)) [
        | inl few ↦ rw few kept
        | inr enough ↦ rw enough kept
      ]

  check_solo_blocks-IsChecking :
      (us : List SoloBlockRow) (waiting : ℕ) (s : Solo)
      → IsChecking s.database.next_solo us (rows s)
      → let s' = (check_solo_blocks faults confirmations us waiting s).1 in
        IsChecking s'.database.next_solo [] (rows s')
  unfolding check_solo_blocks
  check_solo_blocks-IsChecking [] waiting s c = c
  check_solo_blocks-IsChecking (u ∷ us) waiting s c =
      let (waiting', s') = check_solo_block faults confirmations u waiting s in
      check_solo_blocks-IsChecking us waiting' s' (
        check_solo_block-cases (λ r. IsChecking r.1.database.next_solo us (rows r.1)) u waiting s
          (skip-IsChecking s.database.next_solo u us (rows s) c)
          (update-IsChecking _ orphaning-IsVerdict s.database.next_solo u us (rows s) c)
          (update-IsChecking _ confirming-IsVerdict s.database.next_solo u us (rows s) c))

  -- The count only grows, and if it stays then no block is left.
  check_solo_blocks-AreListed :
      (us : List SoloBlockRow) (waiting : ℕ) (s : Solo)
      → let (waiting', s') = check_solo_blocks faults confirmations us waiting s in
        (waiting ≤ waiting') × (waiting' ≡ waiting → AreListed us (rows s) → AreListed [] (rows s'))
  unfolding check_solo_blocks
  check_solo_blocks-AreListed [] waiting s = (omega arith, λ _ a. a)
  check_solo_blocks-AreListed (u ∷ us) waiting s =
      let (waiting', s') = check_solo_block faults confirmations u waiting s in
      let (grown, rest) = check_solo_blocks-AreListed us waiting' s' in
      elim (check_solo_block-cases
        (λ r.
          (waiting < r.0)
          ⊎ ((r.0 ≡ waiting) × (AreListed (u ∷ us) (rows s) → AreListed us (rows r.1))))
        u waiting s (inl (omega arith))
        (inr (refl, update-AreListed _ u us (rows s) orphaning-IsVerdict))
        (inr (refl, update-AreListed _ u us (rows s) confirming-IsVerdict))) [
          | inl more ↦ (omega arith, λ e. absurd (omega arith))
          | inr (same, listed) ↦ (omega arith, λ e a. rest (e ∙ sym same) (listed a))
        ]

  All-is_read :
      ((id : ℕ) → faults (read_solo id) ≡ none)
      → (us : List SoloBlockRow) → All (λ u. is_read faults u ≡ true) us
  unfolding is_read
  All-is_read reads [] = tt
  All-is_read reads (u ∷ us) = (rw (reads u.id, is_read) refl, All-is_read reads us)

  -- If the rows are read, a check after which nothing is said to wait leaves no block that is neither
  -- confirmed nor orphaned.
  pub check_solo_confirmations_done :
      (s : Solo)
      → ((id : ℕ) → faults (read_solo id) ≡ none)
      → let (waiting, s') = check_solo_confirmations faults confirmations s in
        waiting ≡ 0 → solo_waiting s' ≡ 0
  unfolding check_solo_confirmations
  check_solo_confirmations_done s reads = go (faults select_solo)
    where
      whole : filter (is_read faults) (filter is_waiting (rows s)) ≡ filter is_waiting (rows s)
      whole = filter-All _ (filter is_waiting (rows s)) (All-is_read reads _)

      go :
          (o : Option Text)
          → let (waiting, s') = elim o as (λ _. ℕ × Solo) [
            | some e ↦ (1, s)
            | none ↦
                check_solo_blocks faults confirmations
                  (filter (is_read faults) (filter is_waiting (rows s)))
                  0
                  s
          ] in
            waiting ≡ 0 → solo_waiting s' ≡ 0
      go (some e) = λ h. absurd (omega arith)
      go none = rw whole (λ h.
          let (grown, rest) = check_solo_blocks-AreListed (filter is_waiting (rows s)) 0 s in
          none_listed _ (rest h (filter-AreListed (rows s))))

  -- A check keeps what holds of the rows.
  pub check_solo_confirmations-IsKept :
      (s : Solo)
      → AreDistinct (rows s)
      → All (IsKept s.database.next_solo) (rows s)
      → let s' = (check_solo_confirmations faults confirmations s).1 in
        AreDistinct (rows s') × All (IsKept s'.database.next_solo) (rows s')
  unfolding check_solo_confirmations
  check_solo_confirmations-IsKept s d k = elim (Option-cases (faults select_solo)) [
    | inl e ↦
        let c =
          check_solo_blocks-IsChecking (filter (is_read faults) (filter is_waiting (rows s))) 0 s (
            fewer-IsChecking s.database.next_solo (is_read faults) (filter is_waiting (rows s))
              (rows s) (filter-IsChecking s.database.next_solo (rows s) d k)) in
        rw (e, check_solo_confirmations) (c.distinct, c.kept)
    | inr (m, e) ↦ rw (e, check_solo_confirmations) (d, k)
  ]
