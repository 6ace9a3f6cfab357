-- ===== src/Solo/Ending.antt =====
-- The polling of the solo pool (reward-service/internal/solo/handler.go) comes to an end.
use mathlib.Core.Path.{subst}
use solounlucky.Prelude.{
  ℕ, ◌≡◌, refl, ◌∙◌, ℤ, pos, negsuc, false, ltb, List, [], ◌∷◌, ◌++◌, none, some, Text, arith, All,
}
use solounlucky.Store.{SoloBlockRow}
use solounlucky.Db.Outcome.{Outcome, returned, thrown}
use solounlucky.Service.Database.{read_solo}
use solounlucky.Service.Blocks.Renewal.{quiet}
use solounlucky.Polling.{poll_until, poll_until-ends}
use solounlucky.Pool.Settling.{IsDecided}
use solounlucky.Pool.Ending.{Turn}
use solounlucky.Solo.{
  Solo, solo_verdict, check_solo_block, check_solo_blocks, check_solo_confirmations,
}
use solounlucky.Solo.Server.{solo_waiting}
use solounlucky.Solo.Confirmations.{check_solo_confirmations_done}

unfoldable pub check_solo_turn : Turn → Solo → ℕ × Solo
check_solo_turn (faults, confirmations) s = check_solo_confirmations faults confirmations s

verdict-settles :
    (o : Outcome ℤ) (n : ℕ) (waits orphans confirms : ℕ × Solo)
    → IsDecided o
    → orphans.0 ≡ n
    → confirms.0 ≡ n
    → (solo_verdict o waits orphans confirms).0 ≡ n
verdict-settles (thrown e) n w o c h p q = absurd h
verdict-settles (returned (negsuc k)) n w o c h p q = p
verdict-settles (returned (pos k)) n w o c h p q =
    let enough : ltb k 2 ≡ false = ground arith in rw enough q

module _ (confirmations : Text → Outcome ℤ)
    (decided : (hash : Text) → IsDecided (confirmations hash)) where
  check_solo_block-settles :
      (b : SoloBlockRow) (waiting : ℕ) (s : Solo)
      → (check_solo_block quiet confirmations b waiting s).0 ≡ waiting
  unfolding check_solo_block
  check_solo_block-settles b waiting s =
      verdict-settles (confirmations b.hash) waiting _ _ _ (decided b.hash) refl refl

  check_solo_blocks-settles :
      (bs : List SoloBlockRow) (waiting : ℕ) (s : Solo)
      → (check_solo_blocks quiet confirmations bs waiting s).0 ≡ waiting
  unfolding check_solo_blocks
  check_solo_blocks-settles [] waiting s = refl
  check_solo_blocks-settles (b ∷ bs) waiting s =
      let (waiting', s') = check_solo_block quiet confirmations b waiting s in
      check_solo_blocks-settles bs waiting' s' ∙ check_solo_block-settles b waiting s

  check_solo_confirmations-settles :
      (s : Solo) → (check_solo_confirmations quiet confirmations s).0 ≡ 0
  unfolding check_solo_confirmations
  check_solo_confirmations-settles s = check_solo_blocks-settles _ 0 s

-- A turn in which the rows of the blocks that wait are all read.
abbrev pub IsReading : Turn → Type 0
IsReading (faults, confirmations) = (id : ℕ) → faults (read_solo id) ≡ none

-- Whatever Bitcoin reports in the earlier turns and whichever statements fail, as long as the rows of
-- the blocks that wait are read where their query succeeds: when a turn comes in which no statement
-- fails and Bitcoin decides each block, the polling of the solo pool has ended by it, and then no solo
-- block waits.
pub solo_polling_ends :
    (before after : List Turn) (confirmations : Text → Outcome ℤ) (s : Solo)
    → All IsReading before
    → ((hash : Text) → IsDecided (confirmations hash))
    → (s' : Solo) × (poll_until check_solo_turn (before ++ (quiet, confirmations) ∷ after) s
        ≡ some s')
      × (solo_waiting s' ≡ 0)
unfolding check_solo_turn
solo_polling_ends before after confirmations s reads decided =
    let (s', ends, ((faults, reported), u, read, zero, last)) =
      poll_until-ends check_solo_turn IsReading before after (quiet, confirmations) s reads
        (λ id. refl) (check_solo_confirmations-settles confirmations decided) in
    (
      s',
      ends,
      subst (λ (r : Solo). solo_waiting r ≡ 0) last
          (check_solo_confirmations_done faults reported u read zero),
    )
