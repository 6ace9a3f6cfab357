-- ===== src/Pool/Ending.antt =====
-- The polling of the shared pool (reward-service/cmd/server/main.go) comes to an end.
use mathlib.Core.Path.{subst}
use solounlucky.Prelude.{ℕ, ◌≡◌, ℤ, true, List, [], ◌∷◌, ◌++◌, some, Text, All}
use solounlucky.Sql.{OrderBy}
use solounlucky.Store.{Block}
use solounlucky.Db.Outcome.{Outcome}
use solounlucky.Service.Database.{Faults}
use solounlucky.Service.Blocks.{is_unconfirmed}
use solounlucky.Service.Blocks.Renewal.{quiet}
use solounlucky.Polling.{poll_until, poll_until-ends}
use solounlucky.Pool.{Pool, check_confirmations}
use solounlucky.Pool.Confirmations.{check_confirmations_done}
use solounlucky.Pool.Settling.{IsDecided, check_confirmations_settles}
use solounlucky.Pool.Server.Keeping.{waiting}

-- What a turn finds: the statements that fail, and what Bitcoin reports.
abbrev pub Turn : Type 0
Turn = Faults × (Text → Outcome ℤ)

unfoldable pub check_turn : OrderBy → Turn → Pool → ℕ × Pool
check_turn db (faults, confirmations) p = check_confirmations faults confirmations db p

always :
    (confirmations : Text → Outcome ℤ)
    → ((hash : Text) → IsDecided (confirmations hash))
    → (bs : List Block) → All (λ b. is_unconfirmed b ≡ true → IsDecided (confirmations b.hash)) bs
always confirmations decided [] = tt
always confirmations decided (b ∷ bs) = ((λ _. decided b.hash), always confirmations decided bs)

All-Unit : (ts : List Turn) → All {0, 0} (λ _. Unit) ts
All-Unit [] = tt
All-Unit (t ∷ ts) = (tt, All-Unit ts)

-- Whatever the earlier turns find: when a turn comes in which no statement fails and Bitcoin decides
-- each block, the polling of the shared pool has ended by it, and then no block waits.
pub polling_ends :
    (db : OrderBy) (before after : List Turn) (confirmations : Text → Outcome ℤ) (p : Pool)
    → ((hash : Text) → IsDecided (confirmations hash))
    → (p' : Pool) × (poll_until (check_turn db) (before ++ (quiet, confirmations) ∷ after) p
        ≡ some p')
      × (waiting p' ≡ 0)
unfolding check_turn
polling_ends db before after confirmations p decided =
    let (p', ends, ((faults, reported), q, _, zero, last)) =
      poll_until-ends (check_turn db) (λ _. Unit) before after (quiet, confirmations) p
        (All-Unit before) tt
        (λ u.
          check_confirmations_settles confirmations db u
            (always confirmations decided u.database.tables.blocks)) in
    (
      p',
      ends,
      subst (λ (r : Pool). waiting r ≡ 0) last (check_confirmations_done db faults reported q zero),
    )
