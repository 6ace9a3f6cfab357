-- ===== src/Solo/Server.antt =====
-- The server of the solo pool (reward-service/internal/solo/handler.go and
-- reward-service/cmd/server/main.go): the calls of its handler, its flush loop and its confirmation
-- loop. Each call, and each turn of a loop, is one step.
pub mod Invariant
pub mod Keeping
use solounlucky.Prelude.{
  ℕ, ◌≤◌, ◌≡◌, ℤ, Bool, true, false, not, List, [], none, some, Text, count_by, ltb, ◌==◌,
  if◌then◌else◌,
}
use solounlucky.Store.{Tables}
use solounlucky.Db.Outcome.{Outcome}
use solounlucky.Service.Database.{Database, Faults, count_solo}
use solounlucky.Solo.{
  Solo, is_waiting, record_worker, flush_workers, solo_block_found, check_solo_confirmations,
}
use solounlucky.Socket.{ShareMessage, BlockMessage}

-- `polling` is whether `StartConfirmationLoop` is in its inner loop.
pub record SoloServer : Type 0 where
  pub solo : Solo
  pub polling : Bool

abbrev pub solo_waiting : Solo → ℕ
solo_waiting s = count_by is_waiting s.database.tables.solo_blocks

-- The seed of `StartConfirmationLoop`.
unfoldable pub recover_solo : Faults → Solo → Solo
recover_solo faults s = elim (faults count_solo) [
  | some e ↦ s
  | none ↦ if ltb 0 (solo_waiting s) then record s { block_pending = true } else s
]

-- `New`, and the start of the loops.
unfoldable pub launch_solo : Faults → Database → SoloServer
launch_solo faults d = record {
  solo = recover_solo faults record { pending = []; block_pending = false; database = d };
  polling = false;
}

unfoldable pub wake_solo : SoloServer → SoloServer
wake_solo s = record s { solo = record s.solo { block_pending = false }; polling = true }

-- A turn of the inner loop, which ends it if no block waits.
unfoldable pub poll_solo : Faults → (Text → Outcome ℤ) → SoloServer → SoloServer
poll_solo faults confirmations s =
    let (remaining, solo) = check_solo_confirmations faults confirmations s.solo in
    record { solo = solo; polling = not (remaining == 0) }

unfoldable pub advance_solo : ℕ → Solo → Solo
advance_solo now s = record s {
  database = record s.database { tables = record s.database.tables { now = now } };
}

-- The statements that fail, and the confirmations that Bitcoin reports, differ from step to step.
pub data SoloStep (s : SoloServer) : SoloServer → Type 0 where
  share_received : (m : ShareMessage) → SoloStep s (record s { solo = (record_worker m s.solo).1 })
  block_reported :
      (faults : Faults) (m : BlockMessage)
      → SoloStep s (record s { solo = (solo_block_found faults m s.solo).1 })
  flushed : (faults : Faults) → SoloStep s (record s { solo = (flush_workers faults s.solo).1 })
  woken : s.polling ≡ false → s.solo.block_pending ≡ true → SoloStep s (wake_solo s)
  polled :
      (faults : Faults) (confirmations : Text → Outcome ℤ)
      → s.polling ≡ true
      → SoloStep s (poll_solo faults confirmations s)
  ticked :
      (now : ℕ)
      → s.solo.database.tables.now ≤ now
      → SoloStep s (record s { solo = advance_solo now s.solo })

pub data SoloSteps (s : SoloServer) : SoloServer → Type 0 where
  unchanged : SoloSteps s s
  step : (t u : SoloServer) → SoloSteps s t → SoloStep t u → SoloSteps s u
