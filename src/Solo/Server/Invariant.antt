-- ===== src/Solo/Server/Invariant.antt =====
-- What holds of the solo pool's server (reward-service/internal/solo/handler.go) at any time.
use mathlib.Core.Path.{subst}
use solounlucky.Prelude.{
  ℕ, ◌<◌, ◌≡◌, refl, sym, ap, ◌⊎◌, inl, inr, ℤ, true, false, not, none, Text, arith, count_by, ltb,
  lt→ltb, ◌==◌, ==_iff, Bool-cases, Option-cases,
}
use solounlucky.Db.Outcome.{Outcome}
use solounlucky.Service.Database.{Database, Faults, count_solo, read_solo}
use solounlucky.Solo.{Solo, is_waiting, solo_block_found, check_solo_confirmations}
use solounlucky.Solo.Confirmations.{check_solo_confirmations_done}
use solounlucky.Socket.{BlockMessage}
use solounlucky.Solo.Server.{
  SoloServer, solo_waiting, recover_solo, launch_solo, wake_solo, poll_solo, SoloStep,
  share_received, block_reported, flushed, woken, polled, ticked, SoloSteps, unchanged, step,
}
use solounlucky.Solo.Server.Keeping.{
  IsSoloSound, Keeps, Keeps-IsSoloSound, record_worker-Keeps, advance_solo-Keeps,
  flush_workers-Keeps, solo_block_found-cases, solo_block_found-IsSoloSound,
  check_solo_confirmations-IsSoloSound,
}

-- A block that waits is signalled or polled for.
abbrev pub IsSoloWatched : SoloServer → Type 0
IsSoloWatched s = 0 < solo_waiting s.solo → (s.solo.block_pending ≡ true) ⊎ (s.polling ≡ true)

Keeps-IsSoloWatched :
    (s : SoloServer) (t : Solo)
    → Keeps s.solo t
    → IsSoloWatched s
    → IsSoloWatched (record s { solo = t })
Keeps-IsSoloWatched s t k watched h =
    rw k.signal (watched (rw (sym (ap (count_by is_waiting) k.blocks)) h))

solo_block_found-IsSoloWatched :
    (faults : Faults) (m : BlockMessage) (s : SoloServer)
    → IsSoloWatched s
    → IsSoloWatched (record s { solo = (solo_block_found faults m s.solo).1 })
solo_block_found-IsSoloWatched faults m s watched = elim (solo_block_found-cases faults m s.solo) [
  | inl same ↦ rw same watched
  | inr (d, added, e) ↦ rw e (λ _. inl refl)
]

poll_solo-IsSoloWatched :
    (faults : Faults) (confirmations : Text → Outcome ℤ) (s : SoloServer)
    → ((id : ℕ) → faults (read_solo id) ≡ none)
    → IsSoloWatched (poll_solo faults confirmations s)
unfolding poll_solo
poll_solo-IsSoloWatched faults confirmations s reads h = go (Bool-cases (remaining == 0))
  where
    remaining : ℕ
    remaining = (check_solo_confirmations faults confirmations s.solo).0

    go :
        ((remaining == 0) ≡ true) ⊎ ((remaining == 0) ≡ false)
        → ((poll_solo faults confirmations s).solo.block_pending ≡ true)
          ⊎ (not (remaining == 0) ≡ true)
    go (inr e) = inr (rw e refl)
    go (inl e) =
        let done =
          check_solo_confirmations_done faults confirmations s.solo reads
            ((==_iff remaining 0).0 e) in
        absurd (omega arith)

solo_step-IsSoloSound :
    (s s' : SoloServer) → SoloStep s s' → IsSoloSound s.solo.database → IsSoloSound s'.solo.database
unfolding wake_solo poll_solo
solo_step-IsSoloSound s _ (share_received m) sound =
    Keeps-IsSoloSound s.solo _ (record_worker-Keeps m s.solo) sound
solo_step-IsSoloSound s _ (block_reported faults m) sound =
    solo_block_found-IsSoloSound faults m s.solo sound
solo_step-IsSoloSound s _ (flushed faults) sound =
    Keeps-IsSoloSound s.solo _ (flush_workers-Keeps faults s.solo) sound
solo_step-IsSoloSound s _ (woken idle signalled) sound = sound
solo_step-IsSoloSound s _ (polled faults confirmations busy) sound =
    check_solo_confirmations-IsSoloSound faults confirmations s.solo sound
solo_step-IsSoloSound s _ (ticked now later) sound =
    Keeps-IsSoloSound s.solo _ (advance_solo-Keeps now s.solo) sound

-- A turn of the loop in which the rows that wait are all read.
abbrev pub IsReading : (s s' : SoloServer) → SoloStep s s' → Type 0
IsReading s _ (polled faults confirmations busy) = (id : ℕ) → faults (read_solo id) ≡ none
IsReading s _ (share_received m) = Unit
IsReading s _ (block_reported faults m) = Unit
IsReading s _ (flushed faults) = Unit
IsReading s _ (woken idle signalled) = Unit
IsReading s _ (ticked now later) = Unit

abbrev pub AreReading : (s s' : SoloServer) → SoloSteps s s' → Type 0
AreReading s _ unchanged = Unit
AreReading s _ (step t u steps last) = AreReading s t steps × IsReading t u last

solo_step-IsSoloWatched :
    (s s' : SoloServer) (l : SoloStep s s') → IsReading s s' l → IsSoloWatched s → IsSoloWatched s'
unfolding wake_solo
solo_step-IsSoloWatched s _ (share_received m) reads watched =
    Keeps-IsSoloWatched s _ (record_worker-Keeps m s.solo) watched
solo_step-IsSoloWatched s _ (block_reported faults m) reads watched =
    solo_block_found-IsSoloWatched faults m s watched
solo_step-IsSoloWatched s _ (flushed faults) reads watched =
    Keeps-IsSoloWatched s _ (flush_workers-Keeps faults s.solo) watched
solo_step-IsSoloWatched s _ (woken idle signalled) reads watched = λ _. inr refl
solo_step-IsSoloWatched s _ (polled faults confirmations busy) reads watched =
    poll_solo-IsSoloWatched faults confirmations s reads
solo_step-IsSoloWatched s _ (ticked now later) reads watched =
    Keeps-IsSoloWatched s _ (advance_solo-Keeps now s.solo) watched

launched-database : (faults : Faults) (d : Database) → (launch_solo faults d).solo.database ≡ d
unfolding launch_solo recover_solo
launched-database faults d = elim (Option-cases (faults count_solo)) [
  | inl e ↦ elim (Bool-cases (ltb 0 (count_by is_waiting d.tables.solo_blocks))) [
    | inl some_wait ↦ rw (e, launch_solo, recover_solo, some_wait) refl
    | inr none_waits ↦ rw (e, launch_solo, recover_solo, none_waits) refl
  ]
  | inr (m, e) ↦ rw (e, launch_solo, recover_solo) refl
]

launched-IsSoloWatched :
    (faults : Faults) (d : Database)
    → faults count_solo ≡ none
    → IsSoloWatched (launch_solo faults d)
unfolding launch_solo recover_solo
launched-IsSoloWatched faults d e h =
    let database = launched-database faults d in
    let some_wait : ltb 0 (count_by is_waiting d.tables.solo_blocks) ≡ true =
      lt→ltb _ _
        (subst (λ (x : Database). 0 < count_by is_waiting x.tables.solo_blocks) database h) in
    rw (e, launch_solo, recover_solo, some_wait) (inl refl)

-- The solo pool is launched on a database whose solo blocks differ in number and hash, have numbers that
-- have been given out and the payouts of their fees, and are not both confirmed and orphaned. Then
-- whatever happens, in whatever order, and whichever statements fail, they are like that: a block that is
-- reported twice is kept once, and no verdict contradicts another.
pub SoloSteps-IsSoloSound :
    (faults : Faults) (d : Database) (s : SoloServer)
    → IsSoloSound d
    → SoloSteps (launch_solo faults d) s
    → IsSoloSound s.solo.database
SoloSteps-IsSoloSound faults d s sound unchanged = rw (launched-database faults d) sound
SoloSteps-IsSoloSound faults d s sound (step t _ steps last) =
    solo_step-IsSoloSound t s last (SoloSteps-IsSoloSound faults d t sound steps)

-- If the query of the seed succeeds when the solo pool is launched, and each turn of the loop reads all
-- rows of the blocks that wait, then at any later time a solo block that waits is known to the
-- confirmation loop: the loop polls, or the signal that wakes it is set. Other statements may fail.
pub SoloSteps-IsSoloWatched :
    (faults : Faults) (d : Database) (s : SoloServer)
    → faults count_solo ≡ none
    → (steps : SoloSteps (launch_solo faults d) s) → AreReading (launch_solo faults d) s steps
    → IsSoloWatched s
SoloSteps-IsSoloWatched faults d s ok unchanged reads = launched-IsSoloWatched faults d ok
SoloSteps-IsSoloWatched faults d s ok (step t _ steps last) (reads, now) =
    solo_step-IsSoloWatched t s last now (SoloSteps-IsSoloWatched faults d t ok steps reads)
