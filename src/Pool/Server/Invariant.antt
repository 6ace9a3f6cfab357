-- ===== src/Pool/Server/Invariant.antt =====
-- What holds of the server (reward-service/cmd/server/main.go) at any time.
use mathlib.Core.Path.{subst}
use solounlucky.Prelude.{
  ℕ, ◌<◌, ◌≡◌, refl, sym, ap, ◌∙◌, ◌⊎◌, inl, inr, ℤ, Bool, true, false, not, List, [], ◌∷◌, none,
  Text, arith, ◌==◌, ==_iff, leb, map, filter, Bool-cases, count_by,
}
use solounlucky.Js.{Number}
use solounlucky.Sql.{OrderBy}
use solounlucky.Store.{Tables, Block}
use solounlucky.Db.Outcome.{Outcome, returned, thrown, Outcome-cases, returned-injective}
use solounlucky.Service.Database.{Database, Faults, select_unconfirmed, execute}
use solounlucky.Service.Blocks.{
  is_unconfirmed, unconfirmed_of, UnconfirmedBlock, get_unconfirmed_blocks,
}
use solounlucky.Service.Blocks.Sound.{IsSound}
use solounlucky.Pool.{Pool, start, active_round_id, check_confirmations}
use solounlucky.Pool.Confirmations.{
  AreListed, get_unconfirmed_blocks-AreListed, none_listed, check_confirmations_done,
}
use solounlucky.Pool.Server.{
  Server, Step, share_received, block_reported, refreshed, flushed, woken, polled, ticked, Steps,
  unchanged, step, recover, after_recovery, launch, wake, poll,
}
use solounlucky.Pool.Server.Keeping.{
  waiting, Keeps, record_share-Keeps, refresh_leaderboard-Keeps, flush-Keeps, advance-Keeps,
  block_found-IsSound, block_found-waiting, check_confirmations-IsSound,
}

-- A block that waits is signalled or polled for.
abbrev pub IsWatched : Server → Type 0
IsWatched s = 0 < waiting s.pool → (s.pool.block_pending ≡ true) ⊎ (s.polling ≡ true)

Keeps-IsWatched :
    (s : Server) (p' : Pool) → Keeps s.pool p' → IsWatched s → IsWatched (record s { pool = p' })
Keeps-IsWatched s p' k watched h =
    rw k.signal (watched (rw (sym (ap (count_by is_unconfirmed) k.blocks)) h))

poll-IsWatched :
    (faults : Faults) (confirmations : Text → Outcome ℤ) (db : OrderBy) (s : Server)
    → IsWatched (poll faults confirmations db s)
unfolding poll
poll-IsWatched faults confirmations db s h = go (Bool-cases (remaining == 0))
  where
    remaining : ℕ
    remaining = (check_confirmations faults confirmations db s.pool).0

    go :
        ((remaining == 0) ≡ true) ⊎ ((remaining == 0) ≡ false)
        → ((poll faults confirmations db s).pool.block_pending ≡ true)
          ⊎ (not (remaining == 0) ≡ true)
    go (inr e) = inr (rw e refl)
    go (inl e) =
        let done =
          check_confirmations_done db faults confirmations s.pool ((==_iff remaining 0).0 e) in
        absurd (omega arith)

module _ (db : OrderBy) (numeric : Text → Outcome ℕ) (numeric_of_double : Number → Outcome ℕ) where
  step-IsSound :
      (s s' : Server)
      → Step db numeric numeric_of_double s s'
      → IsSound s.pool.database
      → IsSound s'.pool.database
  unfolding wake poll
  step-IsSound s s' (share_received m) sound = (record_share-Keeps m s.pool).sound sound
  step-IsSound s s' (block_reported faults m) sound = block_found-IsSound db faults m s.pool sound
  step-IsSound s s' (refreshed faults) sound =
      (refresh_leaderboard-Keeps db faults s.pool).sound sound
  step-IsSound s s' (flushed faults) sound =
      (flush-Keeps numeric numeric_of_double faults s.pool).sound sound
  step-IsSound s s' (woken idle signal) sound = sound
  step-IsSound s s' (polled faults confirmations active) sound =
      check_confirmations-IsSound faults confirmations db s.pool sound
  step-IsSound s s' (ticked now later) sound = (advance-Keeps now s.pool).sound sound

  step-IsWatched :
      (s s' : Server) → Step db numeric numeric_of_double s s' → IsWatched s → IsWatched s'
  unfolding wake
  step-IsWatched s s' (share_received m) w = Keeps-IsWatched s _ (record_share-Keeps m s.pool) w
  step-IsWatched s s' (block_reported faults m) w = elim (block_found-waiting db faults m s.pool) [
    | inl signal ↦ λ h. inl signal
    | inr (same, count) ↦ λ h. rw same (w (omega arith))
  ]
  step-IsWatched s s' (refreshed faults) w =
      Keeps-IsWatched s _ (refresh_leaderboard-Keeps db faults s.pool) w
  step-IsWatched s s' (flushed faults) w =
      Keeps-IsWatched s _ (flush-Keeps numeric numeric_of_double faults s.pool) w
  step-IsWatched s s' (woken idle signal) w = λ h. inr refl
  step-IsWatched s s' (polled faults confirmations active) w =
      poll-IsWatched faults confirmations db s
  step-IsWatched s s' (ticked now later) w = Keeps-IsWatched s _ (advance-Keeps now s.pool) w

get_unconfirmed_blocks-ok :
    (db : OrderBy) (faults : Faults) (t : Tables)
    → faults select_unconfirmed ≡ none
    → (us : List UnconfirmedBlock) × (get_unconfirmed_blocks db faults t ≡ returned us)
unfolding get_unconfirmed_blocks execute
get_unconfirmed_blocks-ok db faults t ok =
    let older : Block → Block → Bool = λ b c. leb b.found_at c.found_at in
    (map unconfirmed_of (db.order_by Block older (filter is_unconfirmed t.blocks)), rw ok refl)

recover-signal :
    (db : OrderBy) (faults : Faults) (p : Pool)
    → faults select_unconfirmed ≡ none
    → 0 < waiting p
    → (recover db faults p).block_pending ≡ true
unfolding recover
recover-signal db faults p ok h =
    let (us, e) = get_unconfirmed_blocks-ok db faults p.database.tables ok in
    rw e (go us (get_unconfirmed_blocks-AreListed db faults p.database.tables e))
  where
    go :
        (us : List UnconfirmedBlock)
        → AreListed us p.database.tables.blocks
        → (after_recovery p (returned us)).block_pending ≡ true
    go [] listed = let left = none_listed p.database.tables.blocks listed in absurd (omega arith)
    go (u ∷ us) listed = refl

recover-database :
    (db : OrderBy) (faults : Faults) (p : Pool) → (recover db faults p).database ≡ p.database
unfolding recover
recover-database db faults p = go (get_unconfirmed_blocks db faults p.database.tables)
  where
    go : (o : Outcome (List UnconfirmedBlock)) → (after_recovery p o).database ≡ p.database
    go (thrown e) = refl
    go (returned []) = refl
    go (returned (b ∷ bs)) = refl

launch-eq-returned :
    (db : OrderBy) (faults : Faults) (d : Database) {s : Server}
    → launch db faults d ≡ returned s
    → (round : ℕ) × (s ≡ record { pool = recover db faults (start round d); polling = false })
unfolding launch
launch-eq-returned db faults d h = elim (Outcome-cases (active_round_id db d.tables)) [
  | inl (round, e) ↦ (round, returned-injective (sym h ∙ rw (e, launch) refl))
  | inr (m, e) ↦ let failing : launch db faults d ≡ thrown m = rw (e, launch) refl in cc
]

launched-database :
    (db : OrderBy) (faults : Faults) (d : Database) {s : Server}
    → launch db faults d ≡ returned s
    → s.pool.database ≡ d
unfolding start
launched-database db faults d h =
    let (round, e) = launch-eq-returned db faults d h in
    ap (λ s. s.pool.database) e ∙ recover-database db faults (start round d)

module _ (db : OrderBy) (numeric : Text → Outcome ℕ) (numeric_of_double : Number → Outcome ℕ) where
  -- The server is launched on a database with one open round, whose blocks name rounds that exist and
  -- have a snapshot, whose shares are not stale and name rounds that exist, and whose next round
  -- number is new. Then whatever happens, in whatever order, and whichever statements fail, its
  -- database is like that: one round is open at any time.
  pub Steps-IsSound :
      (faults : Faults) (d : Database) (s s' : Server)
      → IsSound d
      → launch db faults d ≡ returned s
      → Steps db numeric numeric_of_double s s'
      → IsSound s'.pool.database
  Steps-IsSound faults d s s' sound launched unchanged =
      rw (launched-database db faults d launched) sound
  Steps-IsSound faults d s s' sound launched (step t _ steps last) =
      step-IsSound db numeric numeric_of_double t s' last
        (Steps-IsSound faults d s t sound launched steps)

  -- If the query of the seed succeeds when the server is launched, then at any later time a block that
  -- waits is known to the confirmation loop: the loop polls, or the signal that wakes it is set.
  pub Steps-IsWatched :
      (faults : Faults) (d : Database) (s s' : Server)
      → faults select_unconfirmed ≡ none
      → launch db faults d ≡ returned s
      → Steps db numeric numeric_of_double s s'
      → IsWatched s'
  Steps-IsWatched faults d s s' ok launched unchanged =
      let (round, e) = launch-eq-returned db faults d launched in
      subst IsWatched (sym e) (λ h. inl (
        recover-signal db faults (start round d) ok
          (rw (sym (recover-database db faults (start round d))) h)))
  Steps-IsWatched faults d s s' ok launched (step t _ steps last) =
      step-IsWatched db numeric numeric_of_double t s' last
        (Steps-IsWatched faults d s t ok launched steps)
