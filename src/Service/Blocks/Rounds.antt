-- ===== src/Service/Blocks/Rounds.antt =====
-- The rounds (reward-service/internal/leaderboard/service.go): what `ConfirmBlock` does to them, and
-- what the operations on blocks keep.
use mathlib.Core.Path.{subst}
use solounlucky.Prelude.{
  Bool, ℕ, ◌≡◌, refl, sym, ◌∙◌, inl, inr, true, false, List, ◌++◌, Option, none, some, Text, codes,
  if◌then◌else◌, Bool-cases,
}
use solounlucky.Store.{Round}
use solounlucky.Db.Outcome.{Outcome, returned, thrown, ◌>>=◌, >>=-eq-returned, returned-injective}
use solounlucky.Service.Database.{
  Database, Faults, select_closed, select_round, mark_confirmed, begin_confirm, close_round,
  open_round, commit_confirm, execute, after, outcome_of, mark_orphaned, wrap, settle,
}
use solounlucky.Service.Database.Laws.{wrap-eq-returned, execute-eq-returned, settle-elim}
use solounlucky.Service.Blocks.{
  round_of, round_closed, already_closed, next_round_opened, confirm_only, close_and_open,
  confirm_again, confirm_block, orphan_only, mark_as_orphaned,
}

-- What `ConfirmBlock` has done.
pub data Confirmation (block : ℕ) (d : Database) : Outcome ℕ → Database → Type 0 where
  failed : (e : Text) → Confirmation block d (thrown e) d
  ended :
      (round : ℕ)
      → round_of block d.tables.blocks ≡ returned round
      → round_closed round d.tables.rounds ≡ false
      → Confirmation block d (returned d.next_round) (next_round_opened block round d)
  repeated :
      (round : ℕ)
      → round_of block d.tables.blocks ≡ returned round
      → round_closed round d.tables.rounds ≡ true
      → Confirmation block d (returned round) (confirm_only block d)

close_and_open-eq-returned :
    (faults : Faults) (block round : ℕ) (d : Database) {r : ℕ × Database}
    → close_and_open faults block round d ≡ returned r
    → (faults (mark_confirmed block) ≡ none) × ((d.next_round, next_round_opened block round d) ≡ r)
unfolding close_and_open
close_and_open-eq-returned faults block round d h =
    let (_, e1, h1) =
      >>=-eq-returned
        (wrap (codes "ConfirmBlock mark confirmed") (execute faults (mark_confirmed block))) _ h in
    let (_, _, h2) =
      >>=-eq-returned (wrap (codes "ConfirmBlock close round") (execute faults (close_round block)))
        _ h1 in
    let (_, _, h3) =
      >>=-eq-returned
        (wrap (codes "ConfirmBlock open new round") (execute faults (open_round block))) _ h2 in
    let (_, _, h4) =
      >>=-eq-returned (wrap (codes "ConfirmBlock commit") (execute faults (commit_confirm block))) _
        h3 in
    (
      execute-eq-returned faults (mark_confirmed block)
          (wrap-eq-returned (codes "ConfirmBlock mark confirmed") _ e1),
      returned-injective h4,
    )

confirm_again-eq-returned :
    (faults : Faults) (block round : ℕ) (d : Database) {r : ℕ × Database}
    → confirm_again faults block round d ≡ returned r
    → (faults (mark_confirmed block) ≡ none) × ((round, confirm_only block d) ≡ r)
unfolding confirm_again
confirm_again-eq-returned faults block round d h =
    let (_, e1, h1) =
      >>=-eq-returned
        (wrap (codes "ConfirmBlock mark confirmed (round already closed)")
          (execute faults (mark_confirmed block)))
        _ h in
    let (_, _, h2) =
      >>=-eq-returned
        (wrap (codes "ConfirmBlock commit (round already closed)")
          (execute faults (commit_confirm block)))
        _ h1 in
    (
      execute-eq-returned faults (mark_confirmed block)
          (wrap-eq-returned (codes "ConfirmBlock mark confirmed (round already closed)") _ e1),
      returned-injective h2,
    )

already_closed-eq :
    (faults : Faults) (block round : ℕ) (rounds : List Round)
    → after faults (select_closed block) (mark_confirmed block) ≡ none
    → already_closed faults block round rounds ≡ round_closed round rounds
unfolding already_closed
already_closed-eq faults block round rounds done = go (faults (select_closed block)) done
  where
    marking : Option Text → Option Text
    marking o = elim o [
      | none ↦ faults (mark_confirmed block)
      | some e ↦
          some (
            codes "current transaction is aborted, commands ignored until end of transaction block")
    ]

    go :
        (o : Option Text)
        → marking o ≡ none
        → elim o as (λ _. Bool) [ some _ ↦ false | none ↦ round_closed round rounds ]
          ≡ round_closed round rounds
    go none h = refl
    go (some e) h = cc

confirmed_through :
    (faults : Faults) (block round : ℕ) (d : Database) (r : ℕ × Database)
    → round_of block d.tables.blocks ≡ returned round
    → (if already_closed faults block round d.tables.rounds
        then confirm_again (after faults (select_closed block)) block round d
        else close_and_open (after faults (select_closed block)) block round d)
      ≡ returned r
    → Confirmation block d (returned r.0) r.1
confirmed_through faults block round d r at h =
    let later = after faults (select_closed block) in
    let again = confirm_again later block round d in
    let ending = close_and_open later block round d in
    let states = already_closed faults block round d.tables.rounds in
    elim (Bool-cases states) [
      | inl closed ↦
          let (done, e) =
            confirm_again-eq-returned later block round d
              (subst (λ b. (if b then again else ending) ≡ returned r) closed h) in
          subst (λ r. Confirmation block d (returned r.0) r.1) e
            (repeated round at (sym (already_closed-eq faults block round _ done) ∙ closed))
      | inr opened ↦
          let (done, e) =
            close_and_open-eq-returned later block round d
              (subst (λ b. (if b then again else ending) ≡ returned r) opened h) in
          subst (λ r. Confirmation block d (returned r.0) r.1) e
            (ended round at (sym (already_closed-eq faults block round _ done) ∙ opened))
    ]

-- `ConfirmBlock` fails and leaves the database, or it ends the block's round and opens another, or it
-- only confirms a block of a round that has ended; it returns the new round's number or, in the last
-- case, the number of the round that has ended.
pub confirm_block_lem :
    (faults : Faults) (block : ℕ) (d : Database)
    → let (result, d') = confirm_block faults block d in Confirmation block d result d'
unfolding confirm_block
confirm_block_lem faults block d =
    let found = execute faults (select_round block) >>= λ _. round_of block d.tables.blocks in
    settle-elim (Confirmation block d) d _ failed λ r written h.
      let (round, e1, h1) = >>=-eq-returned (wrap (codes "ConfirmBlock get round_id") found) _ h in
      let (_, e2, h2) =
        >>=-eq-returned
          (wrap (codes "ConfirmBlock begin tx") (execute faults (begin_confirm block))) _ h1 in
      let (_, _, at) =
        >>=-eq-returned (execute faults (select_round block)) _
          (wrap-eq-returned (codes "ConfirmBlock get round_id") found e1) in
      confirmed_through faults block round d (r, written) at h2

-- What `MarkOrphaned` has done.
pub data Orphaning (block : ℕ) (d : Database) : Outcome (Unit {0}) → Database → Type 0 where
  kept : (e : Text) → Orphaning block d (thrown e) d
  orphaned : Orphaning block d (returned tt) (orphan_only block d)

pub mark_as_orphaned_lem :
    (faults : Faults) (block : ℕ) (d : Database)
    → let (result, d') = mark_as_orphaned faults block d in Orphaning block d result d'
unfolding mark_as_orphaned execute
mark_as_orphaned_lem faults block d = go (faults (mark_orphaned block))
  where
    marking : Option Text → Outcome (Unit {0}) × Database
    marking o =
        settle d
          (wrap (codes "MarkOrphaned") (outcome_of o) >>= λ _. returned (tt, orphan_only block d))

    go : (o : Option Text) → Orphaning block d (marking o).0 (marking o).1
    go none = orphaned
    go (some e) = kept (codes "MarkOrphaned" ++ (codes ": " ++ e))
