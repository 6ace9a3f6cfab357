-- ===== src/Service/Database.antt =====
-- The database of reward-service and the failures of its statements. Each statement either takes
-- effect or fails with the driver's message; a transaction that does not commit leaves the tables
-- as they were.
pub mod Laws
use solounlucky.Prelude.{
  ℕ, ◌*◌, Bool, List, [], ◌∷◌, ◌++◌, Option, none, some, Text, codes, filter, any_by, ◌==◌,
  if◌then◌else◌,
}
use solounlucky.Store.{Tables, Round}
use solounlucky.Db.Outcome.{Outcome, returned, thrown}

-- The tables, and the numbers that the three BIGSERIAL sequences give next. A number that a failed
-- statement has drawn is given again here: the code relies on new numbers only.
pub record Database : Type 0 where
  pub tables : Tables
  pub next_round : ℕ
  pub next_block : ℕ
  pub next_solo : ℕ

-- The statements, by the function that runs them, and with the block that they are about.
pub data Statement : Type 0 where
  begin_flush insert_shares upsert_workers commit_flush : Statement
  select_top insert_block select_unconfirmed : Statement
  select_round begin_confirm select_closed mark_confirmed close_round : (id : ℕ) → Statement
  open_round commit_confirm mark_orphaned : (id : ℕ) → Statement
  upsert_solo_workers insert_solo select_solo count_solo : Statement
  read_solo orphan_solo confirm_solo : (id : ℕ) → Statement

-- The message of each statement that fails, during one call; `read_solo` is the reading of a row of
-- `select_solo`.
abbrev pub Faults : Type 0
Faults = Statement → Option Text

-- `fmt.Errorf("context: %w", err)`
abbrev pub wrap {ℓ} : {A : Type ℓ} → Text → Outcome A → Outcome A
wrap context (returned a) = returned a
wrap context (thrown e) = thrown (context ++ (codes ": " ++ e))

abbrev pub outcome_of : Option Text → Outcome (Unit {0})
outcome_of none = returned tt
outcome_of (some e) = thrown e

unfoldable pub execute : Faults → Statement → Outcome (Unit {0})
execute faults statement = outcome_of (faults statement)

-- In a transaction, what fails after a statement: everything, if that has failed.
abbrev pub after : Faults → Statement → Faults
after faults first statement = elim (faults first) [
  | none ↦ faults statement
  | some e ↦
      some (codes "current transaction is aborted, commands ignored until end of transaction block")
]

-- A statement's own check of its arguments.
abbrev pub check : Bool → Text → Outcome (Unit {0})
check passed e = if passed then returned tt else thrown e

-- What a transaction leaves: its result, and the tables that it has written if it has committed.
abbrev pub settle {ℓ} : {A : Type ℓ} → Database → Outcome (A × Database) → Outcome A × Database
settle d (returned (a, written)) = (returned a, written)
settle d (thrown e) = (thrown e, d)

abbrev pub has_round : ℕ → List Round → Bool
has_round id = any_by (λ r. r.id == id)
