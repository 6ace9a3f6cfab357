-- ===== src/Service/Database/Laws.antt =====
-- Statements and transactions that have gone through.
use solounlucky.Prelude.{◌≡◌, refl, Bool, true, false, Option, none, some, Text}
use solounlucky.Db.Outcome.{Outcome, returned, thrown}
use solounlucky.Service.Database.{
  Database, Faults, Statement, execute, outcome_of, wrap, check, settle,
}

pub wrap-eq-returned {ℓ} :
    {A : Type ℓ} (context : Text) (o : Outcome A) {a : A}
    → wrap context o ≡ returned a
    → o ≡ returned a
wrap-eq-returned context (returned b) h = h
wrap-eq-returned context (thrown e) h = cc

pub check-eq-returned : (b : Bool) (e : Text) {u : Unit {0}} → check b e ≡ returned u → b ≡ true
check-eq-returned true e h = refl
check-eq-returned false e h = cc

pub execute-eq-returned :
    (faults : Faults) (statement : Statement) {u : Unit {0}}
    → execute faults statement ≡ returned u
    → faults statement ≡ none
unfolding execute
execute-eq-returned faults statement h = go (faults statement) h
  where
    go : (o : Option Text) → outcome_of o ≡ returned tt → o ≡ none
    go none h = refl
    go (some e) h = cc

-- What holds of each result of a transaction holds of what it leaves.
pub settle-elim {ℓ κ} :
    {A : Type ℓ} (P : Outcome A → Database → Type κ) (d : Database) (body : Outcome (A × Database))
    → ((e : Text) → P (thrown e) d)
    → ((a : A) (written : Database) → body ≡ returned (a, written) → P (returned a) written)
    → let (result, d') = settle d body in P result d'
settle-elim P d (thrown e) failing passing = failing e
settle-elim P d (returned (a, written)) failing passing = passing a written refl
