-- ===== src/Gateway/Coinb2/Paying.antt =====
-- What the coinbase of one miner pays (datum-gateway/src/datum_coinbaser.c), by itself and for the
-- outputs of the shared pool (reward-service/cmd/server/main.go).
use solounlucky.Prelude.{
  ℕ, suc, ◌+◌, ◌-◌, ◌%◌, ◌^◌, ◌≤◌, ◌<◌, ◌≡◌, refl, sym, ap, ℤ, pos, negsuc, List, [], ◌∷◌, map,
  Option, none, some, Text, arith, length, ltb, ◌==◌, if◌then◌else◌, All,
}
use solounlucky.Socket.{Output}
use solounlucky.Gateway.Coinb2.{
  ScriptOutput, Personal, value_total, personal_outputs, personal_coinbase,
}

-- What a result of the two guards says.
guarded :
    (n coinbase_value total : ℕ) (r : Personal) {c : Personal}
    → (if n == 0 then none else if ltb coinbase_value total then none else some r) ≡ some c
    → (0 < n) × (total ≤ coinbase_value) × (r ≡ c)
guarded n coinbase_value total r h = ground (arith, h)

guards :
    (n coinbase_value total : ℕ) (r : Personal)
    → 0 < n
    → total ≤ coinbase_value
    → (if n == 0 then none else if ltb coinbase_value total then none else some r) ≡ some r
guards n coinbase_value total r h k = ground arith

-- An output that is paid: its address has a script, and its amount is positive.
pub record IsPayable (script_of : Text → Option Text) (o : Output) : Type 0 where
  pub script : Text
  pub found : script_of o.address ≡ some script
  pub rest : ℕ
  pub amount : o.amount_sats ≡ pos (suc rest)

abbrev pub worth : ℤ → ℕ
worth (pos n) = n
worth (negsuc n) = 0

abbrev pub amount_total : List Output → ℕ
amount_total [] = 0
amount_total (o ∷ os) = worth o.amount_sats + amount_total os

-- Each output is paid in its turn, with its amount, to its address's script.
pub record ArePaid (script_of : Text → Option Text) (os : List Output) (ps : List ScriptOutput)
    : Type 0 where
  pub amounts : map (λ p. pos p.value) ps ≡ map (λ o. o.amount_sats) os
  pub scripts : map (λ p. some p.script) ps ≡ map (λ o. script_of o.address) os
  pub total : value_total ps ≡ amount_total os
  pub count : length ps ≡ length os

module _ (script_of : Text → Option Text) where
  -- Below 2^64 satoshis in sum, a coinbase that is built pays the block's value exactly: its outputs and
  -- what is left for the pool add up to it, and no output is without value.
  pub personal_coinbase-exact :
      (coinbase_value : ℕ) (os : List Output) {c : Personal}
      → value_total (personal_outputs script_of os) < 2 ^ 64
      → personal_coinbase script_of coinbase_value (some os) ≡ some c
      → (value_total c.outputs + c.leftover ≡ coinbase_value)
        × (0 < length c.outputs)
        × (c.outputs ≡ personal_outputs script_of os)
  unfolding personal_coinbase
  personal_coinbase-exact coinbase_value os {c} small h =
      let paid = personal_outputs script_of os in
      let total = value_total paid % 2 ^ 64 in
      let (filled, enough, same) = guarded (length paid) coinbase_value total _ h in
      let outputs : c.outputs ≡ paid = sym (ap (λ r. r.outputs) same) in
      let leftover : c.leftover ≡ coinbase_value - total = sym (ap (λ r. r.leftover) same) in
      rw (outputs, leftover) (omega arith, filled, refl)

  personal_outputs-payable :
      (o : Output) (os : List Output) (y : IsPayable script_of o)
      → personal_outputs script_of (o ∷ os)
        ≡ record { script = y.script; value = suc y.rest } ∷ personal_outputs script_of os
  unfolding personal_outputs
  personal_outputs-payable o os y = rw (y.amount, y.found, personal_outputs) refl

  personal_outputs-ArePaid :
      (os : List Output)
      → All (IsPayable script_of) os
      → ArePaid script_of os (personal_outputs script_of os)
  unfolding personal_outputs
  personal_outputs-ArePaid [] a = record {
    amounts = refl;
    scripts = refl;
    total = refl;
    count = refl;
  }
  personal_outputs-ArePaid (o ∷ os) (y, a) =
      let ih = personal_outputs-ArePaid os a in
      rw (personal_outputs-payable o os y) record {
        amounts = rw (ih.amounts, y.amount) refl;
        scripts = rw (ih.scripts, y.found) refl;
        total = rw (ih.total, y.amount) refl;
        count = rw ih.count refl;
      }

  -- A reply whose outputs can all be paid, and add up to the block's value, is paid as it stands: in its
  -- order, each amount to its address, with nothing left over.
  pub personal_coinbase-ArePaid :
      (coinbase_value : ℕ) (os : List Output)
      → All (IsPayable script_of) os
      → 0 < length os
      → amount_total os ≡ coinbase_value
      → coinbase_value < 2 ^ 64
      → (c : Personal) × (personal_coinbase script_of coinbase_value (some os) ≡ some c)
        × (c.leftover ≡ 0)
        × ArePaid script_of os c.outputs
  unfolding personal_coinbase
  personal_coinbase-ArePaid coinbase_value os a filled sum small =
      let paid = personal_outputs script_of os in
      let p = personal_outputs-ArePaid os a in
      let total : value_total paid % 2 ^ 64 ≡ coinbase_value = omega (arith, p.total) in
      (
        record { outputs = paid; leftover = coinbase_value - value_total paid % 2 ^ 64 },
        guards (length paid) coinbase_value (value_total paid % 2 ^ 64) _ (omega (arith, p.count))
            (omega arith),
        omega arith,
        p,
      )
