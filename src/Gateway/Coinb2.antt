-- ===== src/Gateway/Coinb2.antt =====
-- The coinbase of one miner: `datum_generate_personal_coinb2` of datum-gateway/src/datum_coinbaser.c, up
-- to the text of the transaction. `script_of` stands for `addr_2_output_script`.
pub mod Paying
pub mod Sharing
use solounlucky.Prelude.{
  ℕ, zero, suc, ◌+◌, ◌-◌, ◌%◌, ◌^◌, ℤ, pos, negsuc, List, [], ◌∷◌, Option, none, some, Text, length,
  ltb, ◌==◌, if◌then◌else◌,
}
use solounlucky.Socket.{Output}

-- The fees that are asked for: what a block pays beyond the subsidy.
unfoldable pub fees_of : (coinbase_value : ℕ) → ℕ
fees_of coinbase_value = if ltb 312_500_000 coinbase_value then coinbase_value - 312_500_000 else 0

pub record ScriptOutput : Type 0 where
  pub script : Text
  pub value : ℕ

-- The outputs of the service, and what is left for the pool; if nothing is, an output that carries no
-- value takes its place.
pub record Personal : Type 0 where
  pub outputs : List ScriptOutput
  pub leftover : ℕ

-- The sum, not yet reduced to 64 bits.
abbrev pub value_total : List ScriptOutput → ℕ
value_total [] = 0
value_total (o ∷ os) = o.value + value_total os

abbrev pub with_script : Option Text → ℕ → List ScriptOutput → List ScriptOutput
with_script none value rest = rest
with_script (some s) value rest = record { script = s; value = value } ∷ rest

module _ (script_of : Text → Option Text) where
  -- The loop that skips what is not paid, and the addresses without a script.
  unfoldable pub personal_outputs : List Output → List ScriptOutput
  personal_outputs [] = []
  personal_outputs (o ∷ os) =
      let rest = personal_outputs os in
      elim o.amount_sats [
        | negsuc n ↦ rest
        | pos zero ↦ rest
        | pos (suc n) ↦ with_script (script_of o.address) (suc n) rest
      ]

  -- `none` is the return of 0, on which the shared coinbase is used.
  unfoldable pub personal_coinbase :
      (coinbase_value : ℕ) (reply : Option (List Output)) → Option Personal
  personal_coinbase coinbase_value none = none
  personal_coinbase coinbase_value (some os) =
      let paid = personal_outputs os in
      let total = value_total paid % 2 ^ 64 in
      if length paid == 0
      then none
      else if ltb coinbase_value total
      then none
      else some record { outputs = paid; leftover = coinbase_value - total }
