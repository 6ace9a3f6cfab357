-- ===== src/Examples/Gateways.antt =====
-- The gateway's client on the small pool of Examples.antt: requests, replies in pieces, and coinbases.
use solounlucky.Prelude.{
  ℕ, zero, suc, sym, ap, ◌∙◌, ◌+◌, ◌<◌, ◌≡◌, refl, pos, true, List, [], ◌∷◌, ◌++◌, map, Option,
  some, Text, arith, length, take, drop, to_string,
}
use solounlucky.Double.{arithmetic}
use solounlucky.Coinbase.{pool_fee_address}
use solounlucky.Socket.{Output}
use solounlucky.Pool.{get_coinbase_outputs}
use solounlucky.Gateway.{is_valid_address}
use solounlucky.Gateway.Response.{bytes, requested_outputs}
use solounlucky.Gateway.Roundtrip.{json_text, json_text-line, reply_text}
use solounlucky.Gateway.Pieces.{concat}
use mathlib.Core.List.{append-nil}
use solounlucky.Gateway.Reading.{requested_outputs-reply}
use solounlucky.Gateway.Coinb2.{fees_of, Personal, value_total, personal_outputs, personal_coinbase}
use solounlucky.Gateway.Coinb2.Paying.{ArePaid, personal_coinbase-exact}
use solounlucky.Gateway.Coinb2.Sharing.{IsUsable, personal_coinbase_shares}
use solounlucky.Coinbase.{assemble, build_outputs, finder_percent, pool_fee_percent}
use solounlucky.Examples.Pools.{ranked}
use solounlucky.Examples.{alice, bob, carol}

-- Each address is its own script.
abbrev script_of : Text → Option Text
script_of address = some address

abbrev two_outputs : List Output
two_outputs =
    record { address = alice; amount_sats = pos 309_375_000 }
    ∷ record { address = pool_fee_address; amount_sats = pos 3_125_000 }
    ∷ []

-- The reply in two pieces, of 20 bytes and the rest.
abbrev pieces : List Output → List Text
pieces os = take 20 (reply_text os) ∷ drop 20 (reply_text os) ∷ []

take-drop : (n : ℕ) (s : Text) → take n s ++ drop n s ≡ s
take-drop zero s = refl
take-drop (suc n) [] = refl
take-drop (suc n) (c ∷ s) = ap (◌∷◌ c) (take-drop n s)

pieces_arrive : (os : List Output) → concat (pieces os) ≡ json_text os ++ 10 ∷ []
pieces_arrive os =
    ap (λ t. take 20 (reply_text os) ++ t) (append-nil (drop 20 (reply_text os)))
    ∙ take-drop 20 (reply_text os)
    ∙ sym (json_text-line os)

requested_outputs-reply_example :
    requested_outputs (map bytes (pieces two_outputs) ++ []) ≡ some two_outputs
unfolding is_valid_address pool_fee_address to_string
requested_outputs-reply_example =
    requested_outputs-reply json_text (λ os a. refl) two_outputs (pieces two_outputs) []
      ((refl, omega arith), ((refl, omega arith), tt)) (omega arith)
      (omega arith, (omega arith, tt)) (pieces_arrive two_outputs)

personal_coinbase-exact_example :
    (value_total (personal_outputs script_of two_outputs) + 100 ≡ 312_500_100)
    × (0 < length (personal_outputs script_of two_outputs))
    × (personal_outputs script_of two_outputs ≡ personal_outputs script_of two_outputs)
unfolding personal_outputs personal_coinbase
personal_coinbase-exact_example =
    personal_coinbase-exact script_of 312_500_100 two_outputs
      {c = record { outputs = personal_outputs script_of two_outputs; leftover = 100 }}
      (omega arith) refl

usable : (address : Text) → is_valid_address address ≡ true → IsUsable script_of address
usable address valid = record { valid = valid; script = address; found = refl }

-- The outputs that the service gives alice for a block with 25,000 satoshis of fees.
abbrev given : List Output
given =
    record { address = carol; amount_sats = pos 6_563_025 }
    ∷ record { address = alice; amount_sats = pos 14_257_092 }
    ∷ record { address = bob; amount_sats = pos 14_257_092 }
    ∷ record { address = pool_fee_address; amount_sats = pos 277_447_791 }
    ∷ []

given_asked : get_coinbase_outputs ranked carol (fees_of 312_525_000) ≡ some given
unfolding get_coinbase_outputs fees_of assemble build_outputs finder_percent pool_fee_percent
    arithmetic
given_asked = refl

personal_coinbase_shares_example :
    (c : Personal) × (personal_coinbase script_of 312_525_000
        (requested_outputs (map bytes (pieces given) ++ []))
      ≡ some c)
    × (c.leftover ≡ 0)
    × ArePaid script_of given c.outputs
unfolding is_valid_address pool_fee_address
personal_coinbase_shares_example =
    personal_coinbase_shares script_of json_text (λ os a. refl) ranked carol 312_525_000
      (pieces given) [] (omega arith) (omega arith) (omega arith) (usable carol refl)
      (usable alice refl, (usable bob refl, tt)) (usable pool_fee_address refl) given_asked
      (omega arith, (omega arith, tt)) (pieces_arrive given)
