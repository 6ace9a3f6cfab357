-- ===== src/Gateway/Coinb2/Sharing.antt =====
-- From the shared pool's outputs (reward-service/cmd/server/main.go), through the socket, to the coinbase
-- of one miner (datum-gateway/src/datum_coinbaser.c).
use solounlucky.Prelude.{
  ℕ, zero, suc, ◌+◌, ◌-◌, ◌*◌, ◌^◌, ◌≤◌, ◌<◌, ◌≡◌, refl, sym, ap, ◌∙◌, pos, List, [], ◌∷◌, ◌++◌,
  map, Option, some, Text, arith, length, All, true,
}
use mathlib.Core.Option.{some-injective}
use solounlucky.Payout.Exact.{percent_of, slot_of}
use solounlucky.Coinbase.{pool_fee_address}
use solounlucky.Coinbase.Laws.{paid-le}
use solounlucky.Service.Ranking.{Entry}
use solounlucky.Socket.{Output}
use solounlucky.Pool.{Pool, get_coinbase_outputs}
use solounlucky.Pool.Outputs.{get_coinbase_outputs_lem, outputs_of-entries}
use solounlucky.Gateway.{is_valid_address}
use solounlucky.Gateway.Response.{Read, bytes, requested_outputs}
use solounlucky.Gateway.Roundtrip.{json_text}
use solounlucky.Gateway.Scanning.{IsSendable}
use solounlucky.Gateway.Pieces.{concat, IsFilled}
use solounlucky.Gateway.Reading.{requested_outputs-reply}
use solounlucky.Gateway.Coinb2.{fees_of, Personal, personal_coinbase}
use solounlucky.Gateway.Coinb2.Paying.{
  IsPayable, worth, amount_total, ArePaid, personal_coinbase-ArePaid,
}

-- An address that the gateway accepts and has a script for.
pub record IsUsable (script_of : Text → Option Text) (address : Text) : Type 0 where
  pub valid : is_valid_address address ≡ true
  pub script : Text
  pub found : script_of address ≡ some script

-- What can be sent to the gateway and paid by it.
abbrev IsGood : (Text → Option Text) → Output → Type 0
IsGood script_of o = IsSendable o × IsPayable script_of o

-- The outputs for the ranked miners, in front of the last output.
abbrev slots : ℕ → List Entry → Output → List Output
slots s entries last =
    map (λ e. record { address = e.btc_address; amount_sats = pos s }) entries ++ last ∷ []

amount_total-slots :
    (s : ℕ) (entries : List Entry) (last : Output)
    → amount_total (slots s entries last) ≡ length entries * s + worth last.amount_sats
amount_total-slots s [] last = omega arith
amount_total-slots s (e ∷ entries) last = rw (amount_total-slots s entries last) (omega arith)

length-slots :
    (s : ℕ) (entries : List Entry) (last : Output)
    → length (slots s entries last) ≡ length entries + 1
length-slots s [] last = refl
length-slots s (e ∷ entries) last = rw (length-slots s entries last) (omega arith)

module _ (script_of : Text → Option Text) where
  good :
      (address : Text) (n : ℕ)
      → IsUsable script_of address
      → 0 < n
      → n < 2 ^ 63
      → IsGood script_of record { address = address; amount_sats = pos n }
  good address zero u h small = absurd (omega arith)
  good address (suc n) u h small =
      ((u.valid, small), record { script = u.script; found = u.found; rest = n; amount = refl })

  slots-IsGood :
      (s : ℕ) (entries : List Entry) (last : Output)
      → All (λ e. IsUsable script_of e.btc_address) entries
      → 0 < s
      → s < 2 ^ 63
      → IsGood script_of last
      → All (IsGood script_of) (slots s entries last)
  slots-IsGood s [] last a h small g = (g, tt)
  slots-IsGood s (e ∷ entries) last (u, a) h small g =
      (good e.btc_address s u h small, slots-IsGood s entries last a h small g)

  All-IsSendable : (os : List Output) → All (IsGood script_of) os → All IsSendable os
  All-IsSendable [] a = tt
  All-IsSendable (o ∷ os) ((s, _), a) = (s, All-IsSendable os a)

  All-IsPayable : (os : List Output) → All (IsGood script_of) os → All (IsPayable script_of) os
  All-IsPayable [] a = tt
  All-IsPayable (o ∷ os) ((_, y), a) = (y, All-IsPayable os a)

-- Something is left of the reward behind the finder's part and the slots.
slots_fit : (t n : ℕ) → n ≤ 21 → 312_500_000 ≤ t → percent_of t + n * slot_of t < t
slots_fit t n few h =
    omega (arith, paid-le n (slot_of t) (t - percent_of t - percent_of t) few (omega arith))

-- The outputs of the shared pool, as slots.
pool_outputs : Text → ℕ → List Entry → List Output
pool_outputs miner t entries =
    record { address = miner; amount_sats = pos (percent_of t) }
    ∷ slots (slot_of t) entries record {
      address = pool_fee_address;
      amount_sats = pos (t - percent_of t - length entries * slot_of t);
    }

get_coinbase_outputs-slots :
    (p : Pool) (miner : Text) (fees : ℕ)
    → length p.top_21 ≤ 21
    → 312_500_000 + fees < 2 ^ 47
    → get_coinbase_outputs p miner fees ≡ some (pool_outputs miner (312_500_000 + fees) p.top_21)
unfolding pool_outputs
get_coinbase_outputs-slots p miner fees few small =
    get_coinbase_outputs_lem p miner fees small
    ∙ ap some (outputs_of-entries miner (312_500_000 + fees) p.top_21 few)

-- The gateway asks with the fees that make up the block's value.
fees_of_lem : (t : ℕ) → 312_500_000 ≤ t → 312_500_000 + fees_of t ≡ t
unfolding fees_of
fees_of_lem t h = ground arith

module _ (script_of : Text → Option Text) where
  pool_outputs-IsGood :
      (miner : Text) (t : ℕ) (entries : List Entry)
      → length entries ≤ 21
      → 312_500_000 ≤ t
      → t < 2 ^ 47
      → IsUsable script_of miner
      → All (λ e. IsUsable script_of e.btc_address) entries
      → IsUsable script_of pool_fee_address
      → All (IsGood script_of) (pool_outputs miner t entries)
  unfolding pool_outputs
  pool_outputs-IsGood miner t entries few large small u a fee =
      let fit = slots_fit t (length entries) few large in
      (
        good script_of miner (percent_of t) u (omega arith) (omega arith),
        slots-IsGood script_of (slot_of t) entries _ a (omega arith) (omega arith)
            (good script_of pool_fee_address _ fee (omega arith) (omega arith)),
      )

pool_outputs-sum :
    (miner : Text) (t : ℕ) (entries : List Entry)
    → length entries ≤ 21
    → 312_500_000 ≤ t
    → amount_total (pool_outputs miner t entries) ≡ t
unfolding pool_outputs
pool_outputs-sum miner t entries few large =
    let fit = slots_fit t (length entries) few large in
    let sum = amount_total-slots (slot_of t) entries record {
      address = pool_fee_address;
      amount_sats = pos (t - percent_of t - length entries * slot_of t);
    } in
    omega arith

length-pool_outputs :
    (miner : Text) (t : ℕ) (entries : List Entry)
    → length (pool_outputs miner t entries) ≡ length entries + 2
unfolding pool_outputs
length-pool_outputs miner t entries = omega (
  arith,
  length-slots (slot_of t) entries record {
    address = pool_fee_address;
    amount_sats = pos (t - percent_of t - length entries * slot_of t);
  },
)

-- A block is worth at least the subsidy and less than 2^47 satoshis; the addresses of the miner, of at
-- most 21 ranked miners and of the pool's fee are valid and have scripts; `json.Marshal` prints without
-- spaces. Then the gateway asks for the outputs with the block's fees, and from the reply, in whatever
-- pieces it comes, builds a coinbase that pays each output of the service in its turn, its exact amount
-- to its address, and leaves nothing over.
pub personal_coinbase_shares :
    (script_of : Text → Option Text) (marshal : List Output → Text)
    → ((os : List Output) → All IsSendable os → marshal os ≡ json_text os)
    → (p : Pool) (miner : Text) (coinbase_value : ℕ) (pieces : List Text) (more : List Read)
      {os : List Output}
    → length p.top_21 ≤ 21
    → 312_500_000 ≤ coinbase_value
    → coinbase_value < 2 ^ 47
    → IsUsable script_of miner
    → All (λ e. IsUsable script_of e.btc_address) p.top_21
    → IsUsable script_of pool_fee_address
    → get_coinbase_outputs p miner (fees_of coinbase_value) ≡ some os
    → All IsFilled pieces
    → concat pieces ≡ marshal os ++ 10 ∷ []
    → (c : Personal) × (personal_coinbase script_of coinbase_value
          (requested_outputs (map bytes pieces ++ more))
        ≡ some c)
      × (c.leftover ≡ 0)
      × ArePaid script_of os c.outputs
personal_coinbase_shares script_of marshal prints p miner coinbase_value pieces more {os} few large
      small u a fee asked filled arrives =
    let entries = p.top_21 in
    let t = coinbase_value in
    let total = fees_of_lem t large in
    let same : os ≡ pool_outputs miner t entries = some-injective _ _ (
      sym asked
      ∙ get_coinbase_outputs-slots p miner (fees_of t) few (omega arith)
      ∙ ap (λ v. some (pool_outputs miner v entries)) total) in
    let goods = pool_outputs-IsGood script_of miner t entries few large small u a fee in
    let size = length-pool_outputs miner t entries in
    let read : requested_outputs (map bytes pieces ++ more) ≡ some (pool_outputs miner t entries) =
      requested_outputs-reply marshal prints (pool_outputs miner t entries) pieces more
        (All-IsSendable script_of _ goods) (omega arith) filled
        (arrives ∙ ap (λ l. marshal l ++ 10 ∷ []) same) in
    rw (read, same)
      (personal_coinbase-ArePaid script_of t (pool_outputs miner t entries)
        (All-IsPayable script_of _ goods) (omega arith) (pool_outputs-sum miner t entries few large)
        (omega arith))
