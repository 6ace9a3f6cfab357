-- ===== src/External.antt =====
-- web/lib/external.ts: prices and network figures, cached for a minute, with one fetch at a time.
-- `fetch` and the bodies that it brings are inputs.
pub mod Cache
use solounlucky.Prelude.{
  ℕ, ◌+◌, Bool, true, false, List, [], ◌∷◌, Option, none, some, Text, codes, ltb, if◌then◌else◌,
}
use solounlucky.Js.{Number}

pub record ExternalStats : Type 0 where
  pub btc_price_usd : Option Number
  pub network_hashrate_hs : Option Number
  pub network_difficulty : Option Number
  pub fetched_at : ℕ

-- What `json()` brings: a rejection, `null` (whose properties cannot be read), or a value with the
-- properties that are numbers.
pub data Json : Type 0 where
  unreadable : Json
  nothing : Json
  fields : (Text → Option Number) → Json

pub data Settled : Type 0 where
  rejected : Settled
  fulfilled : (is_ok : Bool) (body : Json) → Settled

-- `typeof d.key === 'number' ? d.key : null`, where an exception leaves null.
abbrev pub number_at : Text → Json → Option Number
number_at key unreadable = none
number_at key nothing = none
number_at key (fields d) = d key

abbrev pub number_of : Text → Settled → Option Number
number_of key rejected = none
number_of key (fulfilled false body) = none
number_of key (fulfilled true body) = number_at key body

-- `_fetchExternal` after both requests have settled.
unfoldable pub fetched : (price hashrate : Settled) (now : ℕ) → ExternalStats
fetched price hashrate now = record {
  btc_price_usd = number_of (codes "USD") price;
  network_hashrate_hs = number_of (codes "currentHashrate") hashrate;
  network_difficulty = number_of (codes "currentDifficulty") hashrate;
  fetched_at = now;
}

abbrev pub ttl : ℕ
ttl = 60_000

-- `_inflight`: null, a promise whose requests are under way, or one that has its result and has not
-- yet run its `finally`.
pub data Flight : Type 0 where
  idle fetching settling : Flight

pub record State : Type 0 where
  pub cache : Option ExternalStats
  pub inflight : Flight

abbrev pub initial : State
initial = record { cache = none; inflight = idle }

-- What a caller gets: the cached value, the promise in flight, or a new one.
pub data Answer : Type 0 where
  cached : ExternalStats → Answer
  joined started : Answer

abbrev pub is_fresh : ℕ → Option ExternalStats → Option ExternalStats
is_fresh now none = none
is_fresh now (some c) = if ltb now (c.fetched_at + ttl) then some c else none

abbrev pub answer_stale : State → State × Answer
answer_stale s = elim s.inflight [
  | idle ↦ (record s { inflight = fetching }, started)
  | fetching ↦ (s, joined)
  | settling ↦ (s, joined)
]

unfoldable pub get_external_stats : ℕ → State → State × Answer
get_external_stats now s = elim (is_fresh now s.cache) [
  | some c ↦ (s, cached c)
  | none ↦ answer_stale s
]

-- The body of `_fetchExternal` ends: it sets the cache.
unfoldable pub complete : (price hashrate : Settled) (now : ℕ) → State → State
complete price hashrate now s = elim s.inflight [
  | fetching ↦ record { cache = some (fetched price hashrate now); inflight = settling }
  | _ ↦ s
]

-- The callback of `finally`.
unfoldable pub clear : State → State
clear s = elim s.inflight [ settling ↦ record s { inflight = idle } | _ ↦ s ]
