-- ===== src/Examples.antt =====
-- A small pool: the tables on which the theorems of the other modules are used.
pub mod Board
pub mod Payouts
pub mod Pools
pub mod Decoding
pub mod Gateways
pub mod Solos
pub mod Services
pub mod Sessions
pub mod Texts
pub mod Web
use solounlucky.Prelude.{
  ℕ, ◌+◌, ◌-◌, ◌*◌, ◌/◌, true, false, List, [], ◌∷◌, none, some, Text, codes, to_string, replicate,
}
use solounlucky.Store.{Tables, Round, Share, Block, SnapshotEntry, week, second}

abbrev pub alice : Text
alice = replicate 12 b'a'

abbrev pub bob : Text
bob = replicate 12 b'b'

abbrev pub carol : Text
carol = replicate 12 b'c'

-- The quotient to the nearest whole number below.
abbrev pub whole_quotient : ℕ → ℕ → Text
whole_quotient n d = to_string (n / d)

abbrev pub clock : ℕ
clock = 100 * week

abbrev pub share_of : Text → (ago difficulty : ℕ) → Share
share_of a ago difficulty = record {
  round_id = 2;
  btc_address = a;
  worker_name = [];
  share_difficulty = 1000;
  submitted_at = clock - ago * second;
  is_stale = false;
  true_difficulty = some difficulty;
  source_port = some 4444;
}

-- Alice's first share is before an idle gap of eleven days, so her best share of 9000 does not count.
abbrev pub shares : List Share
shares =
    share_of alice 1_036_800 9000
    ∷ share_of bob 3600 5000
    ∷ share_of alice 60 5000
    ∷ share_of carol 30 700
    ∷ []

abbrev pub block_of : (id age : ℕ) → Block
block_of id age = record {
  id = id;
  round_id = 2;
  height = 900_000 + id;
  hash = codes "00";
  found_at = clock - age * second;
  finder_address = bob;
  coinbase_txid = none;
  top_21_snapshot = some (record { rank = 1; address = alice; amount_sats = 14_255_952 } ∷ []);
  block_fees_sats = 1000;
  confirmed = true;
  is_orphaned = false;
}

abbrev pub sample : Tables
sample = record {
  now = clock;
  rounds =
      record { id = 1; started_at = 0; ended_at = some (clock - 20 * week); block_id = none }
      ∷ record { id = 2; started_at = clock - 20 * week; ended_at = none; block_id = none }
      ∷ [];
  shares = shares;
  blocks = block_of 1 5000 ∷ block_of 2 4000 ∷ block_of 3 3000 ∷ [];
  solo_blocks = [];
  workers = [];
}
