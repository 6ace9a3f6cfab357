-- ===== src/Api.antt =====
-- The route handlers of web/app/api: what each answers, with its status.
pub mod Laws
pub mod Paging
use solounlucky.Prelude.{
  ℕ, ◌+◌, ◌*◌, Bool, true, false, List, [], ◌∷◌, Option, none, some, Text, codes, length, ltb,
  if◌then◌else◌,
}
use solounlucky.Double.{scale, of_ℕ, literal, sub, mul}
use solounlucky.Js.{Number, nan, infinite, finite, parse_int, is_at_least}
use solounlucky.Sql.{OrderBy}
use solounlucky.Store.{Tables}
use solounlucky.External.{ExternalStats}
use solounlucky.Db.Outcome.{Outcome, returned, thrown}
use solounlucky.Db.Board.{LeaderboardEntry, get_leaderboard}
use solounlucky.Db.Miner.{MinerStats, get_miner_stats}
use solounlucky.Db.Stats.{ExtendedPoolStats, get_extended_pool_stats}
use solounlucky.Db.Blocks.{BlockSummary, get_blocks}

-- A failure has its text and, on some routes, the exception's message.
pub data Response {ℓ} (A : Type ℓ) : Type ℓ where
  ok : A → Response A
  failed : (status : ℕ) (error : Text) (detail : Option Text) → Response A

abbrev pub or_failed {ℓ κ} :
    {A : Type ℓ} {B : Type κ} → (Text → Response B) → (A → B) → Outcome A → Response B
or_failed recover make (returned a) = ok (make a)
or_failed recover make (thrown e) = recover e

abbrev pub with_detail {ℓ} : {B : Type ℓ} → Text → Text → Response B
with_detail error e = failed 500 error (some e)

abbrev pub without_detail {ℓ} : {B : Type ℓ} → Text → Text → Response B
without_detail error e = failed 500 error none

-- `Math.max(1, x)`
unfoldable pub max_one : Number → Number
max_one nan = nan
max_one (infinite true) = finite false (of_ℕ 1)
max_one (infinite false) = infinite false
max_one (finite true x) = finite false (of_ℕ 1)
max_one (finite false x) = finite false (if ltb x (of_ℕ 1) then of_ℕ 1 else x)

-- `(page - 1) * limit`, for a page from `Math.max` on.
unfoldable pub offset_of : Number → ℕ → Number
offset_of nan limit = nan
offset_of (infinite negative) limit = infinite negative
offset_of (finite negative x) limit = finite false (mul (sub x (of_ℕ 1)) (of_ℕ limit))

-- `searchParams.get('page')`
unfoldable pub page_of : Option Text → Number
page_of none = max_one (parse_int (codes "1"))
page_of (some s) = max_one (parse_int s)

pub record BlocksPage : Type 0 where
  pub blocks : List BlockSummary
  pub page : Number

pub record LeaderboardBody : Type 0 where
  pub entries : List LeaderboardEntry
  pub updated_at : ℕ

-- web/app/api/external-stats/route.ts
unfoldable pub get_external : Outcome ExternalStats → Response ExternalStats
get_external stats = or_failed (with_detail (codes "Failed to load external stats")) (λ s. s) stats

module _ (db : OrderBy) (quotient_text : ℕ → ℕ → Text) (to_bigint : Number → Outcome ℕ) where
  -- web/app/api/leaderboard/route.ts
  unfoldable pub get_leaderboard_route : Outcome Tables → ℕ → Response LeaderboardBody
  get_leaderboard_route connection now =
      or_failed (with_detail (codes "Failed to load leaderboard"))
        (λ entries. record { entries = entries; updated_at = now })
        (get_leaderboard db quotient_text connection 100)

  -- web/app/api/stats/route.ts
  unfoldable pub get_stats_route : Outcome Tables → Response ExtendedPoolStats
  get_stats_route connection =
      or_failed (with_detail (codes "Failed to load stats")) (λ s. s)
        (get_extended_pool_stats db quotient_text connection)

  -- web/app/api/blocks/route.ts
  unfoldable pub get_blocks_route : Outcome Tables → Option Text → Response BlocksPage
  get_blocks_route connection page_param =
      let page = page_of page_param in
      or_failed (without_detail (codes "Failed to load blocks"))
        (λ blocks. record { blocks = blocks; page = page })
        (get_blocks db to_bigint connection 20 (offset_of page 20))

  -- web/app/api/miner/[address]/route.ts
  unfoldable pub get_miner_route : Outcome Tables → Text → Response MinerStats
  get_miner_route connection address =
      if ltb (length address) 10
      then failed 400 (codes "Invalid address") none
      else or_failed (without_detail (codes "Failed to load miner stats")) (λ s. s)
          (get_miner_stats db quotient_text connection address)
