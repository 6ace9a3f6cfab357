-- ===== src/Examples/Web.antt =====
-- Routes, caches and connections (web/app/api, web/lib) at small inputs.
use solounlucky.Prelude.{
  ℕ, ◌+◌, ◌/◌, ◌≡◌, refl, ◌⊎◌, true, false, List, [], ◌∷◌, ◌++◌, map, none, some, Text, codes, take,
  drop, to_string, arith,
}
use solounlucky.Double.{scale, arithmetic}
use solounlucky.Js.{Number, nan, finite, whole, parse_int, numbers}
use solounlucky.Js.Roundtrip.{parse_int-to_string}
use solounlucky.Sql.Insertion.{by_insertion}
use solounlucky.Db.Outcome.{Outcome, returned, thrown}
use solounlucky.Db.Connection.{Env, Url, Config, get_pool, get_pool_kept}
use solounlucky.Db.Blocks.{BlockSummary, get_blocks, summary_of}
use solounlucky.Db.Blocks.Pagination.{confirmed_rows, get_blocks_pages, AreApart}
use solounlucky.Sql.Standing.{AreFirst}
use solounlucky.Store.{Block}
use Prim.Native.Nat.{min}
use solounlucky.Prelude.{length, filter}
use solounlucky.External.{
  complete, fetching, fetched, ExternalStats, State, initial, rejected, fulfilled, nothing, cached,
  get_external_stats,
}
use solounlucky.External.Cache.{
  after_events, get_external_stats-complete, Event, call, finish, settle, run, under_way, one_fetch,
}
use solounlucky.Api.{ok, failed, get_blocks_route}
use solounlucky.Api.Paging.{get_blocks_route_page, get_blocks_route_unreadable}
use solounlucky.Examples.{whole_quotient, sample}

parse_int-to_string_example : parse_int (to_string 900_001) ≡ whole 900_001
parse_int-to_string_example = parse_int-to_string 900_001

-- A driver that takes whole numbers from zero on.
abbrev whole_bigint : Number → Outcome ℕ
whole_bigint (finite false x) = returned (x / scale)
whole_bigint _ = thrown (codes "invalid input syntax for type bigint")

whole_bigint_runs : (whole_bigint (whole 1) ≡ returned 1) × (whole_bigint (whole 20) ≡ returned 20)
unfolding numbers arithmetic
whole_bigint_runs = (refl, refl)

sample-AreApart : AreApart (filter (λ b. b.confirmed) sample.blocks)
sample-AreApart = (
  ((λ e. absurd (omega arith)), ((λ e. absurd (omega arith)), tt)),
  (((λ e. absurd (omega arith)), tt), (tt, tt)),
)

get_blocks_pages_example :
    (one two : List BlockSummary) × (ahead rows : List Block) × (get_blocks by_insertion
        whole_bigint
        (returned sample)
        1
        (whole 1)
      ≡ returned one)
    × (get_blocks by_insertion whole_bigint (returned sample) 1 (whole 2) ≡ returned two)
    × (get_blocks by_insertion whole_bigint (returned sample) 2 (whole 1) ≡ returned (one ++ two))
    × (map summary_of rows ≡ one ++ two)
    × (length ahead ≡ min 1 (length (filter (λ b. b.confirmed) sample.blocks)))
    × AreFirst (λ b. some b.found_at) 3 (filter (λ b. b.confirmed) sample.blocks) (ahead ++ rows)
unfolding numbers arithmetic
get_blocks_pages_example =
    get_blocks_pages whole_bigint sample by_insertion by_insertion by_insertion 1 1 (whole 1)
      (whole 2) sample-AreApart refl refl

get_blocks_route_page_example :
    get_blocks_route by_insertion whole_quotient whole_bigint (returned sample) (some (to_string 2))
    ≡ ok record {
      blocks = map summary_of (take 20 (drop 20 (confirmed_rows by_insertion whole_bigint sample)));
      page = whole 2;
    }
get_blocks_route_page_example =
    get_blocks_route_page by_insertion whole_quotient whole_bigint sample 2 (omega arith)
      (omega arith) whole_bigint_runs.1

unreadable_runs : parse_int (codes "abc") ≡ nan
unfolding numbers
unreadable_runs = refl

get_blocks_route_unreadable_example :
    get_blocks_route by_insertion whole_quotient whole_bigint (returned sample) (some (codes "abc"))
    ≡ failed 500 (codes "Failed to load blocks") none
get_blocks_route_unreadable_example =
    get_blocks_route_unreadable by_insertion whole_quotient whole_bigint sample (codes "abc")
      (codes "invalid input syntax for type bigint") unreadable_runs refl

abbrev parts : Text → Outcome Url
parts s = returned record {
  hostname = s;
  port = [];
  pathname = codes "/unlucky21";
  username = codes "pool";
  password = [];
}

abbrev production : Env
production = record { database_url = some (codes "db"); database_no_ssl = none }

abbrev unset : Env
unset = record { database_url = none; database_no_ssl = none }

get_pool_kept_example :
    ((c : Config) × ((get_pool parts returned production none).0 ≡ returned c)
      × (get_pool parts returned unset (get_pool parts returned production none).1
          ≡ (returned c, some c)))
    ⊎ ((e : Text) × ((get_pool parts returned production none).0 ≡ thrown e)
        × ((get_pool parts returned production none).1 ≡ none))
get_pool_kept_example = get_pool_kept parts returned production unset none

-- Two callers, the end of the one fetch, and a caller who comes late.
abbrev schedule : List Event
schedule =
    call 0 ∷ call 10 ∷ finish rejected (fulfilled true nothing) 90 ∷ settle ∷ call 70_000 ∷ []

one_fetch_example :
    let (t, started_count, ended_count) = run schedule initial 0 0 in
    started_count ≡ ended_count + under_way t.inflight
one_fetch_example = one_fetch schedule

abbrev old_stats : ExternalStats
old_stats = record {
  btc_price_usd = none;
  network_hashrate_hs = none;
  network_difficulty = none;
  fetched_at = 90;
}

abbrev awaiting : State
awaiting = record { cache = some old_stats; inflight = fetching }

-- A call, the callback of `finally`, and another call.
abbrev busy_minute : List Event
busy_minute = call 80_000 ∷ settle ∷ call 120_000 ∷ []

get_external_stats-complete_example :
    get_external_stats 130_000
      (after_events busy_minute (complete rejected rejected 70_200 awaiting))
    ≡ (
      after_events busy_minute (complete rejected rejected 70_200 awaiting),
      cached (fetched rejected rejected 70_200),
    )
get_external_stats-complete_example =
    get_external_stats-complete rejected rejected 70_200 130_000 busy_minute awaiting refl
      (omega arith, (tt, (omega arith, tt))) (omega arith)
