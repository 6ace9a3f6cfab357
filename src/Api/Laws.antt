-- ===== src/Api/Laws.antt =====
-- The answers of the routes (web/app/api) on failure and at the edges of their parameters.
use solounlucky.Prelude.{
  ℕ, ◌≤◌, ◌<◌, ◌≡◌, ◌⊎◌, inl, inr, none, Text, codes, length, ltb, Bool-cases, ltb→lt, ltb→le,
}
use solounlucky.Js.{Number}
use solounlucky.Sql.{OrderBy}
use solounlucky.Store.{Tables}
use solounlucky.Db.Outcome.{Outcome, returned, thrown, Outcome-cases}
use solounlucky.Db.Miner.{MinerStats, get_miner_stats}
use solounlucky.Api.{ok, failed, get_miner_route}

module _ (db : OrderBy) (quotient_text : ℕ → ℕ → Text) (to_bigint : Number → Outcome ℕ) where
  -- An address of fewer than ten code units is answered with status 400, whatever the database does;
  -- any other with the statistics, or with status 500 if loading them fails.
  pub get_miner_route_answers :
      (connection : Outcome Tables) (address : Text)
      → let answer = get_miner_route db quotient_text to_bigint connection address in
        ((length address < 10) × (answer ≡ failed 400 (codes "Invalid address") none))
        ⊎ ((10 ≤ length address)
            × ((m : MinerStats) × (get_miner_stats db quotient_text connection address ≡ returned m)
                × (answer ≡ ok m)))
        ⊎ ((10 ≤ length address)
            × ((e : Text) × (get_miner_stats db quotient_text connection address ≡ thrown e)
                × (answer ≡ failed 500 (codes "Failed to load miner stats") none)))
  unfolding get_miner_route
  get_miner_route_answers connection address = elim (Bool-cases (ltb (length address) 10)) [
    | inl e ↦ inl (ltb→lt _ _ e, rw e)
    | inr e ↦ elim (Outcome-cases (get_miner_stats db quotient_text connection address)) [
      | inl (m, h) ↦ inr (inl (ltb→le _ _ e, (m, h, rw (e, h))))
      | inr (x, h) ↦ inr (inr (ltb→le _ _ e, (x, h, rw (e, h))))
    ]
  ]
