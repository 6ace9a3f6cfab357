-- ===== src/Pages/Miner.antt =====
-- web/app/miner/[address]/page.tsx.
pub mod Remaining
pub mod Absent
use solounlucky.Prelude.{
  ℕ, zero, suc, ◌+◌, ◌-◌, ◌*◌, ◌/◌, ◌%◌, ◌^◌, Bool, true, false, List, [], ◌∷◌, ◌++◌, map, Option,
  none, some, inl, Text, codes, length, take, ltb, leb, ◌==◌, if◌then◌else◌, to_string,
}
use mathlib.Core.List.{reverse}
use solounlucky.Double.{literal, mul}
use solounlucky.Js.{number_of_digits, Number, nan, infinite, finite, whole}
use solounlucky.Format.{format_btc, format_hashrate, format_best_share, time_ago}
use solounlucky.Db.Outcome.{Outcome, returned, thrown, ◌>>=◌}
use solounlucky.Db.Miner.{MinerStats, HistoryRow, AppearanceRow}
use solounlucky.Pages.Ranking.{dash, best_of}

pub record Expiry : Type 0 where
  pub label : Text
  pub urgent : Bool

abbrev pub day_ms : ℕ
day_ms = 24 * 60 * 60 * 1000

abbrev pub hour_ms : ℕ
hour_ms = 60 * 60 * 1000

abbrev pub minute_ms : ℕ
minute_ms = 60 * 1000

-- Dates are milliseconds. `%` and the floors are of a positive number here.
unfoldable pub time_until_expiry : (now : ℕ) → Option ℕ → Expiry
time_until_expiry now none = record { label = dash; urgent = false }
time_until_expiry now (some seen) =
    let remaining = seen + 7 * day_ms - now in
    let days = remaining / day_ms in
    let hours = remaining % day_ms / hour_ms in
    let mins = remaining % hour_ms / minute_ms in
    if leb (seen + 7 * day_ms) now
    then record { label = codes "Expired"; urgent = true }
    else if ltb 0 days
    then record {
      label = to_string days ++ (codes "d " ++ (to_string hours ++ codes "h"));
      urgent = ltb days 2;
    }
    else record {
      label = to_string hours ++ (codes "h " ++ (to_string mins ++ codes "m"));
      urgent = true;
    }

-- A card, with its colour: red if urgent.
pub record Card : Type 0 where
  pub label : Text
  pub value : Text
  pub urgent : Bool

abbrev pub plain : Text → Text → Card
plain label value = record { label = label; value = value; urgent = false }

-- `x ? … : '—'` and `x * 1e12`.
abbrev pub payout_text : Option ℕ → Text
payout_text none = dash
payout_text (some n) = if n == 0 then dash else format_btc (whole n)

abbrev pub times : Number → ℕ → Number
times nan d = nan
times (infinite negative) d = infinite negative
times (finite negative x) d = finite negative (mul x d)

abbrev pub hashrate_text : Option Number → Text
hashrate_text none = dash
hashrate_text (some x) = format_hashrate (times x (literal (10 ^ 12) 1))

abbrev pub last_active : ℕ → Option ℕ → Text
last_active now none = dash
last_active now (some seen) = time_ago now seen

-- The cards; a miner with no rank (null, or a falsy 0) has none.
unfoldable pub cards : ℕ → MinerStats → Option (List Card)
cards now stats =
    let expiry = time_until_expiry now stats.last_seen in
    let shown = λ (rank : ℕ).
      plain (codes "Current Rank") (b'#' ∷ to_string rank)
      ∷ plain (codes "Best Share") (best_of stats.best_share)
      ∷ plain (codes "Est. Payout if Found Now") (payout_text stats.estimated_payout_sats)
      ∷ plain (codes "Est. Hashrate (7d)") (hashrate_text stats.hashrate_7d_ths)
      ∷ plain (codes "Last Active") (last_active now stats.last_seen)
      ∷ record { label = codes "Rank Expires In"; value = expiry.label; urgent = expiry.urgent }
      ∷ [] in
    elim stats.current_rank [
      | none ↦ none
      | some rank ↦ if rank == 0 then none else some (shown rank)
    ]

-- The share activity: the latest 48 hours, newest first, as hour, shares and best share.
unfoldable pub activity_rows : List HistoryRow → List (ℕ × Text × Text)
activity_rows history = map (λ r. (r.hour, r.count, best_of r.best)) (take 48 (reverse history))

unfoldable pub appearance_rows : ℕ → List AppearanceRow → List (ℕ × Text × Text)
appearance_rows now rows =
    map (λ b. (b.height, time_ago now b.found_at, format_btc (number_of_digits b.amount_sats))) rows
