-- ===== src/Pages/Miner/Remaining.antt =====
-- The countdown of web/app/miner/[address]/page.tsx.
use solounlucky.Prelude.{
  ℕ, ◌+◌, ◌-◌, ◌*◌, ◌/◌, ◌%◌, ◌≤◌, ◌<◌, ◌≡◌, ◌⊎◌, true, ◌++◌, some, Text, codes, arith, ltb,
  if◌then◌else◌, to_string,
}
use solounlucky.Pages.Miner.{time_until_expiry, day_ms, hour_ms, minute_ms}

-- Whole units and what is left of them.
pub record Countdown (remaining : ℕ) : Type 0 where
  pub days : ℕ
  pub hours : ℕ
  pub mins : ℕ
  pub rest : ℕ
  pub total : days * day_ms + hours * hour_ms + mins * minute_ms + rest ≡ remaining
  pub hours_lt : hours < 24
  pub mins_lt : mins < 60
  pub rest_lt : rest < minute_ms

abbrev pub label_of : ℕ → ℕ → ℕ → Text
label_of days hours mins =
    if ltb 0 days
    then to_string days ++ (codes "d " ++ (to_string hours ++ codes "h"))
    else to_string hours ++ (codes "h " ++ (to_string mins ++ codes "m"))

pub countdown_of : (remaining : ℕ) → Countdown remaining
countdown_of r = record {
  days = r / day_ms;
  hours = r % day_ms / hour_ms;
  mins = r % hour_ms / minute_ms;
  rest = r % minute_ms;
  total = omega arith;
  hours_lt = omega arith;
  mins_lt = omega arith;
  rest_lt = omega arith;
}

-- Seven days after the last share, to the millisecond, the rank is `Expired`. Before that the label
-- counts down in days and hours, or hours and minutes on the last day, and it is urgent exactly if
-- less than two days remain.
pub time_until_expiry_counts :
    (now seen : ℕ)
    → ((seen + 7 * day_ms ≤ now)
        × (time_until_expiry now (some seen) ≡ record { label = codes "Expired"; urgent = true }))
      ⊎ ((now < seen + 7 * day_ms)
          × (let c = countdown_of (seen + 7 * day_ms - now) in
              time_until_expiry now (some seen) ≡ record {
                label = label_of c.days c.hours c.mins;
                urgent = ltb (seen + 7 * day_ms - now) (2 * day_ms);
              }))
unfolding time_until_expiry countdown_of
time_until_expiry_counts now seen = ground arith
