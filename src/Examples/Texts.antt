-- ===== src/Examples/Texts.antt =====
-- The texts of web/lib/format.ts and of the miner's page at small inputs.
use solounlucky.Prelude.{◌+◌, ◌-◌, ◌*◌, ◌≤◌, ◌<◌, ◌≡◌, ◌⊎◌, some, codes, ltb, true}
use solounlucky.Pages.Miner.{time_until_expiry, day_ms}
use solounlucky.Pages.Miner.Remaining.{time_until_expiry_counts, countdown_of, label_of}

time_until_expiry_counts_example :
    ((5000 + 7 * day_ms ≤ 9000)
      × (time_until_expiry 9000 (some 5000) ≡ record { label = codes "Expired"; urgent = true }))
    ⊎ ((9000 < 5000 + 7 * day_ms)
        × (let c = countdown_of (5000 + 7 * day_ms - 9000) in
            time_until_expiry 9000 (some 5000) ≡ record {
              label = label_of c.days c.hours c.mins;
              urgent = ltb (5000 + 7 * day_ms - 9000) (2 * day_ms);
            }))
time_until_expiry_counts_example = time_until_expiry_counts 9000 5000
