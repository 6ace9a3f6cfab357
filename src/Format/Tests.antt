-- ===== src/Format/Tests.antt =====
-- Runs of web/lib/format.ts.
use solounlucky.Prelude.{◌≡◌, refl, inl, codes}
use solounlucky.Double.{literal, arithmetic}
use solounlucky.Js.{whole, numbers}
use solounlucky.Format.{format_btc, time_ago, format_hashrate, format_duration, format_best_share}

btc_runs : format_btc (whole 14_255_952) ≡ codes "0.1426 BTC"
unfolding format_btc arithmetic numbers
btc_runs = refl

share_runs : format_best_share (inl (codes " 1234567.8e3 H")) ≡ codes "1.23 GH"
unfolding format_best_share arithmetic numbers
share_runs = refl

hashrate_runs : format_hashrate (whole 999_960) ≡ codes "1000.0 KH/s"
unfolding format_hashrate arithmetic numbers
hashrate_runs = refl

duration_runs : format_duration (literal 5400 1) ≡ codes "~1.5 hours"
unfolding format_duration arithmetic numbers
duration_runs = refl

ago_runs : time_ago 7_300_000 100_000 ≡ codes "2h ago"
unfolding time_ago numbers
ago_runs = refl
