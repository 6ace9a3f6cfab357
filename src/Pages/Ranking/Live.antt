-- ===== src/Pages/Ranking/Live.antt =====
-- The live numbers of the home page (web/app/page.tsx).
use Prim.Native.Nat.{min}
use mathlib.Core.Path.{subst}
use solounlucky.Prelude.{
  zero, suc, ℕ, ◌≡◌, refl, sym, ap, ◌∙◌, List, [], ◌∷◌, ◌++◌, Text, All, codes, length, to_string,
}
use solounlucky.Double.{arithmetic}
use solounlucky.Js.{whole, numbers}
use solounlucky.Format.{format_btc}
use solounlucky.Sql.{OrderBy}
use solounlucky.Store.{Tables}
use solounlucky.Leaderboard.{joined}
use solounlucky.Db.Outcome.{returned, returned-injective}
use solounlucky.Db.Board.{LeaderboardEntry, get_leaderboard}
use solounlucky.Db.Board.Ranks.{get_leaderboard_lists}
use solounlucky.Db.Stats.{PoolStats}
use solounlucky.Pages.Ranking.{dash, live_numbers}

pub slot_text : format_btc (whole 14_255_952) ≡ codes "0.1426 BTC"
unfolding format_btc arithmetic numbers
slot_text = refl

abbrev pub slot_shown : ℕ → Text
slot_shown zero = dash
slot_shown (suc n) = codes "0.1426 BTC"

live_numbers-slot :
    (stats : PoolStats) (entries : List LeaderboardEntry)
    → All (λ e. e.estimated_payout_sats ≡ 14_255_952) entries
    → (live_numbers stats entries).btc_per_slot ≡ slot_shown (length entries)
unfolding live_numbers
live_numbers-slot stats [] a = refl
live_numbers-slot stats (e ∷ es) (h, a) = ap (λ n. format_btc (whole n)) h ∙ slot_text

live_numbers-slots :
    (stats : PoolStats) (entries : List LeaderboardEntry)
    → (live_numbers stats entries).slots_filled ≡ to_string (length entries) ++ codes " / 21"
unfolding live_numbers
live_numbers-slots stats entries = refl

-- With the leaderboard of 21 entries the home page shows the number of ranked miners, or 21 if there
-- are more, out of 21 slots, and a payout of 0.1426 BTC for a slot, or a dash if none is taken.
pub live_numbers_show :
    (db : OrderBy) (quotient_text : ℕ → ℕ → Text) (t : Tables) (stats : PoolStats)
    {entries : List LeaderboardEntry}
    → get_leaderboard db quotient_text (returned t) 21 ≡ returned entries
    → let filled = min 21 (length (joined db t)) in
      let shown = live_numbers stats entries in
      (shown.slots_filled ≡ to_string filled ++ codes " / 21")
      × (shown.btc_per_slot ≡ slot_shown filled)
live_numbers_show db quotient_text t stats {entries} h =
    let (found, e, _, size, payouts) = get_leaderboard_lists db quotient_text t 21 in
    let same : found ≡ entries = returned-injective (sym e ∙ h) in
    let count : length entries ≡ min 21 (length (joined db t)) =
      subst (λ es. length es ≡ min 21 (length (joined db t))) same size in
    let paid = subst (All (λ q. q.estimated_payout_sats ≡ 14_255_952)) same payouts in
    (
      live_numbers-slots stats entries ∙ ap (λ n. to_string n ++ codes " / 21") count,
      live_numbers-slot stats entries paid ∙ ap slot_shown count,
    )
