-- ===== src/Pages/Ranking/Slots.antt =====
-- The rows of the leaderboard page (web/app/leaderboard/page.tsx).
use Prim.Native.Nat.{min}
use mathlib.Core.Path.{subst, ap₂}
use solounlucky.Prelude.{
  ℕ, zero, suc, ◌+◌, ◌-◌, ◌≤◌, ◌<◌, ◌≡◌, refl, sym, ◌∙◌, ap, inl, inr, true, false, List, [], ◌∷◌,
  ◌++◌, map, Text, codes, arith, length, filter, ltb, All, All-filter, Bool-cases,
}
use solounlucky.Js.{whole}
use solounlucky.Format.{format_btc}
use solounlucky.Sql.{OrderBy}
use solounlucky.Sql.Ranking.{IsRanking}
use solounlucky.Store.{Tables}
use solounlucky.Db.Outcome.{returned, returned-injective}
use solounlucky.Db.Board.{LeaderboardEntry, get_leaderboard}
use solounlucky.Db.Board.Ranks.{get_leaderboard_lists}
use solounlucky.Pages.Ranking.{
  TableRow, ranked, open_slot, cutoff, unpaid, dash, entry_row, in_top_21, below_top_21, ranked_row,
  unpaid_row, open_slots, table_rows,
}
use solounlucky.Pages.Ranking.Live.{slot_text}

-- The numbers after one, as many as are asked for.
abbrev pub numbers_after : (start count : ℕ) → List ℕ
numbers_after start zero = []
numbers_after start (suc n) = (start + 1) ∷ numbers_after (start + 1) n

open_slots-numbers_after :
    (start n : ℕ) → open_slots start n ≡ map open_slot (numbers_after start n)
unfolding open_slots
open_slots-numbers_after start zero = refl
open_slots-numbers_after start (suc n) =
    ap (◌∷◌ (open_slot (start + 1))) (open_slots-numbers_after (start + 1) n)

length-split :
    (es : List LeaderboardEntry)
    → length (filter in_top_21 es) + length (filter below_top_21 es) ≡ length es
length-split [] = omega arith
length-split (e ∷ es) = ground (arith, length-split es)

-- Ranks do not exceed positions, so the first 21 entries have ranks up to 21.
ranked-count :
    (position previous : ℕ) (es : List LeaderboardEntry)
    → previous ≤ position
    → IsRanking position previous (map (λ e. e.rank) es)
    → min (22 - position) (length es) ≤ length (filter in_top_21 es)
ranked-count position previous [] le h = omega arith
ranked-count position previous (e ∷ es) le (h, hs) =
    ground (arith, ranked-count (suc position) e.rank es (omega arith) hs)

-- Behind an entry below the first 21 no entry is among them.
filter-below :
    (position previous : ℕ) (es : List LeaderboardEntry)
    → previous ≤ position
    → 21 < previous
    → IsRanking position previous (map (λ e. e.rank) es)
    → (filter in_top_21 es ≡ []) × (filter below_top_21 es ≡ es)
filter-below position previous [] le low h = (refl, refl)
filter-below position previous (e ∷ es) le low (h, hs) =
    let (none_above, all_below) =
      filter-below (suc position) e.rank es (omega arith) (omega arith) hs in
    let out : in_top_21 e ≡ false = ground arith in
    let below : below_top_21 e ≡ true = ground arith in
    (rw (out, none_above) refl, rw (below, all_below) refl)

-- The filters cut the entries in two.
filter-cut :
    (position previous : ℕ) (es : List LeaderboardEntry)
    → previous ≤ position
    → IsRanking position previous (map (λ e. e.rank) es)
    → es ≡ filter in_top_21 es ++ filter below_top_21 es
filter-cut position previous [] le h = refl
filter-cut position previous (e ∷ es) le (h, hs) = elim (Bool-cases (in_top_21 e)) [
  | inl top ↦
      let above : below_top_21 e ≡ false = ground (arith, top) in
      rw (top, above) (ap (◌∷◌ e) (filter-cut (suc position) e.rank es (omega arith) hs))
  | inr out ↦
      let below : below_top_21 e ≡ true = ground (arith, out) in
      let (none_above, all_below) =
        filter-below (suc position) e.rank es (omega arith) (ground (arith, out)) hs in
      rw (out, below, none_above, all_below) refl
]

All-top : (es : List LeaderboardEntry) → All (λ e. e.rank ≤ 21) (filter in_top_21 es)
All-top [] = tt
All-top (e ∷ es) = elim (Bool-cases (in_top_21 e)) [
  | inl top ↦ rw top (ground (arith, top), All-top es)
  | inr out ↦ rw out (All-top es)
]

All-below : (es : List LeaderboardEntry) → All (λ e. 21 < e.rank) (filter below_top_21 es)
All-below [] = tt
All-below (e ∷ es) = elim (Bool-cases (below_top_21 e)) [
  | inl below ↦ rw below (ground (arith, below), All-below es)
  | inr above ↦ rw above (All-below es)
]

-- The row of an entry that is paid.
abbrev pub paid_row : LeaderboardEntry → TableRow
paid_row e = ranked (entry_row (codes "0.1426 BTC") e)

map-paid_row :
    (es : List LeaderboardEntry)
    → All (λ e. e.estimated_payout_sats ≡ 14_255_952) es
    → map ranked_row es ≡ map paid_row es
unfolding ranked_row
map-paid_row [] a = refl
map-paid_row (e ∷ es) (h, a) =
    ap₂ (λ text rows. ranked (entry_row text e) ∷ rows)
      (ap (λ n. format_btc (whole n)) h ∙ slot_text) (map-paid_row es a)

slots-missing :
    (top all : ℕ)
    → min 21 all ≤ top
    → top ≤ all
    → numbers_after top (21 - top) ≡ numbers_after all (21 - all)
slots-missing top all few le = elim (Bool-cases (ltb all 21)) [
  | inl short ↦
      let same : top ≡ all = ground (arith, short) in ap (λ (n : ℕ). numbers_after n (21 - n)) same
  | inr full ↦
      let none_open : 21 - top ≡ 0 = ground (arith, full) in
      let none_missing : 21 - all ≡ 0 = ground (arith, full) in rw (none_open, none_missing) refl
]

-- For the entries that `getLeaderboard` returns, the page shows, in this order: a row for each entry of
-- rank up to 21, with a payout of 0.1426 BTC; an open slot for each number up to 21 beyond the number
-- of entries; the cutoff; and a row for each entry of a higher rank, with a dash. The two kinds of
-- entries are all entries in their order, and the first 21 of them are of the first kind.
pub table_rows_complete :
    (db : OrderBy) (quotient_text : ℕ → ℕ → Text) (t : Tables) (limit : ℕ)
    {entries : List LeaderboardEntry}
    → get_leaderboard db quotient_text (returned t) limit ≡ returned entries
    → (top rest : List LeaderboardEntry) × (entries ≡ top ++ rest)
      × All (λ e. e.rank ≤ 21) top
      × All (λ e. 21 < e.rank) rest
      × (min 21 (length entries) ≤ length top)
      × (table_rows entries
          ≡ map paid_row top
            ++ (map open_slot (numbers_after (length entries) (21 - length entries))
                ++ (cutoff ∷ map (λ e. unpaid (entry_row dash e)) rest)))
unfolding table_rows unpaid_row
table_rows_complete db quotient_text t limit {entries} h =
    let (found, e, ranks, _, payouts) = get_leaderboard_lists db quotient_text t limit in
    let same : found ≡ entries = returned-injective (sym e ∙ h) in
    let ranking : IsRanking 1 1 (map (λ q. q.rank) entries) =
      subst (λ es. IsRanking 1 1 (map (λ q. q.rank) es)) same ranks in
    let paid = subst (All (λ q. q.estimated_payout_sats ≡ 14_255_952)) same payouts in
    let top = filter in_top_21 entries in
    let rest = filter below_top_21 entries in
    let count = ranked-count 1 1 entries (omega arith) ranking in
    let split = length-split entries in
    let slots =
      open_slots-numbers_after (length top) (21 - length top)
      ∙ ap (map open_slot) (slots-missing (length top) (length entries) count (omega arith)) in
    (
      top,
      rest,
      filter-cut 1 1 entries (omega arith) ranking,
      All-top entries,
      All-below entries,
      count,
      ap₂ (λ rows more. rows ++ (more ++ (cutoff ∷ map (λ e. unpaid (entry_row dash e)) rest)))
          (map-paid_row top (All-filter _ in_top_21 entries paid)) slots,
    )
