-- ===== src/Pages/Loading/Shown.antt =====
-- What the pages of web/app show of the tables that they have loaded.
use solounlucky.Prelude.{
  ℕ, suc, ◌<◌, ◌≡◌, refl, sym, ap, ◌∙◌, inl, inr, Bool, true, false, List, [], ◌∷◌, map, Option,
  some, Text, codes, arith, length, take, filter, count_by, get_elem?, length-map, length-take,
  length-filter, length-eq-count_by, All, All-at, to_string, ◌==◌,
}
use Prim.Native.Nat.{min}
use solounlucky.Js.{Number, whole}
use solounlucky.Sql.{OrderBy}
use solounlucky.Sql.Laws.{descending}
use solounlucky.Sql.Ranking.{IsRanking}
use solounlucky.Store.{Tables, Block, SoloBlockRow}
use solounlucky.Format.{format_btc}
use solounlucky.Db.Outcome.{Outcome, returned, returned-injective}
use solounlucky.Db.Board.{LeaderboardEntry, get_leaderboard}
use solounlucky.Db.Board.Ranks.{get_leaderboard_lists}
use solounlucky.Db.Miner.{MinerStats}
use solounlucky.Db.Miner.Agreement.{HasSnapshot, get_miner_stats-Agrees}
use solounlucky.Db.Blocks.{summary_of, solo_of, get_solo_blocks}
use solounlucky.Db.Blocks.Pagination.{confirmed_rows, get_blocks_lem}
use solounlucky.Pages.Miner.{Card, plain, hashrate_text, last_active, time_until_expiry, cards}
use solounlucky.Pages.Ranking.{best_of}
use solounlucky.Pages.Tables.{BlockRow, block_row, SoloRow, solo_row}
use solounlucky.Pages.Loading.{
  Section, notice, table, section_of, whole_offset, MinerPage, miner_page_of, blocks_page,
  solo_page, miner_page, no_blocks, block_headings, no_solo_blocks, solo_headings,
}

-- A part shows n things, up to a limit: the notice stands exactly where there are none.
abbrev pub Shows : {A : Type 0} (limit n : ℕ) → Section A → Type 0
Shows limit n (notice lines) = n ≡ 0
Shows limit n (table headings rows) = (0 < n) × (length rows ≡ min limit n)

section_of-Shows :
    {A B : Type 0} (lines headings : List Text) (row : A → B) (limit n : ℕ) (ys : List A)
    → 0 < limit
    → length ys ≡ min limit n
    → Shows limit n (section_of lines headings row ys)
section_of-Shows lines headings row limit n [] positive e = omega arith
section_of-Shows lines headings row limit n (y ∷ ys) positive e =
    (omega arith, ap suc (length-map row ys) ∙ e)

length-order_by :
    (db : OrderBy) (A : Type 0) (le : A → A → Bool) (xs : List A)
    → length (db.order_by A le xs) ≡ length xs
length-order_by db A le xs =
    length-eq-count_by (db.order_by A le xs)
    ∙ db.count_order_by A le (λ _. true) xs
    ∙ sym (length-eq-count_by xs)

length-shown :
    {A B : Type 0} (f : A → B) (limit : ℕ) (xs : List A) {n : ℕ}
    → length xs ≡ n
    → length (map f (take limit xs)) ≡ min limit n
length-shown f limit xs e = length-map f (take limit xs) ∙ length-take limit xs ∙ ap (min limit) e

-- The ranks of a ranking are positive.
IsRanking-positive :
    (position previous : ℕ) (ranks : List ℕ)
    → 0 < position
    → 0 < previous
    → IsRanking position previous ranks
    → All (λ r. 0 < r) ranks
IsRanking-positive position previous [] p q h = tt
IsRanking-positive position previous (r ∷ rs) p q (inl e, h) =
    (omega arith, IsRanking-positive (suc position) r rs (omega arith) (omega arith) h)
IsRanking-positive position previous (r ∷ rs) p q (inr e, h) =
    (omega arith, IsRanking-positive (suc position) r rs (omega arith) (omega arith) h)

All-ranks :
    (es : List LeaderboardEntry)
    → All (λ r. 0 < r) (map (λ e. e.rank) es)
    → All (λ e. 0 < e.rank) es
All-ranks [] a = tt
All-ranks (e ∷ es) (h, a) = (h, All-ranks es a)

-- The cards of an entry begin with its rank, its best share and the payout of a slot.
pub record HasCards (e : LeaderboardEntry) (shown : Option (List Card)) : Type 0 where
  pub others : List Card
  pub cards :
      shown
      ≡ some (
          plain (codes "Current Rank") (b'#' ∷ to_string e.rank)
          ∷ plain (codes "Best Share") (best_of e.best_share)
          ∷ plain (codes "Est. Payout if Found Now") (format_btc (whole 14_255_952))
          ∷ others)

cards-HasCards :
    (now : ℕ) (e : LeaderboardEntry) (m : MinerStats)
    → 0 < e.rank
    → e.estimated_payout_sats ≡ 14_255_952
    → m.current_rank ≡ some e.rank
    → m.best_share ≡ e.best_share
    → m.estimated_payout_sats ≡ some e.estimated_payout_sats
    → HasCards e (cards now m)
unfolding cards
cards-HasCards now e m positive slot rank best payout =
    let ranked : (e.rank == 0) ≡ false = ground arith in
    let expiry = time_until_expiry now m.last_seen in
    let others : List Card =
      plain (codes "Est. Hashrate (7d)") (hashrate_text m.hashrate_7d_ths)
      ∷ plain (codes "Last Active") (last_active now m.last_seen)
      ∷ record { label = codes "Rank Expires In"; value = expiry.label; urgent = expiry.urgent }
      ∷ [] in
    record { others = others; cards = rw (rank, ranked, best, payout, slot) refl }

module _ (db : OrderBy) (quotient_text : ℕ → ℕ → Text) (to_bigint : Number → Outcome ℕ) (now : ℕ)
    (t : Tables) where
  -- If the database takes 0 as OFFSET, then the page of blocks loads and shows as many rows as there are
  -- confirmed blocks, up to 50, and the page of the solo pool as many as there are solo blocks, up to 20;
  -- the notice that there are none stands exactly where there are none.
  pub block_pages_show :
      to_bigint whole_offset ≡ returned 0
      → ((s : Section BlockRow) × (blocks_page db quotient_text to_bigint now (returned t)
            ≡ returned s)
          × Shows 50 (count_by (λ b. b.confirmed) t.blocks) s)
        × ((s : Section SoloRow) × (solo_page db quotient_text to_bigint now (returned t)
              ≡ returned s)
            × Shows 20 (length t.solo_blocks) s)
  unfolding blocks_page solo_page get_solo_blocks
  block_pages_show taken =
      let rows = confirmed_rows db to_bigint t in
      let solo = db.order_by SoloBlockRow (descending λ r. some r.found_at) t.solo_blocks in
      let loaded = get_blocks_lem db to_bigint t 50 0 whole_offset taken in
      (
        (
          section_of no_blocks block_headings (block_row now) (map summary_of (take 50 rows)),
          rw loaded refl,
          section_of-Shows no_blocks block_headings (block_row now) 50 _ _ (omega arith) (
              length-shown summary_of 50 rows (
                length-order_by db Block _ (filter (λ b. b.confirmed) t.blocks)
                ∙ length-filter (λ b. b.confirmed) t.blocks)),
        ),
        (
          section_of no_solo_blocks solo_headings (solo_row now) (map solo_of (take 20 solo)),
          refl,
          section_of-Shows no_solo_blocks solo_headings (solo_row now) 20 _ _ (omega arith)
              (length-shown solo_of 20 solo (length-order_by db SoloBlockRow _ t.solo_blocks)),
        ),
      )

  -- Every entry of the leaderboard leads to a page that loads and shows, in its first three cards, the
  -- entry's rank, its best share and 0.1426 BTC for the slot, if the snapshot of each confirmed block is a
  -- JSON array.
  pub miner_page-HasCards :
      (limit i : ℕ) {entries : List LeaderboardEntry} {e : LeaderboardEntry}
      → All (HasSnapshot db quotient_text t) (filter (λ b. b.confirmed) t.blocks)
      → get_leaderboard db quotient_text (returned t) limit ≡ returned entries
      → get_elem? entries i ≡ some e
      → (p : MinerPage) × (miner_page db quotient_text to_bigint now e.btc_address (returned t)
          ≡ returned p)
        × HasCards e p.cards
  unfolding miner_page miner_page_of
  miner_page-HasCards limit i {entries} {e} snapshots h at =
      let (m, loads, agrees) = get_miner_stats-Agrees db quotient_text t limit i snapshots h at in
      let (found, same, ranking, _, slots) = get_leaderboard_lists db quotient_text t limit in
      let listed : entries ≡ found = returned-injective (sym h ∙ same) in
      let positive : All (λ e. 0 < e.rank) entries =
        rw listed
          (All-ranks found (IsRanking-positive 1 1 _ (omega arith) (omega arith) ranking)) in
      let slot : All (λ e. e.estimated_payout_sats ≡ 14_255_952) entries = rw listed slots in
      (
        miner_page_of now m,
        rw loads refl,
        cards-HasCards now e m (All-at (λ e. 0 < e.rank) entries i positive at)
            (All-at (λ e. e.estimated_payout_sats ≡ 14_255_952) entries i slot at) agrees.rank
            agrees.best_share agrees.payout,
      )
