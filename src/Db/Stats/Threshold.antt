-- ===== src/Db/Stats/Threshold.antt =====
-- The entry threshold of `getExtendedPoolStats` (web/lib/db.ts).
use solounlucky.Prelude.{
  ℕ, ◌≤◌, ◌<◌, ◌≡◌, ap, Bool, true, List, Text, [], ◌∷◌, map, Option, All, All-mono, length,
  filter-All, count_by, count_by-not, leb, not, arith,
}
use solounlucky.Sql.{above, rank_by, OrderBy}
use solounlucky.Db.Stats.{BestRow, min_of, min_top_21}

abbrev best : BestRow → Option ℕ
best r = r.best_share

-- No row ranks above itself.
below_length :
    (rows : List BestRow) (r : BestRow)
    → 0 < count_by (λ q. not (above (best q) (best r))) rows
    → rank_by best rows r ≤ length rows
unfolding rank_by
below_length rows r h = omega (arith, count_by-not (λ q. above (best q) (best r)) rows, h)

not_above_self : (a : Option ℕ) → not (above a a) ≡ true
not_above_self a = ground arith

All-counted :
    (rows ys : List BestRow)
    → ((p : BestRow → Bool) → count_by p ys ≤ count_by p rows)
    → All (λ r. 0 < count_by (λ q. not (above (best q) (best r))) rows) ys
All-counted rows [] h = tt
All-counted rows (y ∷ ys) h = (
  ground (arith, h (λ q. not (above (best q) (best y))), not_above_self (best y)),
  All-counted rows ys (λ p. ground (arith, h p)),
)

module _ (db : OrderBy) (quotient_text : ℕ → ℕ → Text) where
  -- While at most 21 miners are eligible, the threshold is the least best share of all of them: it
  -- is a share, not NULL, as soon as one of them is known.
  pub min_top_21_few :
      (rows : List BestRow)
      → length rows ≤ 21
      → min_top_21 db quotient_text rows ≡ min_of (map best rows)
  unfolding min_top_21
  min_top_21_few rows h =
      let counted = All-counted rows rows (λ p. omega arith) in
      ap (λ rs. min_of (map best rs))
        (filter-All (λ r. leb (rank_by best rows r) 21) rows
          (All-mono _ _ rows (λ r c. let le = below_length rows r c in ground arith) counted))
