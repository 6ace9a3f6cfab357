-- ===== src/Db/Board/Prefix.antt =====
-- Leaderboards of different lengths (web/lib/db.ts): the home page reads 21 entries, the leaderboard's
-- page and route 100.
use solounlucky.Prelude.{
  ℕ, zero, suc, ◌≤◌, ◌≡◌, refl, sym, ap, ◌∙◌, List, [], ◌∷◌, map, Text, take, map-take, arith,
}
use solounlucky.Sql.{OrderBy}
use solounlucky.Store.{Tables}
use solounlucky.Db.Outcome.{returned}
use solounlucky.Db.Board.{LeaderboardEntry, board_rows, board_entry, get_leaderboard}
use solounlucky.Db.Board.Ranks.{entries_of-eq-map}

take-take {ℓ} : {A : Type ℓ} (m n : ℕ) (xs : List A) → m ≤ n → take m (take n xs) ≡ take m xs
take-take zero n xs h = refl
take-take (suc m) zero xs h = elim h [ ]
take-take (suc m) (suc n) [] h = refl
take-take (suc m) (suc n) (x ∷ xs) h = ap (◌∷◌ x) (take-take m n xs (omega arith))

module _ (db : OrderBy) (quotient_text : ℕ → ℕ → Text) (t : Tables) where
  board_rows-take :
      (m n : ℕ) → m ≤ n → board_rows db quotient_text t m ≡ take m (board_rows db quotient_text t n)
  unfolding board_rows
  board_rows-take m n h = sym (take-take m n _ h)

  -- A leaderboard of m entries is the first m entries of a longer one of the same tables: a miner has
  -- the same rank, and the same figures, on both.
  pub get_leaderboard_prefix :
      (m n : ℕ)
      → m ≤ n
      → (entries : List LeaderboardEntry) × (get_leaderboard db quotient_text (returned t) n
          ≡ returned entries)
        × (get_leaderboard db quotient_text (returned t) m ≡ returned (take m entries))
  unfolding get_leaderboard
  get_leaderboard_prefix m n h =
      let entry = board_entry db quotient_text 14_255_952 in
      let rows = board_rows db quotient_text t in
      (
        map entry (rows n),
        ap returned (entries_of-eq-map db quotient_text (rows n)),
        ap returned (
            entries_of-eq-map db quotient_text (rows m)
            ∙ ap (map entry) (board_rows-take m n h)
            ∙ map-take entry m (rows n)),
      )
