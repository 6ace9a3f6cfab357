-- ===== src/Sql/Laws.antt =====
-- RANK, ORDER BY … DESC and GROUP BY keys (Sql.antt).
use solounlucky.Prelude.{ℕ, Bool, not, Option, arith}
use solounlucky.Sql.{IsTotal, IsTransitive, above}

abbrev pub not_below : Option ℕ → Option ℕ → Bool
not_below a b = not (above b a)

module _ {A : Type 0} (key : A → Option ℕ) where
  abbrev pub descending : A → A → Bool
  descending x y = not_below (key x) (key y)

  pub descending-IsTotal : IsTotal descending
  descending-IsTotal x y = ground arith

  pub descending-IsTransitive : IsTransitive descending
  descending-IsTransitive x y z h k = ground arith
