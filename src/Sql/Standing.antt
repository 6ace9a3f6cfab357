-- ===== src/Sql/Standing.antt =====
-- The first rows of ORDER BY … DESC LIMIT, described apart from RANK: which rows they are, in which order.
use Prim.Native.Nat.{min}
use solounlucky.Prelude.{
  ℕ, ◌≡◌, refl, Bool, List, [], ◌∷◌, ◌++◌, Option, count_by, length, take, drop, length-take,
  length-eq-count_by, true, false, none, some, ltb, zero, suc, ap,
}
use solounlucky.Sql.{OrderBy, IsSorted}
use solounlucky.Sql.Laws.{descending, descending-IsTotal, descending-IsTransitive}

-- The best row has rank 1, and a row's rank is one more than the rows with a greater key, NULL greatest.
abbrev pub beats : Option ℕ → Option ℕ → Bool
beats none none = false
beats none (some b) = true
beats (some a) none = false
beats (some a) (some b) = ltb b a

-- `rows` are the first of a sort of all rows, at most `limit` of them: with `rest` they are all rows
-- as often as they occur, and sorted.
pub record AreFirst {A : Type 0} (key : A → Option ℕ) (limit : ℕ) (all rows : List A) : Type 0 where
  pub rest : List A
  pub sorted : IsSorted (descending key) (rows ++ rest)
  pub whole : (p : A → Bool) → count_by p (rows ++ rest) ≡ count_by p all
  pub size : length rows ≡ min limit (length all)

take-drop {ℓ} : {A : Type ℓ} (n : ℕ) (xs : List A) → take n xs ++ drop n xs ≡ xs
take-drop zero xs = refl
take-drop (suc n) [] = refl
take-drop (suc n) (x ∷ xs) = ap (◌∷◌ x) (take-drop n xs)

pub take-AreFirst :
    (db : OrderBy) {A : Type 0} (key : A → Option ℕ) (limit : ℕ) (all : List A)
    → AreFirst key limit all (take limit (db.order_by A (descending key) all))
take-AreFirst db {A} key limit all =
    let sorted = db.order_by A (descending key) all in
    let same = take-drop limit sorted in
    record {
      rest = drop limit sorted;
      sorted = rw same (
          db.order_by-IsSorted A (descending key) (descending-IsTotal key)
            (descending-IsTransitive key) all);
      whole = λ p. rw same (db.count_order_by A (descending key) p all);
      size = rw (
        length-take,
        length-eq-count_by sorted,
        db.count_order_by A (descending key) (λ _. true) all,
        length-eq-count_by all,
      );
    }
