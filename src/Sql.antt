-- ===== src/Sql.antt =====
-- What the queries of web/lib/db.ts use of SQL: ORDER BY, GROUP BY keys, MAX, SUM, BOOL_OR and RANK.
-- A NULL is `none`.
pub mod Insertion
pub mod Laws
pub mod Ranking
pub mod Standing
pub mod Sorted
use solounlucky.Prelude.{
  ℕ, ◌+◌, ◌≡◌, Bool, true, false, not, ◌⊎◌, List, [], ◌∷◌, Option, none, some, Text, text_eq, All,
  filter, count_by, ltb, leb, if◌then◌else◌,
}

-- Each row stands before all rows that the order does not put in front of it.
abbrev pub IsSorted : {A : Type 0} → (A → A → Bool) → List A → Type 0
IsSorted le [] = Unit
IsSorted le (x ∷ xs) = All (λ y. le x y ≡ true) xs × IsSorted le xs

abbrev pub IsTotal : {A : Type 0} → (A → A → Bool) → Type 0
IsTotal {A} le = (x y : A) → (le x y ≡ true) ⊎ (le y x ≡ true)

abbrev pub IsTransitive : {A : Type 0} → (A → A → Bool) → Type 0
IsTransitive {A} le = (x y z : A) → le x y ≡ true → le y z ≡ true → le x z ≡ true

-- The database's ORDER BY: it keeps the rows as a multiset and sorts them, and the order among peers
-- is its own.
pub record OrderBy : Type 1 where
  pub order_by : (A : Type 0) → (A → A → Bool) → List A → List A
  pub count_order_by :
      (A : Type 0) (le : A → A → Bool) (p : A → Bool) (xs : List A)
      → count_by p (order_by A le xs) ≡ count_by p xs
  pub All-order_by :
      (A : Type 0) (le : A → A → Bool) (P : A → Type 0) (xs : List A)
      → All P xs
      → All P (order_by A le xs)
  pub order_by-IsSorted :
      (A : Type 0) (le : A → A → Bool)
      → IsTotal le
      → IsTransitive le
      → (xs : List A) → IsSorted le (order_by A le xs)

-- The keys of GROUP BY, each once.
unfoldable pub distinct : List Text → List Text
distinct [] = []
distinct (a ∷ rest) = a ∷ filter (λ b. not (text_eq a b)) (distinct rest)

-- MAX ignores NULL, and is NULL if nothing else is there.
abbrev pub larger : ℕ → Option ℕ → Option ℕ
larger a none = some a
larger a (some b) = some (if ltb a b then b else a)

unfoldable pub max_of : List (Option ℕ) → Option ℕ
max_of [] = none
max_of (none ∷ xs) = max_of xs
max_of (some a ∷ xs) = larger a (max_of xs)

unfoldable pub sum_of : List ℕ → ℕ
sum_of [] = 0
sum_of (x ∷ xs) = x + sum_of xs

-- BOOL_OR ignores NULL.
unfoldable pub bool_or : List (Option Bool) → Option Bool
bool_or [] = none
bool_or (none ∷ xs) = bool_or xs
bool_or (some true ∷ xs) = some true
bool_or (some false ∷ xs) =
    let rest = bool_or xs in elim rest [ none ↦ some false | some b ↦ some b ]

-- Strictly before in ORDER BY … DESC, where NULL comes first.
abbrev pub above : Option ℕ → Option ℕ → Bool
above none none = false
above none (some b) = true
above (some a) none = false
above (some a) (some b) = ltb b a

-- RANK() OVER (ORDER BY key DESC): one more than the rows that stand strictly before.
unfoldable pub rank_by : {A : Type 0} → (A → Option ℕ) → List A → A → ℕ
rank_by key rows row = 1 + count_by (λ r. above (key r) (key row)) rows
