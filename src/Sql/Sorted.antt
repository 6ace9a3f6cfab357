-- ===== src/Sql/Sorted.antt =====
-- A sorted list of numbers is determined by how often each stands in it: ORDER BY may put peers in any
-- order, but the keys come out the same.
use solounlucky.Prelude.{
  ℕ, ◌+◌, ◌≡◌, ◌⊎◌, inl, inr, refl, sym, ap, ◌∙◌, Bool, true, false, List, [], ◌∷◌, ◌++◌, map,
  Option, All, count_by, length, take, leb, ◌==◌, ==_iff, Bool-cases, arith, length-filter,
  length-filter-map,
}
use solounlucky.Sql.{IsSorted}
use solounlucky.Sql.Laws.{descending}
use solounlucky.Sql.Standing.{beats, AreFirst}

module _ (le : ℕ → ℕ → Bool)
    (apart : (x y : ℕ) → (le y x ≡ false) ⊎ (le x y ≡ false) ⊎ (x ≡ y)) where
  none_at :
      (x y : ℕ) (zs : List ℕ)
      → le y x ≡ false
      → All (λ z. le y z ≡ true) zs
      → count_by (λ z. z == x) zs ≡ 0
  none_at x y [] out a = refl
  none_at x y (z ∷ zs) out (h, a) = elim (Bool-cases (z == x)) [
    | inl e ↦ let same : le y z ≡ le y x = ap (le y) ((==_iff z x).0 e) in cc
    | inr e ↦ rw e (none_at x y zs out a)
  ]

  head_first :
      (x y : ℕ) (xs ys : List ℕ)
      → le x x ≡ true
      → le y x ≡ false
      → IsSorted le (y ∷ ys)
      → count_by (λ z. z == x) (x ∷ xs) ≡ count_by (λ z. z == x) (y ∷ ys)
      → ⊥
  head_first x y xs ys self out (b, r) c = elim (Bool-cases (y == x)) [
    | inl e ↦ let same : le y x ≡ le x x = ap (λ (n : ℕ). le n x) ((==_iff y x).0 e) in cc
    | inr e ↦ ground (arith, c, e, none_at x y ys out b)
  ]

  pub sorted_unique_by :
      ((x : ℕ) → le x x ≡ true)
      → (xs ys : List ℕ) → IsSorted le xs
      → IsSorted le ys
      → ((p : ℕ → Bool) → count_by p xs ≡ count_by p ys)
      → xs ≡ ys
  sorted_unique_by self [] [] s r c = refl
  sorted_unique_by self [] (y ∷ ys) s r c = absurd (omega (arith, c (λ _. true)))
  sorted_unique_by self (x ∷ xs) [] s r c = absurd (omega (arith, c (λ _. true)))
  sorted_unique_by self (x ∷ xs) (y ∷ ys) (a, s) (b, r) c = elim (apart x y) [
    | inl out ↦ absurd (head_first x y xs ys (self x) out (b, r) (c (λ z. z == x)))
    | inr (inl out) ↦ absurd (head_first y x ys xs (self y) out (a, s) (sym (c (λ z. z == y))))
    | inr (inr e) ↦
        let rest : xs ≡ ys = sorted_unique_by self xs ys s r (λ p. tails p e (c p)) in
        rw (e, rest) refl
  ]
    where
      tails :
          (p : ℕ → Bool)
          → x ≡ y
          → count_by p (x ∷ xs) ≡ count_by p (y ∷ ys)
          → count_by p xs ≡ count_by p ys
      tails p e h = let same : p x ≡ p y = ap p e in ground (arith, same, h)

pub sorted_unique :
    (xs ys : List ℕ)
    → IsSorted leb xs
    → IsSorted leb ys
    → ((p : ℕ → Bool) → count_by p xs ≡ count_by p ys)
    → xs ≡ ys
sorted_unique = sorted_unique_by leb (λ x y. ground arith) (λ x. ground arith)

pub count_by-map :
    {A : Type 0} (p : ℕ → Bool) (f : A → ℕ) (xs : List A)
    → count_by p (map f xs) ≡ count_by (λ x. p (f x)) xs
count_by-map p f xs = sym (length-filter p (map f xs)) ∙ length-filter-map p f xs

-- A row's rank among all rows.
abbrev pub rank_among : {A : Type 0} → (A → Option ℕ) → List A → A → ℕ
rank_among key all r = 1 + count_by (λ q. beats (key q) (key r)) all

module _ {A : Type 0} (key : A → Option ℕ) where
  count-beats_mono :
      (x y : A) (qs : List A)
      → descending key x y ≡ true
      → leb (count_by (λ q. beats (key q) (key x)) qs) (count_by (λ q. beats (key q) (key y)) qs)
        ≡ true
  count-beats_mono x y [] h = ground arith
  count-beats_mono x y (q ∷ qs) h = ground (arith, count-beats_mono x y qs h)

  All-rank_among :
      (all : List A) (x : A) (ys : List A)
      → All (λ y. descending key x y ≡ true) ys
      → All (λ n. leb (rank_among key all x) n ≡ true) (map (rank_among key all) ys)
  All-rank_among all x [] a = tt
  All-rank_among all x (y ∷ ys) (h, a) =
      (ground (arith, count-beats_mono x y all h), All-rank_among all x ys a)

  rank_among-IsSorted :
      (all xs : List A) → IsSorted (descending key) xs → IsSorted leb (map (rank_among key all) xs)
  rank_among-IsSorted all [] s = tt
  rank_among-IsSorted all (x ∷ xs) (a, s) =
      (All-rank_among all x xs a, rank_among-IsSorted all xs s)

  -- Two sorts of the same rows give the same ranks at the same positions.
  pub ranks_agree :
      (limit : ℕ) (all xs ys : List A)
      → AreFirst key limit all xs
      → AreFirst key limit all ys
      → map (rank_among key all) xs ≡ map (rank_among key all) ys
  ranks_agree limit all xs ys f g =
      let rank = rank_among key all in
      let same : map rank (xs ++ f.rest) ≡ map rank (ys ++ g.rest) =
        sorted_unique _ _ (rank_among-IsSorted all _ f.sorted) (rank_among-IsSorted all _ g.sorted)
          (λ p.
            count_by-map p rank (xs ++ f.rest)
            ∙ f.whole (λ q. p (rank q))
            ∙ sym (g.whole (λ q. p (rank q)))
            ∙ sym (count_by-map p rank (ys ++ g.rest))) in
      let size : length xs ≡ length ys = f.size ∙ sym g.size in
      front xs f.rest
      ∙ ap (take (length xs)) same
      ∙ ap (λ n. take n (map rank (ys ++ g.rest))) size
      ∙ sym (front ys g.rest)
    where
      front :
          (us vs : List A)
          → map (rank_among key all) us ≡ take (length us) (map (rank_among key all) (us ++ vs))
      front [] vs = take-none (map (rank_among key all) vs)
        where
          take-none : (ns : List ℕ) → [] ≡ take 0 ns
          take-none ns = refl
      front (u ∷ us) vs = ap (◌∷◌ (rank_among key all u)) (front us vs)
