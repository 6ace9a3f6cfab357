-- ===== src/Sql/Ranking.antt =====
-- RANK over rows in ORDER BY … DESC is standard competition ranking: 1, 2, 2, 4.
use solounlucky.Prelude.{
  ℕ, zero, suc, ◌+◌, ◌≡◌, refl, ap, sym, ◌⊎◌, inl, inr, Bool, true, false, List, [], ◌∷◌, map,
  Option, All, count_by, Bool-cases, arith, length, take,
}
use solounlucky.Sql.{IsSorted, above, rank_by}
use solounlucky.Sql.Laws.{descending}

-- Each rank repeats the one before, or is the position.
abbrev pub IsRanking : (position previous : ℕ) → List ℕ → Type 0
IsRanking position previous [] = Unit
IsRanking position previous (r ∷ rs) =
    ((r ≡ previous) ⊎ (r ≡ position)) × IsRanking (suc position) r rs

pub IsRanking-take :
    (n position previous : ℕ) (rs : List ℕ)
    → IsRanking position previous rs
    → IsRanking position previous (take n rs)
IsRanking-take zero position previous rs h = tt
IsRanking-take (suc n) position previous [] h = tt
IsRanking-take (suc n) position previous (r ∷ rs) (h, hs) =
    (h, IsRanking-take n (suc position) r rs hs)

module _ {A : Type 0} (key : A → Option ℕ) where
  none_above :
      (y : A) (ys : List A)
      → All (λ z. descending key y z ≡ true) ys
      → count_by (λ r. above (key r) (key y)) ys ≡ 0
  none_above y [] h = refl
  none_above y (z ∷ zs) (h, hs) = ground (arith, none_above y zs hs)

  All-above :
      (p y : A) (xs : List A)
      → above (key p) (key y) ≡ true
      → All (λ z. descending key z p ≡ true) xs
      → count_by (λ r. above (key r) (key y)) xs ≡ length xs
  All-above p y [] h a = refl
  All-above p y (z ∷ zs) h (a, more) = ground (arith, All-above p y zs h more)

  peers : (p y : A) → descending key p y ≡ true → above (key p) (key y) ≡ false → key p ≡ key y
  peers p y h k = ground arith

  All-descending :
      (p y : A) (xs : List A)
      → descending key p y ≡ true
      → All (λ z. descending key z p ≡ true) xs
      → All (λ z. descending key z y ≡ true) xs
  All-descending p y [] h a = tt
  All-descending p y (z ∷ zs) h (a, more) = (ground arith, All-descending p y zs h more)

  -- `before` are the rows already passed, `p` the last of them.
  IsRanking-from :
      (zs before : List A) (p : A) (ys : List A)
      → ((q : A → Bool) → count_by q zs ≡ count_by q before + count_by q ys)
      → All (λ z. descending key z p ≡ true) before
      → IsSorted (descending key) (p ∷ ys)
      → IsRanking (suc (length before)) (rank_by key zs p) (map (rank_by key zs) ys)
  unfolding rank_by
  IsRanking-from zs before p [] split top s = tt
  IsRanking-from zs before p (y ∷ ys) split top ((h, _), (a, s)) = (
    elim (Bool-cases (above (key p) (key y))) [
      | inl e ↦ inr (
          omega (
            arith,
            split (λ r. above (key r) (key y)),
            All-above p y before e top,
            none_above y (y ∷ ys) (ground arith, a),
          ))
      | inr e ↦ inl (ap (λ k. 1 + count_by (λ r. above (key r) k) zs) (sym (peers p y h e)))
    ],
    IsRanking-from zs (y ∷ before) y ys (λ q. ground (arith, split q))
        (ground arith, All-descending p y before h top) (a, s),
  )

  pub sorted-IsRanking :
      (zs : List A) → IsSorted (descending key) zs → IsRanking 1 1 (map (rank_by key zs) zs)
  unfolding rank_by
  sorted-IsRanking [] s = tt
  sorted-IsRanking (y ∷ ys) (a, s) = (
    inr (omega (arith, none_above y (y ∷ ys) (ground arith, a))),
    IsRanking-from (y ∷ ys) (y ∷ []) y ys (λ q. ground arith) (ground arith, tt) (a, s),
  )
