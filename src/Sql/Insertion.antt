-- ===== src/Sql/Insertion.antt =====
-- An ORDER BY that exists: sorting by insertion.
use solounlucky.Prelude.{
  ◌≡◌, refl, inl, inr, Bool, true, List, [], ◌∷◌, All, count_by, if◌then◌else◌, Bool-cases, arith,
}
use solounlucky.Sql.{IsSorted, IsTotal, IsTransitive, OrderBy}

module _ {A : Type 0} (le : A → A → Bool) where
  unfoldable pub insert : A → List A → List A
  insert x [] = x ∷ []
  insert x (y ∷ ys) = if le x y then x ∷ y ∷ ys else y ∷ insert x ys

  unfoldable pub insertion_sort : List A → List A
  unfolding insert
  insertion_sort [] = []
  insertion_sort (x ∷ xs) = insert x (insertion_sort xs)

  count_by-insert :
      (p : A → Bool) (x : A) (ys : List A) → count_by p (insert x ys) ≡ count_by p (x ∷ ys)
  unfolding insert
  count_by-insert p x [] = refl
  count_by-insert p x (y ∷ ys) = ground (arith, count_by-insert p x ys)

  pub count_by-insertion_sort :
      (p : A → Bool) (xs : List A) → count_by p (insertion_sort xs) ≡ count_by p xs
  unfolding insertion_sort
  count_by-insertion_sort p [] = refl
  count_by-insertion_sort p (x ∷ xs) =
      ground (arith, count_by-insert p x (insertion_sort xs), count_by-insertion_sort p xs)

  All_insert_lem : (P : A → Type 0) (x : A) (ys : List A) → P x → All P ys → All P (insert x ys)
  unfolding insert
  All_insert_lem P x [] h a = (h, tt)
  All_insert_lem P x (y ∷ ys) h (b, a) = elim (Bool-cases (le x y)) [
    | inl e ↦ rw e (h, (b, a))
    | inr e ↦ rw e (b, All_insert_lem P x ys h a)
  ]

  pub All-insertion_sort : (P : A → Type 0) (xs : List A) → All P xs → All P (insertion_sort xs)
  unfolding insertion_sort
  All-insertion_sort P [] a = tt
  All-insertion_sort P (x ∷ xs) (h, a) =
      All_insert_lem P x (insertion_sort xs) h (All-insertion_sort P xs a)

  module _ (total : IsTotal le) (trans : IsTransitive le) where
    All-trans :
        (x y : A) (ys : List A)
        → le x y ≡ true
        → All (λ z. le y z ≡ true) ys
        → All (λ z. le x z ≡ true) ys
    All-trans x y [] h a = tt
    All-trans x y (z ∷ zs) h (a, more) = (trans x y z h a, All-trans x y zs h more)

    All-insert :
        (x y : A) (ys : List A)
        → le y x ≡ true
        → All (λ z. le y z ≡ true) ys
        → All (λ z. le y z ≡ true) (insert x ys)
    unfolding insert
    All-insert x y [] h a = (h, tt)
    All-insert x y (z ∷ zs) h (a, more) = elim (Bool-cases (le x z)) [
      | inl e ↦ rw e (h, (a, more))
      | inr e ↦ rw e (a, All-insert x y zs h more)
    ]

    insert-IsSorted : (x : A) (ys : List A) → IsSorted le ys → IsSorted le (insert x ys)
    unfolding insert
    insert-IsSorted x [] s = (tt, tt)
    insert-IsSorted x (y ∷ ys) (a, s) = elim (Bool-cases (le x y)) [
      | inl e ↦ rw e ((e, All-trans x y ys e a), (a, s))
      | inr e ↦
          let other : le y x ≡ true = elim (total x y) [ inl h ↦ ground arith | inr h ↦ h ] in
          rw e (All-insert x y ys other a, insert-IsSorted x ys s)
    ]

    pub insertion_sort-IsSorted : (xs : List A) → IsSorted le (insertion_sort xs)
    unfolding insertion_sort
    insertion_sort-IsSorted [] = tt
    insertion_sort-IsSorted (x ∷ xs) =
        insert-IsSorted x (insertion_sort xs) (insertion_sort-IsSorted xs)

abbrev pub by_insertion : OrderBy
by_insertion = record {
  order_by = λ A le xs. insertion_sort le xs;
  count_order_by = λ A le p xs. count_by-insertion_sort le p xs;
  All-order_by = λ A le P xs. All-insertion_sort le P xs;
  order_by-IsSorted = λ A le total trans xs. insertion_sort-IsSorted le total trans xs;
}
