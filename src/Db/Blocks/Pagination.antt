-- ===== src/Db/Blocks/Pagination.antt =====
-- Consecutive pages of `getBlocks` (web/lib/db.ts).
use Prim.Native.Nat.{min}
use solounlucky.Prelude.{
  ℕ, zero, suc, ◌+◌, ◌≡◌, ◌≢◌, refl, sym, ap, ◌∙◌, Bool, true, false, not, List, [], ◌∷◌, ◌++◌, map,
  Option, none, some, take, drop, filter, All, All-map, length, ltb, ◌==◌, arith, if◌then◌else◌,
}
use mathlib.Core.List.{map-append, head-eq_of_cons-eq, tail-eq_of_cons-eq, cons≢nil}
use mathlib.Core.Path.{subst, ap₂}
use native.Mathlib.Nat.{zero-add, suc-add}
use solounlucky.Js.{Number}
use solounlucky.Sql.{OrderBy, IsSorted}
use solounlucky.Sql.Laws.{descending, descending-IsTotal, descending-IsTransitive}
use solounlucky.Sql.Standing.{AreFirst, take-AreFirst}
use solounlucky.Sql.Sorted.{sorted_unique_by, count_by-map}
use solounlucky.Store.{Tables, Block}
use solounlucky.Db.Outcome.{Outcome, returned}
use solounlucky.Db.Blocks.{BlockSummary, summary_of, get_blocks}

drop-add {ℓ} : {A : Type ℓ} (m n : ℕ) (xs : List A) → drop (m + n) xs ≡ drop n (drop m xs)
drop-add zero n xs = rw zero-add
drop-add (suc m) zero [] = rw suc-add
drop-add (suc m) (suc n) [] = rw suc-add
drop-add (suc m) n (x ∷ xs) = rw suc-add (drop-add m n xs)

take-nil {ℓ} : {A : Type ℓ} (n : ℕ) → take {A = A} n [] ≡ []
take-nil zero = refl
take-nil (suc n) = refl

take-add {ℓ} :
    {A : Type ℓ} (m n : ℕ) (xs : List A) → take (m + n) xs ≡ take m xs ++ take n (drop m xs)
take-add zero n xs = rw zero-add
take-add (suc m) n [] = rw suc-add (sym (take-nil n))
take-add (suc m) n (x ∷ xs) = rw suc-add (ap (◌∷◌ x) (take-add m n xs))

-- The times at which blocks were found differ.
abbrev pub AreApart : List Block → Type 0
AreApart [] = Unit
AreApart (b ∷ bs) = All (λ c. b.found_at ≢ c.found_at) bs × AreApart bs

abbrev find_at : List Block → ℕ → Option Block
find_at [] time = none
find_at (b ∷ bs) time = if b.found_at == time then some b else find_at bs time

All-find_at : (bs : List Block) → AreApart bs → All (λ b. find_at bs b.found_at ≡ some b) bs
All-find_at [] a = tt
All-find_at (b ∷ bs) (h, a) = (ground arith, later bs h (All-find_at bs a))
  where
    later :
        (cs : List Block)
        → All (λ c. b.found_at ≢ c.found_at) cs
        → All (λ c. find_at bs c.found_at ≡ some c) cs
        → All (λ c. find_at (b ∷ bs) c.found_at ≡ some c) cs
    later [] h a = tt
    later (c ∷ cs) (n, h) (e, a) =
        let other : (b.found_at == c.found_at) ≡ false = ground (arith, n) in
        (rw other e, later cs h a)

same_times :
    (g : ℕ → Option Block) (bs cs : List Block)
    → All (λ b. g b.found_at ≡ some b) bs
    → All (λ c. g c.found_at ≡ some c) cs
    → map (λ b. b.found_at) bs ≡ map (λ c. c.found_at) cs
    → bs ≡ cs
same_times g [] [] a b e = refl
same_times g [] (c ∷ cs) a b e = absurd (cons≢nil (sym e))
same_times g (b ∷ bs) [] a h e = absurd (cons≢nil e)
same_times g (b ∷ bs) (c ∷ cs) (p, a) (q, h) e =
    let times : some b ≡ some c = sym p ∙ ap g (head-eq_of_cons-eq e) ∙ q in
    let heads : b ≡ c = ap (λ (o : Option Block). elim o [ none ↦ b | some d ↦ d ]) times in
    ap₂ ◌∷◌ heads (same_times g bs cs a h (tail-eq_of_cons-eq e))

abbrev latest_first : Block → Block → Bool
latest_first = descending λ b. some b.found_at

abbrev at_least : ℕ → ℕ → Bool
at_least a b = not (ltb a b)

IsSorted-times :
    (bs : List Block) → IsSorted latest_first bs → IsSorted at_least (map (λ b. b.found_at) bs)
IsSorted-times [] s = tt
IsSorted-times (b ∷ bs) (a, s) =
    (All-map (λ t. at_least b.found_at t ≡ true) (λ c. c.found_at) bs a, IsSorted-times bs s)

-- Blocks that were found at different times have one order.
order_by-any :
    (db db' : OrderBy) (bs : List Block)
    → AreApart bs
    → db.order_by Block latest_first bs ≡ db'.order_by Block latest_first bs
order_by-any db db' bs apart =
    let key : Block → Option ℕ = λ b. some b.found_at in
    let found = All-find_at bs apart in
    same_times (find_at bs) _ _
      (db.All-order_by Block latest_first (λ b. find_at bs b.found_at ≡ some b) bs found)
      (db'.All-order_by Block latest_first (λ b. find_at bs b.found_at ≡ some b) bs found)
      (sorted_unique_by at_least (λ x y. ground arith) (λ x. ground arith) _ _
        (IsSorted-times _ (
          db.order_by-IsSorted Block latest_first (descending-IsTotal key)
            (descending-IsTransitive key) bs))
        (IsSorted-times _ (
          db'.order_by-IsSorted Block latest_first (descending-IsTotal key)
            (descending-IsTransitive key) bs))
        (λ p.
          count_by-map p (λ b. b.found_at) (db.order_by Block latest_first bs)
          ∙ db.count_order_by Block latest_first (λ b. p b.found_at) bs
          ∙ sym (db'.count_order_by Block latest_first (λ b. p b.found_at) bs)
          ∙ sym (count_by-map p (λ b. b.found_at) (db'.order_by Block latest_first bs))))

module _ (db : OrderBy) (to_bigint : Number → Outcome ℕ) (t : Tables) where
  abbrev pub confirmed_rows : List Block
  confirmed_rows =
      db.order_by Block (descending λ b. some b.found_at) (filter (λ b. b.confirmed) t.blocks)

  pub get_blocks_lem :
      (limit k : ℕ) (offset : Number)
      → to_bigint offset ≡ returned k
      → get_blocks db to_bigint (returned t) limit offset
        ≡ returned (map summary_of (take limit (drop k confirmed_rows)))
  unfolding get_blocks
  get_blocks_lem limit k offset e = rw e

module _ (to_bigint : Number → Outcome ℕ) (t : Tables) where
  abbrev confirmed : List Block
  confirmed = filter (λ b. b.confirmed) t.blocks

  -- Let the driver take `first` as an offset k and `second` as k + limit, let the confirmed blocks have
  -- been found at different times, and let each query order as its database likes. Then both pages
  -- load, and so does one page of the double length from `first` on, which is the two pages one after
  -- the other. Its rows are what follows the first k rows in the sort of the confirmed blocks, the
  -- latest first.
  pub get_blocks_pages :
      (db db' db'' : OrderBy) (limit k : ℕ) (first second : Number)
      → AreApart (filter (λ b. b.confirmed) t.blocks)
      → to_bigint first ≡ returned k
      → to_bigint second ≡ returned (k + limit)
      → (one two : List BlockSummary) × (ahead rows : List Block) × (get_blocks db to_bigint
            (returned t)
            limit
            first
          ≡ returned one)
        × (get_blocks db' to_bigint (returned t) limit second ≡ returned two)
        × (get_blocks db'' to_bigint (returned t) (limit + limit) first ≡ returned (one ++ two))
        × (map summary_of rows ≡ one ++ two)
        × (length ahead ≡ min k (length (filter (λ b. b.confirmed) t.blocks)))
        × AreFirst
            (λ b. some b.found_at)
            (k + (limit + limit))
            (filter (λ b. b.confirmed) t.blocks)
            (ahead ++ rows)
  get_blocks_pages db db' db'' limit k first second apart e f =
      let sorted = db.order_by Block latest_first confirmed in
      let one = take limit (drop k sorted) in
      let two = take limit (drop (k + limit) sorted) in
      let key : Block → Option ℕ = λ b. some b.found_at in
      let cut : take (limit + limit) (drop k sorted) ≡ one ++ two =
        take-add limit limit (drop k sorted)
        ∙ ap (λ r. take limit (drop k sorted) ++ take limit r) (sym (drop-add k limit sorted)) in
      let joint : map summary_of (take (limit + limit) (drop k sorted))
          ≡ map summary_of one ++ map summary_of two =
        ap (map summary_of) cut ∙ map-append summary_of one two in
      (
        map summary_of one,
        map summary_of two,
        take k sorted,
        take (limit + limit) (drop k sorted),
        get_blocks_lem db to_bigint t limit k first e,
        get_blocks_lem db' to_bigint t limit (k + limit) second f
            ∙ ap (λ rows. returned (map summary_of (take limit (drop (k + limit) rows))))
                (order_by-any db' db confirmed apart),
        get_blocks_lem db'' to_bigint t (limit + limit) k first e
            ∙ ap (λ rows. returned (map summary_of (take (limit + limit) (drop k rows))))
                (order_by-any db'' db confirmed apart)
            ∙ ap returned joint,
        joint,
        (take-AreFirst db key k confirmed).size,
        subst (AreFirst key (k + (limit + limit)) confirmed) (take-add k (limit + limit) sorted)
            (take-AreFirst db key (k + (limit + limit)) confirmed),
      )
