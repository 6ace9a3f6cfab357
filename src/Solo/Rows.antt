-- ===== src/Solo/Rows.antt =====
-- The rows of solo blocks (reward-service/internal/solo/handler.go): what each operation keeps of them.
pub mod Checking
use mathlib.Core.Path.{subst}
use solounlucky.Prelude.{
  ℕ, ◌<◌, ◌≡◌, ◌≢◌, refl, sym, ap, ◌∙◌, inl, inr, Bool, true, false, ◌&&◌, List, [], ◌∷◌, ◌++◌, map,
  arith, any_by, filter, ◌==◌, ==_iff, count_by, All, All-append, All-mono, All-filter, Bool-cases,
  if◌then◌else◌,
}
use solounlucky.Store.{SoloBlockRow}
use solounlucky.Solo.{is_waiting, solo_payout}

-- Different blocks have different numbers and hashes.
abbrev pub AreDistinct : List SoloBlockRow → Type 0
AreDistinct [] = Unit
AreDistinct (b ∷ bs) = All (λ c. (b.id ≢ c.id) × (b.hash ≢ c.hash)) bs × AreDistinct bs

-- A row that the code has written: its number is given out, its payout is that of its fees, and it is
-- not both confirmed and orphaned.
pub record IsKept (next : ℕ) (b : SoloBlockRow) : Type 0 where
  pub numbered : b.id < next
  pub priced : b.payout_sats ≡ solo_payout b.fees_sats
  pub decided : b.confirmed && b.is_orphaned ≡ false

-- The rows with these numbers wait.
abbrev pub AreWaiting : List SoloBlockRow → List SoloBlockRow → Type 0
AreWaiting us = All (λ b. any_by (λ u. u.id == b.id) us ≡ true → is_waiting b ≡ true)

pub AreDistinct-append :
    (bs : List SoloBlockRow) (b : SoloBlockRow)
    → AreDistinct bs
    → All (λ c. (c.id ≢ b.id) × (c.hash ≢ b.hash)) bs
    → AreDistinct (bs ++ b ∷ [])
AreDistinct-append [] b d a = (tt, tt)
AreDistinct-append (c ∷ bs) b (h, d) (n, a) =
    (All-append _ bs (b ∷ []) h (n, tt), AreDistinct-append bs b d a)

-- The update of the rows with a number.
abbrev pub update : (SoloBlockRow → SoloBlockRow) → ℕ → List SoloBlockRow → List SoloBlockRow
update f id = map (λ b. if b.id == id then f b else b)

-- An update that writes neither the number nor the hash, and leaves a waiting row decided at most once.
pub record IsVerdict (f : SoloBlockRow → SoloBlockRow) : Type 0 where
  pub id : (b : SoloBlockRow) → (f b).id ≡ b.id
  pub hash : (b : SoloBlockRow) → (f b).hash ≡ b.hash
  pub priced :
      (b : SoloBlockRow)
      → b.payout_sats ≡ solo_payout b.fees_sats
      → (f b).payout_sats ≡ solo_payout (f b).fees_sats
  pub decided :
      (b : SoloBlockRow) → is_waiting b ≡ true → (f b).confirmed && (f b).is_orphaned ≡ false
  pub done : (b : SoloBlockRow) → is_waiting (f b) ≡ false

pub confirming-IsVerdict : IsVerdict (λ b. record b { confirmed = true })
confirming-IsVerdict = record {
  id = λ b. refl;
  hash = λ b. refl;
  priced = λ b h. h;
  decided = λ b h. ground (arith, h);
  done = λ b. refl;
}

pub orphaning-IsVerdict : IsVerdict (λ b. record b { is_orphaned = true })
orphaning-IsVerdict = record {
  id = λ b. refl;
  hash = λ b. refl;
  priced = λ b h. h;
  decided = λ b h. ground (arith, h);
  done = λ b. ground arith;
}

pub any_by-false :
    (n : ℕ) (bs : List SoloBlockRow) → All (λ c. n ≢ c.id) bs → any_by (λ u. u.id == n) bs ≡ false
any_by-false n [] a = refl
any_by-false n (c ∷ bs) (h, a) = elim (Bool-cases (c.id == n)) [
  | inl e ↦ absurd (h (sym ((==_iff c.id n).0 e)))
  | inr e ↦ rw e (any_by-false n bs a)
]

pub filter-AreDistinct :
    (p : SoloBlockRow → Bool) (bs : List SoloBlockRow) → AreDistinct bs → AreDistinct (filter p bs)
filter-AreDistinct p [] d = tt
filter-AreDistinct p (b ∷ bs) (h, d) = elim (Bool-cases (p b)) [
  | inl e ↦ rw e (All-filter _ p bs h, filter-AreDistinct p bs d)
  | inr e ↦ rw e (filter-AreDistinct p bs d)
]

pub skipped :
    (u b : SoloBlockRow) (us : List SoloBlockRow)
    → any_by (λ v. v.id == b.id) us ≡ true
    → any_by (λ v. v.id == b.id) (u ∷ us) ≡ true
skipped u b us h = ground (arith, h)

-- The waiting rows of a table wait in it.
pub filter-AreWaiting :
    (bs : List SoloBlockRow) → AreDistinct bs → AreWaiting (filter is_waiting bs) bs
filter-AreWaiting [] d = tt
filter-AreWaiting (b ∷ bs) (h, d) = elim (Bool-cases (is_waiting b)) [
  | inl e ↦
      let kept : filter is_waiting (b ∷ bs) ≡ b ∷ filter is_waiting bs = rw e refl in
      subst (λ us. AreWaiting us (b ∷ bs)) (sym kept)
        (λ _. e, others bs (filter is_waiting bs) h (filter-AreWaiting bs d))
  | inr e ↦
      let left : filter is_waiting (b ∷ bs) ≡ filter is_waiting bs = rw e refl in
      let absent =
        any_by-false b.id (filter is_waiting bs)
          (All-mono _ _ (filter is_waiting bs) (λ c k. k.0) (All-filter _ is_waiting bs h)) in
      subst (λ us. AreWaiting us (b ∷ bs)) (sym left) (λ k. cc, filter-AreWaiting bs d)
]
  where
    others :
        (cs us : List SoloBlockRow)
        → All (λ c. (b.id ≢ c.id) × (b.hash ≢ c.hash)) cs
        → AreWaiting us cs
        → AreWaiting (b ∷ us) cs
    others [] us h w = tt
    others (c ∷ cs) us (h, a) (k, w) = elim (Bool-cases (b.id == c.id)) [
      | inl same ↦ absurd (h.0 ((==_iff b.id c.id).0 same))
      | inr other ↦ (rw other k, others cs us a w)
    ]
