-- ===== src/Solo/Rows/Checking.antt =====
-- Going through the solo blocks that wait (reward-service/internal/solo/handler.go).
use solounlucky.Prelude.{
  ℕ, ◌≡◌, ◌≢◌, refl, sym, ap, ◌∙◌, inl, inr, Bool, true, false, List, [], ◌∷◌, arith, any_by,
  filter, ◌==◌, ==_iff, count_by, All, All-mono, Bool-cases, if◌then◌else◌,
}
use solounlucky.Store.{SoloBlockRow}
use solounlucky.Solo.{is_waiting}
use solounlucky.Solo.Rows.{
  IsKept, any_by-false, filter-AreDistinct, skipped, filter-AreWaiting, AreDistinct, update,
  IsVerdict, AreWaiting,
}

-- What holds of the rows while the blocks that waited are checked, of which these are left.
pub record IsChecking (next : ℕ) (us bs : List SoloBlockRow) : Type 0 where
  pub different : AreDistinct us
  pub distinct : AreDistinct bs
  pub waiting : AreWaiting us bs
  pub kept : All (IsKept next) bs

pub filter-IsChecking :
    (next : ℕ) (bs : List SoloBlockRow)
    → AreDistinct bs
    → All (IsKept next) bs
    → IsChecking next (filter is_waiting bs) bs
filter-IsChecking next bs d k = record {
  different = filter-AreDistinct is_waiting bs d;
  distinct = d;
  waiting = filter-AreWaiting bs d;
  kept = k;
}

any_by-filter :
    (p : SoloBlockRow → Bool) (id : ℕ) (us : List SoloBlockRow)
    → any_by (λ u. u.id == id) (filter p us) ≡ true
    → any_by (λ u. u.id == id) us ≡ true
any_by-filter p id [] h = h
any_by-filter p id (u ∷ us) h = ground (arith, h, any_by-filter p id us)

-- Some of the blocks are left out.
pub fewer-IsChecking :
    (next : ℕ) (p : SoloBlockRow → Bool) (us bs : List SoloBlockRow)
    → IsChecking next us bs
    → IsChecking next (filter p us) bs
fewer-IsChecking next p us bs c = record {
  different = filter-AreDistinct p us c.different;
  distinct = c.distinct;
  waiting = All-mono _ _ bs (λ b w h. w (any_by-filter p b.id us h)) c.waiting;
  kept = c.kept;
}

pub skip-IsChecking :
    (next : ℕ) (u : SoloBlockRow) (us bs : List SoloBlockRow)
    → IsChecking next (u ∷ us) bs
    → IsChecking next us bs
skip-IsChecking next u us bs c = record {
  different = c.different.1;
  distinct = c.distinct;
  waiting = All-mono _ _ bs (λ b w h. w (skipped u b us h)) c.waiting;
  kept = c.kept;
}

module _ (f : SoloBlockRow → SoloBlockRow) (v : IsVerdict f) where
  updated : ℕ → SoloBlockRow → SoloBlockRow
  updated id b = if b.id == id then f b else b

  updated-keys :
      (id : ℕ) (b : SoloBlockRow) → ((updated id b).id ≡ b.id) × ((updated id b).hash ≡ b.hash)
  unfolding updated
  updated-keys id b = elim (Bool-cases (b.id == id)) [
    | inl e ↦ rw (e, updated) (v.id b, v.hash b)
    | inr e ↦ rw (e, updated) (refl, refl)
  ]

  update-All :
      (id : ℕ) (a : SoloBlockRow) (bs : List SoloBlockRow)
      → All (λ c. (a.id ≢ c.id) × (a.hash ≢ c.hash)) bs
      → All (λ c. ((updated id a).id ≢ c.id) × ((updated id a).hash ≢ c.hash)) (update f id bs)
  unfolding updated
  update-All id a [] h = tt
  update-All id a (b ∷ bs) ((n, m), h) =
      let (i, j) = updated-keys id a in
      let (k, l) = updated-keys id b in
      ((λ e. n (sym i ∙ e ∙ k), λ e. m (sym j ∙ e ∙ l)), update-All id a bs h)

  update-AreDistinct :
      (id : ℕ) (bs : List SoloBlockRow) → AreDistinct bs → AreDistinct (update f id bs)
  unfolding updated
  update-AreDistinct id [] d = tt
  update-AreDistinct id (b ∷ bs) (h, d) = (update-All id b bs h, update-AreDistinct id bs d)

  update-AreWaiting :
      (u : SoloBlockRow) (us bs : List SoloBlockRow)
      → any_by (λ w. w.id == u.id) us ≡ false
      → AreWaiting (u ∷ us) bs
      → AreWaiting us (update f u.id bs)
  update-AreWaiting u us [] n w = tt
  update-AreWaiting u us (b ∷ bs) n (h, w) = elim (Bool-cases (b.id == u.id)) [
    | inl e ↦
        let same : (f b).id ≡ u.id = v.id b ∙ (==_iff b.id u.id).0 e in
        rw e (λ k. absurd (impossible (f b).id same k), update-AreWaiting u us bs n w)
    | inr e ↦ rw e (λ k. h (skipped u b us k), update-AreWaiting u us bs n w)
  ]
    where
      impossible : (id : ℕ) → id ≡ u.id → any_by (λ x. x.id == id) us ≡ true → ⊥
      impossible id e k =
          let moved = ap (λ (i : ℕ). any_by (λ (x : SoloBlockRow). x.id == i) us) e in cc

  update-IsKept :
      (next : ℕ) (u : SoloBlockRow) (us bs : List SoloBlockRow)
      → AreWaiting (u ∷ us) bs
      → All (IsKept next) bs
      → All (IsKept next) (update f u.id bs)
  update-IsKept next u us [] w a = tt
  update-IsKept next u us (b ∷ bs) (h, w) (k, a) = elim (Bool-cases (b.id == u.id)) [
    | inl e ↦
        let same : (u.id == b.id) ≡ true = ground (arith, e) in
        let waits : is_waiting b ≡ true = h (rw same refl) in
        let id = v.id b in
        let numbered = k.numbered in
        rw e (
          record {
            numbered = omega arith;
            priced = v.priced b k.priced;
            decided = v.decided b waits;
          },
          update-IsKept next u us bs w a,
        )
    | inr e ↦ rw e (k, update-IsKept next u us bs w a)
  ]

  pub update-IsChecking :
      (next : ℕ) (u : SoloBlockRow) (us bs : List SoloBlockRow)
      → IsChecking next (u ∷ us) bs
      → IsChecking next us (update f u.id bs)
  update-IsChecking next u us bs c = record {
    different = c.different.1;
    distinct = update-AreDistinct u.id bs c.distinct;
    waiting =
        update-AreWaiting u us bs
          (any_by-false u.id us (All-mono _ _ us (λ w k. k.0) c.different.0)) c.waiting;
    kept = update-IsKept next u us bs c.waiting c.kept;
  }

-- Each row that waits is one of those that are still to be checked.
abbrev pub AreListed : List SoloBlockRow → List SoloBlockRow → Type 0
AreListed us = All (λ b. is_waiting b ≡ true → any_by (λ u. u.id == b.id) us ≡ true)

pub filter-AreListed : (bs : List SoloBlockRow) → AreListed (filter is_waiting bs) bs
filter-AreListed [] = tt
filter-AreListed (b ∷ bs) = (
  λ h. rw h (ground arith),
  All-mono _ _ bs (λ c later h. ground (arith, later h)) (filter-AreListed bs),
)

pub none_listed : (bs : List SoloBlockRow) → AreListed [] bs → count_by is_waiting bs ≡ 0
none_listed [] a = refl
none_listed (b ∷ bs) (h, a) = ground (arith, none_listed bs a)

pub update-AreListed :
    (f : SoloBlockRow → SoloBlockRow) (u : SoloBlockRow) (us bs : List SoloBlockRow)
    → IsVerdict f
    → AreListed (u ∷ us) bs
    → AreListed us (update f u.id bs)
update-AreListed f u us [] v a = tt
update-AreListed f u us (b ∷ bs) v (h, a) = elim (Bool-cases (b.id == u.id)) [
  | inl e ↦ let done = v.done b in rw e (λ k. cc, update-AreListed f u us bs v a)
  | inr e ↦ rw e (λ k. ground (arith, h k, e), update-AreListed f u us bs v a)
]
