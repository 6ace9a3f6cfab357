-- ===== src/Polling.antt =====
-- The inner loop of the two confirmation loops (reward-service/cmd/server/main.go and
-- reward-service/internal/solo/handler.go), by the turns that the ticker gives it.
use solounlucky.Prelude.{
  ℕ, ◌≡◌, refl, inl, inr, List, [], ◌∷◌, ◌++◌, Option, none, some, All, ◌==◌, ==_iff, Bool-cases,
  if◌then◌else◌,
}

module _ {S T : Type 0} (check : T → S → ℕ × S) where
  -- `none` is that the turns are over and blocks still wait.
  unfoldable pub poll_until : List T → S → Option S
  poll_until [] s = none
  poll_until (t ∷ ts) s =
      let (remaining, s') = check t s in
      let later = poll_until ts s' in if remaining == 0 then some s' else later

  -- The loop ends by the first turn after which nothing waits, in a state that such a turn leaves.
  pub poll_until-ends :
      (P : T → Type 0) (before after : List T) (t : T) (s : S)
      → All P before
      → P t
      → ((u : S) → (check t u).0 ≡ 0)
      → (s' : S) × (poll_until (before ++ t ∷ after) s ≡ some s')
        × ((v : T) × (u : S) × P v × ((check v u).0 ≡ 0) × ((check v u).1 ≡ s'))
  unfolding poll_until
  poll_until-ends P [] after t s a h settles =
      ((check t s).1, rw (settles s) refl, (t, s, h, settles s, refl))
  poll_until-ends P (v ∷ before) after t s (k, a) h settles =
      elim (Bool-cases ((check v s).0 == 0)) [
        | inl e ↦ ((check v s).1, rw e refl, (v, s, k, (==_iff (check v s).0 0).0 e, refl))
        | inr e ↦
            let (s', ends, last) = poll_until-ends P before after t (check v s).1 a h settles in
            (s', rw e ends, last)
      ]
