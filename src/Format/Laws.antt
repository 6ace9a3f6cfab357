-- ===== src/Format/Laws.antt =====
-- What the texts of web/lib/format.ts tell.
use solounlucky.Prelude.{
  ℕ, ◌+◌, ◌-◌, ◌*◌, ◌/◌, ◌≤◌, ◌<◌, ◌≡◌, ◌⊎◌, inl, inr, ◌∷◌, ◌++◌, Text, codes, arith, length,
  length-append, length-take, length-drop, take, drop, ltb, if◌then◌else◌, to_string, Bool-cases,
  ltb→lt, ltb→le,
}
use solounlucky.Format.{truncate, time_ago, slice_last}

-- An address of at most front + back + 1 code units is shown whole; a longer one by its first `front`
-- and last `back` code units (at least one) around one ellipsis, so nothing is longer than that.
truncate_shows :
    (addr : Text) (front back : ℕ)
    → 0 < back
    → ((length addr ≤ front + back + 1) × (truncate addr front back ≡ addr))
      ⊎ ((front + back + 1 < length addr)
          × (truncate addr front back
              ≡ take front addr ++ (0x2026 ∷ drop (length addr - back) addr))
          × (length (truncate addr front back) ≡ front + back + 1))
unfolding truncate
truncate_shows addr front back h = elim (Bool-cases (ltb (front + back + 1) (length addr))) [
  | inl e ↦
      let whole : slice_last back addr ≡ drop (length addr - back) addr = ground arith in
      inr (
        ltb→lt _ _ e,
        rw (e, whole),
        rw (e, whole)
            (omega (
              arith,
              ltb→lt _ _ e,
              length-append (take front addr) (0x2026 ∷ drop (length addr - back) addr),
              length-take front addr,
              length-drop (length addr - back) addr,
            )),
      )
  | inr e ↦ inl (ltb→le _ _ e, rw e)
]

pub data AgeUnit : Type 0 where
  seconds minutes hours days : AgeUnit

abbrev pub size : AgeUnit → ℕ
size seconds = 1
size minutes = 60
size hours = 3600
size days = 86_400

abbrev pub suffix : AgeUnit → Text
suffix seconds = codes "s ago"
suffix minutes = codes "m ago"
suffix hours = codes "h ago"
suffix days = codes "d ago"

-- The unit that an age in seconds is told in: the largest that fits, or seconds.
abbrev pub unit_of : ℕ → AgeUnit
unit_of secs =
    if ltb secs 60
    then seconds
    else if ltb secs 3600
    then minutes
    else if ltb secs 86_400
    then hours
    else days

-- For a date that is not in the future the text is the number of whole units that have passed, in the
-- largest unit (seconds, minutes, hours, days) of which at least one has passed, and a date in the
-- future is `just now`.
pub time_ago_tells :
    (now date : ℕ)
    → ((now < date) × (time_ago now date ≡ codes "just now"))
      ⊎ ((date ≤ now)
          × (let u = unit_of ((now - date) / 1000) in
              (q : ℕ) × (time_ago now date ≡ to_string q ++ suffix u)
              × (q * size u * 1000 ≤ now - date)
              × (now - date < (q + 1) * size u * 1000)
              × ((u ≡ seconds) ⊎ (1 ≤ q))))
unfolding time_ago
time_ago_tells now date = elim (Bool-cases (ltb now date)) [
  | inl e ↦ inl (ltb→lt _ _ e, rw e)
  | inr e ↦
      let s = (now - date) / 1000 in
      let q = s / size (unit_of s) in
      inr (ltb→le _ _ e, (q, ground arith, ground arith, ground arith, ground arith))
]
