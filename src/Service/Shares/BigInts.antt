-- ===== src/Service/Shares/BigInts.antt =====
-- Difficulties as texts: `SetString` and `String` (reward-service/internal/leaderboard/service.go and
-- reward-service/cmd/server/main.go).
use solounlucky.Prelude.{
  ℕ, suc, ◌+◌, ◌<◌, ◌≡◌, refl, ◌∙◌, inl, inr, Bool, true, false, not, ◌&&◌, [], ◌∷◌, some, Text,
  arith, ◌==◌, if◌then◌else◌, to_string, Bool-cases,
}
use solounlucky.Js.{sign_of, scan_digits}
use solounlucky.Js.Roundtrip.{scan-digits_from, digits_from-head, to_string-eq, scan_digits-nil}
use solounlucky.Service.Shares.{BigInt, set_string, string_of}

scan_digits-to_string : (n : ℕ) → (k : ℕ) × (0 < k) × (scan_digits (to_string n) 0 0 ≡ (n, k, []))
scan_digits-to_string n =
    let (k, pos, scan) = scan-digits_from (suc n) n (omega arith) in
    (k, pos, rw (to_string-eq n) (scan [] ∙ scan_digits-nil n k))

sign_of-digit : (d : ℕ) (s : Text) → d < 10 → sign_of ((b'0' + d) ∷ s) ≡ (false, (b'0' + d) ∷ s)
unfolding sign_of
sign_of-digit d s h = ground arith

sign_of-to_string : (n : ℕ) → sign_of (to_string n) ≡ (false, to_string n)
sign_of-to_string n =
    let (d, s, eq, small) = digits_from-head (suc n) n [] (omega arith) in
    rw (to_string-eq n, eq) (sign_of-digit d s small)

sign_of-minus : (s : Text) → sign_of (b'-' ∷ s) ≡ (true, s)
unfolding sign_of
sign_of-minus s = refl

-- Reading a sign and the digits of n.
set_string-signed :
    (s : Text) (negative : Bool) (n : ℕ)
    → sign_of s ≡ (negative, to_string n)
    → set_string s ≡ some record { negative = negative && not (n == 0); magnitude = n }
unfolding set_string
set_string-signed s negative n h =
    let (k, pos, scan) = scan_digits-to_string n in
    let found : (k == 0) ≡ false = ground arith in rw (h, scan, found)

set_string-minus :
    (n : ℕ)
    → set_string (b'-' ∷ to_string n)
      ≡ some record { negative = true && not (n == 0); magnitude = n }
set_string-minus n = set_string-signed (b'-' ∷ to_string n) true n (sign_of-minus (to_string n))

-- A difficulty that is written as text is read back, negative ones included; zero has no sign.
pub set_string-string_of :
    (b : BigInt)
    → b.negative && (b.magnitude == 0) ≡ false
    → set_string (string_of (some b)) ≡ some b
unfolding string_of
set_string-string_of b h = elim (Bool-cases b.negative) [
  | inl e ↦ go b.magnitude b.negative e h
  | inr e ↦ go b.magnitude b.negative e h
]
  where
    go :
        (n : ℕ) (negative : Bool) {c : Bool}
        → negative ≡ c
        → negative && (n == 0) ≡ false
        → set_string (if negative then b'-' ∷ to_string n else to_string n)
          ≡ some record { negative = negative; magnitude = n }
    go n true e h = set_string-minus n ∙ ground arith
    go n false e h = set_string-signed (to_string n) false n (sign_of-to_string n)
