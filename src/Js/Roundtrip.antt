-- ===== src/Js/Roundtrip.antt =====
-- `parseInt` (Js.antt) of a number's decimal text.
use solounlucky.Prelude.{
  ℕ, zero, suc, ◌+◌, ◌-◌, ◌*◌, ◌/◌, ◌%◌, ◌<◌, ◌≡◌, refl, ap, ◌∙◌, inl, inr, true, false, [], ◌∷◌,
  Text, arith, ltb, ◌==◌, to_string, digits_from, Bool-cases, ltb→lt, ltb→le,
}
use solounlucky.Js.{whole, is_digit, skip_space, sign_of, scan_digits, parse_int}

scan_digits-cons :
    (d : ℕ) (s : Text) (value count : ℕ)
    → d < 10
    → scan_digits ((b'0' + d) ∷ s) value count ≡ scan_digits s (value * 10 + d) (count + 1)
unfolding scan_digits
scan_digits-cons d s value count h =
    let digit : is_digit (b'0' + d) ≡ true = ground arith in
    let same : b'0' + d - b'0' ≡ d = omega arith in rw (digit, same)

-- Scanning the digits of n reads n and at least one digit.
pub scan-digits_from :
    (f n : ℕ)
    → n < f
    → (k : ℕ) × (0 < k)
      × ((acc : Text) → scan_digits (digits_from f n acc) 0 0 ≡ scan_digits acc n k)
unfolding digits_from
scan-digits_from zero n h = elim h [ ]
scan-digits_from (suc f) n h = elim (Bool-cases (ltb n 10)) [
  | inl e ↦ (
    1,
    omega arith,
    λ acc.
        let same : 0 * 10 + n ≡ n = omega arith in
        rw e (scan_digits-cons n acc 0 0 (ltb→lt _ _ e) ∙ ap (λ (v : ℕ). scan_digits acc v 1) same),
  )
  | inr e ↦
      let big = ltb→le _ _ e in
      let (k, pos, ih) = scan-digits_from f (n / 10) (omega arith) in
      (
        k + 1,
        omega arith,
        λ acc.
            let split : n / 10 * 10 + n % 10 ≡ n = omega arith in
            rw e (
              ih ((b'0' + n % 10) ∷ acc)
              ∙ scan_digits-cons (n % 10) acc (n / 10) k (omega arith)
              ∙ ap (λ (v : ℕ). scan_digits acc v (k + 1)) split),
      )
]

-- The text starts with a digit.
pub digits_from-head :
    (f n : ℕ) (acc : Text)
    → n < f
    → (d : ℕ) × (s : Text) × (digits_from f n acc ≡ (b'0' + d) ∷ s) × (d < 10)
unfolding digits_from
digits_from-head zero n acc h = elim h [ ]
digits_from-head (suc f) n acc h = elim (Bool-cases (ltb n 10)) [
  | inl e ↦ (n, acc, rw e, ltb→lt _ _ e)
  | inr e ↦
      let big = ltb→le _ _ e in
      let (d, s, eq, small) = digits_from-head f (n / 10) ((b'0' + n % 10) ∷ acc) (omega arith) in
      (d, s, rw e eq, small)
]

skip-digit :
    (d : ℕ) (s : Text) → d < 10 → sign_of (skip_space ((b'0' + d) ∷ s)) ≡ (false, (b'0' + d) ∷ s)
unfolding skip_space sign_of
skip-digit d s h = ground arith

pub to_string-eq : (n : ℕ) → to_string n ≡ digits_from (suc n) n []
unfolding to_string
to_string-eq n = refl

parse_int-scanned :
    (s : Text) (n k : ℕ)
    → sign_of (skip_space s) ≡ (false, s)
    → scan_digits s 0 0 ≡ (n, k, [])
    → 0 < k
    → parse_int s ≡ whole n
unfolding parse_int whole
parse_int-scanned s n k e f h = let found : (k == 0) ≡ false = ground arith in rw (e, f, found)

pub scan_digits-nil : (n k : ℕ) → scan_digits [] n k ≡ (n, k, [])
unfolding scan_digits
scan_digits-nil n k = refl

-- `parseInt(String(n), 10)` is n, as the double nearest to it.
pub parse_int-to_string : (n : ℕ) → parse_int (to_string n) ≡ whole n
parse_int-to_string n =
    let (k, pos, scan) = scan-digits_from (suc n) n (omega arith) in
    let (d, s, eq, small) = digits_from-head (suc n) n [] (omega arith) in
    rw (to_string-eq n) (
      parse_int-scanned (digits_from (suc n) n []) n k (rw eq (skip-digit d s small))
        (scan [] ∙ scan_digits-nil n k) pos)
