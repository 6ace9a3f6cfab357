-- ===== src/Gateway/Numbers.antt =====
-- Whole numbers in decimal, as the service writes them and as the gateway reads them
-- (datum-gateway/src/datum_reward_socket.c).
use native.Mathlib.Nat.{pow-suc}
use solounlucky.Prelude.{
  ℕ, zero, suc, ◌+◌, ◌/◌, ◌%◌, ◌^◌, ◌≤◌, ◌<◌, ◌≡◌, refl, inl, inr, ℤ, pos, negsuc, true, false, [],
  ◌∷◌, ◌++◌, Text, arith, length, ltb, ◌==◌, to_string, digits_from, Bool-cases, int_text, ltb→lt,
  ltb→le, lt→ltb,
}
use solounlucky.Js.{is_digit, sign_of, scan_digits}
use solounlucky.Js.Roundtrip.{scan-digits_from, digits_from-head, to_string-eq}
use solounlucky.Gateway.{all_by}
use solounlucky.Gateway.Response.{is_c_space, skip_while, atoll}

-- The bounds of an `int64_t`
abbrev pub IsInt64 : ℤ → Type 0
IsInt64 (pos n) = n < 2 ^ 63
IsInt64 (negsuc n) = n < 2 ^ 63

digits_from-append :
    (f n : ℕ) (acc s : Text) → digits_from f n acc ++ s ≡ digits_from f n (acc ++ s)
unfolding digits_from
digits_from-append zero n acc s = refl
digits_from-append (suc f) n acc s = elim (Bool-cases (ltb n 10)) [
  | inl e ↦ rw e refl
  | inr e ↦ rw e (digits_from-append f (n / 10) ((b'0' + n % 10) ∷ acc) s)
]

to_string-append : (n : ℕ) (s : Text) → to_string n ++ s ≡ digits_from (suc n) n s
to_string-append n s = rw (to_string-eq n) (digits_from-append (suc n) n [] s)

digits_from-digits :
    (f n : ℕ) (acc : Text)
    → n < f
    → all_by is_digit acc ≡ true
    → all_by is_digit (digits_from f n acc) ≡ true
unfolding digits_from
digits_from-digits zero n acc h a = elim h [ ]
digits_from-digits (suc f) n acc h a = elim (Bool-cases (ltb n 10)) [
  | inl e ↦
      let small = ltb→lt _ _ e in
      let digit : is_digit (b'0' + n) ≡ true = ground arith in rw (e, digit, a) refl
  | inr e ↦
      let big = ltb→le _ _ e in
      let last : n % 10 < 10 = omega arith in
      let digit : is_digit (b'0' + n % 10) ≡ true = ground arith in
      rw e
        (digits_from-digits f (n / 10) ((b'0' + n % 10) ∷ acc) (omega arith) (rw (digit, a) refl))
]

pub to_string-digits : (n : ℕ) → all_by is_digit (to_string n) ≡ true
to_string-digits n = rw (to_string-eq n) (digits_from-digits (suc n) n [] (omega arith) refl)

length-digits_from :
    (f k n : ℕ) (acc : Text)
    → n < 10 ^ suc k
    → n < f
    → length (digits_from f n acc) ≤ suc k + length acc
unfolding digits_from
length-digits_from zero k n acc h b = elim b [ ]
length-digits_from (suc f) zero n acc h b =
    let e : ltb n 10 ≡ true = lt→ltb _ _ h in rw e (omega arith)
length-digits_from (suc f) (suc k) n acc h b = elim (Bool-cases (ltb n 10)) [
  | inl e ↦ rw e (omega arith)
  | inr e ↦
      let big = ltb→le _ _ e in
      let power = pow-suc 10 (suc k) in
      let ih =
        length-digits_from f k (n / 10) ((b'0' + n % 10) ∷ acc) (omega arith) (omega arith) in
      rw e (omega arith)
]

pub length-to_string : (k n : ℕ) → n < 10 ^ suc k → length (to_string n) ≤ suc k
length-to_string k n h =
    let bound = length-digits_from (suc n) k n [] h (omega arith) in
    rw (to_string-eq n) (omega arith)

-- Reading a sign and the digits of n, in front of what is no digit.
pub scanned :
    (n c : ℕ) (s : Text) → is_digit c ≡ false → (scan_digits (to_string n ++ (c ∷ s)) 0 0).0 ≡ n
unfolding scan_digits
scanned n c s h =
    let (k, positive, scan) = scan-digits_from (suc n) n (omega arith) in
    rw (to_string-append n (c ∷ s), scan (c ∷ s), h) refl

sign_of-scan :
    (d : ℕ) (s : Text)
    → d < 10
    → sign_of (skip_while is_c_space ((b'0' + d) ∷ s)) ≡ (false, (b'0' + d) ∷ s)
unfolding skip_while sign_of
sign_of-scan d s h = ground arith

sign_of-plus :
    (n : ℕ) (s : Text)
    → sign_of (skip_while is_c_space (to_string n ++ s)) ≡ (false, to_string n ++ s)
sign_of-plus n s =
    let (d, t, e, small) = digits_from-head (suc n) n s (omega arith) in
    rw (to_string-append n s, e) (sign_of-scan d t small)

sign_of-minus : (s : Text) → sign_of (skip_while is_c_space (b'-' ∷ s)) ≡ (true, s)
unfolding skip_while sign_of
sign_of-minus s = refl

pub atoll-int_text :
    (z : ℤ) (c : ℕ) (s : Text) → IsInt64 z → is_digit c ≡ false → atoll (int_text z ++ (c ∷ s)) ≡ z
unfolding atoll
atoll-int_text (pos n) c s h e =
    let small : ltb n (2 ^ 63) ≡ true = lt→ltb _ _ h in
    rw (sign_of-plus n (c ∷ s), scanned n c s e, small) refl
atoll-int_text (negsuc n) c s h e =
    let small : ltb n (2 ^ 63) ≡ true = lt→ltb _ _ h in
    rw (sign_of-minus (to_string (suc n) ++ (c ∷ s)), scanned (suc n) c s e, small) refl

-- The first character is a digit or a sign.
pub int_text-head :
    (z : ℤ) (s : Text)
    → (c : ℕ) × (t : Text) × (int_text z ++ s ≡ c ∷ t) × ((c == b' ') ≡ false) × ((c == 9) ≡ false)
int_text-head (negsuc n) s = (b'-', to_string (suc n) ++ s, refl, refl, refl)
int_text-head (pos n) s =
    let (d, t, e, small) = digits_from-head (suc n) n s (omega arith) in
    (b'0' + d, t, rw (to_string-append n s) e, ground arith, ground arith)
