-- ===== src/Gateway/Scanning.antt =====
-- The scanner of replies (datum-gateway/src/datum_reward_socket.c) on texts that are put together.
use mathlib.Core.List.{append-nil}
use solounlucky.Prelude.{
  ℕ, suc, ◌≤◌, ◌<◌, ◌≡◌, refl, sym, ap, ◌∙◌, inl, inr, ℤ, pos, negsuc, Bool, true, false, not, [],
  ◌∷◌, ◌++◌, none, some, Text, codes, arith, length, ◌==◌, Bool-cases, to_string, int_text,
}
use solounlucky.Js.{is_digit}
use solounlucky.Socket.{Output}
use solounlucky.Gateway.{max_address, is_alphanumeric, all_by, is_valid_address, split_at}
use solounlucky.Gateway.Response.{is_blank, after_prefix, seek, skip_while, atoll, amount_at}
use solounlucky.Gateway.Numbers.{IsInt64, to_string-digits, atoll-int_text, int_text-head}

-- What the gateway can be sent: a valid address and an `int64_t`.
abbrev pub IsSendable : Output → Type 0
IsSendable o = (is_valid_address o.address ≡ true) × IsInt64 o.amount_sats

abbrev pub no : ℕ → Text → Bool
no c = all_by (λ d. not (d == c))

pub all_by_mono :
    (p q : ℕ → Bool) (s : Text)
    → ((c : ℕ) → p c ≡ true → q c ≡ true)
    → all_by p s ≡ true
    → all_by q s ≡ true
all_by_mono p q [] f h = refl
all_by_mono p q (c ∷ s) f h =
    let first : p c ≡ true = ground (arith, h) in
    let rest : all_by p s ≡ true = ground (arith, h) in
    rw (f c first, all_by_mono p q s f rest) refl

pub split_at-front :
    (c : ℕ) (s t : Text) {a b : Text}
    → no c s ≡ true
    → split_at c t ≡ some (a, b)
    → split_at c (s ++ t) ≡ some (s ++ a, b)
unfolding split_at
split_at-front c [] t h e = e
split_at-front c (d ∷ s) t h e = elim (Bool-cases (d == c)) [
  | inl same ↦ absurd (ground (arith, h, same))
  | inr other ↦
      let rest : no c s ≡ true = ground (arith, h) in rw (other, split_at-front c s t rest e) refl
]

split_at-here : (c : ℕ) (t : Text) → split_at c (c ∷ t) ≡ some ([], t)
unfolding split_at
split_at-here c t = ground arith

pub split_at-first : (c : ℕ) (s t : Text) → no c s ≡ true → split_at c (s ++ (c ∷ t)) ≡ some (s, t)
split_at-first c s t h =
    split_at-front c s (c ∷ t) h (split_at-here c t) ∙ ap (λ a. some (a, t)) (append-nil s)

-- No key with an underscore begins within letters and digits.
after_prefix-word :
    (key ys word s : Text)
    → all_by is_alphanumeric key ≡ true
    → all_by is_alphanumeric word ≡ true
    → after_prefix (key ++ (b'_' ∷ ys)) (word ++ (b'"' ∷ s)) ≡ none
after_prefix-word [] ys [] s k w = refl
after_prefix-word [] ys (c ∷ word) s k w =
    let other : (b'_' == c) ≡ false = ground (arith, w) in rw other refl
after_prefix-word (x ∷ key) ys [] s k w =
    let other : (x == b'"') ≡ false = ground (arith, k) in rw other refl
after_prefix-word (x ∷ key) ys (c ∷ word) s k w = elim (Bool-cases (x == c)) [
  | inl same ↦
      let k' : all_by is_alphanumeric key ≡ true = ground (arith, k) in
      let w' : all_by is_alphanumeric word ≡ true = ground (arith, w) in
      rw same (after_prefix-word key ys word s k' w')
  | inr other ↦ rw other refl
]

seek-word :
    (key word s : Text)
    → all_by is_alphanumeric word ≡ true
    → seek (b'"' ∷ key) (word ++ s) ≡ seek (b'"' ∷ key) s
unfolding seek
seek-word key [] s w = refl
seek-word key (c ∷ word) s w =
    let other : (b'"' == c) ≡ false = ground (arith, w) in
    let rest : all_by is_alphanumeric word ≡ true = ground (arith, w) in
    rw (other, seek) (seek-word key word s rest)

pub alphanumeric-no :
    (c : ℕ) (s : Text) → is_alphanumeric c ≡ false → all_by is_alphanumeric s ≡ true → no c s ≡ true
alphanumeric-no c s other h =
    all_by_mono is_alphanumeric (λ d. not (d == c)) s (λ d e. ground (arith, e, other)) h

pub int_text-no_brace : (z : ℤ) → no b'}' (int_text z) ≡ true
int_text-no_brace (pos n) =
    all_by_mono is_digit _ (to_string n) (λ d e. ground (arith, e)) (to_string-digits n)
int_text-no_brace (negsuc n) =
    all_by_mono is_digit _ (to_string (suc n)) (λ d e. ground (arith, e)) (to_string-digits (suc n))

pub address-bounds :
    (s : Text)
    → is_valid_address s ≡ true
    → (0 < length s) × (length s ≤ max_address) × (all_by is_alphanumeric s ≡ true)
unfolding is_valid_address
address-bounds s h = ground (arith, h)

pub amount_at-int_text :
    (z : ℤ) (rest : Text)
    → IsInt64 z
    → amount_at (skip_while is_blank (int_text z ++ (b'}' ∷ rest))) ≡ some z
unfolding skip_while
amount_at-int_text z rest h =
    let (c, t, e, space, tab) = int_text-head z (b'}' ∷ rest) in
    let same : atoll (c ∷ t) ≡ z = rw (sym e) (atoll-int_text z b'}' rest h refl) in
    rw (e, space, tab, same) refl

seek-skip :
    (key : Text) (c : ℕ) (s : Text)
    → after_prefix key (c ∷ s) ≡ none
    → seek key (c ∷ s) ≡ seek key s
unfolding seek
seek-skip key c s e = rw (e, seek) refl

pub seek-amount :
    (word t : Text)
    → all_by is_alphanumeric word ≡ true
    → seek
        (codes "\"amount_sats\"")
        (codes "\"address\":\"" ++ (word ++ (codes "\",\"amount_sats\":" ++ t)))
      ≡ some (b':' ∷ t)
unfolding seek
seek-amount word t w =
    seek-skip (codes "\"amount_sats\"") b'"' (word ++ (codes "\",\"amount_sats\":" ++ t)) (
      after_prefix-word (codes "amount") (codes "sats\"") word (codes ",\"amount_sats\":" ++ t) refl
        w)
    ∙ seek-word (codes "amount_sats\"") word (codes "\",\"amount_sats\":" ++ t) w
