-- ===== src/Gateway/Reading.antt =====
-- The reply of the service as the gateway reads it from the socket
-- (datum-gateway/src/datum_reward_socket.c).
use mathlib.Core.List.{append_assoc}
use solounlucky.Prelude.{
  ℕ, suc, ◌+◌, ◌*◌, ◌≤◌, ◌≡◌, refl, sym, ap, ◌∙◌, ℤ, pos, negsuc, Bool, true, false, List, [], ◌∷◌,
  ◌++◌, map, some, Text, codes, arith, length, ◌==◌, All, length-append, to_string, int_text,
}
use solounlucky.Js.{is_digit}
use solounlucky.Socket.{Output}
use solounlucky.Gateway.{all_by}
use solounlucky.Gateway.Response.{
  max_outputs, Read, bytes, receive, c_string, parse_response, parse_received, requested_outputs,
}
use solounlucky.Gateway.Numbers.{IsInt64, to_string-digits, length-to_string}
use solounlucky.Gateway.Roundtrip.{
  object_text, end_text, more_text, list_text, json_text, json_text-line, reply_text,
  parse_response-reply_text,
}
use solounlucky.Gateway.Scanning.{IsSendable, no, all_by_mono, alphanumeric-no, address-bounds}
use solounlucky.Gateway.Pieces.{concat, IsFilled, receive-pieces}

-- A text that ends with its only line feed.
abbrev IsLine : Text → Type 0
IsLine s = (line : Text) × (s ≡ line ++ 10 ∷ []) × (no 10 line ≡ true)

all_by-append :
    (p : ℕ → Bool) (s t : Text) → all_by p s ≡ true → all_by p t ≡ true → all_by p (s ++ t) ≡ true
all_by-append p [] t h k = k
all_by-append p (c ∷ s) t h k =
    let first : p c ≡ true = ground (arith, h) in
    let rest : all_by p s ≡ true = ground (arith, h) in rw first (all_by-append p s t rest k)

extended-IsLine : (s t : Text) → no 10 s ≡ true → IsLine t → IsLine (s ++ t)
extended-IsLine s t h (line, e, n) = (
  s ++ line,
  ap (λ u. s ++ u) e ∙ sym (append_assoc s line (10 ∷ [])),
  all_by-append _ s line h n,
)

int_text-no : (c : ℕ) (z : ℤ) → is_digit c ≡ false → (c == b'-') ≡ false → no c (int_text z) ≡ true
int_text-no c (pos n) h m =
    all_by_mono is_digit _ (to_string n) (λ d e. ground (arith, e, h)) (to_string-digits n)
int_text-no c (negsuc n) h m =
    let other : (b'-' == c) ≡ false = ground (arith, m) in
    rw other (
      all_by_mono is_digit _ (to_string (suc n)) (λ d e. ground (arith, e, h))
        (to_string-digits (suc n)))

-- What holds of the texts of which an object is made, and is kept when they are joined, holds of it.
object_text-induction :
    (P : Text → Type 0) (o : Output) (rest : Text)
    → IsSendable o
    → ((s t : Text) → no 10 s ≡ true → no 0 s ≡ true → P t → P (s ++ t))
    → P rest
    → P (object_text o rest)
object_text-induction P o rest (valid, small) join h =
    let (_, _, w) = address-bounds o.address valid in
    join (codes "{\"address\":\"") _ refl refl (
      join o.address _ (alphanumeric-no 10 o.address refl w) (alphanumeric-no 0 o.address refl w) (
        join (codes "\",\"amount_sats\":") _ refl refl (
          join (int_text o.amount_sats) _ (int_text-no 10 o.amount_sats refl refl)
            (int_text-no 0 o.amount_sats refl refl) (join (b'}' ∷ []) rest refl refl h))))

reply_text-induction :
    (P : Text → Type 0) (os : List Output)
    → All IsSendable os
    → ((s t : Text) → no 10 s ≡ true → no 0 s ≡ true → P t → P (s ++ t))
    → P end_text
    → P (reply_text os)
reply_text-induction P os a join h = join (codes "{\"outputs\":[") _ refl refl (list os a)
  where
    more : (os : List Output) → All IsSendable os → P (more_text os)
    more [] a = h
    more (o ∷ os) (s, a) =
        join (b',' ∷ []) _ refl refl (object_text-induction P o (more_text os) s join (more os a))

    list : (os : List Output) → All IsSendable os → P (list_text os)
    list [] a = h
    list (o ∷ os) (s, a) = object_text-induction P o (more_text os) s join (more os a)

reply_text-IsLine : (os : List Output) → All IsSendable os → IsLine (reply_text os)
reply_text-IsLine os a =
    reply_text-induction IsLine os a (λ s t n _ l. extended-IsLine s t n l) (codes "]}", refl, refl)

reply_text-no_nul : (os : List Output) → All IsSendable os → no 0 (reply_text os) ≡ true
reply_text-no_nul os a =
    reply_text-induction (λ s. no 0 s ≡ true) os a (λ s t _ n l. all_by-append _ s t n l) refl

c_string-whole : (s : Text) → no 0 s ≡ true → c_string s ≡ s
unfolding c_string
c_string-whole [] h = refl
c_string-whole (c ∷ s) h =
    let other : (c == 0) ≡ false = ground (arith, h) in
    let rest : no 0 s ≡ true = ground (arith, h) in rw other (ap (◌∷◌ c) (c_string-whole s rest))

length-int_text : (z : ℤ) → IsInt64 z → length (int_text z) ≤ 20
length-int_text (pos n) h = let bound = length-to_string 18 n (omega arith) in omega arith
length-int_text (negsuc n) h = let bound = length-to_string 18 (suc n) (omega arith) in omega arith

length-object_text :
    (o : Output) (rest : Text) → IsSendable o → length (object_text o rest) ≤ 139 + length rest
length-object_text o rest (valid, small) =
    let (_, short, _) = address-bounds o.address valid in
    let digits = length-int_text o.amount_sats small in
    let inner = length-append (int_text o.amount_sats) (b'}' ∷ rest) in
    let outer =
      length-append o.address
        (codes "\",\"amount_sats\":" ++ (int_text o.amount_sats ++ (b'}' ∷ rest))) in
    omega arith

length-more_text :
    (os : List Output) → All IsSendable os → length (more_text os) ≤ 3 + 140 * length os
length-more_text [] a = omega arith
length-more_text (o ∷ os) (s, a) =
    let head = length-object_text o (more_text os) s in
    let tail = length-more_text os a in omega arith

length-reply_text :
    (os : List Output) → All IsSendable os → length (reply_text os) ≤ 15 + 140 * length os
length-reply_text [] a = omega arith
length-reply_text (o ∷ os) (s, a) =
    let head = length-object_text o (more_text os) s in
    let tail = length-more_text os a in omega arith

parse_received-reply_text :
    (os : List Output)
    → All IsSendable os
    → length os ≤ max_outputs
    → parse_received (reply_text os) ≡ some os
parse_received-reply_text os a few =
    ap parse_response (c_string-whole (reply_text os) (reply_text-no_nul os a))
    ∙ parse_response-reply_text os a few

-- Let `json.Marshal` print the outputs of a reply without spaces. If there are at most 30 outputs, each
-- with a valid address and an amount of 64 bits, -1 included, then the gateway reads back exactly these
-- outputs from the line that the service writes, in whatever pieces the line arrives and whatever the
-- later reads would give.
pub requested_outputs-reply :
    (marshal : List Output → Text)
    → ((os : List Output) → All IsSendable os → marshal os ≡ json_text os)
    → (os : List Output) (pieces : List Text) (more : List Read) → All IsSendable os
    → length os ≤ max_outputs
    → All IsFilled pieces
    → concat pieces ≡ marshal os ++ 10 ∷ []
    → requested_outputs (map bytes pieces ++ more) ≡ some os
unfolding requested_outputs
requested_outputs-reply marshal prints os pieces more a few filled arrives =
    let (line, e, clean) = reply_text-IsLine os a in
    let size = length-append line (10 ∷ []) in
    let bound = length-reply_text os a in
    let sizes : length (reply_text os) ≡ length line + 1 = ap length e ∙ size in
    let got : receive [] (map bytes pieces ++ more) ≡ some (reply_text os) =
      receive-pieces line [] pieces more clean (omega arith) filled refl
        (arrives ∙ ap (λ t. t ++ 10 ∷ []) (prints os a) ∙ json_text-line os ∙ e)
      ∙ ap some (sym e) in
    rw got (parse_received-reply_text os a few)
