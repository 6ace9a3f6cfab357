-- ===== src/Gateway/Roundtrip.antt =====
-- The service's reply (reward-service/internal/socket/server.go) is what the gateway reads
-- (datum-gateway/src/datum_reward_socket.c). A reply is the compact text of `json.Marshal`, which leaves
-- letters and digits as they are.
use mathlib.Core.List.{append_assoc}
use solounlucky.Prelude.{
  ℕ, zero, suc, ◌≤◌, ◌≡◌, refl, ap, ◌∙◌, true, ◌&&◌, List, [], ◌∷◌, ◌++◌, some, Text, codes, arith,
  length, ltb, leb, All, int_text,
}
use solounlucky.Socket.{Output}
use solounlucky.Gateway.{max_address, is_alphanumeric, all_by, split_at}
use solounlucky.Gateway.Response.{
  max_outputs, seek, skip_while, read_object, parsed, finished, next_output, add_output,
  parse_outputs, parse_response,
}
use solounlucky.Gateway.Scanning.{
  int_text-no_brace, alphanumeric-no, split_at-front, seek-amount, address-bounds, IsSendable,
  amount_at-int_text, split_at-first,
}

-- An object of the reply, in front of the rest.
abbrev pub object_text : Output → Text → Text
object_text o rest =
    codes "{\"address\":\""
    ++ (o.address ++ (codes "\",\"amount_sats\":" ++ (int_text o.amount_sats ++ (b'}' ∷ rest))))

-- The objects behind a first one, and a list of objects, in front of the rest.
abbrev pub more_to : Text → List Output → Text
more_to rest [] = rest
more_to rest (o ∷ os) = b',' ∷ object_text o (more_to rest os)

abbrev pub list_to : Text → List Output → Text
list_to rest [] = rest
list_to rest (o ∷ os) = object_text o (more_to rest os)

-- What `json.Marshal` makes of a `coinbaseResponse`: `{"outputs":[…]}`.
abbrev pub json_text : List Output → Text
json_text os = codes "{\"outputs\":[" ++ list_to (codes "]}") os

abbrev pub end_text : Text
end_text = codes "]}\n"

abbrev pub more_text : List Output → Text
more_text = more_to end_text

abbrev pub list_text : List Output → Text
list_text = list_to end_text

-- The line that is written: the same and a line feed.
abbrev pub reply_text : List Output → Text
reply_text os = codes "{\"outputs\":[" ++ list_text os

object_text-append :
    (o : Output) (rest s : Text) → object_text o rest ++ s ≡ object_text o (rest ++ s)
object_text-append o rest s =
    let tail = int_text o.amount_sats ++ (b'}' ∷ rest) in
    rw
      (
        append_assoc o.address (codes "\",\"amount_sats\":" ++ tail) s,
        append_assoc (int_text o.amount_sats) (b'}' ∷ rest) s,
      )
      refl

more_to-append : (rest s : Text) (os : List Output) → more_to rest os ++ s ≡ more_to (rest ++ s) os
more_to-append rest s [] = refl
more_to-append rest s (o ∷ os) =
    ap (◌∷◌ b',')
      (object_text-append o (more_to rest os) s ∙ ap (object_text o) (more_to-append rest s os))

pub json_text-line : (os : List Output) → json_text os ++ 10 ∷ [] ≡ reply_text os
json_text-line [] = refl
json_text-line (o ∷ os) =
    ap (λ t. codes "{\"outputs\":[" ++ t)
      (object_text-append o (more_to (codes "]}") os) (10 ∷ [])
        ∙ ap (object_text o) (more_to-append (codes "]}") (10 ∷ []) os))

closing :
    (o : Output) (rest : Text)
    → all_by is_alphanumeric o.address ≡ true
    → (a : Text) × (split_at b'}' (
          codes "\"address\":\""
          ++ (o.address
              ++ (codes "\",\"amount_sats\":" ++ (int_text o.amount_sats ++ (b'}' ∷ rest)))))
        ≡ some (a, rest))
closing o rest w = (
  _,
  split_at-front b'}' (codes "\"address\":\"") _ refl (
      split_at-front b'}' o.address _ (alphanumeric-no b'}' o.address refl w) (
        split_at-front b'}' (codes "\",\"amount_sats\":") _ refl
          (split_at-first b'}' (int_text o.amount_sats) rest (int_text-no_brace o.amount_sats)))),
)

-- What the gateway reads of an object.
next_output-object_text :
    (o : Output) (rest : Text) → IsSendable o → next_output (object_text o rest) ≡ parsed o rest
unfolding next_output read_object seek split_at skip_while
next_output-object_text o rest (valid, small) =
    let (some_char, short, w) = address-bounds o.address valid in
    let bounds : ltb 0 (length o.address) && leb (length o.address) max_address ≡ true =
      ground arith in
    let t = int_text o.amount_sats ++ (b'}' ∷ rest) in
    let (a, closed) = closing o rest w in
    rw
      (
        split_at-first b'"' o.address (codes ",\"amount_sats\":" ++ t)
            (alphanumeric-no b'"' o.address refl w),
        bounds,
        seek-amount o.address t w,
        amount_at-int_text o.amount_sats rest small,
        closed,
      )
      refl

next_output-separated :
    (o : Output) (rest : Text)
    → next_output (b',' ∷ object_text o rest) ≡ next_output (object_text o rest)
unfolding next_output skip_while
next_output-separated o rest = refl

next_output-end : next_output end_text ≡ finished
unfolding next_output skip_while
next_output-end = refl

parse_outputs-finished :
    (room : ℕ) (s : Text) → next_output s ≡ finished → parse_outputs (suc room) s ≡ some []
unfolding parse_outputs
parse_outputs-finished room s e = rw (e, parse_outputs) refl

parse_outputs-parsed :
    (room : ℕ) (s : Text) {o : Output} {rest : Text}
    → next_output s ≡ parsed o rest
    → parse_outputs (suc room) s ≡ add_output o (parse_outputs room rest)
unfolding parse_outputs
parse_outputs-parsed room s e = rw (e, parse_outputs) refl

parse_outputs-end : (room : ℕ) → parse_outputs room end_text ≡ some []
unfolding parse_outputs
parse_outputs-end zero = refl
parse_outputs-end (suc room) = parse_outputs-finished room end_text next_output-end

parse_outputs-more :
    (room : ℕ) (os : List Output)
    → All IsSendable os
    → length os ≤ room
    → parse_outputs room (more_text os) ≡ some os
parse_outputs-more room [] a h = parse_outputs-end room
parse_outputs-more zero (o ∷ os) a h = absurd (omega arith)
parse_outputs-more (suc room) (o ∷ os) (s, a) h =
    parse_outputs-parsed room (more_text (o ∷ os))
      (next_output-separated o (more_text os) ∙ next_output-object_text o (more_text os) s)
    ∙ ap (add_output o) (parse_outputs-more room os a (omega arith))

parse_outputs-list :
    (room : ℕ) (os : List Output)
    → All IsSendable os
    → length os ≤ room
    → parse_outputs room (list_text os) ≡ some os
parse_outputs-list room [] a h = parse_outputs-end room
parse_outputs-list zero (o ∷ os) a h = absurd (omega arith)
parse_outputs-list (suc room) (o ∷ os) (s, a) h =
    parse_outputs-parsed room (list_text (o ∷ os)) (next_output-object_text o (more_text os) s)
    ∙ ap (add_output o) (parse_outputs-more room os a (omega arith))

pub parse_response-reply_text :
    (os : List Output)
    → All IsSendable os
    → length os ≤ max_outputs
    → parse_response (reply_text os) ≡ some os
unfolding parse_response seek split_at
parse_response-reply_text os a h = parse_outputs-list max_outputs os a h
