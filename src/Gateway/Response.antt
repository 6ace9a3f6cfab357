-- ===== src/Gateway/Response.antt =====
-- The reward service's reply as the gateway reads it (datum-gateway/src/datum_reward_socket.c).
-- `atoll` is that of the GNU C library, which stops at the bounds of an `int64_t`.
use solounlucky.Prelude.{
  ℕ, zero, suc, ◌-◌, ◌^◌, ℤ, pos, negsuc, Bool, true, false, ◌&&◌, ◌||◌, List, [], ◌∷◌, ◌++◌,
  Option, none, some, Text, codes, length, take, any_by, leb, ltb, ◌==◌, if◌then◌else◌,
}
use solounlucky.Js.{sign_of, scan_digits}
use solounlucky.Socket.{Output}
use solounlucky.Gateway.{max_address, split_at, is_valid_address, coinbase_text}

-- REWARD_MAX_OUTPUTS, and RESPONSE_BUF_SIZE - 1
abbrev pub max_outputs : ℕ
max_outputs = 30

abbrev pub max_reply : ℕ
max_reply = 16_383

unfoldable pub skip_while : (ℕ → Bool) → Text → Text
skip_while p [] = []
skip_while p (c ∷ s) = let rest = skip_while p s in if p c then rest else c ∷ s

abbrev pub after_prefix : Text → Text → Option Text
after_prefix [] s = some s
after_prefix (k ∷ key) [] = none
after_prefix (k ∷ key) (c ∷ s) = if k == c then after_prefix key s else none

-- `strstr`: what follows the first occurrence of the key.
unfoldable pub seek : Text → Text → Option Text
seek key [] = after_prefix key []
seek key (c ∷ s) =
    let later = seek key s in
    elim (after_prefix key (c ∷ s)) [ some rest ↦ some rest | none ↦ later ]

abbrev pub is_separator : ℕ → Bool
is_separator c = c == b' ' || c == 9 || c == 10 || c == 13 || c == b','

abbrev pub is_blank : ℕ → Bool
is_blank c = c == b' ' || c == 9

abbrev pub is_c_space : ℕ → Bool
is_c_space c = c == b' ' || (leb 9 c && leb c 13)

abbrev pub to_int64 : Bool → ℕ → ℤ
to_int64 true zero = pos 0
to_int64 true (suc n) = if ltb n (2 ^ 63) then negsuc n else negsuc (2 ^ 63 - 1)
to_int64 false n = if ltb n (2 ^ 63) then pos n else pos (2 ^ 63 - 1)

unfoldable pub atoll : Text → ℤ
atoll s =
    let (negative, digits) = sign_of (skip_while is_c_space s) in
    to_int64 negative (scan_digits digits 0 0).0

abbrev pub when : Bool → Option (Unit {0})
when true = some tt
when false = none

infixl 5 ◌>>=?◌
abbrev pub ◌>>=?◌ : {A B : Type 0} → Option A → (A → Option B) → Option B
none >>=? f = none
some a >>=? f = f a

-- The amount, if the text does not end behind the colon.
abbrev pub amount_at : Text → Option ℤ
amount_at [] = none
amount_at (c ∷ s) = some (atoll (c ∷ s))

-- An object behind its brace, and what follows its closing brace. The keys are sought in all of the
-- text, the closing brace from the opening one on.
unfoldable pub read_object : Text → Option (Output × Text)
read_object p = seek (codes "\"address\"") p >>=? λ behind_key.
    split_at b'"' behind_key >>=? λ (_, from_address).
    split_at b'"' from_address >>=? λ (address, _).
    when (ltb 0 (length address) && leb (length address) max_address) >>=? λ _.
    seek (codes "\"amount_sats\"") p >>=? λ behind_sats.
    split_at b':' behind_sats >>=? λ (_, value).
    amount_at (skip_while is_blank value) >>=? λ amount. split_at b'}' p >>=? λ (_, rest).
    some (record { address = address; amount_sats = amount }, rest)

-- A turn of the loop of `parse_coinbase_response`.
pub data Turn : Type 0 where
  finished malformed : Turn
  parsed : Output → Text → Turn

abbrev pub turn_of : Option (Output × Text) → Turn
turn_of none = malformed
turn_of (some (o, rest)) = parsed o rest

abbrev pub turn_at : Text → Turn
turn_at [] = finished
turn_at (c ∷ p) =
    let object = turn_of (read_object p) in
    if c == b']' then finished else if c == b'{' then object else malformed

unfoldable pub next_output : Text → Turn
next_output s = turn_at (skip_while is_separator s)

abbrev pub add_output : Output → Option (List Output) → Option (List Output)
add_output o none = none
add_output o (some os) = some (o ∷ os)

-- The loop, while there is room in the list.
unfoldable pub parse_outputs : (room : ℕ) → Text → Option (List Output)
parse_outputs zero s = some []
parse_outputs (suc room) s = elim (next_output s) [
  | finished ↦ some []
  | malformed ↦ none
  | parsed o rest ↦ add_output o (parse_outputs room rest)
]

-- `parse_coinbase_response`: `none` is -1.
unfoldable pub parse_response : Text → Option (List Output)
parse_response json = seek (codes "\"outputs\"") json >>=? λ p.
    split_at b'[' p >>=? λ (_, from). parse_outputs max_outputs from

-- What one `read` gives: the bytes, none at the end, or an error.
pub data Read : Type 0 where
  failed : Read
  bytes : Text → Read

-- The loop of reads into the buffer; a `read` is never asked for more than there is room for. After the
-- reads that are given, the service has closed the connection.
unfoldable pub receive : (got : Text) → List Read → Option Text
receive got [] = some got
receive got (failed ∷ more) = none
receive got (bytes [] ∷ more) = some got
receive got (bytes (c ∷ s) ∷ more) =
    let all = got ++ take (max_reply - length got) (c ∷ s) in
    let rest = receive all more in
    if any_by (λ d. d == 10) all || leb max_reply (length all) then some all else rest

-- The bytes up to a NUL.
unfoldable pub c_string : Text → Text
c_string [] = []
c_string (c ∷ s) = let rest = c_string s in if c == 0 then [] else c ∷ rest

abbrev pub parse_received : Text → Option (List Output)
parse_received [] = none
parse_received (c ∷ s) = parse_response (c_string (c ∷ s))

-- `datum_request_coinbase_outputs`: the request that is written, if the miner's address is valid and the
-- request fits its buffer of 256 bytes.
unfoldable pub coinbase_request : (miner : Text) (fees : ℕ) → Option Text
coinbase_request miner fees =
    let text = coinbase_text miner fees in
    if is_valid_address miner && ltb (length text) 256 then some text else none

-- Its result, by what is read once the request has been sent.
unfoldable pub requested_outputs : List Read → Option (List Output)
requested_outputs reads = receive [] reads >>=? λ got. parse_received got
