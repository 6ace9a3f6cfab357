-- ===== src/Examples/Decoding.antt =====
-- A reader of the requests of shares, and what a miner's submissions come to on the small pool.
use solounlucky.Prelude.{
  ℕ, ◌+◌, ◌*◌, ◌/◌, ◌%◌, not, Bool, false, ◌^◌, map, ◌≡◌, refl, true, List, [], ◌∷◌, ◌++◌, Option,
  some, Text, codes, arith, drop, ◌==◌, to_string, ◌<◌,
}
use solounlucky.Js.{
  Number, nan, infinite, finite, parse_float, whole, scan_digits, is_digit, numbers,
}
use solounlucky.Db.Outcome.{returned}
use solounlucky.Service.Shares.{PendingShare, buffer_share, flush_shares, set_string}
use solounlucky.Service.Blocks.Renewal.{quiet}
use solounlucky.Socket.{Message, share}
use solounlucky.Gateway.{
  is_worker_char, all_by, split_at, ShareRequest, share_text, is_valid_address, split_username,
  share_request, share_line,
}
use solounlucky.Gateway.Response.{◌>>=?◌}
use solounlucky.Gateway.Numbers.{scanned, to_string-digits}
use solounlucky.Gateway.Scanning.{no, all_by_mono, alphanumeric-no, address-bounds, split_at-first}
use solounlucky.Gateway.Requests.{IsRequest}
use solounlucky.Pool.{record_share}
use solounlucky.Double.{arithmetic, scale}
use solounlucky.Gateway.Shares.{
  set_string-to_string, IsMachine, IsSmall, submit, Submission, submit_all, message_of,
  submit_all-flushes,
}
use solounlucky.Examples.{alice}
use solounlucky.Examples.Pools.{launched}
use solounlucky.Examples.Services.{numeric, numeric_of_double}

-- In hundredths.
abbrev hundredths : ℕ → Text
hundredths n = to_string (n / 100) ++ (b'.' ∷ (b'0' + n / 10 % 10) ∷ (b'0' + n % 10) ∷ [])

-- To the nearest hundredth.
abbrev two_places : Number → Text
two_places nan = codes "-nan"
two_places (infinite negative) = codes "inf"
two_places (finite true x) = b'-' ∷ hundredths ((x * 200 + scale) / (2 * scale))
two_places (finite false x) = hundredths ((x * 200 + scale) / (2 * scale))

abbrev read_back : Number → Number
read_back x = parse_float (two_places x)

abbrev decode : Text → Option Message
decode s = split_at b'"' (drop 31 s) >>=? λ (address, s1).
    split_at b'"' (drop 16 s1) >>=? λ (worker, s2).
    split_at b'"' (drop 15 s2) >>=? λ (difficulty, s3).
    split_at b',' (drop 19 s3) >>=? λ (true_difficulty, s4). some (
      share record {
        btc_address = address;
        worker_name = worker;
        difficulty = difficulty;
        true_difficulty = parse_float true_difficulty;
        source_port = (scan_digits (drop 14 s4) 0 0).0;
      })

hundredths-no_comma : (n : ℕ) → no b',' (hundredths n) ≡ true
hundredths-no_comma n =
    all_by_append (λ d. not (d == b',')) (to_string (n / 100))
      (b'.' ∷ (b'0' + n / 10 % 10) ∷ (b'0' + n % 10) ∷ [])
      (all_by_mono is_digit _ (to_string (n / 100)) (λ d e. ground (arith, e))
        (to_string-digits (n / 100)))
      (ground arith)
  where
    all_by_append :
        (p : ℕ → Bool) (s t : Text)
        → all_by p s ≡ true
        → all_by p t ≡ true
        → all_by p (s ++ t) ≡ true
    all_by_append p [] t h k = k
    all_by_append p (c ∷ s) t h k = ground (arith, h, all_by_append p s t (ground (arith, h)) k)

two_places-no_comma : (x : Number) → no b',' (two_places x) ≡ true
two_places-no_comma nan = refl
two_places-no_comma (infinite negative) = refl
two_places-no_comma (finite true x) = hundredths-no_comma ((x * 200 + scale) / (2 * scale))
two_places-no_comma (finite false x) = hundredths-no_comma ((x * 200 + scale) / (2 * scale))

decodes :
    (r : ShareRequest)
    → IsRequest r
    → IsSmall two_places r
    → decode (share_text two_places r) ≡ some (share (message_of read_back r))
unfolding share_text
decodes r q small = go (two_places r.true_difficulty) (two_places-no_comma r.true_difficulty)
  where
    go :
        (number : Text)
        → no b',' number ≡ true
        → decode (share_text (λ _. number) r)
          ≡ some (share (message_of (λ _. parse_float number) r))
    go number clean =
        let (_, _, w) = address-bounds r.address q.valid in
        let after_number = codes "\"source_port\":" ++ (to_string r.source_port ++ codes "}\n") in
        let after_digits = codes ",\"true_difficulty\":" ++ (number ++ (b',' ∷ after_number)) in
        let after_worker =
          codes ",\"difficulty\":\"" ++ (to_string r.difficulty ++ (b'"' ∷ after_digits)) in
        let after_address = codes ",\"worker_name\":\"" ++ (r.worker ++ (b'"' ∷ after_worker)) in
        rw
          (
            split_at-first b'"' r.address after_address (alphanumeric-no b'"' r.address refl w),
            split_at-first b'"' r.worker after_worker
                (all_by_mono is_worker_char _ r.worker (λ d e. ground (arith, e)) q.plain),
            split_at-first b'"' (to_string r.difficulty) after_digits (
                all_by_mono is_digit _ (to_string r.difficulty) (λ d e. ground (arith, e))
                  (to_string-digits r.difficulty)),
            split_at-first b',' number after_number clean,
            scanned r.source_port b'}' (10 ∷ []) refl,
          )
          refl

numerals : (n : ℕ) → n < 2 ^ 64 → (m : ℕ) × (numeric (to_string n) ≡ returned m)
numerals n h = (n, rw (set_string-to_string n, numeric) refl)

abbrev submission : Text → Submission
submission username = record {
  username = username;
  difficulty = 65536;
  true_difficulty = whole 70_000;
  source_port = 3333;
}

-- Alice with a worker's name, and a miner whose user name is no address: that share is not sent.
abbrev submissions : List Submission
submissions = submission (alice ++ codes ".rig_1") ∷ submission (codes "\"") ∷ []

seventy_thousand : two_places (whole 70_000) ≡ codes "70000.00"
unfolding numbers arithmetic to_string
seventy_thousand = refl

machine :
    (username : Text)
    → IsMachine numeric numeric_of_double two_places read_back (submission username)
unfolding numbers arithmetic to_string
machine username = record {
  difficulty = omega arith;
  port = omega arith;
  finite = tt;
  printed = omega arith;
  true_difficulty = 70_000;
  double = refl;
}

submit_all-flushes_example :
    let p' = submit_all two_places decode submissions launched.pool in
    (flush_shares numeric numeric_of_double quiet p'.service p'.database).0 ≡ returned tt
submit_all-flushes_example =
    submit_all-flushes numeric numeric_of_double two_places read_back numerals decode decodes quiet
      submissions launched.pool (λ statement. refl) (machine _, (machine _, tt)) refl tt

-- The share that is sent is kept, under the address in front of the dot.
sent :
    map
      (λ (q : PendingShare). q.btc_address)
      (submit_all two_places decode submissions launched.pool).service.buffer
    ≡ alice ∷ []
unfolding submit_all submit split_username split_at is_valid_address share_request share_line
    share_text record_share buffer_share set_string to_string numbers arithmetic
sent = refl
