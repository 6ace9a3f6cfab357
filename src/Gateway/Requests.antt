-- ===== src/Gateway/Requests.antt =====
-- The request of a share (datum-gateway/src/datum_reward_socket.c): what is checked, and how long it is.
use solounlucky.Prelude.{
  ℕ, ◌+◌, ◌^◌, ◌≤◌, ◌<◌, ◌≡◌, refl, sym, inl, inr, Bool, true, false, ◌&&◌, ◌++◌, none, some, Text,
  codes, arith, length, ◌==◌, Option-cases, length-append, length-take, to_string, if◌then◌else◌,
}
use solounlucky.Js.{Number}
use solounlucky.Gateway.{
  max_address, max_worker, all_by, is_worker_char, is_valid_address, split_at, split_username,
  ShareRequest, share_request, share_text, share_line,
}
use solounlucky.Gateway.Numbers.{length-to_string}
use solounlucky.Gateway.Pieces.{take-all}
use solounlucky.Gateway.Scanning.{address-bounds}

-- What is checked of a request.
pub record IsRequest (r : ShareRequest) : Type 0 where
  pub valid : is_valid_address r.address ≡ true
  pub short : length r.worker ≤ max_worker
  pub plain : all_by is_worker_char r.worker ≡ true
  pub positive : 0 < r.difficulty

length-split_username : (username : Text) → length (split_username username).1 ≤ max_worker
unfolding split_username
length-split_username username = elim (Option-cases (split_at b'.' username)) [
  | inl e ↦ rw (e, split_username) (omega arith)
  | inr ((address, worker), e) ↦
      let size = length-take max_worker worker in rw (e, split_username) (omega arith)
]

passed :
    (zero_difficulty valid plain : Bool) (q : ShareRequest) {r : ShareRequest}
    → (if zero_difficulty then none else if valid && plain then some q else none) ≡ some r
    → (zero_difficulty ≡ false) × (valid ≡ true) × (plain ≡ true) × (q ≡ r)
passed zero_difficulty valid plain q h = ground (arith, h)

pub share_request-IsRequest :
    (username : Text) (difficulty : ℕ) (true_difficulty : Number) (port : ℕ) {r : ShareRequest}
    → share_request username difficulty true_difficulty port ≡ some r
    → IsRequest r
      × (r.difficulty ≡ difficulty)
      × (r.true_difficulty ≡ true_difficulty)
      × (r.source_port ≡ port)
unfolding share_request
share_request-IsRequest username difficulty true_difficulty port h =
    let (address, worker) = split_username username in
    let (nonzero, valid, plain, same) = passed (difficulty == 0) _ _ _ h in
    let short = length-split_username username in
    rw (sym same) (
      record { valid = valid; short = short; plain = plain; positive = ground (arith, nonzero) },
      refl,
      refl,
      refl,
    )

pub length-address : (s : Text) → is_valid_address s ≡ true → length s ≤ max_address
length-address s h = (address-bounds s h).1

length-share_text :
    (two_places : Number → Text) (r : ShareRequest)
    → length (share_text two_places r)
      ≡ 101
        + length r.address
        + length r.worker
        + length (to_string r.difficulty)
        + length (two_places r.true_difficulty)
        + length (to_string r.source_port)
unfolding share_text
length-share_text two_places r =
    let after_port = codes "}\n" in
    let after_double = codes ",\"source_port\":" ++ (to_string r.source_port ++ after_port) in
    let after_digits =
      codes "\",\"true_difficulty\":" ++ (two_places r.true_difficulty ++ after_double) in
    let after_worker = codes "\",\"difficulty\":\"" ++ (to_string r.difficulty ++ after_digits) in
    let after_address = codes "\",\"worker_name\":\"" ++ (r.worker ++ after_worker) in
    omega (
      arith,
      length-append r.address after_address,
      length-append r.worker after_worker,
      length-append (to_string r.difficulty) after_digits,
      length-append (two_places r.true_difficulty) after_double,
      length-append (to_string r.source_port) after_port,
    )

module _ (two_places : Number → Text) where
  -- A request of machine numbers whose `%.2f` is not huge is sent whole.
  pub share_line-whole :
      (r : ShareRequest)
      → IsRequest r
      → r.difficulty < 2 ^ 64
      → r.source_port < 2 ^ 16
      → length (two_places r.true_difficulty) ≤ 200
      → share_line two_places r ≡ share_text two_places r
  unfolding share_line
  share_line-whole r q d p t =
      let size = length-share_text two_places r in
      let address = length-address r.address q.valid in
      let digits = length-to_string 19 r.difficulty (omega arith) in
      let port = length-to_string 4 r.source_port (omega arith) in
      let worker = q.short in take-all 511 (share_text two_places r) (omega arith)
