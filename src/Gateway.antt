-- ===== src/Gateway.antt =====
-- The gateway's client of the reward service (datum-gateway/src/datum_reward_socket.c): what it sends.
-- A C string is the list of its bytes in front of the NUL. `%.2f` is a parameter.
pub mod Response
pub mod Numbers
pub mod Scanning
pub mod Roundtrip
pub mod Pieces
pub mod Reading
pub mod Requests
pub mod Shares
pub mod Coinb2
use solounlucky.Prelude.{
  ℕ, ◌-◌, Bool, true, false, ◌&&◌, ◌||◌, List, [], ◌∷◌, ◌++◌, Option, none, some, Text, codes,
  length, take, leb, ltb, ◌==◌, if◌then◌else◌, to_string,
}
use solounlucky.Js.{Number, is_digit}

-- REWARD_ADDR_LEN - 1 and sizeof(worker) - 1
abbrev pub max_address : ℕ
max_address = 90

abbrev pub max_worker : ℕ
max_worker = 63

abbrev pub is_letter : ℕ → Bool
is_letter c = (leb b'a' c && leb c b'z') || (leb b'A' c && leb c b'Z')

abbrev pub is_alphanumeric : ℕ → Bool
is_alphanumeric c = is_letter c || is_digit c

abbrev pub all_by : (ℕ → Bool) → Text → Bool
all_by p [] = true
all_by p (c ∷ s) = p c && all_by p s

-- `is_valid_btc_address`
unfoldable pub is_valid_address : Text → Bool
is_valid_address s = ltb 0 (length s) && leb (length s) max_address && all_by is_alphanumeric s

-- The check of a worker's name in `datum_reward_share_submit`.
abbrev pub is_worker_char : ℕ → Bool
is_worker_char c = is_alphanumeric c || c == b'_' || c == b'-'

abbrev pub in_front : ℕ → Option (Text × Text) → Option (Text × Text)
in_front d none = none
in_front d (some (a, b)) = some (d ∷ a, b)

-- `strchr`: what stands in front of the first c, and what follows it.
unfoldable pub split_at : ℕ → Text → Option (Text × Text)
split_at c [] = none
split_at c (d ∷ s) = let rest = in_front d (split_at c s) in if d == c then some ([], s) else rest

-- A Stratum user name: the address and the worker's name, both cut to their buffers.
unfoldable pub split_username : Text → Text × Text
split_username username = elim (split_at b'.' username) [
  | none ↦ (take max_address username, [])
  | some (address, worker) ↦ (take max_address address, take max_worker worker)
]

-- What the request of a share names.
pub record ShareRequest : Type 0 where
  pub address : Text
  pub worker : Text
  pub difficulty : ℕ
  pub true_difficulty : Number
  pub source_port : ℕ

-- `datum_reward_share_submit` up to the socket: `none` is an early return.
unfoldable pub share_request :
    (username : Text) (difficulty : ℕ) (true_difficulty : Number) (port : ℕ) → Option ShareRequest
share_request username difficulty true_difficulty port =
    let (address, worker) = split_username username in
    if difficulty == 0
    then none
    else if is_valid_address address && all_by is_worker_char worker
    then some record {
      address = address;
      worker = worker;
      difficulty = difficulty;
      true_difficulty = true_difficulty;
      source_port = port;
    }
    else none

-- The text of the request, before it is cut to the buffer of 512 bytes.
unfoldable pub share_text : (two_places : Number → Text) → ShareRequest → Text
share_text two_places r =
    codes "{\"type\":\"share\",\"btc_address\":\""
    ++ (r.address
        ++ (codes "\",\"worker_name\":\""
            ++ (r.worker
                ++ (codes "\",\"difficulty\":\""
                    ++ (to_string r.difficulty
                        ++ (codes "\",\"true_difficulty\":"
                            ++ (two_places r.true_difficulty
                                ++ (codes ",\"source_port\":"
                                    ++ (to_string r.source_port ++ codes "}\n")))))))))

-- `snprintf` into a buffer of 512 bytes, and `write` of `strlen` bytes.
unfoldable pub share_line : (two_places : Number → Text) → ShareRequest → Text
share_line two_places r = take 511 (share_text two_places r)

pub record BlockRequest : Type 0 where
  pub height : ℕ
  pub hash : Text
  pub finder : Text

-- `datum_reward_block_found`: the address of the finder's user name.
unfoldable pub block_request : (height : ℕ) (hash finder : Text) → Option BlockRequest
block_request height hash finder =
    let address = (split_username finder).0 in
    if is_valid_address address
    then some record { height = height; hash = hash; finder = address }
    else none

unfoldable pub block_text : BlockRequest → Text
block_text r =
    codes "{\"type\":\"block_found\",\"height\":"
    ++ (to_string r.height
        ++ (codes ",\"hash\":\""
            ++ (r.hash
                ++ (codes "\",\"finder_address\":\""
                    ++ (r.finder ++ codes "\",\"coinbase_txid\":\"\",\"fees_sats\":0}\n")))))

unfoldable pub coinbase_text : (miner : Text) (fees : ℕ) → Text
coinbase_text miner fees =
    codes "{\"type\":\"coinbase\",\"miner_address\":\""
    ++ (miner ++ (codes "\",\"fees_sats\":" ++ (to_string fees ++ codes "}\n")))

-- `get_reward_socket_path`
unfoldable pub socket_path : (variable : Option Text) → Text
socket_path none = codes "/var/run/unlucky21/reward.sock"
socket_path (some []) = codes "/var/run/unlucky21/reward.sock"
socket_path (some (c ∷ s)) = c ∷ s
