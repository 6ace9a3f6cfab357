-- ===== src/Service/Shares.antt =====
-- reward-service/internal/leaderboard/service.go: the buffer of shares and how it is written.
-- `numeric` and `numeric_of_double` stand for the casts of the database to NUMERIC(78,0).
pub mod Flushing
pub mod BigInts
pub mod Inserting
use solounlucky.Prelude.{
  ℕ, Bool, true, false, not, ◌&&◌, ◌||◌, List, [], ◌∷◌, ◌++◌, map, Option, none, some, Text, codes,
  length, filter, text_eq, leb, ◌==◌, if◌then◌else◌, to_string,
}
use solounlucky.Js.{Number, sign_of, scan_digits}
use solounlucky.Store.{Tables, Share, Worker}
use solounlucky.Db.Outcome.{Outcome, returned, thrown, ◌>>=◌, ◌>>◌}
use solounlucky.Service.Database.{
  Database, Faults, Statement, begin_flush, insert_shares, upsert_workers, commit_flush, execute,
  wrap, check, settle, has_round,
}

-- `*big.Int`; zero is not negative.
pub record BigInt : Type 0 where
  pub negative : Bool
  pub magnitude : ℕ

-- `SetString(s, 10)`: a sign, and nothing but at least one digit.
unfoldable pub set_string : Text → Option BigInt
set_string s =
    let (negative, digits) = sign_of s in
    let (value, count, rest) = scan_digits digits 0 0 in
    if (count == 0) || not (length rest == 0)
    then none
    else some record { negative = negative && not (value == 0); magnitude = value }

-- `String()`, also of a nil pointer.
unfoldable pub string_of : Option BigInt → Text
string_of none = codes "<nil>"
string_of (some b) = if b.negative then b'-' ∷ to_string b.magnitude else to_string b.magnitude

-- A port is below 2^31, so its conversion to an int32 changes nothing.
pub record PendingShare : Type 0 where
  pub round_id : ℕ
  pub btc_address : Text
  pub worker_name : Text
  pub difficulty : Option BigInt
  pub true_diff : Number
  pub source_port : ℕ

pub record Service : Type 0 where
  pub buffer : List PendingShare

-- `BufferShare`
unfoldable pub buffer_share : PendingShare → Service → Outcome (Unit {0}) × Service
buffer_share p s = elim p.difficulty [
  | none ↦ (thrown (codes "leaderboard.BufferShare: Difficulty must not be nil"), s)
  | some _ ↦ (returned tt, record { buffer = s.buffer ++ p ∷ [] })
]

unfoldable pub pending_share_count : Service → ℕ
pending_share_count s = length s.buffer

abbrev pub WorkerKey : Type 0
WorkerKey = Text × Text

abbrev pub same_worker : WorkerKey → WorkerKey → Bool
same_worker (a, w) (b, v) = text_eq a b && text_eq w v

-- `seenWorkers`: each worker once. The order of a Go map is any order; here it is that of the
-- first appearances.
unfoldable pub seen_workers : List WorkerKey → List WorkerKey
seen_workers [] = []
seen_workers (k ∷ ks) = k ∷ filter (λ j. not (same_worker k j)) (seen_workers ks)

-- VARCHAR(90) and VARCHAR(64)
abbrev pub fits : WorkerKey → Bool
fits (a, w) = leb (length a) 90 && leb (length w) 64

-- `INSERT INTO workers … ON CONFLICT … DO UPDATE SET last_seen`, for one worker.
unfoldable pub upsert_worker : (now : ℕ) → WorkerKey → List Worker → List Worker
upsert_worker now (a, w) [] = record { btc_address = a; worker_name = w; last_seen = now } ∷ []
upsert_worker now (a, w) (v ∷ vs) =
    let rest = upsert_worker now (a, w) vs in
    if same_worker (a, w) (v.btc_address, v.worker_name)
    then record v { last_seen = now } ∷ vs
    else v ∷ rest

unfoldable pub upsert_all : (now : ℕ) → List WorkerKey → List Worker → Outcome (List Worker)
upsert_all now [] ws = returned ws
upsert_all now (k ∷ ks) ws = do
  check (fits k) (codes "value too long for type character varying")
  upsert_all now ks (upsert_worker now k ws)

module _ (numeric : Text → Outcome ℕ) (numeric_of_double : Number → Outcome ℕ) where
  -- One row of the `INSERT INTO shares`; `submitted_at` and `is_stale` have their defaults.
  unfoldable pub share_row : Tables → PendingShare → Outcome Share
  share_row t p = do
    difficulty ← numeric (string_of p.difficulty)
    true_difficulty ← numeric_of_double p.true_diff
    check (fits (p.btc_address, p.worker_name)) (codes "value too long for type character varying")
    check (has_round p.round_id t.rounds) (codes "violates foreign key constraint fk_shares_round")
    returned record {
      round_id = p.round_id;
      btc_address = p.btc_address;
      worker_name = p.worker_name;
      share_difficulty = difficulty;
      submitted_at = t.now;
      is_stale = false;
      true_difficulty = some true_difficulty;
      source_port = some p.source_port;
    }

  unfoldable pub share_rows : Tables → List PendingShare → Outcome (List Share)
  share_rows t [] = returned []
  share_rows t (p ∷ ps) = do row ← share_row t p; rows ← share_rows t ps; returned (row ∷ rows)

  -- The transaction of `FlushShares`.
  unfoldable pub write_shares :
      Faults → List PendingShare → Database → Outcome (Unit {0} × Database)
  write_shares faults pending d = do
    let keys = seen_workers (map (λ p. (p.btc_address, p.worker_name)) pending)
    wrap (codes "FlushShares begin tx") (execute faults begin_flush)
    rows ←
        wrap (codes "FlushShares batch insert shares")
          (execute faults insert_shares >>= λ _. share_rows d.tables pending)
    workers ←
        wrap (codes "FlushShares batch upsert workers")
          (execute faults upsert_workers >>= λ _. upsert_all d.tables.now keys d.tables.workers)
    wrap (codes "FlushShares commit") (execute faults commit_flush)
    returned (
      tt,
      record d { tables = record d.tables { shares = d.tables.shares ++ rows; workers = workers } },
    )

  -- `FlushShares`: the buffer is taken first.
  unfoldable pub flush_shares :
      Faults → Service → Database → Outcome (Unit {0}) × Service × Database
  flush_shares faults s d =
      let (result, written) = settle d (write_shares faults s.buffer d) in
      elim s.buffer [
        | [] ↦ (returned tt, record { buffer = [] }, d)
        | _ ∷ _ ↦ (result, record { buffer = [] }, written)
      ]
