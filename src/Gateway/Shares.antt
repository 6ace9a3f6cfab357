-- ===== src/Gateway/Shares.antt =====
-- The shares that the gateway submits (datum-gateway/src/datum_reward_socket.c), up to the flush of the
-- shared pool (reward-service/cmd/server/main.go, reward-service/internal/leaderboard/service.go).
use solounlucky.Prelude.{
  ℕ, ◌^◌, ◌≤◌, ◌<◌, ◌≡◌, refl, inl, inr, true, false, List, [], ◌∷◌, ◌++◌, Option, none, some, Text,
  arith, length, All, All-append, Option-cases, to_string,
}
use solounlucky.Js.{Number, nan, infinite, finite}
use solounlucky.Db.Outcome.{Outcome, returned}
use solounlucky.Service.Database.{Faults, Statement, has_round}
use solounlucky.Service.Shares.{PendingShare, set_string, string_of, buffer_share, flush_shares}
use solounlucky.Service.Shares.BigInts.{set_string-string_of}
use solounlucky.Service.Shares.Inserting.{IsInsertable, flush_shares-returned}
use solounlucky.Socket.{Message, coinbase, share, block_found, unknown, ShareMessage}
use solounlucky.Pool.{Pool, record_share}
use solounlucky.Gateway.{ShareRequest, share_request, share_text, share_line}
use solounlucky.Gateway.Requests.{
  IsRequest, length-address, share_request-IsRequest, share_line-whole,
}

-- What a submission is: the arguments of `datum_reward_share_submit`, and the gateway's port.
pub record Submission : Type 0 where
  pub username : Text
  pub difficulty : ℕ
  pub true_difficulty : Number
  pub source_port : ℕ

abbrev pub IsFinite : Number → Type 0
IsFinite nan = ⊥
IsFinite (infinite negative) = ⊥
IsFinite (finite negative units) = Unit

-- A request of numbers that fit their types, and whose double is finite and printed shortly: its line
-- is sent whole, and is JSON of numbers that the service's types take.
pub record IsSmall (two_places : Number → Text) (r : ShareRequest) : Type 0 where
  pub difficulty : r.difficulty < 2 ^ 64
  pub port : r.source_port < 2 ^ 16
  pub finite : IsFinite r.true_difficulty
  pub printed : length (two_places r.true_difficulty) ≤ 200

module _ (two_places : Number → Text) where
  -- The line that is written for a submission, if any.
  abbrev pub line_of : Option ShareRequest → Option Text
  line_of none = none
  line_of (some r) = some (share_line two_places r)

  unfoldable pub submit : Submission → Option Text
  submit s = line_of (share_request s.username s.difficulty s.true_difficulty s.source_port)

-- What becomes of a message: the goroutine of a share runs, and nothing else is looked at here.
abbrev pub run : Option Message → Pool → Pool
run none p = p
run (some (share m)) p = (record_share m p).1
run (some (coinbase miner fees)) p = p
run (some (block_found m)) p = p
run (some unknown) p = p

abbrev pub deliver : (decode : Text → Option Message) → Option Text → Pool → Pool
deliver decode none p = p
deliver decode (some line) p = run (decode line) p

-- Each submission on its connection, one after the other.
unfoldable pub submit_all :
    (two_places : Number → Text) (decode : Text → Option Message) → List Submission → Pool → Pool
submit_all two_places decode [] p = p
submit_all two_places decode (s ∷ ss) p =
    submit_all two_places decode ss (deliver decode (submit two_places s) p)

abbrev pub message_of : (read_back : Number → Number) → ShareRequest → ShareMessage
message_of read_back r = record {
  btc_address = r.address;
  worker_name = r.worker;
  difficulty = to_string r.difficulty;
  true_difficulty = read_back r.true_difficulty;
  source_port = r.source_port;
}

abbrev pending_of : (read_back : Number → Number) → Pool → ShareRequest → PendingShare
pending_of read_back p r = record {
  round_id = p.round_id;
  btc_address = r.address;
  worker_name = r.worker;
  difficulty = some record { negative = false; magnitude = r.difficulty };
  true_diff = read_back r.true_difficulty;
  source_port = r.source_port;
}

pub set_string-to_string :
    (n : ℕ) → set_string (to_string n) ≡ some record { negative = false; magnitude = n }
unfolding string_of
set_string-to_string n = set_string-string_of (record { negative = false; magnitude = n }) refl

record_share-message :
    (read_back : Number → Number) (r : ShareRequest) (p : Pool)
    → (record_share (message_of read_back r) p).1
      ≡ record p { service = record { buffer = p.service.buffer ++ pending_of read_back p r ∷ [] } }
unfolding record_share buffer_share
record_share-message read_back r p = rw (set_string-to_string r.difficulty, record_share) refl

module _ (numeric : Text → Outcome ℕ) (numeric_of_double : Number → Outcome ℕ)
    (two_places : Number → Text) (read_back : Number → Number) where
  -- What the gateway's numbers are: 64 bits, 16 bits, a finite double that is printed in at most 200
  -- characters and whose reading the database converts.
  pub record IsMachine (s : Submission) : Type 0 where
    pub difficulty : s.difficulty < 2 ^ 64
    pub port : s.source_port < 2 ^ 16
    pub finite : IsFinite s.true_difficulty
    pub printed : length (two_places s.true_difficulty) ≤ 200
    pub true_difficulty : ℕ
    pub double : numeric_of_double (read_back s.true_difficulty) ≡ returned true_difficulty

  -- A pool whose buffer can be written.
  record IsReady (p : Pool) : Type 0 where
    known : has_round p.round_id p.database.tables.rounds ≡ true
    insertable : All (IsInsertable numeric numeric_of_double p.database.tables) p.service.buffer

  module _ (numerals : (n : ℕ) → n < 2 ^ 64 → (m : ℕ) × (numeric (to_string n) ≡ returned m))
      (decode : Text → Option Message)
      (decodes : (r : ShareRequest)
        → IsRequest r
        → IsSmall two_places r
        → decode (share_text two_places r) ≡ some (share (message_of read_back r))) where
    pending_of-IsInsertable :
        (p : Pool) (r : ShareRequest) (x : ℕ)
        → IsRequest r
        → r.difficulty < 2 ^ 64
        → numeric_of_double (read_back r.true_difficulty) ≡ returned x
        → has_round p.round_id p.database.tables.rounds ≡ true
        → IsInsertable numeric numeric_of_double p.database.tables (pending_of read_back p r)
    unfolding string_of
    pending_of-IsInsertable p r x q small e known =
        let (m, numeral) = numerals r.difficulty small in
        let address = length-address r.address q.valid in
        let worker = q.short in
        record {
          fitting = ground arith;
          known = known;
          difficulty = m;
          numeral = numeral;
          true_difficulty = x;
          double = e;
        }

    deliver-IsReady :
        (s : Submission) (p : Pool)
        → IsMachine s
        → IsReady p
        → IsReady (deliver decode (submit two_places s) p)
    unfolding submit
    deliver-IsReady s p m ready =
        elim (Option-cases
          (share_request s.username s.difficulty s.true_difficulty s.source_port)) [
            | inl e ↦ rw (e, submit) ready
            | inr (r, e) ↦
                let (q, d, t, port) =
                  share_request-IsRequest s.username s.difficulty s.true_difficulty s.source_port
                    e in
                let bounded = m.difficulty in
                let narrow = m.port in
                let whole =
                  share_line-whole two_places r q (omega arith) (omega arith) (rw t m.printed) in
                let small : IsSmall two_places r = record {
                  difficulty = omega arith;
                  port = omega arith;
                  finite = rw t m.finite;
                  printed = rw t m.printed;
                } in
                rw (e, submit, whole, decodes r q small, record_share-message read_back r p)
                  record {
                    known = ready.known;
                    insertable =
                        All-append _ p.service.buffer (pending_of read_back p r ∷ [])
                          ready.insertable
                          (
                            pending_of-IsInsertable p r m.true_difficulty q (omega arith)
                                (rw t m.double) ready.known,
                            tt,
                          );
                  }
          ]

    submit_all-IsReady :
        (ss : List Submission) (p : Pool)
        → All IsMachine ss
        → IsReady p
        → IsReady (submit_all two_places decode ss p)
    unfolding submit_all
    submit_all-IsReady [] p a ready = ready
    submit_all-IsReady (s ∷ ss) p (m, a) ready =
        submit_all-IsReady ss (deliver decode (submit two_places s) p) a
          (deliver-IsReady s p m ready)

    -- Let the database convert 64-bit numerals, and let the line of a request with an address, numbers
    -- that fit their types and a finite double be read as the message that it prints. Whatever user names the miners give, with numbers that fit the gateway's types: if
    -- the pool's round exists, what is buffered can be written and no statement fails, then after all
    -- submissions a flush succeeds.
    pub submit_all-flushes :
        (faults : Faults) (ss : List Submission) (p : Pool)
        → ((statement : Statement) → faults statement ≡ none)
        → All IsMachine ss
        → has_round p.round_id p.database.tables.rounds ≡ true
        → All (IsInsertable numeric numeric_of_double p.database.tables) p.service.buffer
        → let p' = submit_all two_places decode ss p in
          (flush_shares numeric numeric_of_double faults p'.service p'.database).0 ≡ returned tt
    submit_all-flushes faults ss p ok a known insertable =
        let p' = submit_all two_places decode ss p in
        let ready = submit_all-IsReady ss p a record { known = known; insertable = insertable } in
        flush_shares-returned numeric numeric_of_double faults p'.service p'.database ok
          ready.insertable
