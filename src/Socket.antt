-- ===== src/Socket.antt =====
-- reward-service/internal/socket/server.go: the lines of a connection, and what is written back. JSON
-- is a parameter. The deadlines, and a write that fails, end a connection and are not modelled.
pub mod Answers
use solounlucky.Prelude.{ℕ, ℤ, negsuc, List, [], ◌∷◌, ◌++◌, Option, none, some, Text, codes}
use solounlucky.Js.{Number}
use solounlucky.Db.Outcome.{Outcome, returned, thrown}
use solounlucky.Service.Database.{Faults}

pub record Output : Type 0 where
  pub address : Text
  pub amount_sats : ℤ

pub record ShareMessage : Type 0 where
  pub btc_address : Text
  pub worker_name : Text
  pub difficulty : Text
  pub true_difficulty : Number
  pub source_port : ℕ

pub record BlockMessage : Type 0 where
  pub height : ℕ
  pub hash : Text
  pub finder_address : Text
  pub coinbase_txid : Text
  pub fees_sats : ℕ

-- `inboundMsg`, by its type: the fields that the type uses.
pub data Message : Type 0 where
  coinbase : (miner_address : Text) (fees_sats : ℕ) → Message
  share : ShareMessage → Message
  block_found : BlockMessage → Message
  unknown : Message

-- The interface `Handler`: a call takes the state to its result and the next state.
pub record Handler (S : Type 0) : Type 0 where
  pub get_coinbase_outputs : S → (miner_address : Text) → (fees_sats : ℕ) → Outcome (List Output)
  pub record_share : ShareMessage → S → Outcome (Unit {0}) × S
  pub on_block_found : BlockMessage → S → Outcome (Unit {0}) × S

pub data Response : Type 0 where
  outputs : List Output → Response
  status : Text → Response

-- The fallback output tells the gateway to pay all to the miner.
unfoldable pub coinbase_response : Text → Outcome (List Output) → Response
coinbase_response miner (returned os) = outputs os
coinbase_response miner (thrown e) =
    outputs (record { address = miner; amount_sats = negsuc 0 } ∷ [])

unfoldable pub ack_response : Outcome (Unit {0}) → Response
ack_response (returned _) = status (codes "ok")
ack_response (thrown e) = status (codes "error")

module _ {S : Type 0} (handler : Handler S) where
  -- A message: the next state, the lines written, and the shares left to goroutines of their own.
  unfoldable pub handle_message : Message → S → S × List Response × List ShareMessage
  handle_message (coinbase miner fees) s =
      (s, coinbase_response miner (handler.get_coinbase_outputs s miner fees) ∷ [], [])
  handle_message (share m) s = (s, [], m ∷ [])
  handle_message (block_found m) s =
      let (result, s') = handler.on_block_found m s in (s', ack_response result ∷ [], [])
  handle_message unknown s = (s, [], [])

  -- A line that is no message is skipped.
  unfoldable pub handle_line : Option Message → S → S × List Response × List ShareMessage
  handle_line none s = (s, [], [])
  handle_line (some m) s = handle_message m s

  -- `handleConn`: the lines of a connection, one after the other.
  unfoldable pub handle_conn : List (Option Message) → S → S × List Response × List ShareMessage
  handle_conn [] s = (s, [], [])
  handle_conn (l ∷ ls) s =
      let (s1, written, spawned) = handle_line l s in
      let (s2, more, others) = handle_conn ls s1 in (s2, written ++ more, spawned ++ others)

  -- The goroutine of `handleShare`; an error is logged.
  unfoldable pub run_share : ShareMessage → S → S
  run_share m s = (handler.record_share m s).1
