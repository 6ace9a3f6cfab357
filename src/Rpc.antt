-- ===== src/Rpc.antt =====
-- The Bitcoin client: reward-service/internal/bitcoinrpc/client.go. What HTTP and JSON do is a parameter;
-- `Raw` stands for `json.RawMessage`.
pub mod Verdicts
use solounlucky.Prelude.{ℤ, List, ◌++◌, Option, none, some, Text, codes, int_text}
use solounlucky.Db.Outcome.{Outcome, returned, thrown, ◌>>=◌}
use solounlucky.Service.Database.{wrap}

pub record RpcError : Type 0 where
  pub code : ℤ
  pub message : Text

pub record RpcResponse (Raw : Type 0) : Type 0 where
  pub result : Raw
  pub error : Option RpcError

abbrev pub rpc_message : RpcError → Text
rpc_message e = codes "rpc error " ++ (int_text e.code ++ (codes ": " ++ e.message))

-- The result of a response, unless it reports an error.
abbrev pub result_of : {Raw : Type 0} → RpcResponse Raw → Option RpcError → Outcome Raw
result_of r none = returned r.result
result_of r (some e) = thrown (rpc_message e)

module _ {Raw : Type 0} (unmarshal_response : Text → Outcome (RpcResponse Raw))
    (unmarshal_header : Raw → Outcome ℤ) where
  -- `call`, from what the request comes to: the body of the answer, whatever its status, or the error of
  -- making, sending or reading it.
  unfoldable pub call : (exchange : Outcome Text) → Outcome Raw
  call exchange = exchange >>= λ body.
      wrap (codes "parse rpc response") (unmarshal_response body) >>= λ r. result_of r r.error

  -- `GetBlockConfirmations`
  unfoldable pub get_block_confirmations : (exchange : Outcome Text) → Outcome ℤ
  get_block_confirmations exchange = call exchange >>= λ result. unmarshal_header result
