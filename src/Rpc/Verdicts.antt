-- ===== src/Rpc/Verdicts.antt =====
-- On which answers of Bitcoin (reward-service/internal/bitcoinrpc/client.go) the pools decide a block
-- (reward-service/cmd/server/main.go, reward-service/internal/solo/handler.go).
use solounlucky.Prelude.{ℕ, ◌+◌, ◌≡◌, refl, ◌⊎◌, inl, inr, ℤ, Option, none, some, Text, codes}
use solounlucky.Store.{SoloBlockRow}
use solounlucky.Db.Outcome.{
  Outcome, returned, thrown, Outcome-cases, >>=-eq-returned, returned-injective,
}
use solounlucky.Service.Database.{Faults, wrap}
use solounlucky.Service.Database.Laws.{wrap-eq-returned}
use solounlucky.Service.Blocks.{UnconfirmedBlock}
use solounlucky.Pool.{Pool, check_block}
use solounlucky.Solo.{Solo, check_solo_block}
use solounlucky.Rpc.{RpcError, RpcResponse, result_of, call, get_block_confirmations}

module _ {Raw : Type 0} (unmarshal_response : Text → Outcome (RpcResponse Raw))
    (unmarshal_header : Raw → Outcome ℤ) where
  -- The answer that gives a number of confirmations: it was read, it parses, it reports no error, and its
  -- result is a header with this number.
  pub record IsAnswer (exchange : Outcome Text) (n : ℤ) : Type 0 where
    pub body : Text
    pub read : exchange ≡ returned body
    pub response : RpcResponse Raw
    pub parsed : unmarshal_response body ≡ returned response
    pub clean : response.error ≡ none
    pub header : unmarshal_header response.result ≡ returned n

  get_block_confirmations-IsAnswer :
      (exchange : Outcome Text) {n : ℤ}
      → get_block_confirmations unmarshal_response unmarshal_header exchange ≡ returned n
      → IsAnswer exchange n
  unfolding get_block_confirmations call
  get_block_confirmations-IsAnswer exchange {n} h =
      let (result, called, header) =
        >>=-eq-returned (call unmarshal_response unmarshal_header exchange) _ h in
      let (body, read, h1) = >>=-eq-returned exchange _ called in
      let (response, parsed, clean) =
        >>=-eq-returned (wrap (codes "parse rpc response") (unmarshal_response body)) _ h1 in
      let (no_error, same) = unreported response response.error clean in
      record {
        body = body;
        read = read;
        response = response;
        parsed = wrap-eq-returned (codes "parse rpc response") (unmarshal_response body) parsed;
        clean = no_error;
        header = rw same header;
      }
    where
      unreported :
          (r : RpcResponse Raw) (e : Option RpcError) {result : Raw}
          → result_of r e ≡ returned result
          → (e ≡ none) × (r.result ≡ result)
      unreported r none h = (refl, returned-injective h)
      unreported r (some e) h = cc

  module _ (exchange : (hash : Text) → Outcome Text) (faults : Faults) where
    abbrev confirmations : Text → Outcome ℤ
    confirmations hash = get_block_confirmations unmarshal_response unmarshal_header (exchange hash)

    answered :
        (hash : Text)
        → ((e : Text) × (confirmations hash ≡ thrown e)) ⊎ ((n : ℤ) × IsAnswer (exchange hash) n)
    answered hash = elim (Outcome-cases (confirmations hash)) [
      | inl (n, e) ↦ inr (n, get_block_confirmations-IsAnswer (exchange hash) e)
      | inr (m, e) ↦ inl (m, e)
    ]

    -- A check decides a block only on an answer of Bitcoin that was read, parses, reports no error and
    -- holds a header. On any other answer nothing is written, and the block is counted as waiting: in the
    -- shared pool and in the solo pool.
    pub check_block_answered :
        (u : UnconfirmedBlock) (b : SoloBlockRow) (pending : ℕ) (p : Pool) (s : Solo)
        → ((check_block faults confirmations u pending p ≡ (pending + 1, p))
            ⊎ ((n : ℤ) × IsAnswer (exchange u.hash) n))
          × ((check_solo_block faults confirmations b pending s ≡ (pending + 1, s))
              ⊎ ((n : ℤ) × IsAnswer (exchange b.hash) n))
    unfolding check_block check_solo_block
    check_block_answered u b pending p s = (
      elim (answered u.hash) [
        | inl (m, e) ↦ inl (rw (e, check_block) refl)
        | inr found ↦ inr found
      ],
      elim (answered b.hash) [
        | inl (m, e) ↦ inl (rw (e, check_solo_block) refl)
        | inr found ↦ inr found
      ],
    )
