-- ===== src/Settlement/Chain.antt =====
-- The proof of a payment by a chain RPC: `verifyChainProof` of
-- src/adapters/x402/settlement-ledger.ts.
use jabr.Base.{
  String, Bool, true, false, not, ◌&&◌, ◌||◌, Option, none, some, if◌then◌else◌, str_eq, get_or,
  truthy, concat,
}
use jabr.Settlement.Token.{PaymentToken, LedgerConfig}

-- What the chain RPC answers.
pub record ChainPayload : Type 0 where
  pub confirmed : Option Bool
  pub success : Option Bool
  pub chain_ref : Option String
  pub tx_hash : Option String
  pub error : Option String
  pub reason : Option String

pub data ChainReply : Type 0 where
  fetch_failed : (message : String) → ChainReply
  bad_status : (status : String) → ChainReply
  not_json : ChainReply
  not_object : ChainReply
  object : ChainPayload → ChainReply

pub data ChainProof : Type 0 where
  confirmed : (chain_ref : String) → ChainProof
  unconfirmed : (error : String) → ChainProof

abbrev is_just : Bool → Option Bool → Bool
is_just b none = false
is_just b (some c) = (b && c) || (not b && not c)

abbrev pub or_else {ℓ} : {A : Type ℓ} → Option A → Option A → Option A
or_else none b = b
or_else (some a) b = some a

read_payload : PaymentToken → ChainPayload → ChainProof
read_payload token p =
    if is_just true p.confirmed || is_just true p.success
    then confirmed (get_or (or_else p.chain_ref p.tx_hash) token.proof)
    else if is_just false p.confirmed || is_just false p.success
    then unconfirmed (get_or (or_else p.error p.reason) "chain RPC explicitly rejected proof")
    else unconfirmed "chain RPC returned an unrecognized response shape"

read_reply : PaymentToken → ChainReply → ChainProof
unfolding read_payload
read_reply token (fetch_failed message) = unconfirmed (concat "chain RPC call failed: " message)
read_reply token (bad_status status) = unconfirmed (concat "chain RPC returned " status)
read_reply token not_json = unconfirmed "chain RPC returned non-JSON response"
read_reply token not_object = unconfirmed "chain RPC returned an unrecognized response shape"
read_reply token (object p) = read_payload token p

abbrev pub disabled : String
disabled =
    "chain verification is disabled (dev-only stub; set JABR_X402_CHAIN_VERIFICATION_ENABLED=1 in non-production to enable)"

abbrev with_proof : Option String → PaymentToken → ChainReply → ChainProof
unfolding read_reply
with_proof none token reply = unconfirmed "no chain endpoint configured"
with_proof (some url) token reply =
    if str_eq token.proof "" then unconfirmed "empty proof" else read_reply token reply

unfoldable pub verify_chain_proof : LedgerConfig → PaymentToken → ChainReply → ChainProof
unfolding read_reply truthy
verify_chain_proof cfg token reply =
    if cfg.chain_verification
    then with_proof (truthy cfg.chain_endpoint) token reply
    else unconfirmed disabled
