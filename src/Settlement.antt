-- ===== src/Settlement.antt =====
-- The ledger of payments between agents: src/adapters/x402/settlement-ledger.ts, with the types of
-- src/adapters/x402/types.ts. HMAC, the printing of numbers, new ids and times, and the reply of the
-- chain RPC are arguments. Amounts are natural numbers; a reason has what its text interpolates.
mod Token
mod Chain
pub mod Once
pub mod Balances
mod Tests
use jabr.Base.{
  ℕ, ◌+◌, ◌-◌, String, Bool, true, false, not, ◌&&◌, ◌||◌, Option, none, some, List, [], ◌∷◌, ltb,
  leb, if◌then◌else◌, str_eq, get_or, truthy, count, join, concat, first_chars, to_lower_case, Map,
  lookup, insert,
}
pub use jabr.Settlement.Token.{PaymentToken, SettlementReceipt, Balance, LedgerConfig, signed}
unfoldable pub use jabr.Settlement.Token.{is_chain_verification_enabled, agent_key, sign}
pub use jabr.Settlement.Chain.{
  ChainPayload, ChainReply, ChainProof, disabled, or_else, fetch_failed, bad_status, not_json,
  not_object, object, confirmed, unconfirmed,
}
unfoldable pub use jabr.Settlement.Chain.{verify_chain_proof}

pub record SettlementLedger : Type 0 where
  pub mints : Map PaymentToken
  pub receipts : Map SettlementReceipt
  pub balances : Map Balance

abbrev pub empty : SettlementLedger
empty = record { mints = []; receipts = []; balances = [] }

abbrev pub balance_of : Option Balance → ℕ
balance_of none = 0
balance_of (some b) = b.balance

abbrev last_settled_of : Option Balance → Option String
last_settled_of none = none
last_settled_of (some b) = b.last_settled

abbrev pub raised : ℕ → Option Balance → Balance
raised amount b = record { balance = balance_of b + amount; last_settled = last_settled_of b }

-- the record of a mint and the credit of its recipient
pub record_mint : SettlementLedger → PaymentToken → SettlementLedger
unfolding agent_key
record_mint s t =
    let key = agent_key t.to in
    record s {
      mints = insert t.tx_id t s.mints;
      balances = insert key (raised t.amount (lookup key s.balances)) s.balances;
    }

-- the token that `mintToken` makes under a new id and time
pub new_token :
    LedgerConfig → String → String → String → String → ℕ → String → Option String → PaymentToken
unfolding first_chars sign
new_token cfg tx_id issued_at from to amount purpose proof = signed cfg (record {
  tx_id = tx_id;
  from = from;
  to = to;
  amount = amount;
  issued_at = issued_at;
  purpose = purpose;
  proof = get_or proof (first_chars 64 (concat "mint:" tx_id));
  signature = "";
})

pub mint_token :
    LedgerConfig
    → SettlementLedger
    → String
    → String
    → String
    → String
    → ℕ
    → String
    → Option String
    → SettlementLedger × PaymentToken
unfolding new_token record_mint
mint_token cfg s tx_id issued_at from to amount purpose proof =
    let token = new_token cfg tx_id issued_at from to amount purpose proof in
    (record_mint s token, token)

pub data Reason : Type 0 where
  already_settled : (accepted : ℕ) → Reason
  previously_rejected : (reason : Option String) → Reason
  not_minted : Reason
  not_addressed : (to expected : String) → Reason
  no_amount : Reason
  invalid_signature : Reason
  not_confirmed : (error : String) → Reason

pub data VerificationResult : Type 0 where
  invalid : Reason → VerificationResult
  valid : SettlementReceipt → VerificationResult

abbrev receipt_objection : Option SettlementReceipt → Option Reason
receipt_objection none = none
receipt_objection (some r) =
    if r.verified
    then some (already_settled r.accepted)
    else some (previously_rejected r.reject_reason)

abbrev mint_objection : PaymentToken → Option PaymentToken → Option Reason
mint_objection token none = some not_minted
mint_objection token (some mint) =
    if str_eq mint.to token.to then none else some (not_addressed token.to mint.to)

abbrev field_objection : LedgerConfig → PaymentToken → Option Reason
unfolding sign
field_objection cfg token =
    if leb token.amount 0
    then some no_amount
    else if str_eq token.signature (sign cfg token)
    then none
    else some invalid_signature

-- checks 0 to 4 of `verify`, the first that fails
abbrev pub objection : LedgerConfig → SettlementLedger → PaymentToken → Option Reason
unfolding sign
objection cfg s token =
    or_else (receipt_objection (lookup token.tx_id s.receipts))
      (or_else (mint_objection token (lookup token.tx_id s.mints)) (field_objection cfg token))

abbrev pub receipt_of : Option String → PaymentToken → String → SettlementReceipt
receipt_of endpoint token now = record {
  tx_id = token.tx_id;
  to = token.to;
  accepted = token.amount;
  verified = true;
  reject_reason = none;
  settled_at = now;
  chain_ref = elim endpoint [ none ↦ none | some url ↦ some token.proof ];
}

-- step 6: with a chain endpoint, or for a sender without a balance, nothing is deducted
abbrev pub deduct : Option String → ℕ → String → Option Balance → Map Balance → Map Balance
deduct endpoint amount key none balances = balances
deduct (some url) amount key (some b) balances = balances
deduct none amount key (some b) balances =
    insert key (record b { balance = b.balance - amount }) balances

abbrev pub Outcome : Type 0
Outcome = SettlementLedger × PaymentToken × VerificationResult

-- steps 6 and 7
abbrev pub settle : SettlementLedger → Option String → PaymentToken → String → Outcome
unfolding agent_key
settle s endpoint token now = (
  record s {
    receipts = insert token.tx_id (receipt_of endpoint token now) s.receipts;
    balances =
        deduct endpoint token.amount (agent_key token.from)
          (lookup (agent_key token.from) s.balances) s.balances;
  },
  token,
  valid (receipt_of endpoint token now),
)

-- step 5 and the rest; the chain's reference becomes the proof of the caller's token
abbrev pub settle_proved : SettlementLedger → String → PaymentToken → String → ChainProof → Outcome
unfolding agent_key
settle_proved s url token now (unconfirmed error) = (s, token, invalid (not_confirmed error))
settle_proved s url token now (confirmed chain_ref) =
    settle s (some url) (record token { proof = chain_ref }) now

abbrev pub settle_by :
    LedgerConfig → SettlementLedger → PaymentToken → ChainReply → String → Option String → Outcome
unfolding agent_key verify_chain_proof
settle_by cfg s token reply now none = settle s none token now
settle_by cfg s token reply now (some url) =
    settle_proved s url token now (verify_chain_proof cfg token reply)

abbrev pub settle_unless :
    LedgerConfig → SettlementLedger → PaymentToken → ChainReply → String → Option Reason → Outcome
unfolding agent_key verify_chain_proof truthy
settle_unless cfg s token reply now (some reason) = (s, token, invalid reason)
settle_unless cfg s token reply now none =
    settle_by cfg s token reply now (truthy cfg.chain_endpoint)

-- The caller's token comes back, since a confirmed proof is written to it.
pub verify : LedgerConfig → SettlementLedger → PaymentToken → ChainReply → String → Outcome
unfolding agent_key verify_chain_proof truthy sign
verify cfg s token reply now = settle_unless cfg s token reply now (objection cfg s token)

abbrev pub refill_token : LedgerConfig → String → String → String → String → ℕ → PaymentToken
unfolding sign
refill_token cfg tx_id issued_at millis agent_url amount = signed cfg (record {
  tx_id = tx_id;
  from = "system-funding-source";
  to = agent_url;
  amount = amount;
  issued_at = issued_at;
  purpose = "auto-refill";
  proof = concat "refill:" millis;
  signature = "";
})

pub fund_agent :
    LedgerConfig → SettlementLedger → String → String → String → String → ℕ → SettlementLedger × ℕ
unfolding record_mint sign
fund_agent cfg s tx_id issued_at millis agent_url amount =
    (record_mint s (refill_token cfg tx_id issued_at millis agent_url amount), amount)

pub refill_if_low :
    LedgerConfig → SettlementLedger → String → String → String → String → ℕ → SettlementLedger × ℕ
unfolding fund_agent
refill_if_low cfg s tx_id issued_at millis agent_url current_balance =
    if leb cfg.auto_refill_threshold 0 || leb cfg.auto_refill_amount 0
    then (s, 0)
    else if leb cfg.auto_refill_threshold current_balance
    then (s, 0)
    else fund_agent cfg s tx_id issued_at millis agent_url cfg.auto_refill_amount

pub get_balance : SettlementLedger → String → ℕ
unfolding agent_key
get_balance s agent_url = balance_of (lookup (agent_key agent_url) s.balances)

pub get_receipt : SettlementLedger → String → Option SettlementReceipt
get_receipt s tx_id = lookup tx_id s.receipts

pub get_mint : SettlementLedger → String → Option PaymentToken
get_mint s tx_id = lookup tx_id s.mints

pub reset : SettlementLedger → SettlementLedger
reset s = empty
