-- ===== src/Settlement/Token.antt =====
-- Payment tokens, their signature and the configuration of the ledger: src/adapters/x402/types.ts and
-- src/adapters/x402/settlement-ledger.ts.
use jabr.Base.{
  ℕ, String, Bool, false, not, ◌&&◌, ◌||◌, Option, none, some, [], ◌∷◌, str_eq, get_or, join,
  to_lower_case,
}

pub record PaymentToken : Type 0 where
  pub tx_id : String
  pub from : String
  pub to : String
  pub amount : ℕ
  pub issued_at : String
  pub purpose : String
  pub proof : String
  pub signature : String

pub record SettlementReceipt : Type 0 where
  pub tx_id : String
  pub to : String
  pub accepted : ℕ
  pub verified : Bool
  pub reject_reason : Option String
  pub settled_at : String
  pub chain_ref : Option String

pub record Balance : Type 0 where
  pub balance : ℕ
  pub last_settled : Option String

-- `chain_verification` is `isChainVerificationEnabled()`; `hmac` and `show` stand for the platform.
pub record LedgerConfig : Type 0 where
  pub hmac_secret : String
  pub chain_endpoint : Option String
  pub auto_refill_threshold : ℕ
  pub auto_refill_amount : ℕ
  pub chain_verification : Bool
  pub hmac : String → String → String
  pub show : ℕ → String

-- what `isChainVerificationEnabled` reads: NODE_ENV and the flag
unfoldable pub is_chain_verification_enabled : Option String → Option String → Bool
unfolding to_lower_case
is_chain_verification_enabled node_env none = false
is_chain_verification_enabled node_env (some flag) =
    let v = to_lower_case flag in
    not (str_eq (get_or node_env "") "production")
    && (str_eq v "1" || (str_eq v "true" || str_eq v "yes"))

unfoldable pub agent_key : String → String
unfolding to_lower_case
agent_key url = to_lower_case url

-- the signature of a token's fields
unfoldable pub sign : LedgerConfig → PaymentToken → String
unfolding join
sign cfg t = cfg.hmac cfg.hmac_secret (
    join "\n"
      (t.tx_id ∷ t.from ∷ t.to ∷ cfg.show t.amount ∷ t.issued_at ∷ t.purpose ∷ t.proof ∷ []))

abbrev pub signed : LedgerConfig → PaymentToken → PaymentToken
signed cfg t = record t { signature = sign cfg t }
