-- ===== src/Settlement/Tests.antt =====
-- Payments on a concrete ledger.
use jabr.Base.{
  ◌+◌, ◌-◌, ◌<◌, String, ◌≡◌, ◌≢◌, refl, false, none, some, List, [], ◌∷◌, arith, lookup, eq_iff,
  str_eq, concat, to_lower_case,
}
use jabr.Settlement.{
  PaymentToken, LedgerConfig, SettlementLedger, not_json, already_settled, invalid, valid, verify,
  mint_token, empty, receipt_of, get_receipt, get_mint, get_balance, agent_key, sign, new_token,
}
use jabr.Settlement.Once.{Op, fund_op, verify_op, run, verify_valid, verify_once}
use jabr.Settlement.Balances.{verify-mint_token}

-- a toy code for the keyed hash, which the theorems leave open
abbrev local : LedgerConfig
local = record {
  hmac_secret = "k";
  chain_endpoint = none;
  auto_refill_threshold = 10;
  auto_refill_amount = 50;
  chain_verification = false;
  hmac = λ key text. concat key text;
  show = λ n. "5";
}

abbrev production : LedgerConfig
production = record local { chain_endpoint = some "http://rpc" }

abbrev minted : SettlementLedger × PaymentToken
minted = mint_token local empty "tx" "t0" "http://a" "http://b" 5 "task" (some "p")

differs : (a b : String) → str_eq a b ≡ false → a ≢ b
differs a b h = ground (arith, eq_iff a b)

verify-mint_token_example :
    ((verify local minted.0 minted.1 not_json "t1").2 ≡ valid (receipt_of none minted.1 "t1"))
    × (get_balance (verify local minted.0 minted.1 not_json "t1").0 "http://b"
        ≡ get_balance empty "http://b" + 5)
    × (get_balance (verify local minted.0 minted.1 not_json "t1").0 "http://a"
        ≡ get_balance empty "http://a" - 5)
unfolding get_receipt lookup agent_key to_lower_case
verify-mint_token_example =
    verify-mint_token local empty "tx" "t0" "http://a" "http://b" "task" 5 (some "p") not_json "t1"
      refl refl (omega arith) (differs _ _ refl)

accepted : (verify local minted.0 minted.1 not_json "t1").2 ≡ valid (receipt_of none minted.1 "t1")
unfolding get_receipt lookup agent_key to_lower_case
accepted =
    (verify-mint_token local empty "tx" "t0" "http://a" "http://b" "task" 5 (some "p") not_json "t1"
      refl refl (omega arith) (differs "http://a" "http://b" refl)).0

verify_valid_example :
    (5 ≡ minted.1.amount)
    × (minted.1.to ≡ minted.1.to)
    × (get_receipt minted.0 minted.1.tx_id ≡ none)
    × (get_receipt (verify local minted.0 minted.1 not_json "t1").0 minted.1.tx_id
        ≡ some (receipt_of none minted.1 "t1"))
    × ((mint : PaymentToken) × (get_mint minted.0 minted.1.tx_id ≡ some mint)
        × (mint.to ≡ minted.1.to))
    × (0 < minted.1.amount)
    × (minted.1.signature ≡ sign local minted.1)
unfolding mint_token new_token
verify_valid_example =
    verify_valid local minted.0 minted.1 not_json "t1" (receipt_of none minted.1 "t1") accepted

abbrev calls : List Op
calls = fund_op "tx2" "t2" "2" "http://a" 7 ∷ verify_op minted.1 not_json "t2" ∷ []

verify_once_example :
    verify local
      (run local (verify local minted.0 minted.1 not_json "t1").0 calls)
      minted.1
      not_json
      "t3"
    ≡ (
      run local (verify local minted.0 minted.1 not_json "t1").0 calls,
      minted.1,
      invalid (already_settled minted.1.amount),
    )
verify_once_example =
    verify_once local minted.0 minted.1 minted.1 not_json not_json "t1" "t3"
      (receipt_of none minted.1 "t1") calls accepted refl
