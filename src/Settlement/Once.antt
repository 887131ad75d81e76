-- ===== src/Settlement/Once.antt =====
-- Which tokens `verify` of src/adapters/x402/settlement-ledger.ts settles, and how often.
use jabr.Base.{
  ℕ, String, ◌≡◌, refl, true, Option, none, some, List, [], ◌∷◌, arith, eq_iff, eq_refl, lookup,
  lookup-insert, Option-cases, inl, inr, ◌⊎◌, ◌<◌, truthy,
}
use jabr.Settlement.{
  PaymentToken, SettlementReceipt, LedgerConfig, SettlementLedger, ChainReply, ChainProof,
  confirmed, unconfirmed, Reason, already_settled, not_confirmed, invalid, valid, verify,
  mint_token, fund_agent, refill_if_low, record_mint, sign, objection, settle, settle_by,
  settle_unless, settle_proved, Outcome, verify_chain_proof, receipt_of, get_receipt, get_mint,
}

-- A verification changes nothing, or settles the token, whose proof it may have replaced.
abbrev Settles : SettlementLedger → PaymentToken → String → Outcome → Type 0
Settles s token now out =
    (endpoint : Option String) × (proof : String) × (out
      ≡ settle s endpoint (record token { proof = proof }) now)

abbrev Refuses : SettlementLedger → PaymentToken → Outcome → Type 0
Refuses s token out = (reason : Reason) × (out ≡ (s, token, invalid reason))

settle_proved-cases :
    (s : SettlementLedger) (url : String) (token : PaymentToken) (now : String) (proof : ChainProof)
    → Refuses s token (settle_proved s url token now proof)
      ⊎ Settles s token now (settle_proved s url token now proof)
unfolding settle settle_proved
settle_proved-cases s url token now (unconfirmed e) = inl (not_confirmed e, refl)
settle_proved-cases s url token now (confirmed ref) = inr (some url, ref, refl)

settle_by-cases :
    (cfg : LedgerConfig) (s : SettlementLedger) (token : PaymentToken) (reply : ChainReply)
    (now : String) (endpoint : Option String)
    → Refuses s token (settle_by cfg s token reply now endpoint)
      ⊎ Settles s token now (settle_by cfg s token reply now endpoint)
unfolding settle settle_by
settle_by-cases cfg s token reply now none = inr (none, token.proof, refl)
settle_by-cases cfg s token reply now (some url) =
    settle_proved-cases s url token now (verify_chain_proof cfg token reply)

settle_unless-cases :
    (cfg : LedgerConfig) (s : SettlementLedger) (token : PaymentToken) (reply : ChainReply)
    (now : String) (o : Option Reason)
    → Refuses s token (settle_unless cfg s token reply now o)
      ⊎ ((o ≡ none) × Settles s token now (settle_unless cfg s token reply now o))
unfolding settle_unless settle_by
settle_unless-cases cfg s token reply now (some reason) = inl (reason, refl)
settle_unless-cases cfg s token reply now none =
    elim (settle_by-cases cfg s token reply now (truthy cfg.chain_endpoint)) [
      | inl refused ↦ inl refused
      | inr settled ↦ inr (refl, settled)
    ]

pub verify-cases :
    (cfg : LedgerConfig) (s : SettlementLedger) (token : PaymentToken) (reply : ChainReply)
    (now : String)
    → Refuses s token (verify cfg s token reply now)
      ⊎ ((objection cfg s token ≡ none) × Settles s token now (verify cfg s token reply now))
unfolding verify
verify-cases cfg s token reply now =
    settle_unless-cases cfg s token reply now (objection cfg s token)

-- What a token without an objection is.
pub objection-none :
    (cfg : LedgerConfig) (s : SettlementLedger) (token : PaymentToken)
    → objection cfg s token ≡ none
    → (lookup token.tx_id s.receipts ≡ none)
      × ((mint : PaymentToken) × (lookup token.tx_id s.mints ≡ some mint) × (mint.to ≡ token.to))
      × (0 < token.amount)
      × (token.signature ≡ sign cfg token)
unfolding objection
objection-none cfg s token h = elim (Option-cases (lookup token.tx_id s.receipts)) [
  | inr (r, e) ↦ absurd (ground (arith, h, e))
  | inl new ↦ elim (Option-cases (lookup token.tx_id s.mints)) [
    | inl e ↦ absurd (ground (arith, h, e, new))
    | inr (mint, e) ↦ (
      new,
      (mint, e, ground (arith, h, e, new, eq_iff mint.to token.to)),
      ground (arith, h, e, new),
      ground (arith, h, e, new, eq_iff token.signature (sign cfg token)),
    )
  ]
]

-- A token is settled only if it was minted for the same recipient, has an amount and the signature
-- of its fields, and was not settled before; the receipt is for its amount.
pub verify_valid :
    (cfg : LedgerConfig) (s : SettlementLedger) (token : PaymentToken) (reply : ChainReply)
    (now : String) (receipt : SettlementReceipt)
    → (verify cfg s token reply now).2 ≡ valid receipt
    → (receipt.accepted ≡ token.amount)
      × (receipt.to ≡ token.to)
      × (get_receipt s token.tx_id ≡ none)
      × (get_receipt (verify cfg s token reply now).0 token.tx_id ≡ some receipt)
      × ((mint : PaymentToken) × (get_mint s token.tx_id ≡ some mint) × (mint.to ≡ token.to))
      × (0 < token.amount)
      × (token.signature ≡ sign cfg token)
unfolding get_receipt get_mint settle
verify_valid cfg s token reply now receipt done = elim (verify-cases cfg s token reply now) [
  | inl (reason, e) ↦ absurd (ground (arith, e, done))
  | inr (clear, (endpoint, proof, e)) ↦
      let (new, minted, pos, authentic) = objection-none cfg s token clear in
      let r = receipt_of endpoint (record token { proof = proof }) now in
      let same : valid r ≡ valid receipt = ground (arith, e, done) in
      let added = lookup-insert token.tx_id token.tx_id r s.receipts in
      (
        ground (arith, same),
        ground (arith, same),
        new,
        rw e (ground (arith, same, added, eq_refl token.tx_id)),
        minted,
        pos,
        authentic,
      )
]

pub data Op : Type 0 where
  mint_op :
      (tx_id issued_at from to : String) (amount : ℕ) (purpose : String) (proof : Option String)
      → Op
  verify_op : (token : PaymentToken) (reply : ChainReply) (now : String) → Op
  fund_op : (tx_id issued_at millis agent_url : String) (amount : ℕ) → Op
  refill_op : (tx_id issued_at millis agent_url : String) (current_balance : ℕ) → Op

module _ (cfg : LedgerConfig) where
  -- The calls that change the ledger, but for the reset, which is for tests.
  pub apply : SettlementLedger → Op → SettlementLedger
  apply s (mint_op tx_id issued_at from to amount purpose proof) =
      (mint_token cfg s tx_id issued_at from to amount purpose proof).0
  apply s (verify_op token reply now) = (verify cfg s token reply now).0
  apply s (fund_op tx_id issued_at millis agent_url amount) =
      (fund_agent cfg s tx_id issued_at millis agent_url amount).0
  apply s (refill_op tx_id issued_at millis agent_url current_balance) =
      (refill_if_low cfg s tx_id issued_at millis agent_url current_balance).0

  pub run : SettlementLedger → List Op → SettlementLedger
  run s [] = s
  run s (op ∷ ops) = run (apply s op) ops

  abbrev Has : String → SettlementReceipt → SettlementLedger → Type 0
  Has tx r s = lookup tx s.receipts ≡ some r

  verify-Has :
      (tx : String) (r : SettlementReceipt) (s : SettlementLedger) (token : PaymentToken)
      (reply : ChainReply) (now : String)
      → Has tx r s
      → Has tx r (verify cfg s token reply now).0
  unfolding settle
  verify-Has tx r s token reply now h = elim (verify-cases cfg s token reply now) [
    | inl (reason, e) ↦ rw e h
    | inr (clear, (endpoint, proof, e)) ↦
        let new = (objection-none cfg s token clear).0 in
        let added = receipt_of endpoint (record token { proof = proof }) now in
        rw e (
          ground
            (arith, h, new, eq_iff token.tx_id tx, lookup-insert token.tx_id tx added s.receipts))
  ]

  apply-Has :
      (tx : String) (r : SettlementReceipt) (s : SettlementLedger) (op : Op)
      → Has tx r s
      → Has tx r (apply s op)
  unfolding apply mint_token record_mint fund_agent refill_if_low
  apply-Has tx r s (mint_op tx_id issued_at from to amount purpose proof) h = h
  apply-Has tx r s (verify_op token reply now) h = verify-Has tx r s token reply now h
  apply-Has tx r s (fund_op tx_id issued_at millis agent_url amount) h = h
  apply-Has tx r s (refill_op tx_id issued_at millis agent_url current_balance) h =
      ground (arith, h)

  run-Has :
      (tx : String) (r : SettlementReceipt) (s : SettlementLedger) (ops : List Op)
      → Has tx r s
      → Has tx r (run s ops)
  unfolding run
  run-Has tx r s [] h = h
  run-Has tx r s (op ∷ ops) h = run-Has tx r (apply s op) ops (apply-Has tx r s op h)

  refused_of_Has :
      (s : SettlementLedger) (token : PaymentToken) (reply : ChainReply) (now : String)
      (r : SettlementReceipt)
      → Has token.tx_id r s
      → r.verified ≡ true
      → verify cfg s token reply now ≡ (s, token, invalid (already_settled r.accepted))
  unfolding verify objection settle_unless
  refused_of_Has s token reply now r found ok = rw found (rw ok refl)

  -- Once a token is settled, every later token with its id is refused as settled, for the amount of
  -- the first, and changes nothing, whatever is minted, funded and verified in between.
  pub verify_once :
      (s : SettlementLedger) (token later : PaymentToken) (reply reply' : ChainReply)
      (now now' : String) (receipt : SettlementReceipt) (ops : List Op)
      → (verify cfg s token reply now).2 ≡ valid receipt
      → later.tx_id ≡ token.tx_id
      → verify cfg (run (verify cfg s token reply now).0 ops) later reply' now'
        ≡ (run (verify cfg s token reply now).0 ops, later, invalid (already_settled token.amount))
  unfolding settle
  verify_once s token later reply reply' now now' receipt ops done same =
      elim (verify-cases cfg s token reply now) [
        | inl (reason, e) ↦ absurd (ground (arith, e, done))
        | inr (clear, (endpoint, proof, e)) ↦
            let r = receipt_of endpoint (record token { proof = proof }) now in
            let added = lookup-insert token.tx_id later.tx_id r s.receipts in
            let first : Has later.tx_id r (verify cfg s token reply now).0 =
              rw e (ground (arith, same, added, eq_iff token.tx_id later.tx_id)) in
            refused_of_Has (run (verify cfg s token reply now).0 ops) later reply' now' r
              (run-Has later.tx_id r (verify cfg s token reply now).0 ops first) refl
      ]
