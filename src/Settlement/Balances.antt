-- ===== src/Settlement/Balances.antt =====
-- What a payment does to the balances, and the lock on unproved chain payments:
-- src/adapters/x402/settlement-ledger.ts.
use jabr.Base.{
  ℕ, ◌+◌, ◌-◌, ◌<◌, String, ◌≡◌, ◌≢◌, refl, false, Option, none, some, arith, str_eq, eq_iff,
  eq_refl, lookup, lookup-insert, Option-cases, inl, inr, truthy, Map, if◌then◌else◌,
}
use jabr.Settlement.{
  PaymentToken, LedgerConfig, SettlementLedger, ChainReply, Reason, not_confirmed, disabled,
  invalid, valid, verify, mint_token, new_token, record_mint, sign, objection, settle, settle_by,
  settle_unless, settle_proved, receipt_of, get_receipt, get_balance, agent_key, verify_chain_proof,
  deduct, raised, balance_of, Balance,
}

-- With a chain endpoint and chain verification off, as in production, no token is settled and the
-- ledger stays as it is, whatever the endpoint would answer.
verify_disabled :
    (cfg : LedgerConfig) (s : SettlementLedger) (token : PaymentToken) (reply : ChainReply)
    (now url : String)
    → cfg.chain_endpoint ≡ some url
    → url ≢ ""
    → cfg.chain_verification ≡ false
    → (reason : Reason) × (verify cfg s token reply now ≡ (s, token, invalid reason))
unfolding verify settle_unless settle_by settle_proved truthy verify_chain_proof
verify_disabled cfg s token reply now url endpoint filled off =
    elim (Option-cases (objection cfg s token)) [
      | inr (reason, e) ↦ (reason, rw e refl)
      | inl e ↦
          (not_confirmed disabled, rw e (ground (arith, endpoint, off, filled, eq_iff url "")))
    ]

-- a token that was just minted has nothing against it
objection-mint_token :
    (cfg : LedgerConfig) (s : SettlementLedger) (tx_id issued_at from to purpose : String)
    (amount : ℕ) (proof : Option String)
    → get_receipt s tx_id ≡ none
    → 0 < amount
    → objection cfg
        (mint_token cfg s tx_id issued_at from to amount purpose proof).0
        (mint_token cfg s tx_id issued_at from to amount purpose proof).1
      ≡ none
unfolding objection mint_token record_mint new_token sign get_receipt
objection-mint_token cfg s tx_id issued_at from to purpose amount proof new pos =
    let token = new_token cfg tx_id issued_at from to amount purpose proof in
    ground (
      arith,
      new,
      lookup-insert tx_id tx_id token s.mints,
      eq_refl tx_id,
      eq_refl to,
      eq_refl (sign cfg token),
    )

balance_of-deduct :
    (amount : ℕ) (key asked : String) (balances : Map Balance)
    → balance_of (lookup asked (deduct none amount key (lookup key balances) balances)) ≡ (
        if str_eq key asked
        then balance_of (lookup asked balances) - amount
        else balance_of (lookup asked balances))
balance_of-deduct amount key asked balances = elim (Option-cases (lookup key balances)) [
  | inl e ↦ ground (arith, e, eq_iff key asked)
  | inr (b, e) ↦
      let left = lookup-insert key asked (record b { balance = b.balance - amount }) balances in
      ground (arith, e, eq_iff key asked, left)
]

verify_local :
    (cfg : LedgerConfig) (s : SettlementLedger) (token : PaymentToken) (reply : ChainReply)
    (now : String)
    → cfg.chain_endpoint ≡ none
    → objection cfg s token ≡ none
    → verify cfg s token reply now ≡ settle s none token now
unfolding verify settle_unless settle_by truthy
verify_local cfg s token reply now local clear = rw clear (rw local refl)

get_balance-settle :
    (s : SettlementLedger) (token : PaymentToken) (now url : String)
    → get_balance (settle s none token now).0 url ≡ (
        if str_eq (agent_key token.from) (agent_key url)
        then get_balance s url - token.amount
        else get_balance s url)
unfolding get_balance settle
get_balance-settle s token now url =
    balance_of-deduct token.amount (agent_key token.from) (agent_key url) s.balances

get_balance-mint_token :
    (cfg : LedgerConfig) (s : SettlementLedger) (tx_id issued_at from to purpose : String)
    (amount : ℕ) (proof : Option String) (url : String)
    → get_balance (mint_token cfg s tx_id issued_at from to amount purpose proof).0 url ≡ (
        if str_eq (agent_key to) (agent_key url)
        then get_balance s url + amount
        else get_balance s url)
unfolding get_balance mint_token record_mint new_token
get_balance-mint_token cfg s tx_id issued_at from to purpose amount proof url =
    let credit = raised amount (lookup (agent_key to) s.balances) in
    ground (
      arith,
      eq_iff (agent_key to) (agent_key url),
      lookup-insert (agent_key to) (agent_key url) credit s.balances,
    )

-- On a ledger without a chain endpoint, a token that is minted under a new id for an amount above 0,
-- between agents with different keys, is accepted for its amount; in the end the recipient's balance
-- has grown by it and the sender's has shrunk by it, down to 0 at most.
pub verify-mint_token :
    (cfg : LedgerConfig) (s : SettlementLedger) (tx_id issued_at from to purpose : String)
    (amount : ℕ) (proof : Option String) (reply : ChainReply) (now : String)
    → cfg.chain_endpoint ≡ none
    → get_receipt s tx_id ≡ none
    → 0 < amount
    → agent_key from ≢ agent_key to
    → let (minted, token) = mint_token cfg s tx_id issued_at from to amount purpose proof in
      ((verify cfg minted token reply now).2 ≡ valid (receipt_of none token now))
      × (get_balance (verify cfg minted token reply now).0 to ≡ get_balance s to + amount)
      × (get_balance (verify cfg minted token reply now).0 from ≡ get_balance s from - amount)
unfolding settle mint_token new_token
verify-mint_token cfg s tx_id issued_at from to purpose amount proof reply now local new pos
      differ =
    let (minted, token) = mint_token cfg s tx_id issued_at from to amount purpose proof in
    let clear = objection-mint_token cfg s tx_id issued_at from to purpose amount proof new pos in
    let settled = verify_local cfg minted token reply now local clear in
    let raise = get_balance-mint_token cfg s tx_id issued_at from to purpose amount proof in
    let lower = get_balance-settle minted token now in
    let keys = eq_iff (agent_key to) (agent_key from) in
    let keys' = eq_iff (agent_key from) (agent_key to) in
    (
      rw settled refl,
      rw settled (ground (arith, lower to, raise to, keys', eq_refl (agent_key to), differ)),
      rw settled (ground (arith, lower from, raise from, keys, eq_refl (agent_key from), differ)),
    )
