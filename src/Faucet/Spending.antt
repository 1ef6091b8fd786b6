-- ===== src/Faucet/Spending.antt =====
-- What the faucet asks of the node.
use signet_sandbox.Prelude.{ℕ, ◌<◌, ◌≤◌, ◌≡◌, refl, ◌⊎◌, inl, inr, String, Result, ok, err, arith}
use signet_sandbox.Bitcoind.{RpcError, Wire, wallet, send_to_address}
use signet_sandbox.Faucet.{
  FundRequest, FaucetState, Status, bad_request, bad_gateway, parsed, on_signet, Addresses,
  validate_signet_address, check_amount, spent, spend, checked, fund,
}

-- The amount is positive and within the cap, and the address parses and is one of the signet.
abbrev pub IsFundable : Addresses → FaucetState → FundRequest → String → Type 0
IsFundable a state request address =
    (0 < request.amount_sat)
    × (request.amount_sat ≤ state.max_sats)
    × ((unchecked : String) × (a.parse request.address ≡ ok unchecked)
        × (a.require_signet unchecked ≡ ok address))

valid_address :
    (a : Addresses) (raw address : String)
    → validate_signet_address a raw ≡ ok address
    → (unchecked : String) × (a.parse raw ≡ ok unchecked)
      × (a.require_signet unchecked ≡ ok address)
unfolding validate_signet_address
valid_address a raw address h = go (a.parse raw) h
  where
    go :
        (r : Result String String)
        → parsed a raw r ≡ ok address
        → (unchecked : String) × (r ≡ ok unchecked) × (a.require_signet unchecked ≡ ok address)
    go (err e) k = cc
    go (ok unchecked) k = (unchecked, refl, on (a.require_signet unchecked) k)
      where
        on : (r : Result String String) → on_signet raw r ≡ ok address → r ≡ ok address
        on (ok x) k = cc
        on (err e) k = cc

invalid_address :
    (a : Addresses) (raw message : String)
    → validate_signet_address a raw ≡ err message
    → (unchecked address : String) → a.parse raw ≡ ok unchecked
    → ¬ (a.require_signet unchecked ≡ ok address)
unfolding validate_signet_address
invalid_address a raw message h unchecked address e f = ground (arith, h, e, f)

amount_ok :
    (amount max : ℕ) (u : Unit {0}) → check_amount amount max ≡ ok u → (0 < amount) × (amount ≤ max)
unfolding check_amount
amount_ok amount max u h = ground (arith, h)

amount_bad :
    (amount max : ℕ) (m : String) → check_amount amount max ≡ err m → 0 < amount → ¬ (amount ≤ max)
unfolding check_amount
amount_bad amount max m h low = ground (arith, h, low)

module _ {N : Type 0} (w : Wire N) (a : Addresses) where
  -- The request is a bad one, whatever its address, and the node is as it was.
  abbrev pub IsRefused :
      FaucetState → FundRequest → N → Result (Status × String) String × N → Type 0
  IsRefused state request s result =
      ((message : String) × (result ≡ (err (bad_request, message), s)))
      × ((address : String) → ¬ IsFundable a state request address)

  -- The node was asked for that many satoshis, in units of 100000000, from the faucet's wallet, and
  -- the answer is passed on: the transaction, or that the gateway failed.
  abbrev pub IsPaid : FaucetState → FundRequest → N → Result (Status × String) String × N → Type 0
  IsPaid state request s result =
      (address : String) × IsFundable a state request address
      × (let sent =
            send_to_address w (wallet state.client state.wallet_name) address
              (a.quotient_text request.amount_sat 100000000) s in
          ((txid : String) × (sent.0 ≡ ok txid) × (result ≡ (ok txid, sent.1)))
          ⊎ ((e : RpcError) × (message : String) × (sent.0 ≡ err e)
              × (result ≡ (err (bad_gateway, message), sent.1))))

  spent_cases :
      (sent : Result RpcError String × N)
      → ((txid : String) × (sent.0 ≡ ok txid) × (spent w a sent ≡ (ok txid, sent.1)))
        ⊎ ((e : RpcError) × (message : String) × (sent.0 ≡ err e)
            × (spent w a sent ≡ (err (bad_gateway, message), sent.1)))
  unfolding spent
  spent_cases (ok txid, s) = inl (txid, refl, refl)
  spent_cases (err e, s) = inr (e, _, refl, refl)

  -- Either no address makes the request fundable, it is refused as a bad request and the node is
  -- left as it was; or its amount is positive and within the cap, its address is one of the signet,
  -- and the node is asked, from the faucet's wallet, for that number of satoshis over 100000000;
  -- its transaction is the answer, and its failure one of the gateway.
  pub fund_outcome :
      (state : FaucetState) (request : FundRequest) (s : N)
      → IsRefused state request s (fund w a state request s)
        ⊎ IsPaid state request s (fund w a state request s)
  unfolding fund
  fund_outcome state request s = go (check_amount request.amount_sat state.max_sats) refl
    where
      paying :
          (r : Result String String)
          → (0 < request.amount_sat) × (request.amount_sat ≤ state.max_sats)
          → validate_signet_address a request.address ≡ r
          → IsRefused state request s (spend w a state request.amount_sat r s)
            ⊎ IsPaid state request s (spend w a state request.amount_sat r s)
      paying (err message) bounds e = inl (
        (message, refl),
        λ address (low, high, (unchecked, p, q)).
            invalid_address a request.address message e unchecked address p q,
      )
      paying (ok address) (low, high) e = inr (
        address,
        (low, high, valid_address a request.address address e),
        spent_cases (
            send_to_address w (wallet state.client state.wallet_name) address
              (a.quotient_text request.amount_sat 100000000) s),
      )

      go :
          (r : Result String (Unit {0}))
          → check_amount request.amount_sat state.max_sats ≡ r
          → IsRefused state request s (checked w a state request r s)
            ⊎ IsPaid state request s (checked w a state request r s)
      go (err message) e = inl (
        (message, refl),
        λ address (low, high, valid).
            amount_bad request.amount_sat state.max_sats message e low high,
      )
      go (ok u) e =
          paying (validate_signet_address a request.address)
            (amount_ok request.amount_sat state.max_sats u e) refl
