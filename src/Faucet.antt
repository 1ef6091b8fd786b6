-- ===== src/Faucet.antt =====
-- crates/signet-faucet/src/lib.rs: the service that spends from an environment's wallet. The
-- parsing of addresses is the bitcoin crate's, and the arithmetic and the printing of floats are the
-- platform's.
pub mod Spending
use signet_sandbox.Prelude.{ℕ, String, List, [], ◌∷◌, Result, ok, err, ◌==◌, ltb, if◌then◌else◌}
use signet_sandbox.Rpc.{format}
use signet_sandbox.Platform.{decimal}
use signet_sandbox.Bitcoind.{RpcError, Client, Wire, wallet, send_to_address}

pub record FundRequest : Type 0 where
  pub address : String
  pub amount_sat : ℕ

pub record FaucetState : Type 0 where
  pub client : Client
  pub wallet_name : String
  pub max_sats : ℕ

pub data Status : Type 0 where
  bad_request bad_gateway : Status

-- `parse` and `require_network`: each gives a value or the message of its error. `quotient_text n d`
-- is how serde_json writes the quotient of the 64-bit floats of `n` and `d`.
pub record Addresses : Type 0 where
  pub parse : String → Result String String
  pub require_signet : String → Result String String
  pub quotient_text : ℕ → ℕ → String
  pub error_text : RpcError → String

abbrev pub sats_per_btc : ℕ
sats_per_btc = 100000000

-- `amount_btc`, as it is written in the request to the node.
abbrev pub btc_text : Addresses → ℕ → String
btc_text a amount_sat = a.quotient_text amount_sat sats_per_btc

abbrev pub on_signet : String → Result String String → Result String String
on_signet raw (ok address) = ok address
on_signet raw (err e) = err (format ("address `" ∷ raw ∷ "` is not a signet address: " ∷ e ∷ []))

abbrev pub parsed : Addresses → String → Result String String → Result String String
parsed a raw (ok unchecked) = on_signet raw (a.require_signet unchecked)
parsed a raw (err e) = err (format ("invalid address `" ∷ raw ∷ "`: " ∷ e ∷ []))

unfoldable pub validate_signet_address : Addresses → String → Result String String
validate_signet_address a raw = parsed a raw (a.parse raw)

unfoldable pub check_amount : ℕ → ℕ → Result String (Unit {0})
check_amount amount_sat max_sats =
    if amount_sat == 0
    then err "amount_sat must be positive"
    else if ltb max_sats amount_sat
    then err (
        format (
          "amount_sat "
          ∷ decimal amount_sat
          ∷ " exceeds the per-request cap of "
          ∷ decimal max_sats
          ∷ []))
    else ok tt

module _ {N : Type 0} (w : Wire N) (a : Addresses) where
  unfoldable pub spent : Result RpcError String × N → Result (Status × String) String × N
  spent (ok txid, s) = (ok txid, s)
  spent (err e, s) =
      (err (bad_gateway, format ("bitcoind rejected the spend: " ∷ a.error_text e ∷ [])), s)

  unfoldable pub spend :
      FaucetState → ℕ → Result String String → N → Result (Status × String) String × N
  unfolding spent send_to_address wallet
  spend state amount_sat (err message) s = (err (bad_request, message), s)
  spend state amount_sat (ok address) s =
      spent (
        send_to_address w (wallet state.client state.wallet_name) address (btc_text a amount_sat) s)

  unfoldable pub checked :
      FaucetState → FundRequest → Result String (Unit {0}) → N → Result (Status × String) String × N
  unfolding spend validate_signet_address
  checked state request (err message) s = (err (bad_request, message), s)
  checked state request (ok u) s =
      spend state request.amount_sat (validate_signet_address a request.address) s

  unfoldable pub fund : FaucetState → FundRequest → N → Result (Status × String) String × N
  unfolding checked check_amount
  fund state request s = checked state request (check_amount request.amount_sat state.max_sats) s
