-- ===== src/Rpc.antt =====
-- crates/signet-rpc/src: the JSON-RPC errors and the response envelope. `Response` is over the type
-- of results, which the program serializes with serde.
use Prim.Native.String
use signet_sandbox.Prelude.{String, List, [], ◌∷◌}
use signet_sandbox.Integers.{ℤ, negsuc}

-- `format!`: the pieces of a message in order.
abbrev pub format : List String → String
format [] = ""
format (s ∷ ss) = String.◌++◌ s (format ss)

-- The error codes, each with its number.
pub data ErrorCode : Type 0 where
  parse_error invalid_request method_not_found invalid_params internal_error : ErrorCode
  not_available_in_phase unauthenticated rate_limited forbidden env_not_found : ErrorCode
  invalid_address faucet_failed chain_error : ErrorCode

unfoldable pub code : ErrorCode → ℤ
code parse_error = negsuc 32699
code invalid_request = negsuc 32599
code method_not_found = negsuc 32600
code invalid_params = negsuc 32601
code internal_error = negsuc 32602
code not_available_in_phase = negsuc 32000
code unauthenticated = negsuc 32001
code rate_limited = negsuc 32002
code forbidden = negsuc 32003
code env_not_found = negsuc 32009
code invalid_address = negsuc 32019
code faucet_failed = negsuc 32020
code chain_error = negsuc 32029

pub record RpcError : Type 0 where
  pub code : ErrorCode
  pub message : String

abbrev pub error : ErrorCode → String → RpcError
error c m = record { code = c; message = m }
