-- ===== src/Bitcoind.antt =====
-- crates/signet-bitcoind/src: the client of a bitcoin node and what it reads of the answers. The
-- HTTP client and serde_json are `Wire`: what `send` and the decoders give is not known.
pub mod Radix
pub mod Answers
use text.Mathlib.Text.{◌==◌ as str_eq}
use signet_sandbox.Prelude.{
  ℕ, String, code, ◌==◌, Bool, List, [], ◌∷◌, ◌++◌, Option, none, some, Result, ok, err,
  if◌then◌else◌, ok_or,
}
use signet_sandbox.Integers.{ℤ, pos, negsuc}
use signet_sandbox.Rpc.{format}
use signet_sandbox.Actions.{Action, pure, fail, lift, map_err, ◌>>=◌}

mutual
  -- `serde_json::Value`. A number that `as_i64` refuses is kept as its text.
  pub data Json : Type 0 where
    null : Json
    bool : Bool → Json
    integer : ℤ → Json
    number string : String → Json
    array : Jsons → Json
    object : Fields → Json

  pub data Jsons : Type 0 where
    no_items : Jsons
    item : Json → Jsons → Jsons

  pub data Fields : Type 0 where
    no_fields : Fields
    field : String → Json → Fields → Fields

pub record TemplateTx : Type 0 where
  pub data_hex : String
  pub txid : String
  pub hash : String

-- `version` is the 32 bits of an `i32`.
pub record BlockTemplate : Type 0 where
  pub version : ℕ
  pub previousblockhash : String
  pub transactions : List TemplateTx
  pub coinbasevalue : ℕ
  pub height : ℕ
  pub bits : String
  pub curtime : ℕ
  pub mintime : ℕ
  pub signet_challenge : String

pub record BlockchainInfo : Type 0 where
  pub chain : String
  pub blocks : ℕ
  pub headers : ℕ
  pub bestblockhash : String
  pub signet_challenge : Option String

pub record AddressInfo : Type 0 where
  pub address : String
  pub script_pub_key : String

pub data RpcError : Type 0 where
  http : String → RpcError
  rpc : ℤ → String → RpcError
  unexpected : String → RpcError

pub record Client : Type 0 where
  pub url : String
  pub user : String
  pub password : String

-- `N` is the node, and all that `send` may change: it posts a body with a client's URL and
-- credentials, and gives the JSON of an answer whose status is a success.
pub record Wire (N : Type 0) : Type 0 where
  pub send : Client → Json → Action N String Json
  pub to_string : Json → String
  pub template_of : Json → Result String BlockTemplate
  pub optional_text_of : Json → Result String (Option String)
  pub text_of : Json → Result String String
  pub info_of : Json → Result String BlockchainInfo
  pub address_of : Json → Result String AddressInfo

-- `trim_end_matches('/')`, with the slashes read since the last other character.
trim_slashes : String → String → String
trim_slashes slashes String.[] = ""
trim_slashes slashes (String.◌∷◌ first rest) =
    let more = trim_slashes (format (slashes ∷ "/" ∷ [])) rest in
    let kept = trim_slashes "" rest in
    if code first == b'/' then more else format (slashes ∷ String.◌∷◌ first kept ∷ [])

unfoldable pub new : String → String → String → Client
unfolding trim_slashes
new url user password = record { url = trim_slashes "" url; user = user; password = password }

unfoldable pub wallet : Client → String → Client
wallet client name = record {
  url = format (client.url ∷ "/wallet/" ∷ name ∷ []);
  user = client.user;
  password = client.password;
}

get_field : String → Fields → Option Json
get_field key no_fields = none
get_field key (field k value rest) = if str_eq k key then some value else get_field key rest

-- `Value::get`.
unfoldable pub get : String → Json → Option Json
unfolding get_field
get key (object fields) = get_field key fields
get key _ = none

unfoldable pub error_code : Option Json → ℤ
error_code (some (integer n)) = n
error_code _ = negsuc 0

unfoldable pub error_message : Option Json → String
error_message (some (string text)) = text
error_message _ = "unknown"

-- The `error` of an envelope, which a null one does not have.
unfoldable pub rpc_error : Option Json → Option RpcError
unfolding get error_code error_message
rpc_error none = none
rpc_error (some null) = none
rpc_error (some error) =
    some (rpc (error_code (get "code" error)) (error_message (get "message" error)))

unfoldable pub result_of : (Json → String) → Json → Option RpcError → Result RpcError Json
unfolding get
result_of to_string envelope (some error) = err error
result_of to_string envelope none = ok_or (get "result" envelope) (unexpected (to_string envelope))

unfoldable pub request_body : String → Json → Json
request_body method params = object (
    field "jsonrpc" (string "2.0") (
      field "id" (integer (pos 1))
        (field "method" (string method) (field "params" params no_fields))))

abbrev pub texts : List String → Json
texts names = array (go names)
  where
    go : List String → Jsons
    go [] = no_items
    go (name ∷ rest) = item (string name) (go rest)

abbrev pub decode_error : {A : Type 0} → Result String A → Result RpcError A
decode_error (ok a) = ok a
decode_error (err e) = err (unexpected e)

module _ {N : Type 0} (w : Wire N) where
  unfoldable pub call_raw : Client → String → Json → Action N RpcError Json
  unfolding request_body result_of rpc_error
  call_raw client method params = do
    envelope ← map_err http (w.send client (request_body method params))
    lift (result_of w.to_string envelope (rpc_error (get "error" envelope)))

  unfoldable pub call :
      {A : Type 0} → (Json → Result String A) → Client → String → Json → Action N RpcError A
  unfolding call_raw
  call decode client method params = do
    value ← call_raw client method params
    lift (decode_error (decode value))

  unfoldable pub get_block_template : Client → Action N RpcError BlockTemplate
  unfolding call
  get_block_template client =
      call w.template_of client "getblocktemplate" (
        array (item (object (field "rules" (texts ("signet" ∷ "segwit" ∷ [])) no_fields)) no_items))

  unfoldable pub submit_block : Client → String → Action N RpcError (Option String)
  unfolding call
  submit_block client hex = call w.optional_text_of client "submitblock" (texts (hex ∷ []))

  unfoldable pub get_blockchain_info : Client → Action N RpcError BlockchainInfo
  unfolding call
  get_blockchain_info client = call w.info_of client "getblockchaininfo" (texts [])

  unfoldable pub create_wallet : Client → String → Action N RpcError Json
  unfolding call
  create_wallet client name = call ok client "createwallet" (texts (name ∷ []))

  unfoldable pub load_wallet : Client → String → Action N RpcError Json
  unfolding call
  load_wallet client name = call ok client "loadwallet" (texts (name ∷ []))

  unfoldable pub get_new_address : Client → String → Action N RpcError String
  unfolding call
  get_new_address client label =
      call w.text_of client "getnewaddress" (texts (label ∷ "bech32" ∷ []))

  unfoldable pub get_address_info : Client → String → Action N RpcError AddressInfo
  unfolding call
  get_address_info client address = call w.address_of client "getaddressinfo" (texts (address ∷ []))

  -- `amount` is the number that a JSON float is written as.
  unfoldable pub send_to_address : Client → String → String → Action N RpcError String
  unfolding call
  send_to_address client address amount =
      call w.text_of client "sendtoaddress"
        (array (item (string address) (item (number amount) no_items)))

  unfoldable pub get_wallet_info : Client → Action N RpcError Json
  unfolding call
  get_wallet_info client = call ok client "getwalletinfo" (texts [])
