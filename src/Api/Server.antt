-- ===== src/Api/Server.antt =====
-- The way of a request to its handler in crates/signet-api/src/rpc.rs: the URL, the authentication
-- and the choice of the method. `V` is `serde_json::Value`, and `Decoders` what serde reads of it.
pub mod Callers
pub mod Gate
use text.Mathlib.Text.{◌==◌ as str_eq}
use signet_sandbox.Prelude.{
  ℕ, code, String, Bool, true, false, not, ◌&&◌, List, [], ◌∷◌, Option, none, some, Result, ok, err,
  if◌then◌else◌, ◌==◌,
}
use signet_sandbox.Actions.{Action, pure, fail, lift, map_err, ◌>>=◌}
use signet_sandbox.Texts.{is_whitespace}
use signet_sandbox.Rpc.{
  RpcError, error, unauthenticated, internal_error, parse_error, invalid_request, method_not_found,
  format,
}
use signet_sandbox.Core.{CreateParams}
use signet_sandbox.Store.Rows.{TokenRow, DbError}
use signet_sandbox.Store.Statements.{insert_api_token, find_api_token}
use signet_sandbox.Platform.{Platform, World}
use signet_sandbox.Platform.Calls.{try_sql}
use signet_sandbox.Nostr.{
  Nip98Error, bad_event, bad_header, wrong_kind, missing_tag, url_mismatch, method_mismatch, stale,
}
use signet_sandbox.Nostr.Tokens.{
  Crates, strip_text, parse, generate, token_hash, verify_nip98_header,
}
use signet_sandbox.Api.State.{AppState, Caller, Handler, entries, token}
use signet_sandbox.Api.Lifecycle.{
  Transition, stop, start, FaucetParams, environment_list, lifecycle_transition,
  environment_destroy, environment_delete, environment_faucet,
}
use signet_sandbox.Api.Bundles.{environment_get}
use signet_sandbox.Api.Create.{Draws, environment_create}
use signet_sandbox.Api.Update.{UpdateParams, environment_update}

-- What `get` and `to_str` give of the headers that are read.
pub record Headers : Type 0 where
  pub forwarded_proto : Option String
  pub host : Option String
  pub authorization : Option String

pub record Request (V : Type 0) : Type 0 where
  pub method : String
  pub params : V

pub record Decoders (V : Type 0) : Type 0 where
  pub create : V → Result String CreateParams
  pub id : V → Result String String
  pub update : V → Result String UpdateParams
  pub faucet : V → Result String FaucetParams

-- The part before the first comma.
unfoldable pub first_hop : String → String
first_hop String.[] = ""
first_hop (String.◌∷◌ c s) =
    let rest = first_hop s in if code c == b',' then "" else String.◌∷◌ c rest

is_blank : String → Bool
unfolding is_whitespace
is_blank String.[] = true
is_blank (String.◌∷◌ c s) = is_whitespace (code c) && is_blank s

trim_right : String → String
unfolding is_blank
trim_right String.[] = ""
trim_right (String.◌∷◌ c s) =
    let rest = trim_right s in if is_blank (String.◌∷◌ c s) then "" else String.◌∷◌ c rest

trim_left : String → String
unfolding is_whitespace
trim_left String.[] = ""
trim_left (String.◌∷◌ c s) =
    let rest = trim_left s in if is_whitespace (code c) then rest else String.◌∷◌ c s

-- `str::trim`.
unfoldable pub trim_text : String → String
unfolding trim_left trim_right
trim_text s = trim_right (trim_left s)

abbrev scheme_of : Option String → String
unfolding trim_text first_hop
scheme_of none = "http"
scheme_of (some value) = trim_text (first_hop value)

abbrev text_or_empty : Option String → String
text_or_empty none = ""
text_or_empty (some text) = text

unfoldable pub request_url : Headers → String → String
unfolding scheme_of trim_text first_hop
request_url headers path =
    format (scheme_of headers.forwarded_proto ∷ "://" ∷ text_or_empty headers.host ∷ path ∷ [])

-- The message of each error.
unfoldable pub nip98_text : Nip98Error → String
nip98_text bad_event = "event id or signature verification failed"
nip98_text bad_header = "malformed Authorization header"
nip98_text wrong_kind = "event is not a NIP-98 http auth event"
nip98_text (missing_tag name) = format ("missing `" ∷ name ∷ "` tag" ∷ [])
nip98_text url_mismatch = "`u` tag does not match the request URL"
nip98_text method_mismatch = "`method` tag does not match the request method"
nip98_text stale = "`created_at` outside the acceptance window"

abbrev pub refused : String → RpcError
refused message = error unauthenticated message

unfoldable pub nip98_caller : Result Nip98Error String → Result RpcError Caller
unfolding nip98_text
nip98_caller (ok npub) = ok (record { npub = npub })
nip98_caller (err e) =
    err (error unauthenticated (format ("NIP-98 authentication failed: " ∷ nip98_text e ∷ [])))

unfoldable pub verify_nip98 :
    Crates → String → String → String → ℕ → Option ℕ → Result RpcError Caller
unfolding nip98_caller verify_nip98_header
verify_nip98 c payload url method now max_age =
    nip98_caller (verify_nip98_header c (format ("Nostr " ∷ payload ∷ [])) url method now max_age)

-- What a lookup of the hash says of the caller.
unfoldable pub token_caller : Result DbError (Option TokenRow) → Result RpcError Caller
token_caller (err e) = err (error internal_error "token lookup failed")
token_caller (ok none) = err (refused "unknown api token")
token_caller (ok (some row)) =
    if row.revoked then err (refused "api token revoked") else ok (record { npub = row.npub_owner })

module _ {C : Type 0} (platform : Platform C) (crates : Crates) where
  unfoldable pub bearer_of : Option String → Action (World C) RpcError Caller
  unfolding token_caller find_api_token token_hash
  bearer_of none = fail (refused "malformed api token")
  bearer_of (some raw) = do
    row ← try_sql (find_api_token (token_hash crates raw))
    lift (token_caller row)

  unfoldable pub verify_bearer : String → Action (World C) RpcError Caller
  unfolding bearer_of parse
  verify_bearer raw = bearer_of (parse crates raw)

  abbrev with_scheme : Bool → Caller → Action (World C) RpcError (Caller × Bool)
  with_scheme via_nip98 caller = pure (caller, via_nip98)

  -- The header without `Nostr `, else without `Bearer `.
  unfoldable pub by_scheme :
      Option String
      → Option String
      → String
      → String
      → ℕ
      → Option ℕ
      → Action (World C) RpcError (Caller × Bool)
  unfolding verify_nip98 verify_bearer
  by_scheme (some payload) bearer url method now max_age =
      lift (verify_nip98 crates payload url method now max_age) >>= with_scheme true
  by_scheme none (some raw) url method now max_age = verify_bearer raw >>= with_scheme false
  by_scheme none none url method now max_age = fail (refused "unsupported Authorization scheme")

  unfoldable pub authenticate :
      Option String → String → String → ℕ → Option ℕ → Action (World C) RpcError (Caller × Bool)
  unfolding by_scheme strip_text
  authenticate none url method now max_age = fail (refused "missing Authorization header")
  authenticate (some header) url method now max_age =
      by_scheme (strip_text "Nostr " header) (strip_text "Bearer " header) url method now max_age

  unfoldable pub catalog_list : AppState → Handler C
  catalog_list state = pure (entries state.catalog)

  abbrev pub inserted : String → Result DbError (Unit {0}) → Handler C
  inserted raw (ok u) = pure (token raw)
  inserted raw (err e) = fail (error internal_error "token persist failed")

  -- `secret` is what the generator gives.
  unfoldable pub token_create : List ℕ → Caller → Handler C
  unfolding generate token_hash insert_api_token
  token_create secret caller = do
    let raw = generate crates secret
    outcome ← try_sql (insert_api_token (token_hash crates raw) caller.npub)
    inserted raw outcome

  -- `handle`; a method of the environments by its name, `draws` and `secret` are drawn for it.
  unfoldable pub handle :
      {V : Type 0} → AppState → Decoders V → Draws → List ℕ → Caller → Bool → Request V → Handler C
  unfolding token_create catalog_list environment_create environment_list environment_get
      environment_update lifecycle_transition environment_destroy environment_delete
      environment_faucet
  handle state serde draws secret caller via_nip98 request =
      let named : String → Bool = λ name. str_eq request.method name in
      if named "token.create"
      then (if not via_nip98
          then fail (refused "token.create requires NIP-98 authentication")
          else token_create secret caller)
      else if named "catalog.list"
      then catalog_list state
      else if named "environment.create"
      then environment_create platform state caller draws (serde.create request.params)
      else if named "environment.list"
      then environment_list platform caller
      else if named "environment.get"
      then environment_get platform state caller (serde.id request.params)
      else if named "environment.update"
      then environment_update platform state caller draws.lnd_wallet_password
          (serde.update request.params)
      else if named "environment.stop"
      then lifecycle_transition platform caller (serde.id request.params) stop
      else if named "environment.start"
      then lifecycle_transition platform caller (serde.id request.params) start
      else if named "environment.destroy"
      then environment_destroy platform caller (serde.id request.params)
      else if named "environment.delete"
      then environment_delete platform caller (serde.id request.params)
      else if named "environment.faucet"
      then environment_faucet platform caller (serde.faucet request.params)
      else fail (error method_not_found (format ("method not found: " ∷ request.method ∷ [])))

  -- `dispatch`: the body as `from_slice` gives it, with whether the error is one of syntax.
  unfoldable pub dispatch :
      {V : Type 0}
      → AppState
      → Decoders V
      → Draws
      → List ℕ
      → Option ℕ
      → Headers
      → String
      → String
      → Result (Bool × String) (Request V)
      → Handler C
  unfolding request_url authenticate handle
  dispatch state serde draws secret max_age headers path http_method (err (is_syntax, message)) =
      fail (error (if is_syntax then parse_error else invalid_request) message)
  dispatch state serde draws secret max_age headers path http_method (ok request) = do
    who ←
        authenticate headers.authorization (request_url headers path) http_method draws.now max_age
    handle state serde draws secret who.0 who.1 request
