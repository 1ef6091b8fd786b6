-- ===== src/Cli.antt =====
-- crates/signet-cli/src: the choice of credentials (auth.rs, local.rs, main.rs), the parameters of
-- `up` (config.rs) and the answers of the API (rpc.rs). Keys are the nostr crate's.
pub mod Credentials
pub mod Params
pub mod Waiting
pub mod Deadlines
pub mod Cluster
pub mod Ports
pub mod Profiles
pub mod Loading
use text.Mathlib.Text.{◌==◌ as str_eq}
use signet_sandbox.Prelude.{
  ℕ, ◌+◌, ◌^◌, ◌-◌, String, Bool, true, false, ◌&&◌, not, contains, List, [], ◌∷◌, Option, none,
  some, Result, ok, err, ◌>>=◌, ltb, leb, if◌then◌else◌,
}
use signet_sandbox.Integers.{ℤ, pos, negsuc}
use signet_sandbox.Texts.{codes}
use signet_sandbox.Maps.{Map}
use signet_sandbox.Rpc.{format, RpcError}
use signet_sandbox.Core.{BlockPolicy, Components, CreateParams, no_components}
use signet_sandbox.Duration.{DurationError, parse_duration_secs}

-- The errors of the command line, by what they say.
pub data CliError : Type 0 where
  both_credentials no_credentials no_name : CliError
  invalid_key no_profile : String → CliError
  duration : DurationError → CliError

-- A parsed key is its text.
pub data Auth : Type 0 where
  bearer nip98 : String → Auth

-- What the options of every command say of the API and the credentials.
pub record Common : Type 0 where
  pub api : String
  pub token : Option String
  pub nsec : Option String

pub record Profile : Type 0 where
  pub api_url : String
  pub nsec : String
  pub token : String

abbrev pub default_local_api : String
default_local_api = "http://localhost:8081"

-- `filter(|t| !t.is_empty())`.
abbrev pub non_empty : Option String → Option String
non_empty none = none
non_empty (some text) = if str_eq text "" then none else some text

-- `Keys::parse`, with its error.
abbrev pub key_auth : Result String String → Result CliError Auth
key_auth (ok key) = ok (nip98 key)
key_auth (err e) = err (invalid_key e)

abbrev pub choose :
    (String → Result String String) → Option String → Option String → Result CliError Auth
choose parse_key (some token) (some nsec) = err both_credentials
choose parse_key (some token) none = ok (bearer token)
choose parse_key none (some key) = key_auth (parse_key key)
choose parse_key none none = err no_credentials

unfoldable pub from_flags :
    (String → Result String String) → Option String → Option String → Result CliError Auth
from_flags parse_key token nsec = choose parse_key (non_empty token) (non_empty nsec)

-- `is_none_or(str::is_empty)`.
abbrev pub is_unset : Option String → Bool
is_unset none = true
is_unset (some text) = str_eq text ""

unfoldable pub profile_credentials_apply : Common → Bool
profile_credentials_apply common = is_unset common.token && is_unset common.nsec

unfoldable pub should_bootstrap : String → Bool → Bool
should_bootstrap api reachable = str_eq api default_local_api && not reachable

abbrev pub profile_auth : Result String Profile → Result CliError Auth
profile_auth (ok profile) = ok (bearer profile.token)
profile_auth (err e) = err (no_profile e)

abbrev pub or_profile : Bool → Result String Profile → Result CliError Auth → Result CliError Auth
or_profile apply load (ok auth) = ok auth
or_profile apply load (err e) = if apply then profile_auth load else err e

-- The credentials of `client`; `load` is what the profile's file gives.
unfoldable pub client_auth :
    (String → Result String String) → Common → Result String Profile → Result CliError Auth
unfolding profile_credentials_apply from_flags
client_auth parse_key common load =
    or_profile (profile_credentials_apply common) load
      (from_flags parse_key common.token common.nsec)

pub record SandboxConfig : Type 0 where
  pub name : Option String
  pub block_policy : Option BlockPolicy
  pub components : Option Components
  pub versions : Option (Map String)
  pub ttl : Option String

-- `as i64` of a `u64`.
unfoldable pub as_i64 : ℕ → ℤ
as_i64 n = if ltb n (2 ^ 63) then pos n else negsuc (2 ^ 64 - 1 - n)

abbrev pub ttl_of : Result DurationError ℕ → Result CliError (Option ℤ)
unfolding as_i64
ttl_of (ok secs) = ok (some (as_i64 secs))
ttl_of (err e) = err (duration e)

unfoldable pub ttl_secs : Option String → Option String → Result CliError (Option ℤ)
unfolding ttl_of as_i64 parse_duration_secs
ttl_secs (some flag) config = ttl_of (parse_duration_secs (codes flag))
ttl_secs none (some config) = ttl_of (parse_duration_secs (codes config))
ttl_secs none none = ok none

unfoldable pub name_of : Option String → Option String → Result CliError String
name_of (some flag) config = ok flag
name_of none (some config) = ok config
name_of none none = err no_name

abbrev pub of_config : {A : Type 0} → (SandboxConfig → Option A) → Option SandboxConfig → Option A
of_config f none = none
of_config f (some config) = f config

abbrev pub or_default : Option Components → Components
or_default none = no_components
or_default (some components) = components

unfoldable pub build_create_params :
    Option SandboxConfig → Option String → Option String → Result CliError CreateParams
unfolding ttl_secs name_of
build_create_params config name_flag ttl_flag = do
  ttl ← ttl_secs ttl_flag (of_config (λ c. c.ttl) config)
  name ← name_of name_flag (of_config (λ c. c.name) config)
  ok (record {
    name = name;
    block_policy = of_config (λ c. c.block_policy) config;
    components = or_default (of_config (λ c. c.components) config);
    versions = of_config (λ c. c.versions) config;
    ttl_secs = ttl;
  })

pub data CallError : Type 0 where
  rpc : RpcError → CallError
  transport protocol other : String → CallError

-- The envelope has a result, an error, or neither.
unfoldable pub split_response : {V : Type 0} → Option V → Option RpcError → Result CallError V
split_response (some result) error = ok result
split_response none (some error) = err (rpc error)
split_response none none = err (protocol "response has neither result nor error")

-- `contains` of a slash; `full_image`, `required_refs` and `fully_qualified` are of local.rs.
abbrev pub has_slash : String → Bool
unfolding contains
has_slash name = contains (codes name) b'/'

unfoldable pub full_image : String → String → String
unfolding has_slash contains
full_image registry name = if has_slash name then name else format (registry ∷ "/" ∷ name ∷ [])

unfoldable pub fully_qualified : String → String
unfolding has_slash contains
fully_qualified tag = if has_slash tag then tag else format ("docker.io/library/" ∷ tag ∷ [])

abbrev all_qualified : List String → List String
unfolding fully_qualified
all_qualified [] = []
all_qualified (tag ∷ tags) = fully_qualified tag ∷ all_qualified tags

unfoldable pub required_refs : String → String → List String → List String
unfolding all_qualified fully_qualified full_image has_slash contains
required_refs registry name [] =
    if has_slash name then format ("docker.io/" ∷ name ∷ []) ∷ [] else full_image registry name ∷ []
required_refs registry name (tag ∷ tags) = all_qualified (tag ∷ tags)
