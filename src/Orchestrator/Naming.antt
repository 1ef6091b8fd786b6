-- ===== src/Orchestrator/Naming.antt =====
-- The names and URLs of an environment: crates/signet-orchestrator/src/lib.rs.
use text.Mathlib.Text.{◌==◌ as str_eq}
use signet_sandbox.Prelude.{
  ℕ, ◌+◌, String, code, ◌==◌, ◌&&◌, Bool, true, ◌||◌, [], ◌∷◌, Option, none, some, if◌then◌else◌,
}
use signet_sandbox.Rpc.{format}
use signet_sandbox.Maps.{Map}
use signet_sandbox.Platform.{Namespace, KubeError, decimal}

-- The pools of ports.
abbrev pub electrum_port_base : ℕ
electrum_port_base = 20000

abbrev pub electrum_port_max : ℕ
electrum_port_max = 20099

abbrev pub explorer_port_base : ℕ
explorer_port_base = 20100

abbrev pub explorer_port_max : ℕ
explorer_port_max = 20199

abbrev pub lightning_port_base : ℕ
lightning_port_base = 20200

abbrev pub lightning_port_max : ℕ
lightning_port_max = 20399

abbrev pub env_label : String
env_label = "signet.sandbox/environment"

abbrev pub expires_at_annotation : String
expires_at_annotation = "signet.sandbox/expires-at"

abbrev pub gateway_namespace : String
gateway_namespace = "signet-platform"

abbrev pub secret_name : String
secret_name = "signet-secrets"

pub data OrchestrateError : Type 0 where
  kube : KubeError → OrchestrateError
  manifest tls : OrchestrateError
  manifest_kind bad_challenge faucet exec incompatible : String → OrchestrateError

pub record Orchestrator : Type 0 where
  pub env_host : String
  pub ln_host : String
  pub url_scheme : String
  pub explorer_ports : Bool

-- What follows `://`, where the text starts with it.
after_separator : String → Option String
after_separator (String.◌∷◌ a (String.◌∷◌ b (String.◌∷◌ c rest))) =
    if code a == b':' && code b == b'/' && code c == b'/' then some rest else none
after_separator _ = none

-- `split_once("://")`, with `http` where there is none; `whole` is the text to start with.
split_scheme : String → String → String → String × String
unfolding after_separator
split_scheme whole before String.[] = ("http", whole)
split_scheme whole before (String.◌∷◌ c rest) =
    let later = split_scheme whole (format (before ∷ (String.◌∷◌ c String.[]) ∷ [])) rest in
    elim (after_separator (String.◌∷◌ c rest)) [ none ↦ later | some host ↦ (before, host) ]

unfoldable pub split_url_base : String → String × String
unfolding split_scheme
split_url_base base = split_scheme base "" base

-- What stands before the first `:`.
before_colon : String → String
before_colon String.[] = String.[]
before_colon (String.◌∷◌ c rest) =
    let tail = before_colon rest in if code c == b':' then String.[] else String.◌∷◌ c tail

strip_opening : String → String
strip_opening String.[] = String.[]
strip_opening (String.◌∷◌ c rest) =
    let tail = strip_opening rest in if code c == b'[' then tail else String.◌∷◌ c rest

all_closing : String → Bool
all_closing String.[] = true
all_closing (String.◌∷◌ c rest) = code c == b']' && all_closing rest

strip_closing : String → String
unfolding all_closing
strip_closing String.[] = String.[]
strip_closing (String.◌∷◌ c rest) =
    let kept = strip_closing rest in
    if all_closing (String.◌∷◌ c rest) then String.[] else String.◌∷◌ c kept

unfoldable pub explorer_ports_enabled : (String → Bool) → String → Bool
unfolding strip_closing strip_opening
explorer_ports_enabled is_ip_address host =
    str_eq host "localhost" || is_ip_address (strip_closing (strip_opening host))

-- `connect`, less the client.
unfoldable pub connect : (String → Bool) → String → Orchestrator
unfolding split_url_base before_colon explorer_ports_enabled
connect is_ip_address env_host =
    let (url_scheme, host) = split_url_base env_host in
    record {
      env_host = host;
      ln_host = before_colon host;
      url_scheme = url_scheme;
      explorer_ports = explorer_ports_enabled is_ip_address (before_colon host);
    }

abbrev pub namespace_for : String → String
namespace_for env_id = format ("env-" ∷ env_id ∷ [])

abbrev pub lnd_pod_name : String → String
lnd_pod_name instance' = format ("lnd-" ∷ instance' ∷ "-0" ∷ [])

abbrev pub explorer_hostname : String → String → String
explorer_hostname env_host env_id = format ("env-" ∷ env_id ∷ "." ∷ env_host ∷ [])

abbrev expires_at_text : (ℕ → String) → Option ℕ → Option (Map String)
expires_at_text to_rfc3339 none = none
expires_at_text to_rfc3339 (some t) = some ((expires_at_annotation, to_rfc3339 t) ∷ [])

unfoldable pub namespace_object : (ℕ → String) → String → Option ℕ → Namespace
namespace_object to_rfc3339 env_id expires_at = record {
  name = some (namespace_for env_id);
  labels = some ((env_label, env_id) ∷ []);
  annotations = expires_at_text to_rfc3339 expires_at;
}

-- The URL on a port of its own, if one is allocated.
abbrev port_url : String → String → Option ℕ → Option String
port_url url_scheme ln_host none = none
port_url url_scheme ln_host (some p) =
    some (format (url_scheme ∷ "://" ∷ ln_host ∷ ":" ∷ decimal p ∷ []))

unfoldable pub explorer_url : Orchestrator → Bool → String → Option ℕ → Option String
explorer_url o requested env_id port =
    if requested
    then (if o.explorer_ports
        then port_url o.url_scheme o.ln_host port
        else some (format (o.url_scheme ∷ "://" ∷ explorer_hostname o.env_host env_id ∷ [])))
    else none

unfoldable pub indexer_endpoint : Orchestrator → Option ℕ → Option String
indexer_endpoint o none = none
indexer_endpoint o (some p) = some (format ("tcp://" ∷ o.ln_host ∷ ":" ∷ decimal p ∷ []))

unfoldable pub lightning_rest_url : Orchestrator → ℕ → String
lightning_rest_url o rest_port = format ("https://" ∷ o.ln_host ∷ ":" ∷ decimal rest_port ∷ [])

unfoldable pub lightning_grpc_url : Orchestrator → ℕ → String
lightning_grpc_url o rest_port =
    format ("https://" ∷ o.ln_host ∷ ":" ∷ decimal (rest_port + 1) ∷ [])

unfoldable pub lightning_node_uri : Orchestrator → ℕ → String → String
lightning_node_uri o rest_port node_id =
    format (node_id ∷ "@" ∷ o.ln_host ∷ ":" ∷ decimal (rest_port + 2) ∷ [])
