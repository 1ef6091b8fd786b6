-- ===== src/Orchestrator/Provision.antt =====
-- Provisioning an environment, and adding Lightning instances to one:
-- crates/signet-orchestrator/src/lib.rs.
use signet_sandbox.Prelude.{
  ℕ, String, Bool, true, false, ◌||◌, not, List, [], ◌∷◌, ◌++◌, Option, none, some, Result, ok, err,
  if◌then◌else◌, length,
}
use signet_sandbox.Actions.{Action, pure, lift, map_err, ◌>>=◌, ◌>>◌}
use signet_sandbox.Rpc.{format}
use signet_sandbox.Texts.{codes}
use signet_sandbox.Maps.{contains_key, Map}
use signet_sandbox.Core.{LightningInstance}
use signet_sandbox.Encoding.{decode_hex, encode_hex, write_compact_size}
use signet_sandbox.Images.Components.{EnvComponents, ComponentSpec, selected_specs}
use signet_sandbox.Platform.{
  Platform, World, bitcoind, signer, component, create_namespace, find_namespace, create_secret,
  create_service, create_route, find_gateway, create_gateway, find_grant, create_grant, get_secret,
  patch_secret,
}
use signet_sandbox.Platform.Calls.{request}
use signet_sandbox.Orchestrator.Naming.{
  Orchestrator, OrchestrateError, kube, bad_challenge, namespace_for, namespace_object,
  explorer_hostname, gateway_namespace, secret_name,
}
use signet_sandbox.Orchestrator.Manifests.{apply_manifest, apply_lnd}

pub record EnvSecrets : Type 0 where
  pub signer_wif : String
  pub signer_pubkey : String
  pub signet_challenge : String
  pub rpc_user : String
  pub rpc_password : String
  pub lnd_wallet_password : String

pub record ProvisionParams : Type 0 where
  pub env_id : String
  pub secrets : EnvSecrets
  pub images : Map (List ℕ)
  pub components : EnvComponents
  pub electrum_port : Option ℕ
  pub explorer_port : Option ℕ
  pub lightning : List (LightningInstance × ℕ)
  pub expires_at : Option ℕ

abbrev four : List ℕ → List ℕ
four (a ∷ b ∷ c ∷ d ∷ rest) = a ∷ b ∷ c ∷ d ∷ []
four s = s

-- The network magic: four bytes of the double hash of the challenge with its compact size.
unfoldable pub signet_magic : (List ℕ → List ℕ) → String → Result OrchestrateError (List ℕ)
unfolding decode_hex write_compact_size encode_hex
signet_magic sha256 challenge_hex = elim (decode_hex (codes challenge_hex)) [
  | none ↦ err (bad_challenge challenge_hex)
  | some challenge ↦
      ok (
        encode_hex (four (sha256 (sha256 (write_compact_size [] (length challenge) ++ challenge)))))
]

abbrev secret_entries : (List ℕ → String) → EnvSecrets → List ℕ → Map String
secret_entries as_text s magic =
    ("BITCOIN_RPC_COOKIE", format (s.rpc_user ∷ ":" ∷ s.rpc_password ∷ []))
    ∷ ("BITCOIN_RPC_PASSWORD", s.rpc_password)
    ∷ ("BITCOIN_RPC_USER", s.rpc_user)
    ∷ ("LND_WALLET_PASSWORD", s.lnd_wallet_password)
    ∷ ("SIGNER_KEY_WIF", s.signer_wif)
    ∷ ("SIGNER_PUBKEY", s.signer_pubkey)
    ∷ ("SIGNET_CHALLENGE", s.signet_challenge)
    ∷ ("SIGNET_MAGIC", as_text magic)
    ∷ []

-- A dependency that is not in the registry would panic; the registry has none.
abbrev pub specs_of : Option (List ComponentSpec) → List ComponentSpec
specs_of none = []
specs_of (some specs) = specs

module _ {C : Type 0} (platform : Platform C) where
  abbrev unless :
      Bool
      → Action (World C) OrchestrateError (Unit {0})
      → Action (World C) OrchestrateError (Unit {0})
  unless true m = pure tt
  unless false m = m

  ensure_gateway : Action (World C) OrchestrateError (Unit {0})
  unfolding request
  ensure_gateway = do
    has_namespace ← map_err kube (request platform (find_namespace gateway_namespace))
    unless has_namespace (
        map_err kube (
          request platform (
            create_namespace
              record { name = some gateway_namespace; labels = none; annotations = none })))
    has_gateway ← map_err kube (request platform find_gateway)
    unless has_gateway (map_err kube (request platform create_gateway))

  ensure_route_grant : String → Action (World C) OrchestrateError (Unit {0})
  unfolding request
  ensure_route_grant env_ns = do
    has_grant ← map_err kube (request platform (find_grant env_ns))
    unless has_grant (map_err kube (request platform (create_grant env_ns)))

  apply_explorer_route :
      Orchestrator → String → String → Action (World C) OrchestrateError (Unit {0})
  unfolding request
  apply_explorer_route o ns env_id =
      map_err kube (request platform (create_route ns (explorer_hostname o.env_host env_id)))

  apply_electrs_lb : String → ℕ → Action (World C) OrchestrateError (Unit {0})
  unfolding request
  apply_electrs_lb ns port = map_err kube (
      request platform (
        create_service ns record {
          name = "electrs-lb";
          selector = ("app", "electrs") ∷ [];
          ports = record { name = none; port = port; target_port = 60401 } ∷ [];
        }))

  apply_explorer_lb : String → ℕ → Action (World C) OrchestrateError (Unit {0})
  unfolding request
  apply_explorer_lb ns port = map_err kube (
      request platform (
        create_service ns record {
          name = "explorer-lb";
          selector = ("app", "explorer") ∷ [];
          ports = record { name = none; port = port; target_port = 8080 } ∷ [];
        }))

  apply_specs :
      String → Map (List ℕ) → List ComponentSpec → Action (World C) OrchestrateError (Unit {0})
  unfolding apply_manifest
  apply_specs ns images [] = pure tt
  apply_specs ns images (spec ∷ specs) = do
    apply_manifest platform ns (component spec.key) images
    apply_specs ns images specs

  unfoldable pub apply_instances :
      Orchestrator
      → String
      → Map (List ℕ)
      → List (LightningInstance × ℕ)
      → Action (World C) OrchestrateError (Unit {0})
  unfolding apply_lnd
  apply_instances o ns images [] = pure tt
  apply_instances o ns images (i ∷ instances) = do
    apply_lnd platform o ns images i
    apply_instances o ns images instances

  -- The explorer on its own port, if it has one, or on its host name.
  apply_explorer :
      Orchestrator → ProvisionParams → String → Action (World C) OrchestrateError (Unit {0})
  unfolding apply_explorer_lb apply_explorer_route
  apply_explorer o p ns =
      if p.components.explorer
      then elim p.explorer_port [
        | some port ↦ apply_explorer_lb ns port
        | none ↦ apply_explorer_route o ns p.env_id
      ]
      else pure tt

  apply_electrum : Option ℕ → String → Action (World C) OrchestrateError (Unit {0})
  unfolding apply_electrs_lb
  apply_electrum none ns = pure tt
  apply_electrum (some port) ns = apply_electrs_lb ns port

  abbrev is_some : Option ℕ → Bool
  is_some none = false
  is_some (some n) = true

  unfoldable pub provision :
      Orchestrator → ProvisionParams → Action (World C) OrchestrateError (Unit {0})
  unfolding request ensure_gateway namespace_object signet_magic apply_manifest apply_specs
      apply_instances apply_explorer apply_electrum ensure_route_grant selected_specs
  provision o p = do
    unless o.explorer_ports ensure_gateway
    map_err kube (
        request platform
          (create_namespace (namespace_object platform.to_rfc3339 p.env_id p.expires_at)))
    magic ← lift (signet_magic platform.sha256 p.secrets.signet_challenge)
    map_err kube (
        request platform (
          create_secret (namespace_for p.env_id) record {
            name = secret_name;
            string_data = secret_entries platform.from_utf8_lossy p.secrets magic;
          }))
    apply_manifest platform (namespace_for p.env_id) bitcoind p.images
    apply_manifest platform (namespace_for p.env_id) signer p.images
    apply_specs (namespace_for p.env_id) p.images (specs_of (selected_specs p.components))
    apply_instances o (namespace_for p.env_id) p.images p.lightning
    apply_explorer o p (namespace_for p.env_id)
    apply_electrum p.electrum_port (namespace_for p.env_id)
    unless (o.explorer_ports || not (p.components.explorer || is_some p.electrum_port))
        (ensure_route_grant (namespace_for p.env_id))

  abbrev has_password : Option (Map (List ℕ)) → Bool
  unfolding contains_key
  has_password none = false
  has_password (some data') = contains_key "LND_WALLET_PASSWORD" data'

  -- A password that is there is never replaced.
  ensure_lnd_wallet_password : String → String → Action (World C) OrchestrateError (Unit {0})
  unfolding request contains_key
  ensure_lnd_wallet_password ns password = do
    secret ← map_err kube (request platform (get_secret ns secret_name))
    unless (has_password secret) (
        map_err kube
          (request platform (patch_secret ns secret_name (("LND_WALLET_PASSWORD", password) ∷ []))))

  unfoldable pub add_lightning_instances :
      Orchestrator
      → String
      → List (LightningInstance × ℕ)
      → Map (List ℕ)
      → String
      → Action (World C) OrchestrateError (Unit {0})
  unfolding ensure_lnd_wallet_password apply_instances
  add_lightning_instances o env_id instances images password = do
    ensure_lnd_wallet_password (namespace_for env_id) password
    apply_instances o (namespace_for env_id) images instances
