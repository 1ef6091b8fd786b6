-- ===== src/Api/Bundles.antt =====
-- Connection bundles and `environment.get`: crates/signet-api/src/rpc.rs.
use text.Mathlib.Text.{◌==◌ as str_eq}
use signet_sandbox.Prelude.{
  ℕ, ◌%◌, ◌^◌, String, Bool, true, false, List, [], ◌∷◌, Option, none, some, Result, ok, err, ltb,
  if◌then◌else◌, length,
}
use signet_sandbox.Actions.{Action, pure, attempt, ◌>>=◌}
use signet_sandbox.Rpc.{RpcError, format}
use signet_sandbox.Maps.{Map, insert}
use signet_sandbox.Core.{
  EnvStatus, BlockPolicy, interval_30s, on_demand, LightningConnection, ConnectionBundle, ready,
  provisioning,
}
use signet_sandbox.Store.Rows.{
  EnvironmentRow, LightningRow, DbError, StoredVersions, provisioning as row_provisioning,
  ready as row_ready,
}
use signet_sandbox.Store.Statements.{set_environment_status}
use signet_sandbox.Store.Lightning.{get_lightning_instances}
use signet_sandbox.Platform.{Platform, World}
use signet_sandbox.Platform.Calls.{try_sql}
use signet_sandbox.Orchestrator.Naming.{
  Orchestrator, OrchestrateError, explorer_url, indexer_endpoint, lightning_rest_url,
  lightning_grpc_url, lightning_node_uri,
}
use signet_sandbox.Orchestrator.Workloads.{core_ready, rpc_credentials}
use signet_sandbox.Orchestrator.Pods.{lightning_admin_macaroon, lightning_tls_ca, lightning_node_id}
use signet_sandbox.Api.State.{AppState, Caller, Handler, bundle, status_as_env, parse_params}
use signet_sandbox.Api.Validation.{short_id}
use signet_sandbox.Api.Access.{owned_environment, reconcile_reaped}

-- `as u16`.
abbrev pub as_u16 : Option ℕ → Option ℕ
as_u16 none = none
as_u16 (some p) = some (p % 2 ^ 16)

abbrev pub is_ready : EnvStatus → Bool
is_ready ready = true
is_ready _ = false

abbrev stored_images : Option StoredVersions → Option (Map (List ℕ))
stored_images none = none
stored_images (some versions) = versions

abbrev stored_policy : String → BlockPolicy
stored_policy policy = if str_eq policy "on_demand" then on_demand else interval_30s

unfoldable pub bundle_for :
    (ℕ → String)
    → EnvironmentRow
    → EnvStatus
    → Option String
    → Map LightningConnection
    → Option String
    → Option String
    → ConnectionBundle
bundle_for hyphenated row status rpc_auth lightning explorer indexer = record {
  environment_id = hyphenated row.id;
  status = status;
  rpc_url = row.rpc_endpoint;
  rpc_auth = rpc_auth;
  zmq_url = none;
  indexer_endpoint = indexer;
  explorer_url = explorer;
  faucet_url = row.faucet_endpoint;
  lightning = lightning;
  signet_challenge = row.signet_challenge;
  block_policy = stored_policy row.block_policy;
  versions = stored_images row.versions;
  expires_at = row.expires_at;
}

abbrev pub rpc_auth : Result OrchestrateError (String × String) → Option String
rpc_auth (ok (user, password)) = some (format (user ∷ ":" ∷ password ∷ []))
rpc_auth (err e) = none

module _ {C : Type 0} (platform : Platform C) where
  -- One entry, once the pod serves the macaroon and the certificate. The texts in hex are lists of
  -- code points; `as_text` turns them into the bundle's texts.
  unfoldable pub connection :
      Orchestrator
      → String
      → LightningRow
      → ℕ
      → Action (World C) OrchestrateError LightningConnection
  unfolding lightning_admin_macaroon lightning_tls_ca lightning_node_id lightning_rest_url
      lightning_grpc_url lightning_node_uri
  connection o short i port = do
    macaroon ← lightning_admin_macaroon platform short i.name
    tls_ca ← lightning_tls_ca platform short i.name
    node_id ← lightning_node_id platform short i.name
    pure record {
      implementation = i.implementation;
      node_id = node_id;
      node_uri = lightning_node_uri o port node_id;
      rest_url = lightning_rest_url o port;
      grpc_url = lightning_grpc_url o port;
      tls_cert = platform.from_utf8_lossy tls_ca;
      auth = record { kind = "macaroon"; value = platform.from_utf8_lossy macaroon };
    }

  abbrev pub add_connection :
      String
      → Result OrchestrateError LightningConnection
      → Map LightningConnection
      → Map LightningConnection
  unfolding insert
  add_connection name (ok c) connections = insert name c connections
  add_connection name (err e) connections = connections

  -- The loop over the instances: an unavailable one is omitted, one without a port ends the loop.
  unfoldable pub connect_all :
      Orchestrator
      → String
      → List LightningRow
      → Map LightningConnection
      → Action (World C) RpcError (Map LightningConnection)
  unfolding connection insert
  connect_all o short [] connections = pure connections
  connect_all o short (i ∷ instances) connections = elim i.port [
    | none ↦ pure connections
    | some port ↦ do
      outcome ← attempt (connection o short i port)
      connect_all o short instances (add_connection i.name outcome connections)
  ]

  abbrev pub connect_listed :
      Orchestrator
      → String
      → Result DbError (List LightningRow)
      → Action (World C) RpcError (Map LightningConnection)
  unfolding connect_all
  connect_listed o short (err e) = pure []
  connect_listed o short (ok instances) = connect_all o short instances []

  unfoldable pub lightning_connections :
      Orchestrator → ℕ → EnvStatus → Action (World C) RpcError (Map LightningConnection)
  unfolding get_lightning_instances connect_all short_id
  lightning_connections o env_id status =
      if is_ready status
      then (do
        instances ← try_sql (get_lightning_instances env_id)
        connect_listed o (short_id platform.simple env_id) instances)
      else pure []

  unfoldable pub bundle_response : AppState → EnvironmentRow → EnvStatus → Handler C
  unfolding rpc_credentials lightning_connections explorer_url indexer_endpoint bundle_for short_id
  bundle_response state row status = do
    credentials ← attempt (rpc_credentials platform (short_id platform.simple row.id))
    connections ← lightning_connections state.orchestrator row.id status
    pure (
        bundle (
          bundle_for platform.hyphenated row status (rpc_auth credentials) connections
            (explorer_url state.orchestrator row.component_explorer
              (short_id platform.simple row.id) (as_u16 row.explorer_port))
            (indexer_endpoint state.orchestrator (as_u16 row.electrum_port))))

  abbrev pub flip_if_ready :
      EnvironmentRow → Result OrchestrateError Bool → Action (World C) RpcError EnvStatus
  unfolding set_environment_status
  flip_if_ready row (ok true) = do
    outcome ← try_sql (set_environment_status row.id row_ready)
    pure ready
  flip_if_ready row (ok false) = pure provisioning
  flip_if_ready row (err e) = pure provisioning

  -- A provisioning environment whose core is ready becomes `ready`.
  unfoldable pub observed_status : EnvironmentRow → Action (World C) RpcError EnvStatus
  unfolding core_ready set_environment_status short_id status_as_env
  observed_status row = elim row.status [
    | row_provisioning ↦ do
      core ← attempt (core_ready platform (short_id platform.simple row.id))
      flip_if_ready row core
    | _ ↦ pure (status_as_env row.status)
  ]

  unfoldable pub environment_get : AppState → Caller → Result String String → Handler C
  unfolding owned_environment reconcile_reaped observed_status bundle_response
  environment_get state caller params = do
    id ← parse_params params
    row ← owned_environment platform caller id
    row' ← reconcile_reaped platform row
    status ← observed_status row'
    bundle_response state row' status

-- A mesh task is spawned where there are two instances or more.
unfoldable pub spawn_lightning_mesh :
    {C : Type 0} → String → List String → Action (World C) RpcError (Unit {0})
spawn_lightning_mesh short names w =
    if ltb (length names) 2
    then (ok tt, w)
    else (ok tt, record w { meshes = (short, names) ∷ w.meshes })
