-- ===== src/Api/Create.antt =====
-- `environment.create`: crates/signet-api/src/rpc.rs.
use signet_sandbox.Prelude.{
  ℕ, String, Bool, ◌||◌, ◌&&◌, List, [], ◌∷◌, Option, none, some, Result, ok, err, if◌then◌else◌,
  length,
}
use signet_sandbox.Actions.{Action, pure, fail, lift, attempt, ◌>>=◌, ◌>>◌}
use signet_sandbox.Rpc.{RpcError, error, invalid_params, internal_error, format}
use signet_sandbox.Maps.{Map}
use signet_sandbox.Core.{CreateParams, LightningInstance, BlockPolicy, interval_30s, provisioning}
use signet_sandbox.Images.{resolve_images}
use signet_sandbox.Store.Rows.{EnvironmentRow, DbError, destroyed, unique_violation, is_dead}
use signet_sandbox.Store.Statements.{
  NewEnvironment, create_environment, get_environment_by_name, purge_environment,
  next_electrum_port, next_explorer_port, set_environment_status,
}
use signet_sandbox.Store.Lightning.{next_lightning_ports, set_lightning_instances}
use signet_sandbox.Platform.{Platform, World, decimal}
use signet_sandbox.Platform.Calls.{try_sql}
use signet_sandbox.Orchestrator.Naming.{
  OrchestrateError, explorer_url, indexer_endpoint, electrum_port_base, electrum_port_max,
  explorer_port_base, explorer_port_max, lightning_port_base, lightning_port_max,
}
use signet_sandbox.Orchestrator.Reaper.{destroy_environment}
use signet_sandbox.Orchestrator.Provision.{EnvSecrets, ProvisionParams, provision}
use signet_sandbox.Api.State.{
  AppState, Caller, Handler, bundle, policy_as_str, parse_params, invalid,
}
use signet_sandbox.Api.Messages.{version_result}
use signet_sandbox.Api.Validation.{validate_lightning, resolve_expires_at, short_id}
use signet_sandbox.Api.Bundles.{as_u16, bundle_for, spawn_lightning_mesh}

-- What one call draws: the time, a UUID, a key and two passwords.
pub record Draws : Type 0 where
  pub now : ℕ
  pub env_id : ℕ
  pub wif : String
  pub pubkey : String
  pub challenge : String
  pub rpc_password : String
  pub lnd_wallet_password : String

abbrev name_in_use : String → RpcError
name_in_use name =
    error invalid_params (format ("environment name `" ∷ name ∷ "` already in use" ∷ []))

abbrev exhausted : String → ℕ → ℕ → RpcError
exhausted pool base max =
    error invalid_params
      (format (pool ∷ " exhausted (" ∷ decimal base ∷ "-" ∷ decimal max ∷ ")" ∷ []))

abbrev pub policy_or_default : Option BlockPolicy → BlockPolicy
policy_or_default none = interval_30s
policy_or_default (some policy) = policy

abbrev pub zip : List LightningInstance → List ℕ → List (LightningInstance × ℕ)
zip [] ports = []
zip (i ∷ instances) [] = []
zip (i ∷ instances) (p ∷ ports) = (i, p) ∷ zip instances ports

abbrev pub instance_names : List (LightningInstance × ℕ) → List String
instance_names [] = []
instance_names ((i, p) ∷ instances) = i.name ∷ instance_names instances

abbrev secrets_of : Draws → EnvSecrets
secrets_of d = record {
  signer_wif = d.wif;
  signer_pubkey = d.pubkey;
  signet_challenge = d.challenge;
  rpc_user = "signet";
  rpc_password = d.rpc_password;
  lnd_wallet_password = d.lnd_wallet_password;
}

unfoldable pub new_environment :
    AppState
    → Caller
    → (ℕ → String)
    → Draws
    → CreateParams
    → Map (List ℕ)
    → Option ℕ
    → Option ℕ
    → Option ℕ
    → NewEnvironment
unfolding policy_as_str
new_environment state caller hyphenated d p images expires_at explorer_port electrum_port = record {
  id = d.env_id;
  name = p.name;
  npub_owner = caller.npub;
  block_policy = policy_as_str (policy_or_default p.block_policy);
  signet_challenge = d.challenge;
  component_explorer = p.components.explorer;
  component_indexer = p.components.indexer;
  component_faucet = p.components.faucet;
  rpc_endpoint = format (state.public_url ∷ "/env/" ∷ hyphenated d.env_id ∷ "/rpc" ∷ []);
  explorer_port = explorer_port;
  electrum_port = electrum_port;
  ttl_secs = p.ttl_secs;
  expires_at = expires_at;
  versions = some (some images);
}

module _ {C : Type 0} where
  abbrev purge_result : Result DbError Bool → Action (World C) RpcError (Unit {0})
  purge_result (ok b) = pure tt
  purge_result (err e) = fail (error internal_error "stale record cleanup failed")

  abbrev free_row :
      String → Result DbError (Option EnvironmentRow) → Action (World C) RpcError (Unit {0})
  unfolding purge_environment
  free_row name (ok none) = pure tt
  free_row name (err e) = fail (error internal_error "name lookup failed")
  free_row name (ok (some row)) =
      if is_dead row.status
      then (do outcome ← try_sql (purge_environment row.id); purge_result outcome)
      else fail (name_in_use name)

  -- A dead record gives its name back, a live one keeps it.
  unfoldable pub free_name : Caller → String → Action (World C) RpcError (Unit {0})
  unfolding get_environment_by_name purge_environment
  free_name caller name = do
    found ← try_sql (get_environment_by_name caller.npub name)
    free_row name found

  abbrev allocated :
      String → ℕ → ℕ → Result DbError (Option ℕ) → Action (World C) RpcError (Option ℕ)
  allocated pool base max (ok (some port)) = pure (some port)
  allocated pool base max (ok none) = fail (exhausted pool base max)
  allocated pool base max (err e) = fail (error internal_error "port allocation failed")

  -- The explorer's and the electrum port, where they are wanted.
  unfoldable pub explorer_port_for : Bool → Action (World C) RpcError (Option ℕ)
  unfolding next_explorer_port
  explorer_port_for wanted =
      if wanted
      then (do
        port ← try_sql (next_explorer_port explorer_port_base explorer_port_max)
        allocated "explorer port range" explorer_port_base explorer_port_max port)
      else pure none

  unfoldable pub electrum_port_for : Bool → Action (World C) RpcError (Option ℕ)
  unfolding next_electrum_port
  electrum_port_for wanted =
      if wanted
      then (do
        port ← try_sql (next_electrum_port electrum_port_base electrum_port_max)
        allocated "electrum port range" electrum_port_base electrum_port_max port)
      else pure none

  abbrev inserted :
      String → Result DbError EnvironmentRow → Action (World C) RpcError EnvironmentRow
  inserted name (ok row) = pure row
  inserted name (err unique_violation) = fail (name_in_use name)
  inserted name (err _) = fail (error internal_error "environment persist failed")

  abbrev port_pairs :
      List LightningInstance
      → Result DbError (List ℕ)
      → Action (World C) RpcError (List (LightningInstance × ℕ))
  port_pairs instances (ok ports) = pure (zip instances ports)
  port_pairs instances (err e) =
      fail (exhausted "lightning port pool" lightning_port_base lightning_port_max)

  -- A port triple for each instance.
  unfoldable pub lightning_ports_for :
      List LightningInstance → Action (World C) RpcError (List (LightningInstance × ℕ))
  unfolding next_lightning_ports
  lightning_ports_for [] = pure []
  lightning_ports_for (i ∷ instances) = do
    ports ←
        try_sql
          (next_lightning_ports lightning_port_base lightning_port_max (length (i ∷ instances)))
    port_pairs (i ∷ instances) ports

module _ {C : Type 0} (platform : Platform C) where
  -- A failed provisioning is torn down, best effort, and the row becomes `destroyed`.
  unfoldable pub provisioned :
      ℕ → Result OrchestrateError (Unit {0}) → Action (World C) RpcError (Unit {0})
  unfolding destroy_environment set_environment_status short_id
  provisioned env_id (ok u) = pure tt
  provisioned env_id (err e) = do
    teardown ← attempt (destroy_environment platform (short_id platform.simple env_id))
    outcome ← try_sql (set_environment_status env_id destroyed)
    fail (error internal_error "environment provisioning failed")

  abbrev provision_params :
      Draws
      → CreateParams
      → Map (List ℕ)
      → Option ℕ
      → Option ℕ
      → Option ℕ
      → List (LightningInstance × ℕ)
      → ProvisionParams
  unfolding short_id
  provision_params d p images expires_at explorer_port electrum_port lightning = record {
    env_id = short_id platform.simple d.env_id;
    secrets = secrets_of d;
    images = images;
    components = record {
      indexer = p.components.indexer;
      faucet = p.components.faucet;
      explorer = p.components.explorer;
    };
    electrum_port = as_u16 electrum_port;
    explorer_port = as_u16 explorer_port;
    lightning = lightning;
    expires_at = expires_at;
  }

  unfoldable pub environment_create :
      AppState → Caller → Draws → Result String CreateParams → Handler C
  unfolding version_result resolve_images resolve_expires_at free_name validate_lightning
      explorer_port_for electrum_port_for create_environment new_environment lightning_ports_for
      provision provisioned set_lightning_instances spawn_lightning_mesh bundle_for explorer_url
      indexer_endpoint short_id
  environment_create state caller d params = do
    p ← parse_params params
    images ← lift (version_result state.catalog (resolve_images state.catalog p.versions))
    expires_at ← lift (invalid (resolve_expires_at platform.add_seconds p.ttl_secs d.now))
    free_name caller p.name
    lift (invalid (validate_lightning p.components.lightning))
    explorer_port ← explorer_port_for (p.components.explorer && state.orchestrator.explorer_ports)
    electrum_port ← electrum_port_for (p.components.indexer || p.components.explorer)
    created ← try_sql (
        create_environment d.now (
          new_environment state caller platform.hyphenated d p images expires_at explorer_port
            electrum_port))
    row ← inserted p.name created
    lightning ← lightning_ports_for p.components.lightning
    outcome ← attempt (
        provision platform state.orchestrator
          (provision_params d p images expires_at explorer_port electrum_port lightning))
    provisioned d.env_id outcome
    persisted ← try_sql (set_lightning_instances d.env_id lightning)
    spawn_lightning_mesh (short_id platform.simple d.env_id) (instance_names lightning)
    pure (
        bundle (
          bundle_for platform.hyphenated row provisioning
            (some (format ("signet" ∷ ":" ∷ d.rpc_password ∷ []))) []
            (explorer_url state.orchestrator p.components.explorer
              (short_id platform.simple d.env_id) (as_u16 explorer_port))
            (indexer_endpoint state.orchestrator (as_u16 electrum_port))))
