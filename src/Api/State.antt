-- ===== src/Api/State.antt =====
-- The server's state, the callers and the results of the methods.
use signet_sandbox.Prelude.{ℕ, String, List, Option, Result, ok, err}
use signet_sandbox.Actions.{Action, lift}
use signet_sandbox.Rpc.{RpcError, error, invalid_params}
use signet_sandbox.Core.{
  EnvStatus, BlockPolicy, interval_30s, on_demand, ConnectionBundle, provisioning, ready, stopped,
  expired, destroyed,
}
use signet_sandbox.Versions.{VersionCatalog}
use signet_sandbox.Orchestrator.Naming.{Orchestrator}
use signet_sandbox.Platform.{World}
use signet_sandbox.Store.Rows.{
  Status, provisioning as row_provisioning, ready as row_ready, stopped as row_stopped,
  expired as row_expired, destroyed as row_destroyed,
}

-- The pool and the client are in the world; the age limit of NIP-98 belongs to the authentication.
pub record AppState : Type 0 where
  pub public_url : String
  pub orchestrator : Orchestrator
  pub catalog : VersionCatalog

pub record Caller : Type 0 where
  pub npub : String

pub record Listed : Type 0 where
  pub id : ℕ
  pub name : String
  pub status : EnvStatus
  pub created_at : ℕ
  pub expires_at : Option ℕ

-- The results, before they are serialized.
pub data Payload : Type 0 where
  bundle : ConnectionBundle → Payload
  environments : List Listed → Payload
  transitioned : ℕ → Status → Payload
  torn_down removed : Payload
  funded token : String → Payload
  entries : VersionCatalog → Payload

abbrev pub Handler : Type 0 → Type 0
Handler C = Action (World C) RpcError Payload

-- The text of the column `status`.
unfoldable pub status_text : Status → String
status_text row_provisioning = "provisioning"
status_text row_ready = "ready"
status_text row_stopped = "stopped"
status_text row_expired = "expired"
status_text row_destroyed = "destroyed"

unfoldable pub status_as_env : Status → EnvStatus
status_as_env row_ready = ready
status_as_env row_stopped = stopped
status_as_env row_expired = expired
status_as_env row_destroyed = destroyed
status_as_env row_provisioning = provisioning

unfoldable pub policy_as_str : BlockPolicy → String
policy_as_str interval_30s = "interval_30s"
policy_as_str on_demand = "on_demand"

abbrev pub invalid : {A : Type 0} → Result String A → Result RpcError A
invalid (ok a) = ok a
invalid (err message) = err (error invalid_params message)

-- The parameters, or the error INVALID_PARAMS.
abbrev pub parse_params : {C A : Type 0} → Result String A → Action (World C) RpcError A
parse_params params = lift (invalid params)
