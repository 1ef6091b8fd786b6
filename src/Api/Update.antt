-- ===== src/Api/Update.antt =====
-- `environment.update`: crates/signet-api/src/rpc.rs. It adds Lightning instances to a ready
-- environment.
use text.Mathlib.Text.{◌==◌ as str_eq}
use signet_sandbox.Prelude.{
  ℕ, String, Bool, false, ◌||◌, List, [], ◌∷◌, ◌++◌, Option, none, some, Result, ok, err,
  if◌then◌else◌,
}
use signet_sandbox.Actions.{Action, pure, fail, lift, attempt, ◌>>=◌, ◌>>◌}
use signet_sandbox.Rpc.{RpcError, error, invalid_params, internal_error, format}
use signet_sandbox.Maps.{Map}
use signet_sandbox.Core.{LightningInstance, ready}
use signet_sandbox.Images.{resolve_images}
use signet_sandbox.Versions.{VersionCatalog}
use signet_sandbox.Store.Rows.{
  EnvironmentRow, LightningRow, DbError, StoredVersions, ready as row_ready,
}
use signet_sandbox.Store.Lightning.{get_lightning_instances, set_lightning_instances}
use signet_sandbox.Platform.{Platform, World}
use signet_sandbox.Platform.Calls.{try_sql}
use signet_sandbox.Orchestrator.Naming.{OrchestrateError}
use signet_sandbox.Orchestrator.Provision.{add_lightning_instances}
use signet_sandbox.Api.State.{AppState, Caller, Handler, status_text, parse_params, invalid}
use signet_sandbox.Api.Messages.{version_result}
use signet_sandbox.Api.Validation.{validate_lightning, short_id}
use signet_sandbox.Api.Access.{owned_environment, reconcile_reaped}
use signet_sandbox.Api.Lifecycle.{same_status}
use signet_sandbox.Api.Bundles.{bundle_response, spawn_lightning_mesh}
use signet_sandbox.Api.Create.{instance_names, lightning_ports_for}

pub record UpdateParams : Type 0 where
  pub id : String
  pub lightning : List LightningInstance

abbrev find_instance : String → List LightningInstance → Option LightningInstance
find_instance name [] = none
find_instance name (i ∷ instances) =
    if str_eq i.name name then some i else find_instance name instances

abbrev has_row : String → List LightningRow → Bool
has_row name [] = false
has_row name (l ∷ rows) = str_eq l.name name || has_row name rows

-- Every existing instance must be asked for again.
unfoldable pub check_removals :
    List LightningInstance → List LightningRow → Result RpcError (Unit {0})
check_removals wanted [] = ok tt
check_removals wanted (l ∷ rows) = elim (find_instance l.name wanted) [
  | some i ↦ check_removals wanted rows
  | none ↦ err (
      error invalid_params
        (format ("removing lightning instance `" ∷ l.name ∷ "` is not supported" ∷ [])))
]

unfoldable pub additions : List LightningRow → List LightningInstance → List LightningInstance
additions existing [] = []
additions existing (i ∷ wanted) =
    let rest = additions existing wanted in if has_row i.name existing then rest else i ∷ rest

abbrev port_or_zero : Option ℕ → ℕ
port_or_zero none = 0
port_or_zero (some p) = p

-- The existing instances with their ports.
unfoldable pub kept : List LightningInstance → List LightningRow → List (LightningInstance × ℕ)
kept wanted [] = []
kept wanted (l ∷ rows) = elim (find_instance l.name wanted) [
  | none ↦ kept wanted rows
  | some i ↦ (i, port_or_zero l.port) ∷ kept wanted rows
]

unfoldable pub images_of : VersionCatalog → Option StoredVersions → Result RpcError (Map (List ℕ))
unfolding version_result resolve_images
images_of catalog none = version_result catalog (resolve_images catalog none)
images_of catalog (some none) = err (error internal_error "environment update failed")
images_of catalog (some (some images)) = ok images

module _ {C : Type 0} (platform : Platform C) where
  abbrev existing_rows :
      Result DbError (List LightningRow) → Action (World C) RpcError (List LightningRow)
  existing_rows (ok rows) = pure rows
  existing_rows (err e) = fail (error internal_error "lightning instance lookup failed")

  abbrev require_ready : EnvironmentRow → Action (World C) RpcError (Unit {0})
  unfolding status_text
  require_ready row =
      if same_status row.status row_ready
      then pure tt
      else fail (
          error invalid_params (
            format (
              "environment `"
              ∷ row.name
              ∷ "` is "
              ∷ status_text row.status
              ∷ " — only ready environments can be updated"
              ∷ [])))

  abbrev require_applied : Result OrchestrateError (Unit {0}) → Action (World C) RpcError (Unit {0})
  require_applied (ok u) = pure tt
  require_applied (err e) = fail (error internal_error "environment update failed")

  -- What follows once there is something to add.
  unfoldable pub add_instances :
      AppState
      → String
      → EnvironmentRow
      → List LightningInstance
      → List LightningRow
      → List LightningInstance
      → Handler C
  unfolding images_of kept lightning_ports_for add_lightning_instances set_lightning_instances
      spawn_lightning_mesh bundle_response short_id
  add_instances state password row wanted existing new = do
    images ← lift (images_of state.catalog row.versions)
    pairs ← lightning_ports_for new
    outcome ← attempt (
        add_lightning_instances platform state.orchestrator (short_id platform.simple row.id) pairs
          images password)
    require_applied outcome
    persisted ← try_sql (set_lightning_instances row.id (kept wanted existing ++ pairs))
    spawn_lightning_mesh (short_id platform.simple row.id)
        (instance_names (kept wanted existing ++ pairs))
    bundle_response platform state row ready

  abbrev add_or_answer :
      AppState
      → String
      → EnvironmentRow
      → List LightningInstance
      → List LightningRow
      → List LightningInstance
      → Handler C
  unfolding add_instances bundle_response
  add_or_answer state password row wanted existing [] = bundle_response platform state row ready
  add_or_answer state password row wanted existing (i ∷ new) =
      add_instances state password row wanted existing (i ∷ new)

  -- `password` is the one that the call draws.
  unfoldable pub environment_update :
      AppState → Caller → String → Result String UpdateParams → Handler C
  unfolding owned_environment reconcile_reaped status_text validate_lightning
      get_lightning_instances check_removals additions add_instances bundle_response
  environment_update state caller password params = do
    p ← parse_params params
    found ← owned_environment platform caller p.id
    row ← reconcile_reaped platform found
    require_ready row
    lift (invalid (validate_lightning p.lightning))
    instances ← try_sql (get_lightning_instances row.id)
    existing ← existing_rows instances
    lift (check_removals p.lightning existing)
    add_or_answer state password row p.lightning existing (additions existing p.lightning)
