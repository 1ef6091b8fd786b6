-- ===== src/Api/Lifecycle.antt =====
-- The handlers that list, stop, start, destroy, delete and fund environments:
-- crates/signet-api/src/rpc.rs.
use signet_sandbox.Prelude.{
  ℕ, String, Bool, true, false, List, [], ◌∷◌, Result, ok, err, map, if◌then◌else◌,
}
use signet_sandbox.Actions.{pure, fail, attempt, ◌>>=◌}
use signet_sandbox.Rpc.{
  error, chain_error, internal_error, invalid_params, not_available_in_phase, faucet_failed,
  invalid_address, format,
}
use signet_sandbox.Store.Rows.{
  EnvironmentRow, Status, provisioning, ready, stopped, expired, destroyed, DbError, is_dead,
}
use signet_sandbox.Store.Statements.{set_environment_status, list_environments, purge_environment}
use signet_sandbox.Platform.{Platform}
use signet_sandbox.Platform.Calls.{try_sql}
use signet_sandbox.Orchestrator.Naming.{OrchestrateError}
use signet_sandbox.Orchestrator.Reaper.{destroy_environment}
use signet_sandbox.Orchestrator.Workloads.{set_workload_replicas, faucet_fund}
use signet_sandbox.Api.State.{
  Caller, Handler, Listed, environments, transitioned, torn_down, removed, funded, status_text,
  status_as_env, parse_params,
}
use signet_sandbox.Api.Validation.{short_id}
use signet_sandbox.Api.Access.{owned_environment, reconcile_reaped}

pub data Transition : Type 0 where
  stop start : Transition

unfoldable pub required_status : Transition → Status
required_status stop = ready
required_status start = stopped

unfoldable pub replicas : Transition → ℕ
replicas stop = 0
replicas start = 1

unfoldable pub result_status : Transition → Status
result_status stop = stopped
result_status start = provisioning

abbrev pub same_status : Status → Status → Bool
same_status provisioning provisioning = true
same_status ready ready = true
same_status stopped stopped = true
same_status expired expired = true
same_status destroyed destroyed = true
same_status _ _ = false

pub record FaucetParams : Type 0 where
  pub id : String
  pub address : String
  pub amount_sat : ℕ

unfoldable pub listed : EnvironmentRow → Listed
unfolding status_as_env
listed row = record {
  id = row.id;
  name = row.name;
  status = status_as_env row.status;
  created_at = row.created_at;
  expires_at = row.expires_at;
}

abbrev wrong_state : Transition → String
wrong_state stop = "not ready"
wrong_state start = "not stopped"

module _ {C : Type 0} (platform : Platform C) where
  abbrev list_result : Result DbError (List EnvironmentRow) → Handler C
  unfolding listed
  list_result (ok rows) = pure (environments (map listed rows))
  list_result (err e) = fail (error internal_error "environment list failed")

  unfoldable pub environment_list : Caller → Handler C
  unfolding list_environments listed
  environment_list caller = do rows ← try_sql (list_environments caller.npub); list_result rows

  -- Once the workloads are scaled, a failed update of the row is only logged.
  abbrev pub after_scaling :
      Transition → EnvironmentRow → Result OrchestrateError (Unit {0}) → Handler C
  unfolding set_environment_status result_status
  after_scaling t row (err e) = fail (error internal_error "workload scale failed")
  after_scaling t row (ok u) = do
    outcome ← try_sql (set_environment_status row.id (result_status t))
    pure (transitioned row.id (result_status t))

  -- The transition on a row that has been reconciled.
  unfoldable pub transition_row : Transition → EnvironmentRow → Handler C
  unfolding required_status replicas set_workload_replicas status_text short_id
      set_environment_status result_status
  transition_row t row =
      if same_status row.status (required_status t)
      then (do
        outcome ←
            attempt (set_workload_replicas platform (short_id platform.simple row.id) (replicas t))
        after_scaling t row outcome)
      else fail (
          error chain_error (
            format (
              "environment is "
              ∷ wrong_state t
              ∷ " (status: "
              ∷ status_text row.status
              ∷ ")"
              ∷ [])))

  unfoldable pub lifecycle_transition : Caller → Result String String → Transition → Handler C
  unfolding owned_environment reconcile_reaped transition_row
  lifecycle_transition caller params t = do
    id ← parse_params params
    row ← owned_environment platform caller id
    row' ← reconcile_reaped platform row
    transition_row t row'

  abbrev pub after_teardown : EnvironmentRow → Result OrchestrateError (Unit {0}) → Handler C
  unfolding set_environment_status
  after_teardown row (err e) = fail (error internal_error "environment teardown failed")
  after_teardown row (ok u) = do
    outcome ← try_sql (set_environment_status row.id destroyed)
    pure torn_down

  unfoldable pub environment_destroy : Caller → Result String String → Handler C
  unfolding owned_environment destroy_environment short_id set_environment_status
  environment_destroy caller params = do
    id ← parse_params params
    row ← owned_environment platform caller id
    outcome ← attempt (destroy_environment platform (short_id platform.simple row.id))
    after_teardown row outcome

  abbrev purged : Result DbError Bool → Handler C
  purged (ok true) = pure removed
  purged (ok false) = fail (error invalid_params "environment not found")
  purged (err e) = fail (error internal_error "environment delete failed")

  -- The record of an environment that is dead.
  unfoldable pub delete_row : EnvironmentRow → Handler C
  unfolding purge_environment
  delete_row row =
      if is_dead row.status
      then (do outcome ← try_sql (purge_environment row.id); purged outcome)
      else fail (
          error invalid_params
            "environment must be destroyed or expired before its record can be deleted")

  unfoldable pub environment_delete : Caller → Result String String → Handler C
  unfolding owned_environment delete_row
  environment_delete caller params = do
    id ← parse_params params
    row ← owned_environment platform caller id
    delete_row row

  abbrev fund_result : Result OrchestrateError String → Handler C
  fund_result (ok txid) = pure (funded txid)
  fund_result (err e) = fail (error faucet_failed "faucet funding failed")

  unfoldable pub fund_row : FaucetParams → EnvironmentRow → Handler C
  unfolding faucet_fund short_id status_text
  fund_row params row =
      if row.component_faucet
      then (if same_status row.status ready
          then elim (platform.signet_address params.address) [
            | err message ↦ fail (error invalid_address message)
            | ok u ↦ do
              outcome ← attempt (
                  faucet_fund platform (short_id platform.simple row.id) params.address
                    params.amount_sat)
              fund_result outcome
          ]
          else fail (
              error faucet_failed (
                format ("environment is not ready (status: " ∷ status_text row.status ∷ ")" ∷ []))))
      else fail (error not_available_in_phase "environment has no faucet component")

  unfoldable pub environment_faucet : Caller → Result String FaucetParams → Handler C
  unfolding owned_environment fund_row
  environment_faucet caller params = do
    p ← parse_params params
    row ← owned_environment platform caller p.id
    fund_row p row
