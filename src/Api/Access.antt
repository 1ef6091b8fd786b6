-- ===== src/Api/Access.antt =====
-- Whose environment a request names, and whether its namespace is still there:
-- crates/signet-api/src/rpc.rs.
use text.Mathlib.Text.{◌==◌ as str_eq}
use signet_sandbox.Prelude.{
  String, Bool, true, false, [], ◌∷◌, Option, none, some, Result, ok, err, if◌then◌else◌,
}
use signet_sandbox.Actions.{Action, pure, fail, attempt, ◌>>=◌}
use signet_sandbox.Rpc.{RpcError, error, env_not_found, internal_error, forbidden, format}
use signet_sandbox.Store.Rows.{EnvironmentRow, expired, DbError, is_live}
use signet_sandbox.Store.Statements.{
  get_environment, get_environment_by_name, set_environment_status,
}
use signet_sandbox.Platform.{Platform, World}
use signet_sandbox.Platform.Calls.{try_sql}
use signet_sandbox.Orchestrator.Naming.{OrchestrateError}
use signet_sandbox.Orchestrator.Reaper.{environment_exists}
use signet_sandbox.Api.State.{Caller}
use signet_sandbox.Api.Validation.{short_id}

module _ {C : Type 0} (platform : Platform C) where
  abbrev looked_up :
      String → Result DbError (Option EnvironmentRow) → Action (World C) RpcError EnvironmentRow
  looked_up raw (err e) = fail (error internal_error "environment lookup failed")
  looked_up raw (ok none) =
      fail (error env_not_found (format ("environment " ∷ raw ∷ " not found" ∷ [])))
  looked_up raw (ok (some row)) = pure row

  -- A UUID names any environment, another text one of the caller's.
  unfoldable pub resolve_environment : Caller → String → Action (World C) RpcError EnvironmentRow
  unfolding get_environment get_environment_by_name
  resolve_environment caller raw = elim (platform.parse_uuid raw) [
    | some id ↦ do row ← try_sql (get_environment id); looked_up raw row
    | none ↦ do row ← try_sql (get_environment_by_name caller.npub raw); looked_up raw row
  ]

  abbrev check_owner : Caller → EnvironmentRow → Action (World C) RpcError EnvironmentRow
  check_owner caller row =
      if str_eq row.npub_owner caller.npub
      then pure row
      else fail (error forbidden "caller is not the environment owner")

  -- The lookup and the owner check that open every handler with an id.
  unfoldable pub owned_environment : Caller → String → Action (World C) RpcError EnvironmentRow
  unfolding resolve_environment
  owned_environment caller raw = do row ← resolve_environment caller raw; check_owner caller row

  abbrev pub expire_if_gone :
      EnvironmentRow → Result OrchestrateError Bool → Action (World C) RpcError EnvironmentRow
  unfolding set_environment_status
  expire_if_gone row (ok true) = pure row
  expire_if_gone row (ok false) = do
    outcome ← try_sql (set_environment_status row.id expired)
    pure (record row { status = expired })
  expire_if_gone row (err e) = pure row

  -- A live status without a namespace becomes `expired`.
  unfoldable pub reconcile_reaped : EnvironmentRow → Action (World C) RpcError EnvironmentRow
  unfolding environment_exists set_environment_status short_id
  reconcile_reaped row =
      if is_live row.status
      then (do
        found ← attempt (environment_exists platform (short_id platform.simple row.id))
        expire_if_gone row found)
      else pure row
