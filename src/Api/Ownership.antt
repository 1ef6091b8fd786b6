-- ===== src/Api/Ownership.antt =====
-- Who may act on an environment.
use text.Mathlib.TextEquality.{eq_iff}
use signet_sandbox.Prelude.{ℕ, ◌≡◌, ◌≢◌, String, [], some, Result, ok, err, arith}
use signet_sandbox.Rpc.{RpcError, error, forbidden}
use signet_sandbox.Store.Rows.{EnvironmentRow, statement}
use signet_sandbox.Store.Statements.{find, is_id, get_environment}
use signet_sandbox.Platform.{Platform, World}
use signet_sandbox.Api.State.{AppState, Caller, Payload}
use signet_sandbox.Api.Access.{resolve_environment, owned_environment}
use signet_sandbox.Api.Lifecycle.{
  Transition, lifecycle_transition, environment_destroy, environment_delete, environment_faucet,
  FaucetParams,
}
use signet_sandbox.Api.Bundles.{environment_get}
use signet_sandbox.Api.Update.{environment_update, UpdateParams}

abbrev pub refused : {C : Type 0} → World C → Result RpcError Payload × World C
refused w = (err (error forbidden "caller is not the environment owner"), w)

module _ {C : Type 0} (platform : Platform C) where
  found_by_id :
      (id : ℕ) (w : World C)
      → w.db.faults ≡ []
      → get_environment id w.db ≡ (ok (find (is_id id) w.db.environments), w.db)
  unfolding get_environment statement
  found_by_id id w quiet = rw quiet

  -- A UUID of another owner's environment.
  refused_lookup :
      (caller : Caller) (raw : String) (id : ℕ) (row : EnvironmentRow) (w : World C)
      → platform.parse_uuid raw ≡ some id
      → w.db.faults ≡ []
      → find (is_id id) w.db.environments ≡ some row
      → row.npub_owner ≢ caller.npub
      → owned_environment platform caller raw w
        ≡ (err (error forbidden "caller is not the environment owner"), w)
  unfolding owned_environment resolve_environment get_environment statement
  refused_lookup caller raw id row w uuid quiet found foreign =
      ground (arith, eq_iff row.npub_owner caller.npub)

  -- Where no statement fails, whoever names another owner's environment by its UUID is refused with
  -- FORBIDDEN by each handler that takes an id (get, stop, start, destroy, delete, update and
  -- faucet), and neither the database nor the cluster changes.
  pub foreign_environment_refused :
      (state : AppState) (caller : Caller) (raw : String) (id : ℕ) (row : EnvironmentRow)
      (w : World C) (t : Transition) (password : String) (u : UpdateParams) (f : FaucetParams)
      → u.id ≡ raw
      → f.id ≡ raw
      → platform.parse_uuid raw ≡ some id
      → w.db.faults ≡ []
      → find (is_id id) w.db.environments ≡ some row
      → row.npub_owner ≢ caller.npub
      → (environment_get platform state caller (ok raw) w ≡ refused w)
        × (lifecycle_transition platform caller (ok raw) t w ≡ refused w)
        × (environment_destroy platform caller (ok raw) w ≡ refused w)
        × (environment_delete platform caller (ok raw) w ≡ refused w)
        × (environment_update platform state caller password (ok u) w ≡ refused w)
        × (environment_faucet platform caller (ok f) w ≡ refused w)
  unfolding environment_get lifecycle_transition environment_destroy environment_delete
      environment_update environment_faucet
  foreign_environment_refused state caller raw id row w t password u f same_u same_f uuid quiet
        found foreign =
      let lookup : owned_environment platform caller raw w
          ≡ (err (error forbidden "caller is not the environment owner"), w) =
        refused_lookup caller raw id row w uuid quiet found foreign in
      (rw lookup, rw lookup, rw lookup, rw lookup, rw (same_u, lookup), rw (same_f, lookup))
