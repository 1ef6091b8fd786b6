-- ===== src/Api/Transitions.antt =====
-- The state machine of an environment's status, and what stopping and starting do to the table.
use signet_sandbox.Prelude.{ℕ, ◌≡◌, refl, ◌⊎◌, inl, true, Result, ok, err, arith}
use signet_sandbox.Store.Rows.{EnvironmentRow, Db, statement, Status}
use signet_sandbox.Store.Statements.{set_status, set_environment_status}
use signet_sandbox.Orchestrator.Naming.{OrchestrateError}
use signet_sandbox.Orchestrator.Workloads.{set_workload_replicas}
use signet_sandbox.Orchestrator.Keeping.{keeps_set_workload_replicas}
use signet_sandbox.Platform.{Platform, World}
use signet_sandbox.Api.Validation.{short_id}
use signet_sandbox.Api.Lifecycle.{
  Transition, required_status, result_status, replicas, transition_row, after_scaling, same_status,
}

pub update_rows :
    (id : ℕ) (status : Status) (db : Db)
    → ((set_environment_status id status db).1.environments ≡ db.environments)
      ⊎ ((set_environment_status id status db).1.environments
          ≡ set_status id status db.environments)
unfolding set_environment_status statement
update_rows id status db = ground arith

same_status_eq : (a b : Status) → same_status a b ≡ true → a ≡ b
same_status_eq a b h = ground arith

module _ {C : Type 0} (platform : Platform C) where
  after_scaling_lem :
      (t : Transition) (row : EnvironmentRow) (outcome : Result OrchestrateError (Unit {0}))
      (w : World C)
      → ((after_scaling platform t row outcome w).1.db.environments ≡ w.db.environments)
        ⊎ ((after_scaling platform t row outcome w).1.db.environments
            ≡ set_status row.id (result_status t) w.db.environments)
  unfolding set_environment_status result_status
  after_scaling_lem t row (err e) w = inl refl
  after_scaling_lem t row (ok u) w = update_rows row.id (result_status t) w.db

  -- Stopping or starting an environment changes no row, or only that environment's status, which
  -- was `ready` and becomes `stopped`, or was `stopped` and becomes `provisioning`.
  pub transition_row_rows :
      (t : Transition) (row : EnvironmentRow) (w : World C)
      → ((transition_row platform t row w).1.db.environments ≡ w.db.environments)
        ⊎ ((row.status ≡ required_status t)
            × ((transition_row platform t row w).1.db.environments
                ≡ set_status row.id (result_status t) w.db.environments))
  unfolding transition_row required_status result_status
  transition_row_rows t row w =
      let scaled =
        set_workload_replicas platform (short_id platform.simple row.id) (replicas t) w in
      let kept =
        keeps_set_workload_replicas platform (short_id platform.simple row.id) (replicas t) w in
      let after = after_scaling_lem t row scaled.0 scaled.1 in
      let same = same_status_eq row.status (required_status t) in ground arith
