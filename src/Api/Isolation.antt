-- ===== src/Api/Isolation.antt =====
-- What one caller's request does to the other rows.
use mathlib.Core.Path.{subst}
use signet_sandbox.Prelude.{
  ℕ, ◌≡◌, refl, ap, ◌∙◌, ◌⊎◌, inl, inr, String, not, List, [], ◌∷◌, Result, ok, err, arith,
}
use signet_sandbox.Actions.{Action, continue, attempt, ◌>>=◌}
use signet_sandbox.Rpc.{RpcError}
use signet_sandbox.Store.Rows.{EnvironmentRow, Db, Status, statement, expired, destroyed}
use signet_sandbox.Store.Statements.{
  select, set_status, set_environment_status, is_id, purgeable, purge_environment,
}
use signet_sandbox.Store.Guarantees.{RowIn}
use signet_sandbox.Platform.{Platform, World}
use signet_sandbox.Orchestrator.Naming.{OrchestrateError}
use signet_sandbox.Orchestrator.Keeping.{keeps_destroy_environment, keeps_environment_exists}
use signet_sandbox.Orchestrator.Reaper.{environment_exists, destroy_environment}
use signet_sandbox.Api.State.{Caller, Handler}
use signet_sandbox.Api.Validation.{short_id}
use signet_sandbox.Api.Access.{owned_environment, reconcile_reaped}
use signet_sandbox.Api.Reach.{owned_environment_own}
use signet_sandbox.Api.Transitions.{transition_row_rows, update_rows}
use signet_sandbox.Api.Lifecycle.{
  Transition, result_status, transition_row, lifecycle_transition, environment_destroy,
  after_teardown, environment_delete, delete_row,
}

-- The rows of every other id.
unfoldable pub others : ℕ → List EnvironmentRow → List EnvironmentRow
unfolding select
others id rows = select (λ r. not (is_id id r)) rows

others-set_status :
    (id : ℕ) (status : Status) (rows : List EnvironmentRow)
    → others id (set_status id status rows) ≡ others id rows
unfolding others select set_status
others-set_status id status [] = refl
others-set_status id status (r ∷ rows) = ground (arith, others-set_status id status rows)

others_purge :
    (id : ℕ) (rows : List EnvironmentRow)
    → others id (select (λ r. not (purgeable id r)) rows) ≡ others id rows
unfolding others select
others_purge id [] = refl
others_purge id (r ∷ rows) = ground (arith, others_purge id rows)

-- Nothing changed, or at most the rows with the id of one of the caller's own rows.
abbrev pub OwnOnly : Caller → List EnvironmentRow → List EnvironmentRow → Type 0
OwnOnly caller before after =
    (after ≡ before)
    ⊎ ((row : EnvironmentRow) × RowIn row before
        × (row.npub_owner ≡ caller.npub)
        × (others row.id after ≡ others row.id before))

pub status_update :
    (id : ℕ) (status : Status) (db : Db)
    → others id (set_environment_status id status db).1.environments ≡ others id db.environments
status_update id status db = elim (update_rows id status db) [
  | inl same ↦ ap (others id) same
  | inr changed ↦ ap (others id) changed ∙ others-set_status id status db.environments
]

purge_update :
    (id : ℕ) (db : Db)
    → others id (purge_environment id db).1.environments ≡ others id db.environments
unfolding purge_environment statement
purge_update id db = ground (arith, others_purge id db.environments)

module _ {C : Type 0} (platform : Platform C) where
  -- The action changes no row of another id.
  abbrev pub Elsewhere : {A : Type 0} → ℕ → Action (World C) RpcError A → Type 0
  Elsewhere id m = (w : World C) → others id (m w).1.db.environments ≡ others id w.db.environments

  own_step :
      (caller : Caller) (f : EnvironmentRow → Handler C)
      → ((row : EnvironmentRow) → Elsewhere row.id (f row))
      → (w : World C) (r : Result RpcError EnvironmentRow × World C)
      → (r.1.db.environments ≡ w.db.environments)
      → ((row : EnvironmentRow)
          → r.0 ≡ ok row
          → RowIn row w.db.environments × (row.npub_owner ≡ caller.npub))
      → OwnOnly caller w.db.environments (continue f r).1.db.environments
  own_step caller f body w (ok row, w') same own =
      let (stands, mine) = own row refl in
      inr (row, stands, mine, body row w' ∙ ap (others row.id) same)
  own_step caller f body w (err e, w') same own = inl same

  pub own_bind :
      (caller : Caller) (raw : String) (f : EnvironmentRow → Handler C)
      → ((row : EnvironmentRow) → Elsewhere row.id (f row))
      → (w : World C)
      → OwnOnly caller w.db.environments
          ((owned_environment platform caller raw >>= f) w).1.db.environments
  own_bind caller raw f body w =
      let (same, own) = owned_environment_own platform caller raw w in
      own_step caller f body w (owned_environment platform caller raw w) same own

  delete_row-Elsewhere : (row : EnvironmentRow) → Elsewhere row.id (delete_row platform row)
  unfolding delete_row
  delete_row-Elsewhere row w = ground (arith, purge_update row.id w.db)

  teardown-Elsewhere :
      (row : EnvironmentRow) (outcome : Result OrchestrateError (Unit {0}))
      → Elsewhere row.id (after_teardown platform row outcome)
  unfolding set_environment_status
  teardown-Elsewhere row (ok u) w = status_update row.id destroyed w.db
  teardown-Elsewhere row (err e) w = refl

  -- The handler's body, once the row is known.
  abbrev destroy_row : EnvironmentRow → Handler C
  destroy_row row = do
    outcome ← attempt (destroy_environment platform (short_id platform.simple row.id))
    after_teardown platform row outcome

  destroy_row-Elsewhere : (row : EnvironmentRow) → Elsewhere row.id (destroy_row row)
  destroy_row-Elsewhere row w =
      let torn = destroy_environment platform (short_id platform.simple row.id) w in
      teardown-Elsewhere row torn.0 torn.1
      ∙ ap (λ (db : Db). others row.id db.environments)
          (keeps_destroy_environment platform (short_id platform.simple row.id) w)

  transition-Elsewhere :
      (t : Transition) (row : EnvironmentRow) → Elsewhere row.id (transition_row platform t row)
  transition-Elsewhere t row w = elim (transition_row_rows platform t row w) [
    | inl same ↦ ap (others row.id) same
    | inr (right, changed) ↦
        ap (others row.id) changed ∙ others-set_status row.id (result_status t) w.db.environments
  ]

  -- The reconciled row has the id of the row, and no other row changes.
  pub reconcile_lem :
      (row : EnvironmentRow) (w : World C)
      → (others row.id (reconcile_reaped platform row w).1.db.environments
          ≡ others row.id w.db.environments)
        × ((row' : EnvironmentRow)
            → (reconcile_reaped platform row w).0 ≡ ok row'
            → row'.id ≡ row.id)
  unfolding reconcile_reaped
  reconcile_lem row w =
      let found = environment_exists platform (short_id platform.simple row.id) w in
      let kept = keeps_environment_exists platform (short_id platform.simple row.id) w in
      let updated = status_update row.id expired found.1.db in
      (ground arith, λ row' e. ground arith)

  lifecycle_step :
      (t : Transition) (id : ℕ) (w : World C) (r : Result RpcError EnvironmentRow × World C)
      → (others id r.1.db.environments ≡ others id w.db.environments)
      → ((row' : EnvironmentRow) → r.0 ≡ ok row' → row'.id ≡ id)
      → others id (continue (transition_row platform t) r).1.db.environments
        ≡ others id w.db.environments
  lifecycle_step t id w (err e, w') same ids = same
  lifecycle_step t id w (ok row', w') same ids =
      subst
        (λ i.
          others i (transition_row platform t row' w').1.db.environments
          ≡ others i w'.db.environments)
        (ids row' refl) (transition-Elsewhere t row' w')
      ∙ same

  -- Whatever the parameters, the statements that fail and the answers of the cluster: stopping,
  -- starting, destroying and deleting change no row, or at most the rows with the id of one row of
  -- the table, which the caller owns.
  pub own_rows_only :
      (caller : Caller) (params : Result String String) (t : Transition) (w : World C)
      → OwnOnly caller w.db.environments
          (lifecycle_transition platform caller params t w).1.db.environments
        × OwnOnly caller w.db.environments
            (environment_destroy platform caller params w).1.db.environments
        × OwnOnly caller w.db.environments
            (environment_delete platform caller params w).1.db.environments
  unfolding lifecycle_transition environment_destroy environment_delete
  own_rows_only caller (err message) t w = (inl refl, inl refl, inl refl)
  own_rows_only caller (ok raw) t w = (
    own_bind caller raw (λ row. reconcile_reaped platform row >>= transition_row platform t)
        (λ row w'.
          let (same, ids) = reconcile_lem row w' in
          lifecycle_step t row.id w' (reconcile_reaped platform row w') same ids)
        w,
    own_bind caller raw destroy_row destroy_row-Elsewhere w,
    own_bind caller raw (delete_row platform) delete_row-Elsewhere w,
  )
