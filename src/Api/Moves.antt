-- ===== src/Api/Moves.antt =====
-- The steps of an environment's status that stopping and starting may take.
use signet_sandbox.Prelude.{
  ℕ, ◌≡◌, ◌≢◌, refl, sym, ap, ◌∙◌, ◌⊎◌, inl, inr, if◌then◌else◌, String, Bool, true, false, List,
  [], ◌∷◌, Result, ok, err, arith,
}
use mathlib.Core.Path.{subst}
use signet_sandbox.Actions.{pure, attempt, continue, ◌>>=◌}
use signet_sandbox.Rpc.{RpcError}
use signet_sandbox.Store.Rows.{
  Db, EnvironmentRow, Status, is_live, provisioning, ready, stopped, expired,
}
use signet_sandbox.Store.Statements.{set_status, set_environment_status}
use signet_sandbox.Store.Guarantees.{RowIn}
use signet_sandbox.Platform.{Platform, World}
use signet_sandbox.Orchestrator.Naming.{OrchestrateError}
use signet_sandbox.Orchestrator.Reaper.{environment_exists}
use signet_sandbox.Orchestrator.Keeping.{keeps_environment_exists}
use signet_sandbox.Api.State.{Caller}
use signet_sandbox.Api.Validation.{short_id}
use signet_sandbox.Api.Access.{owned_environment, reconcile_reaped, expire_if_gone}
use signet_sandbox.Api.Reach.{owned_environment_own}
use signet_sandbox.Api.Transitions.{transition_row_rows, update_rows}
use signet_sandbox.Api.Lifecycle.{
  Transition, stop, start, required_status, result_status, transition_row, lifecycle_transition,
}

-- What a request may do to a status: stop what is ready, start what is stopped, and notice that a
-- live environment is gone.
pub data Moves : Transition → Status → Status → Type 0 where
  stops : Moves stop ready stopped
  starts : Moves start stopped provisioning
  lapses_provisioning : {t : Transition} → Moves t provisioning expired
  lapses_ready : {t : Transition} → Moves t ready expired
  lapses_stopped : {t : Transition} → Moves t stopped expired

-- The rows with the id have the new status, and nothing else changed.
abbrev pub IsUpdated : ℕ → Status → List EnvironmentRow → List EnvironmentRow → Type 0
IsUpdated id new [] [] = Unit
IsUpdated id new (r ∷ rows) (s ∷ after) =
    (((r.id ≡ id) × (s ≡ record r { status = new })) ⊎ ((r.id ≢ id) × (s ≡ r)))
    × IsUpdated id new rows after
IsUpdated id new _ _ = ⊥

set_status-IsUpdated :
    (id : ℕ) (new : Status) (rows : List EnvironmentRow)
    → IsUpdated id new rows (set_status id new rows)
unfolding set_status
set_status-IsUpdated id new [] = tt
set_status-IsUpdated id new (r ∷ rows) = (ground arith, set_status-IsUpdated id new rows)

lapses : (t : Transition) (s : Status) → is_live s ≡ true → Moves t s expired
lapses t provisioning h = lapses_provisioning
lapses t ready h = lapses_ready
lapses t stopped h = lapses_stopped
lapses t expired h = cc
lapses t Status.destroyed h = cc

required-Moves : (t : Transition) (s : Status) → s ≡ required_status t → Moves t s (result_status t)
unfolding required_status result_status
required-Moves stop s e = subst (λ s. Moves stop s stopped) (sym e) stops
required-Moves start s e = subst (λ s. Moves start s provisioning) (sym e) starts

not_expired : (t : Transition) → required_status t ≢ expired
unfolding required_status
not_expired stop e = cc
not_expired start e = cc

-- Nothing changed, or one of the caller's own rows made a move.
abbrev pub IsMoved : Transition → Caller → List EnvironmentRow → List EnvironmentRow → Type 0
IsMoved t caller before after =
    (after ≡ before)
    ⊎ ((row : EnvironmentRow) × (new : Status) × RowIn row before
        × (row.npub_owner ≡ caller.npub)
        × Moves t row.status new
        × IsUpdated row.id new before after)

module _ {C : Type 0} (platform : Platform C) where
  -- The table after the reconciliation of a row, and the row that it gives.
  abbrev Reconciled : EnvironmentRow → World C → Result RpcError EnvironmentRow × World C → Type 0
  Reconciled row w r =
      ((r.1.db.environments ≡ w.db.environments)
        × ((row' : EnvironmentRow) → r.0 ≡ ok row' → (row' ≡ row) ⊎ (row'.status ≡ expired)))
      ⊎ ((is_live row.status ≡ true)
          × (r.1.db.environments ≡ set_status row.id expired w.db.environments)
          × ((row' : EnvironmentRow) → r.0 ≡ ok row' → row'.status ≡ expired))

  expire-Reconciled :
      (row : EnvironmentRow) (w : World C) (r : Result OrchestrateError Bool × World C)
      → r.1.db ≡ w.db
      → is_live row.status ≡ true
      → Reconciled row w (continue (expire_if_gone platform row) (ok r.0, r.1))
  unfolding set_environment_status
  expire-Reconciled row w (ok true, v) kept live =
      inl (ap (λ (db : Db). db.environments) kept, λ row' e. inl cc)
  expire-Reconciled row w (err f, v) kept live =
      inl (ap (λ (db : Db). db.environments) kept, λ row' e. inl cc)
  expire-Reconciled row w (ok false, v) kept live = elim (update_rows row.id expired v.db) [
    | inl same ↦ inl (same ∙ ap (λ (db : Db). db.environments) kept, λ row' e. inr cc)
    | inr changed ↦ inr (
      live,
      changed ∙ ap (λ (db : Db). set_status row.id expired db.environments) kept,
      λ row' e. cc,
    )
  ]

  reconcile-Reconciled :
      (row : EnvironmentRow) (w : World C) → Reconciled row w (reconcile_reaped platform row w)
  unfolding reconcile_reaped
  reconcile-Reconciled row w = go (is_live row.status) refl
    where
      found : Result OrchestrateError Bool × World C
      found = environment_exists platform (short_id platform.simple row.id) w

      go :
          (b : Bool)
          → is_live row.status ≡ b
          → Reconciled row w (
              (if b
                  then (do
                    found ← attempt (environment_exists platform (short_id platform.simple row.id))
                    expire_if_gone platform row found)
                  else pure row)
                w)
      go true live =
          expire-Reconciled row w found
            (keeps_environment_exists platform (short_id platform.simple row.id) w) live
      go false dead = inl (refl, λ row' e. inl (cc (sym e)))

  -- A reconciled row that is scaled: at most one move of the row that was looked up.
  Reconciled-IsMoved :
      (t : Transition) (caller : Caller) (row : EnvironmentRow) (w : World C)
      → RowIn row w.db.environments
      → row.npub_owner ≡ caller.npub
      → (r : Result RpcError EnvironmentRow × World C) → Reconciled row w r
      → IsMoved t caller w.db.environments
          (continue (transition_row platform t) r).1.db.environments
  Reconciled-IsMoved t caller row w stands mine (err e, v) (inl (same, rows)) = inl same
  Reconciled-IsMoved t caller row w stands mine (err e, v) (inr (live, changed, rows)) = inr (
    row,
    expired,
    stands,
    mine,
    lapses t row.status live,
    subst (IsUpdated row.id expired w.db.environments) (sym changed)
        (set_status-IsUpdated row.id expired w.db.environments),
  )
  Reconciled-IsMoved t caller row w stands mine (ok row', v) (inl (same, rows)) =
      elim (transition_row_rows platform t row' v) [
        | inl kept ↦ inl (kept ∙ same)
        | inr (right, changed) ↦ elim (rows row' refl) [
          | inl is ↦ inr (
            row,
            result_status t,
            stands,
            mine,
            required-Moves t row.status
                (subst (λ (r : EnvironmentRow). r.status ≡ required_status t) is right),
            subst (IsUpdated row.id (result_status t) w.db.environments)
                (sym (
                  changed
                  ∙ ap (λ (r : EnvironmentRow). set_status r.id (result_status t) v.db.environments)
                      is
                  ∙ ap (set_status row.id (result_status t)) same))
                (set_status-IsUpdated row.id (result_status t) w.db.environments),
          )
          | inr gone ↦ absurd (not_expired t (sym right ∙ gone))
        ]
      ]
  Reconciled-IsMoved t caller row w stands mine (ok row', v) (inr (live, changed, rows)) =
      elim (transition_row_rows platform t row' v) [
        | inl kept ↦ inr (
          row,
          expired,
          stands,
          mine,
          lapses t row.status live,
          subst (IsUpdated row.id expired w.db.environments) (sym (kept ∙ changed))
              (set_status-IsUpdated row.id expired w.db.environments),
        )
        | inr (right, more) ↦ absurd (not_expired t (sym right ∙ rows row' refl))
      ]

  found-IsMoved :
      (t : Transition) (caller : Caller) (w : World C)
      (r : Result RpcError EnvironmentRow × World C)
      → (r.1.db.environments ≡ w.db.environments)
      → ((row : EnvironmentRow)
          → r.0 ≡ ok row
          → RowIn row w.db.environments × (row.npub_owner ≡ caller.npub))
      → IsMoved t caller w.db.environments
          (continue
            (λ row. reconcile_reaped platform row >>= transition_row platform t)
            r).1.db.environments
  found-IsMoved t caller w (err e, v) same own = inl same
  found-IsMoved t caller w (ok row, v) same own =
      let (stands, mine) = own row refl in
      subst
        (λ rows.
          IsMoved t caller rows
            ((reconcile_reaped platform row >>= transition_row platform t) v).1.db.environments)
        same
        (Reconciled-IsMoved t caller row v (subst (RowIn row) (sym same) stands) mine
          (reconcile_reaped platform row v) (reconcile-Reconciled row v))

  -- Stopping or starting, whatever the parameters, the statements that fail and the answers of the
  -- cluster, changes no row, or the status of one environment of the table that the caller owns and
  -- nothing else: from `ready` to `stopped` if it is stopped, from `stopped` to `provisioning` if it
  -- is started, or from a live status to `expired`.
  pub lifecycle_transition-IsMoved :
      (t : Transition) (caller : Caller) (params : Result String String) (w : World C)
      → IsMoved t caller w.db.environments
          (lifecycle_transition platform caller params t w).1.db.environments
  unfolding lifecycle_transition
  lifecycle_transition-IsMoved t caller (err message) w = inl refl
  lifecycle_transition-IsMoved t caller (ok raw) w =
      let (same, own) = owned_environment_own platform caller raw w in
      found-IsMoved t caller w (owned_environment platform caller raw w) same own
