-- ===== src/Api/Process.antt =====
-- The background passes of crates/signet-api/src/main.rs: the reaper and the mesh of Lightning peers.
-- Their loops sleep and run one pass after the other; errors are logged.
pub mod Expiring
use signet_sandbox.Prelude.{
  ℕ, code, String, Bool, true, false, ◌&&◌, ◌||◌, List, [], ◌∷◌, ◌++◌, length, Option, none, some,
  Result, ok, err, if◌then◌else◌, ltb, ◌==◌,
}
use signet_sandbox.Actions.{Action, pure, fail, lift, attempt, ◌>>=◌}
use signet_sandbox.Bitcoind.{Json}
use signet_sandbox.Store.Rows.{
  EnvironmentRow, LightningRow, Db, DbError, Sql, statement, Status, provisioning, ready,
}
use signet_sandbox.Store.Statements.{mark_expired_by_short_id, is_id}
use signet_sandbox.Platform.{Platform, World}
use signet_sandbox.Platform.Calls.{try_sql}
use signet_sandbox.Nostr.Tokens.{strip_text}
use signet_sandbox.Orchestrator.Naming.{OrchestrateError}
use signet_sandbox.Orchestrator.Reaper.{reap_expired}
use signet_sandbox.Orchestrator.Mesh.{mesh_lightning_peers}
use signet_sandbox.Api.Validation.{short_id}

-- `trim_start_matches("env-")`, whose every round takes four characters; `fuel` is the text.
trim_prefix : String → String → String
unfolding strip_text
trim_prefix String.[] s = s
trim_prefix (String.◌∷◌ c fuel) s = elim (strip_text "env-" s) [
  | none ↦ s
  | some rest ↦ trim_prefix fuel rest
]

unfoldable pub short_of : String → String
unfolding trim_prefix
short_of ns = trim_prefix ns ns

abbrev is_meshed : Status → Bool
is_meshed provisioning = true
is_meshed ready = true
is_meshed _ = false

has_meshed : ℕ → List EnvironmentRow → Bool
has_meshed id [] = false
has_meshed id (row ∷ rows) = is_id id row && is_meshed row.status || has_meshed id rows

-- The join with the live environments; the ids are distinct.
unfoldable pub joined : List EnvironmentRow → List LightningRow → List (ℕ × String)
unfolding has_meshed
joined rows [] = []
joined rows (i ∷ instances) =
    let rest = joined rows instances in
    if has_meshed i.environment_id rows then (i.environment_id, i.name) ∷ rest else rest

-- `order` is the database's `order by`.
unfoldable pub lightning_mesh_targets :
    (List (ℕ × String) → List (ℕ × String)) → Sql (List (ℕ × String))
unfolding statement joined
lightning_mesh_targets order =
    statement λ db. (ok (order (joined db.environments db.lightning)), db)

-- `entry(env_id).or_default().push(name)`, in the order of the ids.
unfoldable pub push_name : ℕ → String → List (ℕ × List String) → List (ℕ × List String)
push_name id name [] = (id, name ∷ []) ∷ []
push_name id name ((k, names) ∷ rest) =
    let later = push_name id name rest in
    if k == id
    then (k, names ++ name ∷ []) ∷ rest
    else if ltb id k
    then (id, name ∷ []) ∷ (k, names) ∷ rest
    else (k, names) ∷ later

unfoldable pub group : List (ℕ × String) → List (ℕ × List String) → List (ℕ × List String)
unfolding push_name
group [] envs = envs
group ((id, name) ∷ targets) envs = group targets (push_name id name envs)

module _ {C : Type 0} (platform : Platform C) where
  -- The row follows the cluster; a failed update is logged.
  unfoldable pub mark_reaped : List String → Action (World C) OrchestrateError (Unit {0})
  unfolding mark_expired_by_short_id short_of short_id
  mark_reaped [] = pure tt
  mark_reaped (ns ∷ namespaces) = do
    outcome ← try_sql (mark_expired_by_short_id (short_id platform.simple) (short_of ns))
    mark_reaped namespaces

  abbrev pub marking :
      Result OrchestrateError (List String) → Action (World C) OrchestrateError (Unit {0})
  unfolding mark_reaped
  marking (ok namespaces) = mark_reaped namespaces
  marking (err e) = pure tt

  -- One round of the reaper's loop.
  unfoldable pub reaper_pass : ℕ → Action (World C) OrchestrateError (Unit {0})
  unfolding reap_expired mark_reaped marking
  reaper_pass now = do outcome ← attempt (reap_expired platform now); marking outcome

  module _ (json_of : List ℕ → Result String Json)
      (order : List (ℕ × String) → List (ℕ × String)) where
    unfoldable pub mesh_each : List (ℕ × List String) → Action (World C) OrchestrateError (Unit {0})
    unfolding mesh_lightning_peers short_id
    mesh_each [] = pure tt
    mesh_each ((env_id, names) ∷ envs) = if ltb (length names) 2 then mesh_each envs else (do
      outcome ←
          attempt (mesh_lightning_peers platform json_of (short_id platform.simple env_id) names)
      mesh_each envs)

    abbrev meshing :
        Result DbError (List (ℕ × String)) → Action (World C) OrchestrateError (Unit {0})
    unfolding mesh_each group
    meshing (ok targets) = mesh_each (group targets [])
    meshing (err e) = pure tt

    -- One round of the mesh's loop.
    unfoldable pub mesh_pass : Action (World C) OrchestrateError (Unit {0})
    unfolding lightning_mesh_targets mesh_each group meshing
    mesh_pass = do targets ← try_sql (lightning_mesh_targets order); meshing targets
