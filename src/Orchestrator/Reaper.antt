-- ===== src/Orchestrator/Reaper.antt =====
-- crates/signet-orchestrator/src/reaper.rs, and the pass of the reaper in
-- crates/signet-api/src/main.rs.
use signet_sandbox.Prelude.{
  ℕ, String, Bool, false, ◌&&◌, List, [], ◌∷◌, Option, none, some, Result, ok, err, ltb, ◌==◌,
  if◌then◌else◌,
}
use signet_sandbox.Actions.{Action, pure, fail, attempt, map_err, ◌>>=◌}
use signet_sandbox.Maps.{lookup, contains_key}
use signet_sandbox.Platform.{
  Platform, World, Namespace, KubeError, api, transport, find_namespace, delete_namespace,
  list_namespaces, delete_grant,
}
use signet_sandbox.Platform.Calls.{request}
use signet_sandbox.Orchestrator.Naming.{
  OrchestrateError, kube, namespace_for, env_label, expires_at_annotation,
}

abbrev pub labelled : Namespace → Bool
labelled ns = elim ns.labels [ none ↦ false | some labels ↦ contains_key env_label labels ]

abbrev pub timestamp : (String → Option ℕ) → Namespace → Option ℕ
timestamp parse ns = elim ns.annotations [
  | none ↦ none
  | some notes ↦ elim (lookup expires_at_annotation notes) [ none ↦ none | some raw ↦ parse raw ]
]

abbrev pub is_past : (String → Option ℕ) → ℕ → Namespace → Bool
is_past parse now ns = elim (timestamp parse ns) [ none ↦ false | some t ↦ ltb t now ]

-- The names of the namespaces that are provably expired.
unfoldable pub expired_namespace_names : (String → Option ℕ) → ℕ → List Namespace → List String
expired_namespace_names parse now [] = []
expired_namespace_names parse now (ns ∷ nss) =
    let rest = expired_namespace_names parse now nss in
    if labelled ns && is_past parse now ns
    then elim ns.name [ none ↦ rest | some name ↦ name ∷ rest ]
    else rest

module _ {C : Type 0} (platform : Platform C) where
  abbrev after_delete :
      Result KubeError (Unit {0}) → String → Action (World C) OrchestrateError (Unit {0})
  unfolding request
  after_delete (ok u) ns = do cleanup ← attempt (request platform (delete_grant ns)); pure tt
  after_delete (err (api c)) ns = if c == 404 then pure tt else fail (kube (api c))
  after_delete (err transport) ns = fail (kube transport)

  -- A namespace that is already gone is no error, and neither is a failed cleanup of its grant.
  unfoldable pub delete_env_namespace : String → Action (World C) OrchestrateError (Unit {0})
  unfolding request
  delete_env_namespace ns = do
    outcome ← attempt (request platform (delete_namespace ns))
    after_delete outcome ns

  unfoldable pub destroy_environment : String → Action (World C) OrchestrateError (Unit {0})
  unfolding delete_env_namespace
  destroy_environment env_id = delete_env_namespace (namespace_for env_id)

  unfoldable pub environment_exists : String → Action (World C) OrchestrateError Bool
  unfolding request
  environment_exists env_id =
      map_err kube (request platform (find_namespace (namespace_for env_id)))

  abbrev pub keep_reaped : Result OrchestrateError (Unit {0}) → String → List String → List String
  keep_reaped (ok u) name names = name ∷ names
  keep_reaped (err e) name names = names

  -- One failed delete does not end the pass.
  unfoldable pub reap : List String → Action (World C) OrchestrateError (List String)
  unfolding delete_env_namespace
  reap [] = pure []
  reap (name ∷ names) = do
    outcome ← attempt (delete_env_namespace name)
    rest ← reap names
    pure (keep_reaped outcome name rest)

  unfoldable pub reap_expired : ℕ → Action (World C) OrchestrateError (List String)
  unfolding request reap expired_namespace_names
  reap_expired now = do
    nss ← map_err kube (request platform (list_namespaces env_label))
    reap (expired_namespace_names platform.parse_rfc3339 now nss)
